-- ===== src/Executor/Run/Answers.antt =====
-- What Run answers for a request that passed the checks, and what it does to the host meanwhile.
use code_sandbox.Prelude.{
  ◌≡◌, ◌≢◌, refl, sym, subst, ◌⊎◌, inl, inr, Option, none, some, List, [], ◌∷◌, map, arith, Bytes,
}
use code_sandbox.Host.{Host, Event, clock_read, file_written, owner_set, process_ran, Eff, pure}
use code_sandbox.Host.Runs.{Runs, Runs-pure, Runs-bind, Runs-write_file, Runs-chown}
use code_sandbox.Config.{Config}
use code_sandbox.Registry.{Phase, Language}
use code_sandbox.Strings.Paths.{join_path}
use code_sandbox.Sandbox.{RunSpec, process_of}
use code_sandbox.Executor.Types.{
  Status, accepted, build_failed, not_executed, internal_error, unset, time_exceeded,
  memory_exceeded, runtime_error, wrong_output, output_whitespace_mismatch, BuildStatus, build_ok,
  build_phase_failed, build_internal_error, TestCase, Request, TestResult, BuildPhase, Response,
  RunError, overloaded, IsHostError, write_source_failed, chown_job_dir_failed, chown_source_failed,
  downgrade,
}
use code_sandbox.Executor.Checks.Laws.{TestsWithin}
use code_sandbox.Executor.Phases.{only_status, rollup_tests}
use code_sandbox.Executor.Phases.Statuses.{AllSay, IsRunStatus}
use code_sandbox.Executor.Phases.Limits.{
  HostFailure, IsConfined, run_build-Runs, run_one-Runs, run_tests-Runs,
}
use code_sandbox.Executor.Run.{
  Answer, smoke, conclude, build_answer, run_cases, after_build, phases, or_fail, in_job_dir,
}
use code_sandbox.Executor.Run.Acceptance.{LimitsWithin}

-- One result for each test case, in order, each saying what its output compares to; without test
-- cases, the one result of the run on empty input.
abbrev pub TestsOf : List TestCase → List TestResult → Type 0
TestsOf [] trs = (tr : TestResult) × (trs ≡ tr ∷ []) × IsRunStatus tr.status
TestsOf (tc ∷ tcs) trs = AllSay (tc ∷ tcs) trs

-- The build failed: each test case is listed as not executed.
abbrev pub NotBuilt : Request → Response → Type 0
NotBuilt req resp =
    (resp.status ≡ build_failed)
    × (resp.tests ≡ map (λ tc. only_status not_executed) req.test_cases)
    × (b : BuildPhase) × (resp.build ≡ some b)
    × (b.status ≢ build_ok)

abbrev pub Judged : Request → Response → Type 0
Judged req resp = (resp.status ≡ rollup_tests resp.tests) × TestsOf req.test_cases resp.tests

abbrev pub IsWellFormed : Request → Answer → Type 0
IsWellFormed req (resp, some e) = (resp.status ≡ internal_error) × (resp.tests ≡ []) × IsHostError e
IsWellFormed req (resp, none) = NotBuilt req resp ⊎ Judged req resp

-- An answer of Run, errors of every kind included.
abbrev pub IsAnswered : Request → Answer → Type 0
IsAnswered req (resp, some e) = (resp.status ≡ internal_error) × (resp.tests ≡ [])
IsAnswered req (resp, none) = NotBuilt req resp ⊎ Judged req resp

pub IsWellFormed-IsAnswered : (req : Request) (a : Answer) → IsWellFormed req a → IsAnswered req a
IsWellFormed-IsAnswered req (resp, none) h = h
IsWellFormed-IsAnswered req (resp, some e) h = (h.0, h.1)

pub IsWellFormed-ne-overloaded :
    (req : Request) (a : Answer) → IsWellFormed req a → a.1 ≢ some overloaded
IsWellFormed-ne-overloaded req (resp, none) h q = cc q
IsWellFormed-ne-overloaded req (resp, some e) h q = subst HostFailure q h.2

-- What Run does to the host between the creation of the job directory and its removal.
abbrev pub InJob : Config → Language → Request → Bytes → Event → Type 0
InJob cfg lang req dir clock_read = Unit
InJob cfg lang req dir (file_written path content) =
    (path ≡ join_path dir lang.source_file) × (content ≡ req.source)
InJob cfg lang req dir (owner_set path uid gid) =
    ((path ≡ dir) ⊎ (path ≡ join_path dir lang.source_file))
    × (uid ≡ cfg.jail_uid)
    × (gid ≡ cfg.jail_gid)
InJob cfg lang req dir (process_ran p) =
    (spec : RunSpec) × (p ≡ process_of spec) × IsConfined cfg lang dir spec
InJob cfg lang req dir _ = ⊥

smoke-IsRunStatus : (tr : TestResult) → IsRunStatus tr.status → IsRunStatus (smoke tr).status
unfolding smoke
smoke-IsRunStatus tr h = go tr.status h
  where
    go : (s : Status) → IsRunStatus s → IsRunStatus (downgrade s)
    go accepted h = tt
    go time_exceeded h = tt
    go memory_exceeded h = tt
    go runtime_error h = tt
    go internal_error h = tt
    go wrong_output h = elim h [ ]
    go output_whitespace_mismatch h = elim h [ ]
    go build_failed h = elim h [ ]
    go not_executed h = elim h [ ]
    go unset h = elim h [ ]

-- The build phase was left out or went well.
abbrev Built : Option BuildPhase → Type 0
Built none = Unit {0}
Built (some b) = b.status ≡ build_ok

conclude-Judged :
    (req : Request) (b : Option BuildPhase) (ts : List TestResult)
    → Built b
    → TestsOf req.test_cases ts
    → IsWellFormed req (conclude b ts)
unfolding conclude
conclude-Judged req none ts h t = inr (refl, t)
conclude-Judged req (some b) ts h t = inr (ground arith, t)

module _ (host : Host) (cfg : Config) (lang : Language) (dir : Bytes) (req : Request)
    (phase : Phase) (is_run : lang.run ≡ some phase) (limits : LimitsWithin (some phase) req) where
  run_cases-Runs :
      (b : Option BuildPhase) (tcs : List TestCase)
      → Built b
      → req.test_cases ≡ tcs
      → Runs (InJob cfg lang req dir) (IsWellFormed req) (run_cases host cfg lang dir req b tcs)
  unfolding run_cases
  run_cases-Runs b [] built e =
      Runs-bind
        (run_one-Runs cfg lang dir host tt (λ spec h. (spec, refl, h)) phase is_run req.run_flags []
          req.time_limit_s req.memory_kb limits.0 limits.1)
        λ tr h. Runs-pure _ (
          conclude-Judged req b (smoke tr ∷ []) built (
            subst (λ l. TestsOf l (smoke tr ∷ [])) (sym e)
              (smoke tr, refl, smoke-IsRunStatus tr h)))
  run_cases-Runs b (tc ∷ tcs) built e =
      Runs-bind
        (run_tests-Runs cfg lang dir host tt (λ spec h. (spec, refl, h)) phase is_run req.run_flags
          (tc ∷ tcs) (subst (TestsWithin phase.time_limit_s phase.memory_kb) e limits.2))
        λ trs all.
          Runs-pure _ (conclude-Judged req b trs built (subst (λ l. TestsOf l trs) (sym e) all))

  build_answer-IsWellFormed :
      (b : BuildPhase) → b.status ≢ build_ok → IsWellFormed req (build_answer req b none)
  unfolding build_answer
  build_answer-IsWellFormed b h = inl (refl, refl, b, refl, h)

  after_build-Runs :
      (r : BuildPhase × Option RunError)
      → HostFailure r.1
      → Runs (InJob cfg lang req dir) (IsWellFormed req) (after_build host cfg lang dir req r)
  unfolding after_build
  after_build-Runs (b, some e) h = Runs-pure _ (unfold build_answer in (refl, refl, h))
  after_build-Runs (b, none) h = go b.status refl
    where
      go :
          (s : BuildStatus)
          → b.status ≡ s
          → Runs (InJob cfg lang req dir) (IsWellFormed req) (elim s [
            | build_ok ↦ run_cases host cfg lang dir req (some b) req.test_cases
            | _ ↦ pure (build_answer req b none)
          ])
      go build_ok e = run_cases-Runs (some b) req.test_cases e refl
      go build_phase_failed e = Runs-pure _ (build_answer-IsWellFormed b λ o. cc)
      go build_internal_error e = Runs-pure _ (build_answer-IsWellFormed b λ o. cc)

  phases-Runs :
      (build : Option Phase)
      → lang.build ≡ build
      → Runs (InJob cfg lang req dir) (IsWellFormed req) (phases host cfg lang dir req build)
  unfolding phases
  phases-Runs none e = run_cases-Runs none req.test_cases tt refl
  phases-Runs (some p) e =
      Runs-bind
        (run_build-Runs cfg lang dir host tt (λ spec h. (spec, refl, h)) p req.build_flags e)
        λ r failure. after_build-Runs r failure

  or_fail-Runs :
      (o : Option Bytes) (wrap : Bytes → RunError) (rest : Eff Answer)
      → ((x : Bytes) → IsHostError (wrap x))
      → Runs (InJob cfg lang req dir) (IsWellFormed req) rest
      → Runs (InJob cfg lang req dir) (IsWellFormed req) (or_fail o wrap rest)
  unfolding or_fail
  or_fail-Runs none wrap rest w h = h
  or_fail-Runs (some e) wrap rest w h = Runs-pure _ (refl, refl, w e)

  pub in_job_dir-Runs :
      Runs (InJob cfg lang req dir) (IsWellFormed req) (in_job_dir host cfg lang dir req)
  unfolding in_job_dir
  in_job_dir-Runs = Runs-bind (Runs-write_file host _ req.source (refl, refl)) λ written _.
      or_fail-Runs written write_source_failed _ (λ x. tt)
        (Runs-bind (Runs-chown host dir cfg.jail_uid cfg.jail_gid (inl refl, refl, refl)) λ owned _.
          or_fail-Runs owned chown_job_dir_failed _ (λ x. tt)
            (Runs-bind (Runs-chown host _ cfg.jail_uid cfg.jail_gid (inr refl, refl, refl))
              λ src_owned _.
                or_fail-Runs src_owned chown_source_failed _ (λ x. tt)
                  (phases-Runs lang.build refl)))
