-- ===== src/Executor/Run/Overrides.antt =====
-- The request's own time and memory limits: runTest passes on those of the test case alone.
use code_sandbox.Prelude.{◌≡◌, refl, sym, ap, ◌∙◌, subst, Option, none, some, List, ◌∷◌, ℤ, Bytes}
use code_sandbox.Host.{
  Host, Trace, Eff, ◌>>=◌, pure, write_file, chown, make_uuid, mkdir_all, then_remove,
}
use code_sandbox.Strings.Paths.{join_path}
use code_sandbox.Config.{Config}
use code_sandbox.Registry.{Phase, Language, Registry, get}
use code_sandbox.Executor.Types.{
  BuildStatus, build_ok, build_phase_failed, build_internal_error, TestCase, Request, BuildPhase,
  RunError, write_source_failed, chown_job_dir_failed, chown_source_failed,
}
use code_sandbox.Executor.Phases.{run_build}
use code_sandbox.Executor.Run.{
  Answer, build_answer, run_cases, after_build, phases, or_fail, in_job_dir, made_dir, execute,
  checked, run_request, job_dir_of,
}
use code_sandbox.Executor.Run.Acceptance.{IsAcceptable, check_iff}

-- The same request with other limits of its own.
abbrev pub with_limits : Request → ℤ → ℤ → Request
with_limits req t m = record req { time_limit_s = t; memory_kb = m }

module _ (host : Host) (cfg : Config) (lang : Language) (dir : Bytes) (req : Request) (t m : ℤ)
    (tc : TestCase) (tcs : List TestCase) (e : req.test_cases ≡ tc ∷ tcs) where
  cases_same :
      (b : Option BuildPhase)
      → run_cases host cfg lang dir (with_limits req t m) b req.test_cases
        ≡ run_cases host cfg lang dir req b req.test_cases
  cases_same b =
      subst
        (λ l.
          run_cases host cfg lang dir (with_limits req t m) b l
          ≡ run_cases host cfg lang dir req b l)
        (sym e) (unfold run_cases in refl)

  after_build_same :
      (r : BuildPhase × Option RunError)
      → after_build host cfg lang dir (with_limits req t m) r ≡ after_build host cfg lang dir req r
  unfolding after_build
  after_build_same (b, some x) = refl
  after_build_same (b, none) = go b.status
    where
      go :
          (s : BuildStatus)
          → ◌≡◌ {A = Eff Answer}
              (elim s [
                | build_ok ↦
                    run_cases host cfg lang dir (with_limits req t m) (some b) req.test_cases
                | _ ↦ pure (build_answer (with_limits req t m) b none)
              ])
              (elim s [
                | build_ok ↦ run_cases host cfg lang dir req (some b) req.test_cases
                | _ ↦ pure (build_answer req b none)
              ])
      go build_ok = cases_same (some b)
      go build_phase_failed = unfold build_answer in refl
      go build_internal_error = unfold build_answer in refl

  phases_same :
      (p : Option Phase)
      → phases host cfg lang dir (with_limits req t m) p ≡ phases host cfg lang dir req p
  unfolding phases
  phases_same none = cases_same none
  phases_same (some p) =
      λ i. run_build host cfg lang dir p req.build_flags >>= λ r. after_build_same r i

  in_job_dir_same :
      in_job_dir host cfg lang dir (with_limits req t m) ≡ in_job_dir host cfg lang dir req
  unfolding in_job_dir
  in_job_dir_same = λ i. write_file host (join_path dir lang.source_file) req.source >>= λ written.
      or_fail written write_source_failed (
        chown host dir cfg.jail_uid cfg.jail_gid >>= λ owned. or_fail owned chown_job_dir_failed (
          chown host (join_path dir lang.source_file) cfg.jail_uid cfg.jail_gid >>= λ src_owned.
          or_fail src_owned chown_source_failed (phases_same lang.build i)))

module _ (host : Host) (cfg : Config) (lang : Language) (req : Request) (t m : ℤ) (tc : TestCase)
    (tcs : List TestCase) (e : req.test_cases ≡ tc ∷ tcs) where
  made_dir_same :
      (dir : Bytes) (o : Option Bytes) (tr : Trace)
      → made_dir host cfg lang (with_limits req t m) dir o tr ≡ made_dir host cfg lang req dir o tr
  unfolding made_dir
  made_dir_same dir (some x) tr = refl
  made_dir_same dir none tr =
      λ i. then_remove dir (in_job_dir_same host cfg lang dir req t m tc tcs e i tr)

  execute_same : execute host cfg lang (with_limits req t m) ≡ execute host cfg lang req
  unfolding execute
  execute_same = λ i. make_uuid host >>= λ id.
      mkdir_all host (job_dir_of cfg id) >>= λ made tr. made_dir_same (job_dir_of cfg id) made tr i

  run_request_checked :
      (reg : Registry) (r : Request)
      → get reg r.language ≡ some lang
      → IsAcceptable cfg lang r
      → run_request host cfg reg r ≡ execute host cfg lang r
  unfolding run_request
  run_request_checked reg r g a =
      ap (λ c. checked host cfg r c) ((check_iff cfg reg lang r).1 (g, a))
      ∙ (unfold checked in refl)

  -- For a request with test cases its own time and memory limits change nothing once it is accepted:
  -- two accepted requests that differ in these limits alone run in exactly the same way.
  pub run_request-with_limits :
      (reg : Registry)
      → get reg req.language ≡ some lang
      → IsAcceptable cfg lang req
      → IsAcceptable cfg lang (with_limits req t m)
      → run_request host cfg reg (with_limits req t m) ≡ run_request host cfg reg req
  run_request-with_limits reg g a a' =
      run_request_checked reg (with_limits req t m) g a'
      ∙ execute_same
      ∙ sym (run_request_checked reg req g a)
