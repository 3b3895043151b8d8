-- ===== src/Executor/Run.antt =====
-- Executor.Run of internal/executor/executor.go. A request is admitted by the semaphore, checked,
-- and executed in a directory of its own; the deferred calls run on every way out.
pub mod Checking
pub mod Slots
pub mod Acceptance
pub mod Placement
pub mod Refusals
pub mod Cleanup
pub mod Answers
pub mod Overrides
pub mod Whole
pub mod Passing
unfoldable pub use Checking.*
use code_sandbox.Prelude.{
  not, ◌&&◌, ℕ, ◌+◌, ◌-◌, ◌≡◌, refl, Bool, true, false, Option, none, some, List, [], ◌∷◌, ◌++◌,
  map, ltb, if◌then◌else◌, ℤ, pos, negsuc, ◌+ℤ◌, ltb_ℤ, Bytes, bytes_eq, codes, int64, length,
  Result, ok, err,
}
use code_sandbox.Host.{
  Host, Event, clock_read, Eff, Out, done, panicked, ◌>>=◌, pure, panic, Trace, read_clock,
  make_uuid, write_file, chown, mkdir_all, then_remove,
}
use code_sandbox.Config.{Config}
use code_sandbox.Registry.{Phase, Language, Registry, get}
use code_sandbox.Strings.Paths.{join_path}
use code_sandbox.Sandbox.{since}
use code_sandbox.Executor.Types.{
  Status, accepted, build_failed, not_executed, internal_error, unset, BuildStatus, build_ok,
  TestCase, Request, TestResult, BuildPhase, Response, RunError, unknown_language, source_too_large,
  too_many_tests, overloaded, unsafe_source_file, unsafe_artifact, mkdir_job_failed,
  write_source_failed, chown_job_dir_failed, chown_source_failed, downgrade,
}
use code_sandbox.Executor.Checks.{safe_name, filter_flags, bound_overrides}
use code_sandbox.Executor.Stats.{
  Stats, new_stats, observe, inc_in_flight, dec_in_flight, inc_rejected,
}
use code_sandbox.Executor.Phases.{run_build, run_one, run_tests, only_status, rollup}

-- What Run returns.
abbrev pub Answer : Type 0
Answer = Response × Option RunError

-- Response{Status: StatusInternalError}, err
abbrev pub failure : RunError → Answer
failure e = (record { status = internal_error; build = none; tests = [] }, some e)

-- The downgrade of the result of a run without test cases.
unfoldable pub smoke : TestResult → TestResult
unfolding downgrade
smoke tr = record tr { status = downgrade tr.status }

-- The last two steps: the tests, and the overall status.
unfoldable pub conclude : Option BuildPhase → List TestResult → Answer
unfolding rollup
conclude b ts =
    let resp : Response = record { status = unset; build = b; tests = ts } in
    (record resp { status = rollup resp }, none)

-- The answer when the build did not go well.
unfoldable pub build_answer : Request → BuildPhase → Option RunError → Answer
build_answer req b (some e) =
    (record { status = internal_error; build = some b; tests = [] }, some e)
build_answer req b none = (
  record {
    status = build_failed;
    build = some b;
    tests = map (λ tc. only_status not_executed) req.test_cases;
  },
  none,
)

-- The answer if a step of the preparation failed, and the rest if it did not.
unfoldable pub or_fail : Option Bytes → (Bytes → RunError) → Eff Answer → Eff Answer
or_fail none wrap rest = rest
or_fail (some e) wrap rest = pure (failure (wrap e))

module _ (host : Host) (cfg : Config) (lang : Language) (job_dir : Bytes) (req : Request) where
  -- The run phase, after the build phase if there is one.
  unfoldable pub run_cases : Option BuildPhase → List TestCase → Eff Answer
  unfolding conclude smoke
  run_cases b [] = do
    tr ← run_one host cfg lang job_dir req.run_flags [] req.time_limit_s req.memory_kb
    pure (conclude b (smoke tr ∷ []))
  run_cases b (tc ∷ tcs) = do
    trs ← run_tests host cfg lang job_dir req.run_flags (tc ∷ tcs)
    pure (conclude b trs)

  unfoldable pub after_build : BuildPhase × Option RunError → Eff Answer
  unfolding build_answer
  after_build (b, some e) = pure (build_answer req b (some e))
  after_build (b, none) = elim b.status [
    | build_ok ↦ run_cases (some b) req.test_cases
    | _ ↦ pure (build_answer req b none)
  ]

  unfoldable pub phases : Option Phase → Eff Answer
  unfolding run_cases after_build
  phases none = run_cases none req.test_cases
  phases (some phase) = do
    built ← run_build host cfg lang job_dir phase req.build_flags
    after_build built

  -- The part of Run that is followed by the removal of the job directory.
  unfoldable pub in_job_dir : Eff Answer
  unfolding or_fail phases
  in_job_dir = do
    let src_path = join_path job_dir lang.source_file
    written ← write_file host src_path req.source
    or_fail written write_source_failed (do
      owned ← chown host job_dir cfg.jail_uid cfg.jail_gid
      or_fail owned chown_job_dir_failed (do
        src_owned ← chown host src_path cfg.jail_uid cfg.jail_gid
        or_fail src_owned chown_source_failed (phases lang.build)))

-- filepath.Join(e.Cfg.JobRoot, "job-"+jobID)
abbrev pub job_dir_of : Config → Bytes → Bytes
job_dir_of cfg id = join_path cfg.job_root (codes "job-" ++ id)

module _ (host : Host) (cfg : Config) where
  unfoldable pub made_dir : Language → Request → Bytes → Option Bytes → Eff Answer
  unfolding in_job_dir then_remove
  made_dir lang req dir (some e) tr = pure (failure (mkdir_job_failed e)) tr
  made_dir lang req dir none tr = then_remove dir (in_job_dir host cfg lang dir req tr)

  -- Run from the creation of the job directory on.
  unfoldable pub execute : Language → Request → Eff Answer
  unfolding made_dir mkdir_all
  execute lang req = do
    id ← make_uuid host
    let dir = job_dir_of cfg id
    made ← mkdir_all host dir
    made_dir lang req dir made

  unfoldable pub checked : Request → Out (Result RunError Language) → Eff Answer
  unfolding execute
  checked req panicked = panic
  checked req (done (err e)) = pure (failure e)
  checked req (done (ok lang)) = execute lang req

  -- Run between its deferred bookkeeping calls.
  unfoldable pub run_request : Registry → Request → Eff Answer
  unfolding check checked
  run_request reg req = checked req (check cfg reg req)

-- The mutable state of an Executor: the slots taken in its semaphore, and its statistics.
pub record Engine : Type 0 where
  pub slots : ℕ
  pub stats : Stats

-- The capacity of the semaphore, a sum of ints. make(chan …) panics on a negative size.
unfoldable pub capacity : Config → ℤ
unfolding ◌+ℤ◌ int64
capacity cfg = int64 (cfg.max_concurrency +ℤ cfg.queue_depth)

abbrev pub idle : Engine
idle = record { slots = 0; stats = new_stats }

unfoldable pub engine_of : ℤ → Out Engine
engine_of (pos n) = done idle
engine_of (negsuc n) = panicked

-- New
unfoldable pub new_engine : Config → Out Engine
unfolding engine_of
new_engine cfg = engine_of (capacity cfg)

-- The non-blocking send of `select` finds room.
abbrev pub has_room : Config → Engine → Bool
has_room cfg e = ltb_ℤ (pos e.slots) (capacity cfg)

-- e.sem <- struct{}{}, and the receive that is deferred
abbrev pub take_slot : Engine → Engine
take_slot e = record e { slots = e.slots + 1 }

abbrev pub give_back : Engine → Engine
give_back e = record e { slots = e.slots - 1 }

-- The start of one call, with nothing between its steps: the send, and the counters of either case.
unfoldable pub admit : Config → Engine → Bool × Engine
admit cfg e =
    if has_room cfg e
    then (true, record (take_slot e) { stats = inc_in_flight e.stats })
    else (false, record e { stats = inc_rejected e.stats })

-- The deferred calls, the last one first: Observe, DecInFlight, and the receive that frees the slot.
unfoldable pub release_with : Engine → Out Stats → Bool × Engine
release_with e (done s) = (true, record { slots = e.slots - 1; stats = dec_in_flight s })
release_with e panicked = (false, record { slots = e.slots - 1; stats = dec_in_flight e.stats })

unfoldable pub release : Engine → ℤ → Bool × Engine
unfolding release_with
release e duration = release_with e (observe e.stats duration)

-- What a caller of Run sees, if Observe did not panic.
unfoldable pub settle : Bool → Out Answer → Out Answer
settle true r = r
settle false r = panicked

module _ (host : Host) (cfg : Config) (reg : Registry) (req : Request) where
  unfoldable pub finish : Engine → ℕ → Out Answer × Trace → Out Answer × Engine × Trace
  unfolding settle since
  finish e start (r, tr) =
      let (fine, e') = release e (since start (host.now tr)) in (settle fine r, e', clock_read ∷ tr)

  unfoldable pub admitted : Bool × Engine → Trace → Out Answer × Engine × Trace
  unfolding finish
  admitted (false, e) tr = (done (failure overloaded), e, tr)
  admitted (true, e) tr = finish e (host.now tr) (run_request host cfg reg req (clock_read ∷ tr))

  -- Run
  unfoldable pub run : Engine → Trace → Out Answer × Engine × Trace
  unfolding admitted
  run e tr = admitted (admit cfg e) tr
