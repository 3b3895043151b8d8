-- ===== src/Executor/Phases.antt =====
-- The phases of a run in internal/executor/executor.go: runBuild, runOne, runTest and rollup.
pub mod Statuses
pub mod Limits
use code_sandbox.Prelude.{
  ◌*◌, not, ℕ, ◌+◌, ◌≡◌, refl, Bool, true, false, ◌||◌, Option, none, some, List, [], ◌∷◌, ◌++◌,
  map, leb, ◌==◌, if◌then◌else◌, ℤ, pos, negsuc, ◌*ℤ◌, leb_ℤ, ltb_ℤ, int64, Bytes, codes,
}
use code_sandbox.Host.{Host, Eff, Out, done, panicked, ◌>>=◌, pure, panic, Trace}
use code_sandbox.Config.{Config}
use code_sandbox.Registry.{Phase, Language}
use code_sandbox.Sandbox
use code_sandbox.Sandbox.{RunSpec, second}
use code_sandbox.Sandbox.Exit.{Outcome}
use code_sandbox.Executor.Types.{
  Status, accepted, wrong_output, output_whitespace_mismatch, time_exceeded, memory_exceeded,
  runtime_error, build_failed, not_executed, internal_error, unset, BuildStatus, build_ok,
  build_phase_failed, build_internal_error, TestCase, Request, TestResult, BuildPhase, Response,
  SandboxError, empty_nsjail_path, empty_command, exec_failed, RunError, sandbox_failed,
  is_accepted, downgrade,
}
use code_sandbox.Executor.Checks.{render_args, effective}
use code_sandbox.Executor.Output.{
  OutputCmp, output_exact, output_whitespace_only, output_mismatch, compare_output,
}
use code_sandbox.Executor.Stats.{milliseconds}

-- err.Error() of an error of the sandbox
pub error_text : SandboxError → Bytes
error_text empty_nsjail_path = codes "sandbox: empty nsjail path"
error_text empty_command = codes "sandbox: empty command"
error_text (exec_failed e) = codes "nsjail exec: " ++ e

-- time.Duration(s) * time.Second
unfoldable pub duration_s : ℤ → ℤ
duration_s s = int64 (s *ℤ second)

-- The wall time of a build: 30 seconds unless the phase sets a positive one.
unfoldable pub build_time : Phase → ℤ
build_time phase =
    let limit = duration_s phase.time_limit_s in
    if leb_ℤ limit (pos 0) then pos (30 * second) else limit

is_zero : ℤ → Bool
is_zero (pos n) = n == 0
is_zero (negsuc n) = false

-- A build has failed if it exits with an error, runs out of time or runs out of memory.
unfoldable pub build_status : Outcome → BuildStatus
unfolding is_zero
build_status res =
    if not (is_zero res.exit_code) || res.timed_out || res.oom_killed
    then build_phase_failed
    else build_ok

-- The status of a run before its output is compared; time comes before memory.
unfoldable pub run_status : Outcome → Status
unfolding is_zero
run_status res =
    if res.timed_out
    then time_exceeded
    else if res.oom_killed
    then memory_exceeded
    else if not (is_zero res.exit_code)
    then runtime_error
    else accepted

-- The arguments of sandbox.Run in runBuild and in runOne.
pub build_spec : Config → Language → Phase → Bytes → List Bytes → RunSpec
build_spec cfg lang phase job_dir user_flags = record {
  nsjail_path = cfg.nsjail_path;
  cwd = job_dir;
  command = phase.command;
  args = render_args phase.args lang user_flags;
  stdin = [];
  wall_time = build_time phase;
  memory_kb = phase.memory_kb;
  max_processes = phase.max_processes;
  max_output = cfg.max_output_bytes;
  uid = cfg.jail_uid;
  gid = cfg.jail_gid;
}

pub run_spec : Config → Language → Phase → Bytes → List Bytes → Bytes → ℤ → ℤ → RunSpec
run_spec cfg lang phase job_dir user_flags stdin tl_override mem_override = record {
  nsjail_path = cfg.nsjail_path;
  cwd = job_dir;
  command = phase.command;
  args = render_args phase.args lang user_flags;
  stdin = stdin;
  wall_time = duration_s (effective phase.time_limit_s tl_override);
  memory_kb = effective phase.memory_kb mem_override;
  max_processes = phase.max_processes;
  max_output = cfg.max_output_bytes;
  uid = cfg.jail_uid;
  gid = cfg.jail_gid;
}

unfoldable pub build_result : Outcome × Option SandboxError → BuildPhase × Option RunError
build_result (res, some e) = (
  record { status = build_internal_error; stdout = []; stderr = error_text e; duration_ms = pos 0 },
  some (sandbox_failed e),
)
build_result (res, none) = (
  record {
    status = build_status res;
    stdout = res.stdout;
    stderr = res.stderr;
    duration_ms = milliseconds res.duration;
  },
  none,
)

-- A TestResult with this status and nothing else.
abbrev pub only_status : Status → TestResult
only_status s = record {
  status = s;
  stdout = [];
  stderr = [];
  exit_code = pos 0;
  signal = [];
  duration_ms = pos 0;
  memory_kb = pos 0;
}

unfoldable pub test_result : Outcome × Option SandboxError → TestResult
test_result (res, some e) = record (only_status internal_error) { stderr = error_text e }
test_result (res, none) = record {
  status = run_status res;
  stdout = res.stdout;
  stderr = res.stderr;
  exit_code = res.exit_code;
  signal = res.signal;
  duration_ms = milliseconds res.duration;
  memory_kb = res.max_rss_kb;
}

-- The comparison at the end of runTest, for a run that is accepted so far.
judge : TestResult → OutputCmp → TestResult
judge tr output_exact = tr
judge tr output_whitespace_only = record tr { status = output_whitespace_mismatch }
judge tr output_mismatch = record tr { status = wrong_output }

unfoldable pub compare_result : TestCase → TestResult → TestResult
unfolding judge is_accepted
compare_result tc tr =
    if is_accepted tr.status then judge tr (compare_output tr.stdout tc.expected_output) else tr

module _ (host : Host) (cfg : Config) (lang : Language) (job_dir : Bytes) where
  -- runBuild, for the build phase of the language
  pub run_build : Phase → List Bytes → Eff (BuildPhase × Option RunError)
  run_build phase user_flags = do
    answer ← Sandbox.run host (build_spec cfg lang phase job_dir user_flags)
    pure (build_result answer)

  unfoldable pub run_phase : Option Phase → List Bytes → Bytes → ℤ → ℤ → Eff TestResult
  run_phase none user_flags stdin tl mem = panic
  run_phase (some phase) user_flags stdin tl mem = do
    answer ← Sandbox.run host (run_spec cfg lang phase job_dir user_flags stdin tl mem)
    pure (test_result answer)

  -- runOne; a nil run phase is a panic
  pub run_one : List Bytes → Bytes → ℤ → ℤ → Eff TestResult
  unfolding run_phase
  run_one user_flags stdin tl mem = run_phase lang.run user_flags stdin tl mem

  -- runTest
  pub run_test : List Bytes → TestCase → Eff TestResult
  run_test user_flags tc = do
    tr ← run_one user_flags tc.input tc.time_limit_s tc.memory_kb
    pure (compare_result tc tr)

  -- The loop over the test cases.
  pub run_tests : List Bytes → List TestCase → Eff (List TestResult)
  run_tests user_flags [] = pure []
  run_tests user_flags (tc ∷ tcs) = do
    tr ← run_test user_flags tc
    trs ← run_tests user_flags tcs
    pure (tr ∷ trs)

-- The first status that is not accepted.
unfoldable pub rollup_tests : List TestResult → Status
rollup_tests [] = accepted
rollup_tests (t ∷ ts) = if is_accepted t.status then rollup_tests ts else t.status

rollup_build : Option BuildPhase → List TestResult → Status
rollup_build none ts = rollup_tests ts
rollup_build (some b) ts = elim b.status [ build_phase_failed ↦ build_failed | _ ↦ rollup_tests ts ]

-- rollup
unfoldable pub rollup : Response → Status
unfolding rollup_build rollup_tests is_accepted
rollup r = rollup_build r.build r.tests
