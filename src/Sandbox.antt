-- ===== src/Sandbox.antt =====
-- Run of internal/sandbox/sandbox.go: one run of nsjail.
-- Durations are int64 nanoseconds.
pub mod Buffer
pub mod Exit
pub mod Args
pub mod Verdict
pub mod Total
use code_sandbox.Prelude.{
  ℕ, zero, suc, ◌+◌, ◌-◌, ◌*◌, ◌/◌, ◌%◌, ◌≡◌, refl, leb, sub_ℕ, Bool, true, false, ◌||◌, Option,
  none, some, List, [], ◌∷◌, ◌++◌, if◌then◌else◌, ℤ, pos, negsuc, ◌+ℤ◌, ◌-ℤ◌, quot, int64, Bytes,
  bytes_eq, codes, Result, ok, err, get_or,
}
use code_sandbox.Strings.{itoa}
use code_sandbox.Host.{
  Host, Process, CmdOutcome, CmdError, exit_error, other_error, Eff, ◌>>=◌, pure, read_clock,
  run_command,
}
use code_sandbox.Sandbox.Buffer.{CappedBuffer, empty, write_all}
use code_sandbox.Sandbox.Exit.{Outcome, exit_code_of, classify_exit}
use code_sandbox.Executor.Types.{SandboxError, empty_nsjail_path, empty_command, exec_failed}

-- RunSpec
pub record RunSpec : Type 0 where
  pub nsjail_path : Bytes
  pub cwd : Bytes
  pub command : Bytes
  pub args : List Bytes
  pub stdin : Bytes
  pub wall_time : ℤ
  pub memory_kb : ℤ
  pub max_processes : ℤ
  pub max_output : ℤ
  pub uid : ℤ
  pub gid : ℤ

-- The nanoseconds of a second.
abbrev pub second : ℕ
second = 1_000_000_000

-- The largest power of two that is at most s, from p on; the first argument is fuel. A duration has
-- less than 2 ^ 34 seconds.
floor_pow2 : ℕ → ℕ → ℕ → ℕ
floor_pow2 zero p s = p
floor_pow2 (suc f) p s = let rest = floor_pow2 f (2 * p) s in if leb (2 * p) s then rest else p

-- Whether the float64 sum of s seconds and n nanoseconds is s + 1. Next below s + 1 it is spaced by
-- 2 ^ (k - 52), where 2 ^ k is at most s, so that what is missing is at most half of that.
-- 9_007_199_254_740_992 is 2 ^ 53. A float64 below 1 never rounds up to it.
rounds_up : ℕ → ℕ → Bool
unfolding floor_pow2
rounds_up zero n = false
rounds_up (suc s) n = leb ((second - n) * 9_007_199_254_740_992) (second * floor_pow2 34 1 (suc s))

seconds_of : ℕ → ℕ
unfolding rounds_up
seconds_of d = if rounds_up (d / second) (d % second) then suc (d / second) else d / second

-- int(spec.WallTime.Seconds()): Seconds adds the whole seconds and the nanoseconds as float64.
unfoldable pub whole_seconds : ℤ → ℤ
unfolding seconds_of
whole_seconds (pos d) = pos (seconds_of d)
whole_seconds (negsuc d) = sub_ℕ 0 (seconds_of (suc d))

whole_seconds_tests :
    (whole_seconds (pos 5_000_000_000) ≡ pos 5)
    × (whole_seconds (pos 5_999_999_999) ≡ pos 5)
    × (whole_seconds (pos 9_223_372_035_999_999_999) ≡ pos 9_223_372_036)
    × (whole_seconds (negsuc 1_999_999_999) ≡ negsuc 1)
unfolding whole_seconds
whole_seconds_tests = (refl, refl, refl, refl)

-- nsArgs, up to the "--"
pub nsjail_options : RunSpec → List Bytes
unfolding itoa quot ◌+ℤ◌
nsjail_options spec =
    codes "--mode"
    ∷ codes "once"
    ∷ codes "--really_quiet"
    ∷ codes "--log"
    ∷ codes "/dev/null"
    ∷ codes "--chroot"
    ∷ codes "/"
    ∷ codes "--cwd"
    ∷ codes "/sandbox"
    ∷ codes "--bindmount"
    ∷ (spec.cwd ++ codes ":/sandbox")
    ∷ codes "--disable_clone_newuser"
    ∷ codes "--user"
    ∷ itoa spec.uid
    ∷ codes "--group"
    ∷ itoa spec.gid
    ∷ codes "--hostname"
    ∷ codes "goboxd"
    ∷ codes "--disable_proc"
    ∷ codes "--iface_no_lo"
    ∷ codes "--rlimit_as"
    ∷ itoa (quot spec.memory_kb 1024)
    ∷ codes "--env"
    ∷ codes "PATH=/usr/local/sbin:/usr/local/bin:/usr/sbin:/usr/bin:/sbin:/bin"
    ∷ codes "--env"
    ∷ codes "TMPDIR=/sandbox"
    ∷ codes "--env"
    ∷ codes "HOME=/sandbox"
    ∷ codes "--env"
    ∷ codes "LANG=C.UTF-8"
    ∷ codes "--rlimit_cpu"
    ∷ itoa (whole_seconds spec.wall_time +ℤ pos 1)
    ∷ codes "--rlimit_fsize"
    ∷ codes "65536"
    ∷ codes "--rlimit_nofile"
    ∷ codes "64"
    ∷ codes "--rlimit_nproc"
    ∷ itoa spec.max_processes
    ∷ codes "--time_limit"
    ∷ itoa (whole_seconds spec.wall_time)
    ∷ []

abbrev pub dashes : Bytes
dashes = b'-' ∷ b'-' ∷ []

-- nsArgs
pub nsjail_args : RunSpec → List Bytes
unfolding nsjail_options
nsjail_args spec = nsjail_options spec ++ (dashes ∷ spec.command ∷ spec.args)

-- The command with its hard deadline, two seconds past the wall time. An empty Stdin is left unset.
unfoldable pub process_of : RunSpec → Process
unfolding ◌+ℤ◌ int64
process_of spec = record {
  path = spec.nsjail_path;
  args = nsjail_args spec;
  stdin = spec.stdin;
  timeout = int64 (spec.wall_time +ℤ pos (2 * second));
}

abbrev zero_outcome : Outcome
zero_outcome = record {
  stdout = [];
  stderr = [];
  exit_code = pos 0;
  signal = [];
  duration = pos 0;
  max_rss_kb = pos 0;
  timed_out = false;
  oom_killed = false;
  output_capped = false;
}

or_zero : Option ℤ → ℤ
or_zero none = pos 0
or_zero (some n) = n

-- The result before the error of cmd.Run is looked at.
unfoldable pub captured : RunSpec → CmdOutcome → ℤ → Outcome
unfolding or_zero write_all
captured spec cmd elapsed =
    let out = write_all (empty spec.max_output) cmd.stdout_writes in
    let errs = write_all (empty spec.max_output) cmd.stderr_writes in
    record {
      stdout = out.buf;
      stderr = errs.buf;
      exit_code = pos 0;
      signal = [];
      duration = elapsed;
      max_rss_kb = or_zero cmd.max_rss;
      timed_out = cmd.deadline_exceeded;
      oom_killed = false;
      output_capped = out.capped || errs.capped;
    }

-- What is made of the error of cmd.Run.
unfoldable pub settle : RunSpec → ℤ → Outcome → Option CmdError → Outcome × Option SandboxError
unfolding exit_code_of classify_exit
settle spec elapsed res none = (res, none)
settle spec elapsed res (some (other_error e)) = (res, some (exec_failed e))
settle spec elapsed res (some (exit_error status)) = (
  classify_exit (record res { exit_code = exit_code_of status }) spec.wall_time status elapsed,
  none,
)

-- time.Since(start)
unfoldable pub since : ℕ → ℕ → ℤ
unfolding ◌-ℤ◌
since start now = pos now -ℤ pos start

launch : Host → RunSpec → Eff (Outcome × Option SandboxError)
unfolding process_of captured settle since
launch host spec = do
  start ← read_clock host
  cmd ← run_command host (process_of spec)
  now ← read_clock host
  let elapsed = since start now
  pure (settle spec elapsed (captured spec cmd elapsed) cmd.error)

-- Run
unfoldable pub run : Host → RunSpec → Eff (Outcome × Option SandboxError)
unfolding launch
run host spec =
    if bytes_eq spec.nsjail_path []
    then pure (zero_outcome, some empty_nsjail_path)
    else if bytes_eq spec.command []
    then pure (zero_outcome, some empty_command)
    else launch host spec
