-- ===== src/Sandbox/Exit.antt =====
-- classifyExit of internal/sandbox/sandbox.go, with the results that it fills in.
use code_sandbox.Prelude.{
  ℕ, ◌+◌, ◌-◌, Bool, true, false, List, [], ◌∷◌, ◌++◌, ◌==◌, if◌then◌else◌, ℤ, pos, negsuc, ◌-ℤ◌,
  leb_ℤ, int64, Bytes, codes, get_or,
}
use code_sandbox.Strings.{itoa}
use code_sandbox.Host.{WaitStatus, exited, signaled}

-- Result
pub record Outcome : Type 0 where
  pub stdout : Bytes
  pub stderr : Bytes
  pub exit_code : ℤ
  pub signal : Bytes
  pub duration : ℤ
  pub max_rss_kb : ℤ
  pub timed_out : Bool
  pub oom_killed : Bool
  pub output_capped : Bool

-- 128 + 9 and 128 + 24
abbrev pub exit_sigkill : ℕ
exit_sigkill = 137

abbrev pub exit_sigxcpu : ℕ
exit_sigxcpu = 152

-- exitErr.ExitCode(): -1 for a process that a signal ended
unfoldable pub exit_code_of : WaitStatus → ℤ
exit_code_of (exited n) = pos n
exit_code_of (signaled n) = negsuc 0

-- syscall.Signal.String, whose table on Linux names the first fifteen signals
unfoldable pub signal_table : List Bytes
signal_table =
    codes "hangup"
    ∷ codes "interrupt"
    ∷ codes "quit"
    ∷ codes "illegal instruction"
    ∷ codes "trace/breakpoint trap"
    ∷ codes "aborted"
    ∷ codes "bus error"
    ∷ codes "floating point exception"
    ∷ codes "killed"
    ∷ codes "user defined signal 1"
    ∷ codes "segmentation fault"
    ∷ codes "user defined signal 2"
    ∷ codes "broken pipe"
    ∷ codes "alarm clock"
    ∷ codes "terminated"
    ∷ []

unfoldable pub signal_string : ℕ → Bytes
unfolding signal_table itoa
signal_string n = if n == 0 then unnamed else get_or signal_table (n - 1) unnamed
  where
    unnamed : Bytes
    unnamed = codes "signal " ++ itoa (pos n)

-- The first half of classifyExit: a signal gives its name and 128 + its number.
unfoldable pub set_signal : Outcome → WaitStatus → Outcome
set_signal res (exited n) = res
set_signal res (signaled n) = record res { signal = signal_string n; exit_code = pos (128 + n) }

-- 100 * time.Millisecond
abbrev pub margin : ℤ
margin = pos 100_000_000

unfoldable pub is_code : ℤ → ℕ → Bool
is_code (pos n) k = n == k
is_code (negsuc n) k = false

-- spec.WallTime - 100*time.Millisecond
abbrev pub late_from : ℤ → ℤ
late_from wall_time = int64 (wall_time -ℤ margin)

-- The second half: SIGKILL near the limit was the time guard, before it the memory limit.
unfoldable pub set_cause : Outcome → ℤ → ℤ → Outcome
unfolding is_code
set_cause res wall_time elapsed =
    if is_code res.exit_code exit_sigkill
    then (if leb_ℤ (late_from wall_time) elapsed
        then record res { timed_out = true }
        else record res { oom_killed = true })
    else if is_code res.exit_code exit_sigxcpu
    then record res { timed_out = true }
    else res

-- classifyExit
unfoldable pub classify_exit : Outcome → ℤ → WaitStatus → ℤ → Outcome
unfolding set_signal set_cause
classify_exit res wall_time status elapsed = set_cause (set_signal res status) wall_time elapsed
