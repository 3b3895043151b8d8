-- ===== src/Sandbox/Verdict.antt =====
-- When a run counts as timed out or out of memory.
use code_sandbox.Prelude.{ℕ, ◌+◌, ◌≡◌, ◌↔◌, ◌⊎◌, true, some, arith, ℤ, pos, ◌-ℤ◌, int64, ◌≤ℤ◌, ◌<ℤ◌}
use code_sandbox.Host.{WaitStatus, exited, signaled, CmdOutcome, exit_error}
use code_sandbox.Sandbox.{RunSpec, captured, settle}
use code_sandbox.Sandbox.Exit.{Outcome, set_cause, set_signal, classify_exit}

-- nsjail was ended by this signal, or exited with 128 + its number, as it does to pass on that its
-- child was ended by it.
abbrev pub EndedBy : ℕ → WaitStatus → Type 0
EndedBy k (exited n) = n ≡ 128 + k
EndedBy k (signaled n) = n ≡ k

abbrev pub result : RunSpec → CmdOutcome → ℤ → WaitStatus → Outcome
result spec cmd elapsed status =
    (settle spec elapsed (captured spec cmd elapsed) (some (exit_error status))).0

-- The wall time less 100 ms, as an int64 of nanoseconds.
abbrev pub margin_start : RunSpec → ℤ
margin_start spec = int64 (spec.wall_time -ℤ pos 100_000_000)

-- A run that ended with an exit error counts as out of memory exactly when nsjail was ended by SIGKILL
-- or exited with 137, and this earlier than 100 ms before the wall time. It counts as timed out
-- exactly when the context's deadline had passed, or it ended so at that moment or later, or it was
-- ended by SIGXCPU or exited with 152. Exit codes are not told from signals: a program that itself
-- exits with 137 counts as out of memory or timed out.
pub result_flags :
    (spec : RunSpec) (cmd : CmdOutcome) (elapsed : ℤ) (status : WaitStatus)
    → (((result spec cmd elapsed status).oom_killed ≡ true)
        ↔ (EndedBy 9 status × (elapsed <ℤ margin_start spec)))
      × (((result spec cmd elapsed status).timed_out ≡ true) ↔ (
          (cmd.deadline_exceeded ≡ true)
          ⊎ (EndedBy 9 status × (margin_start spec ≤ℤ elapsed))
          ⊎ EndedBy 24 status))
unfolding settle captured classify_exit set_signal set_cause
result_flags spec cmd elapsed (exited n) = ground arith
result_flags spec cmd elapsed (signaled n) = ground arith

-- A process that a signal ended is reported with 128 + the signal's number, whatever else is found.
pub result_exit_code :
    (spec : RunSpec) (cmd : CmdOutcome) (elapsed : ℤ) (n : ℕ)
    → ((result spec cmd elapsed (signaled n)).exit_code ≡ pos (128 + n))
      × ((result spec cmd elapsed (exited n)).exit_code ≡ pos n)
unfolding settle captured classify_exit set_signal set_cause
result_exit_code spec cmd elapsed n = (ground arith, ground arith)
