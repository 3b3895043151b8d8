-- ===== src/Host.antt =====
-- The operating system as the program meets it. Each call that leaves the program is recorded in a
-- trace, newest event first, and its answer is any function of the trace so far: the clock, the
-- file system, the process that nsjail runs and the context's cancellation are all unconstrained.
pub mod Runs
use code_sandbox.Prelude.{
  ℕ, ℤ, pos, negsuc, Bool, true, false, Option, none, some, List, [], ◌∷◌, Bytes, Result, ok, err,
  ◌≡◌, refl,
}

-- One process: exec.CommandContext under a context with this timeout.
pub record Process : Type 0 where
  pub path : Bytes
  pub args : List Bytes
  pub stdin : Bytes
  pub timeout : ℤ

pub data Event : Type 0 where
  clock_read uuid_made : Event
  dir_made dir_not_made dir_removed : Bytes → Event
  file_written : Bytes → Bytes → Event
  owner_set : Bytes → ℤ → ℤ → Event
  process_ran : Process → Event

abbrev pub Trace : Type 0
Trace = List Event

-- syscall.WaitStatus
pub data WaitStatus : Type 0 where
  exited signaled : ℕ → WaitStatus

-- The error of exec.Cmd.Run: an *exec.ExitError, or any other.
pub data CmdError : Type 0 where
  exit_error : WaitStatus → CmdError
  other_error : Bytes → CmdError

pub record CmdOutcome : Type 0 where
  -- the arguments of the Write calls on Stdout and on Stderr
  pub stdout_writes : List Bytes
  pub stderr_writes : List Bytes
  pub error : Option CmdError
  -- Rusage.Maxrss, if there is a process state that has it
  pub max_rss : Option ℤ
  -- ctx.Err() == context.DeadlineExceeded, after the run
  pub deadline_exceeded : Bool

pub record Host : Type 0 where
  -- nanoseconds of the monotonic clock
  pub now : Trace → ℕ
  pub new_uuid : Trace → Bytes
  -- the error of os.MkdirAll, os.WriteFile and os.Chown
  pub mkdir_all : Trace → Bytes → Option Bytes
  pub write_file : Trace → Bytes → Bytes → Option Bytes
  pub chown : Trace → Bytes → ℤ → ℤ → Option Bytes
  pub exec : Trace → Process → CmdOutcome

-- A Go function returns or panics.
pub data Out {ℓ} (A : Type ℓ) : Type ℓ where
  done : A → Out A
  panicked : Out A

abbrev pub Eff {ℓ} : Type ℓ → Type ℓ
Eff A = Trace → Out A × Trace

infixl 5 ◌>>=◌
abbrev pub continue_with {ℓ κ} :
    {A : Type ℓ} {B : Type κ} → Out A × Trace → (A → Eff B) → Out B × Trace
continue_with (done a, tr) f = f a tr
continue_with (panicked, tr) f = (panicked, tr)

unfoldable pub ◌>>=◌ {ℓ κ} : {A : Type ℓ} {B : Type κ} → Eff A → (A → Eff B) → Eff B
◌>>=◌ m f tr = continue_with (m tr) f

unfoldable pub pure {ℓ} : {A : Type ℓ} → A → Eff A
pure a tr = (done a, tr)

unfoldable pub panic {ℓ} : {A : Type ℓ} → Eff A
panic tr = (panicked, tr)

unfoldable pub dir_event : Bytes → Option Bytes → Event
dir_event dir none = dir_made dir
dir_event dir (some e) = dir_not_made dir

module _ (host : Host) where
  unfoldable pub read_clock : Eff ℕ
  read_clock tr = (done (host.now tr), clock_read ∷ tr)

  unfoldable pub make_uuid : Eff Bytes
  make_uuid tr = (done (host.new_uuid tr), uuid_made ∷ tr)

  unfoldable pub write_file : Bytes → Bytes → Eff (Option Bytes)
  write_file path content tr =
      (done (host.write_file tr path content), file_written path content ∷ tr)

  unfoldable pub chown : Bytes → ℤ → ℤ → Eff (Option Bytes)
  chown path uid gid tr = (done (host.chown tr path uid gid), owner_set path uid gid ∷ tr)

  unfoldable pub run_command : Process → Eff CmdOutcome
  run_command p tr = (done (host.exec tr p), process_ran p ∷ tr)

  unfoldable pub mkdir_all : Bytes → Eff (Option Bytes)
  unfolding dir_event
  mkdir_all dir tr = let answer = host.mkdir_all tr dir in (done answer, dir_event dir answer ∷ tr)

-- defer os.RemoveAll(dir): it runs whether the rest returns or panics
unfoldable pub then_remove {ℓ} : {A : Type ℓ} → Bytes → Out A × Trace → Out A × Trace
then_remove dir (r, tr) = (r, dir_removed dir ∷ tr)
