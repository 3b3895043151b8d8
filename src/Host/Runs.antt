-- ===== src/Host/Runs.antt =====
-- Total correctness of code that calls the host: it does not panic, its result meets a condition,
-- and each event that it adds to the trace meets another.
use code_sandbox.Prelude.{ℤ, ◌∷◌, Bytes}
use code_sandbox.Host.{
  Host, Process, Event, clock_read, file_written, owner_set, process_ran, Trace, Out, done,
  panicked, Eff, continue_with, ◌>>=◌, pure, read_clock, write_file, chown, run_command,
}

-- The second trace is the first with events that meet P before it.
pub data Grown (P : Event → Type 0) (tr : Trace) : Trace → Type 0 where
  same : Grown P tr tr
  more : {e : Event} {tr' : Trace} → P e → Grown P tr tr' → Grown P tr (e ∷ tr')

pub Grown-trans : {P : Event → Type 0} {a b c : Trace} → Grown P a b → Grown P b c → Grown P a c
Grown-trans g same = g
Grown-trans g (more p h) = more p (Grown-trans g h)

abbrev pub RunsAt : {A : Type 0} → (Event → Type 0) → (A → Type 0) → Trace → Out A × Trace → Type 0
RunsAt P Q tr (done a, tr') = Q a × Grown P tr tr'
RunsAt P Q tr (panicked, tr') = ⊥

pub record Runs {A : Type 0} (P : Event → Type 0) (Q : A → Type 0) (m : Eff A) : Type 0 where
  pub at : (tr : Trace) → RunsAt P Q tr (m tr)

module _ {P : Event → Type 0} where
  pub Runs-pure : {A : Type 0} {Q : A → Type 0} (a : A) → Q a → Runs P Q (pure a)
  unfolding pure
  Runs-pure a q = record { at = λ tr. (q, same) }

  then_at :
      {A B : Type 0} {Q : A → Type 0} {R : B → Type 0} (tr : Trace) (r : Out A × Trace)
      (f : A → Eff B)
      → RunsAt P Q tr r
      → ((a : A) → Q a → Runs P R (f a))
      → RunsAt P R tr (continue_with r f)
  then_at {R} tr (done a, tr') f h k = weaken (f a tr') ((k a h.0).at tr') h.1
    where
      weaken : (r : Out _ × Trace) → RunsAt P R tr' r → Grown P tr tr' → RunsAt P R tr r
      weaken (done b, tr'') g h = (g.0, Grown-trans h g.1)
      weaken (panicked, tr'') g h = g
  then_at tr (panicked, tr') f h k = elim h [ ]

  pub Runs-bind :
      {A B : Type 0} {Q : A → Type 0} {R : B → Type 0} {m : Eff A} {f : A → Eff B}
      → Runs P Q m
      → ((a : A) → Q a → Runs P R (f a))
      → Runs P R (m >>= f)
  unfolding ◌>>=◌
  Runs-bind {f} h k = record { at = λ tr. then_at tr _ f (h.at tr) k }

  pub Runs-clock : (host : Host) → P clock_read → Runs P (λ t. Unit) (read_clock host)
  unfolding read_clock
  Runs-clock host p = record { at = λ tr. (tt, more p same) }

  pub Runs-write_file :
      (host : Host) (path content : Bytes)
      → P (file_written path content)
      → Runs P (λ r. Unit) (write_file host path content)
  unfolding write_file
  Runs-write_file host path content p = record { at = λ tr. (tt, more p same) }

  pub Runs-chown :
      (host : Host) (path : Bytes) (uid gid : ℤ)
      → P (owner_set path uid gid)
      → Runs P (λ r. Unit) (chown host path uid gid)
  unfolding chown
  Runs-chown host path uid gid p = record { at = λ tr. (tt, more p same) }

  pub Runs-command :
      (host : Host) (process : Process)
      → P (process_ran process)
      → Runs P (λ r. Unit) (run_command host process)
  unfolding run_command
  Runs-command host process p = record { at = λ tr. (tt, more p same) }
