-- ===== src/Daemon/Shutdown/Order.antt =====
-- The order in which the daemon goes down, and that it does.
use code_sandbox.Prelude.{
  ℕ, ◌+◌, ◌-◌, ◌≤◌, ◌<◌, ◌≡◌, ◌≢◌, refl, inl, inr, Bool, true, false, Bool-cases, arith,
}
use code_sandbox.Daemon.Shutdown.{
  Main, serving, awaiting_idle, said_bye, exited, Signal, awaiting_signal, signalled,
  root_cancelled, closing_http, awaiting_worker, idle_closed, Process, up, Alive, Step, interrupt,
  cancel, shut, drained, stop_worker, close_idle, closed, fail, bye, Reach, here, next,
}

-- How far the signal goroutine has come.
abbrev stage : Signal → ℕ
stage awaiting_signal = 0
stage signalled = 1
stage root_cancelled = 2
stage closing_http = 3
stage awaiting_worker = 4
stage idle_closed = 5

abbrev main_left : Main → ℕ
main_left serving = 2
main_left awaiting_idle = 1
main_left said_bye = 0
main_left exited = 0

abbrev worker_left : Bool → ℕ
worker_left false = 1
worker_left true = 0

-- How many steps are left at most.
abbrev pub steps_left : Process → ℕ
steps_left p = main_left p.main + (5 - stage p.signal) + worker_left p.worker_done

pub record IsOrdered (has_worker : Bool) (p : Process) : Type 0 where
  pub cancelled : 2 ≤ stage p.signal → p.cancelled ≡ true
  pub shut : 3 ≤ stage p.signal → p.listening ≡ false
  pub listens : stage p.signal < 3 → p.listening ≡ true
  pub waited : p.signal ≡ idle_closed → p.worker_done ≡ true
  pub worker : has_worker ≡ true → p.worker_done ≡ true → p.cancelled ≡ true
  pub no_worker : has_worker ≡ false → p.worker_done ≡ true
  pub awaiting : p.main ≡ awaiting_idle → p.listening ≡ false
  pub ended : p.main ≡ said_bye → p.signal ≡ idle_closed

Step-IsOrdered : {b : Bool} {p q : Process} → Step p q → IsOrdered b p → IsOrdered b q
Step-IsOrdered (interrupt a s) h = ground arith
Step-IsOrdered (cancel a s) h = ground arith
Step-IsOrdered (shut a s) h = ground arith
Step-IsOrdered (drained a s) h = ground arith
Step-IsOrdered (stop_worker a w c) h = ground arith
Step-IsOrdered (close_idle a s w) h = ground arith
Step-IsOrdered (closed m l) h = ground arith
Step-IsOrdered (fail m l) h = ground arith
Step-IsOrdered (bye m s) h = ground arith

up-IsOrdered : (b : Bool) → IsOrdered b (up b)
up-IsOrdered true = ground arith
up-IsOrdered false = ground arith

Reach-IsOrdered : {b : Bool} {p : Process} → Reach (up b) p → IsOrdered b p
Reach-IsOrdered {b} here = up-IsOrdered b
Reach-IsOrdered (next r s) = Step-IsOrdered s (Reach-IsOrdered r)

-- When main has come to its end by "bye", the root context was cancelled, the server was shut, the
-- worker has stopped, and the signal goroutine has seen all of it.
pub Reach-said_bye :
    (b : Bool) (p : Process)
    → Reach (up b) p
    → p.main ≡ said_bye
    → (p.signal ≡ idle_closed)
      × (p.cancelled ≡ true)
      × (p.listening ≡ false)
      × (p.worker_done ≡ true)
Reach-said_bye b p r e =
    let h = Reach-IsOrdered r in
    let s = h.ended e in (s, h.cancelled (ground arith), h.shut (ground arith), h.waited s)

Step-steps_left : {p q : Process} → Step p q → steps_left q < steps_left p
Step-steps_left (interrupt a s) = ground arith
Step-steps_left (cancel a s) = ground arith
Step-steps_left (shut a s) = ground arith
Step-steps_left (drained a s) = ground arith
Step-steps_left (stop_worker a w c) = ground arith
Step-steps_left (close_idle a s w) = ground arith
Step-steps_left (closed m l) = ground arith
Step-steps_left (fail m l) = ground arith
Step-steps_left (bye m s) = ground arith

abbrev pub CanStep : Process → Type 0
CanStep p = (q : Process) × Step p q

advance :
    (b : Bool) (p : Process) (s : Signal)
    → IsOrdered b p
    → Alive p.main
    → p.signal ≡ s
    → s ≢ awaiting_signal
    → CanStep p
advance b p awaiting_signal h a e ne = absurd (ne refl)
advance b p signalled h a e ne = (_, cancel a e)
advance b p root_cancelled h a e ne = (_, shut a e)
advance b p closing_http h a e ne = (_, drained a e)
advance b p awaiting_worker h a e ne = elim (Bool-cases p.worker_done) [
  | inl w ↦ (_, close_idle a e w)
  | inr w ↦ (_, stop_worker a w (h.cancelled (ground arith)))
]
advance b p idle_closed h a e ne = last p.main refl a
  where
    last : (m : Main) → p.main ≡ m → Alive m → CanStep p
    last serving q a = (_, closed q (h.shut (ground arith)))
    last awaiting_idle q a = (_, bye q e)
    last said_bye q a = elim a [ ]
    last exited q a = elim a [ ]

-- After a signal the daemon goes down: while the process lives some step can be taken, and each step
-- brings the end nearer, at most eight steps from the start.
pub Reach-ends :
    (b : Bool) (p : Process)
    → Reach (up b) p
    → p.signal ≢ awaiting_signal
    → Alive p.main
    → CanStep p × ((q : Process) → Step p q → steps_left q < steps_left p) × (steps_left p ≤ 8)
Reach-ends b p r ne a = (
  advance b p p.signal (Reach-IsOrdered r) a refl ne,
  (λ q s. Step-steps_left s),
  bound p.main p.signal p.worker_done,
)
  where
    bound : (m : Main) (s : Signal) (w : Bool) → main_left m + (5 - stage s) + worker_left w ≤ 8
    bound m s w = ground arith
