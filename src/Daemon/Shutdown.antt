-- ===== src/Daemon/Shutdown.antt =====
-- The end of main in cmd/goboxd/main.go: the main goroutine in ListenAndServe, the goroutine that waits
-- for a signal, and the one that runs the worker, as they interleave.
pub mod Order
use code_sandbox.Prelude.{ℕ, ◌≡◌, refl, Bool, true, false, not}

-- The main goroutine: in ListenAndServe, at <-idle, past it, or ended by os.Exit(1).
pub data Main : Type 0 where
  serving awaiting_idle said_bye exited : Main

-- The signal goroutine: at <-sig, past it, after rootCancel, in srv.Shutdown, at <-workerDone, and
-- after close(idle).
pub data Signal : Type 0 where
  awaiting_signal signalled root_cancelled closing_http awaiting_worker idle_closed : Signal

pub record Process : Type 0 where
  pub main : Main
  pub signal : Signal
  -- rootCtx
  pub cancelled : Bool
  -- srv.Shutdown has not been called
  pub listening : Bool
  -- workerDone is closed
  pub worker_done : Bool

-- After the start; without a worker workerDone is closed at once.
abbrev pub up : Bool → Process
up has_worker = record {
  main = serving;
  signal = awaiting_signal;
  cancelled = false;
  listening = true;
  worker_done = not has_worker;
}

-- The process has not ended.
abbrev pub Alive : Main → Type 0
Alive serving = Unit {0}
Alive awaiting_idle = Unit
Alive said_bye = ⊥
Alive exited = ⊥

pub data Step (p : Process) : Process → Type 0 where
  -- SIGINT or SIGTERM
  interrupt : Alive p.main → p.signal ≡ awaiting_signal → Step p (record p { signal = signalled })
  cancel :
      Alive p.main
      → p.signal ≡ signalled
      → Step p (record p { signal = root_cancelled; cancelled = true })
  shut :
      Alive p.main
      → p.signal ≡ root_cancelled
      → Step p (record p { signal = closing_http; listening = false })
  -- the requests are drained, or ten seconds are over
  drained : Alive p.main → p.signal ≡ closing_http → Step p (record p { signal = awaiting_worker })
  -- w.Start returns, which it does only when the context is cancelled
  stop_worker :
      Alive p.main
      → p.worker_done ≡ false
      → p.cancelled ≡ true
      → Step p (record p { worker_done = true })
  close_idle :
      Alive p.main
      → p.signal ≡ awaiting_worker
      → p.worker_done ≡ true
      → Step p (record p { signal = idle_closed })
  -- ListenAndServe returns ErrServerClosed, or another error
  closed : p.main ≡ serving → p.listening ≡ false → Step p (record p { main = awaiting_idle })
  fail :
      p.main ≡ serving → p.listening ≡ true → Step p (record p { main = exited; cancelled = true })
  bye : p.main ≡ awaiting_idle → p.signal ≡ idle_closed → Step p (record p { main = said_bye })

pub data Reach (p : Process) : Process → Type 0 where
  here : Reach p p
  next : {q r : Process} → Reach p q → Step q r → Reach p r
