-- ===== src/Tests/Goroutines.antt =====
-- Goroutines that interleave: pollers, the shutdown, and the metrics of a running executor.
use code_sandbox.Prelude.{
  length, ◌≤ℤ◌, ◌⊎◌, ◌+◌, ◌≤◌, ◌<◌, pos, ◌≡◌, refl, true, false, [], ◌∷◌, arith, min,
}
use code_sandbox.Host.{done}
use code_sandbox.Executor.Stats.{StatsSnapshot, ring_cap, new_stats, counters, snapshot}
use code_sandbox.Executor.Stats.Window.{new_stats-Holds, observed, observed-Holds}
use code_sandbox.Executor.Stats.Latest.{report, Reports, snapshot-report}
use code_sandbox.Executor.Run.{idle}
use code_sandbox.Executor.Admission
use code_sandbox.Executor.Admission.{start}
use code_sandbox.Api.Status.{metrics}
use code_sandbox.Api.Status.Metrics.{metrics-Reports}
use code_sandbox.Worker.Polling.{
  Pollers, launched, Step, cancel, stop, send, wait, Reach, here, next, Stopped,
}
use code_sandbox.Worker.Polling.Drain.{
  Drained, Reach-Stopped, Reach-Drained, Reach-Stopped_handling,
}
use code_sandbox.Worker.Polling.Progress.{RestsOrLowers, work, Reach-rests}
use code_sandbox.Daemon.Shutdown
use code_sandbox.Daemon.Shutdown.{
  up, interrupt, shut, drained, close_idle, closed, bye, said_bye, idle_closed, signalled,
}
use code_sandbox.Daemon.Shutdown.Order.{CanStep, steps_left, Reach-said_bye, Reach-ends}
use code_sandbox.Tests.Data.{cfg, message}
use code_sandbox.Tests.Requests.{new_engine_lem, one_call}

below_one : 0 < 1
below_one = omega arith

-- One poller is stopped at the head of its loop.
all_stopped : (p : Pollers) × Reach 1 (launched 1) p × Stopped 1 p
all_stopped =
    let a = next here cancel in
    let b = next a (stop 0 refl refl) in
    let c = next b (send 0 refl below_one) in (_, next c (wait 0 refl below_one), refl)

Reach-Stopped_example :
    (all_stopped.0.cancelled ≡ true)
    × (all_stopped.0.ended ≡ 1)
    × (all_stopped.0.done ≡ 0)
    × (all_stopped.0.at_head + all_stopped.0.receiving + all_stopped.0.backing_off
          + all_stopped.0.returning
        ≡ 0)
Reach-Stopped_example = Reach-Stopped 1 all_stopped.0 (omega arith) all_stopped.1 all_stopped.2

Reach-Drained_example : Drained 2 (record (launched 2) { cancelled = true })
Reach-Drained_example = Reach-Drained 2 _ (next here cancel) refl

Reach-rests_example :
    RestsOrLowers 2 (record (launched 2) { cancelled = true })
    × ((q : Pollers)
        → Step 2 (record (launched 2) { cancelled = true }) q
        → (q ≡ record (launched 2) { cancelled = true })
          ⊎ (work q < work (record (launched 2) { cancelled = true })))
    × (work (record (launched 2) { cancelled = true }) ≤ 28)
Reach-rests_example = Reach-rests 2 _ (next here cancel) refl

Reach-Stopped_handling_example :
    (p : Pollers) × Reach 1 (launched 1) p × Stopped 1 p × (p.handling ≡ message ∷ [])
Reach-Stopped_handling_example = Reach-Stopped_handling 0 (message ∷ []) (omega arith)

-- A call comes in between the copy of the ring and the loads.
metrics-Reports_example :
    (out : StatsSnapshot) × (metrics cfg idle one_call.0.engine one_call.0.engine one_call.0.engine
      ≡ done out)
    × (out.samples ≡ min 0 ring_cap)
    × Reports [] out
    × (out.total ≡ pos (one_call.0.counted + one_call.0.running + length one_call.0.durations))
    × (out.rejected ≡ pos one_call.0.refused)
    × (out.in_flight ≡ pos (one_call.0.running + one_call.0.ending))
    × (pos out.samples ≤ℤ out.total)
metrics-Reports_example =
    metrics-Reports cfg idle (start idle) one_call.0 one_call.0 one_call.0 new_engine_lem
      Admission.here one_call.1 Admission.here Admission.here

snapshot-report_example :
    snapshot (observed new_stats (pos 9)) (pos 3) (pos 0) (pos 1) (pos 2) (pos 1)
    ≡ report
        (pos 9 ∷ [])
        (counters (observed new_stats (pos 9)).ring_sz (pos 3) (pos 0) (pos 1) (pos 2) (pos 1))
snapshot-report_example =
    snapshot-report (pos 9 ∷ []) (observed new_stats (pos 9)) (pos 3) (pos 0) (pos 1) (pos 2)
      (pos 1) (observed-Holds [] new_stats (pos 9) new_stats-Holds)

-- A daemon without a worker that is interrupted and goes down.
gone : (p : Shutdown.Process) × Shutdown.Reach (up false) p × (p.main ≡ said_bye)
gone =
    let a = Shutdown.next Shutdown.here (interrupt tt refl) in
    let b = Shutdown.next a (Shutdown.cancel tt refl) in
    let c = Shutdown.next b (shut tt refl) in
    let d = Shutdown.next c (closed refl refl) in
    let e = Shutdown.next d (drained tt refl) in
    let f = Shutdown.next e (close_idle tt refl refl) in (_, Shutdown.next f (bye refl refl), refl)

Reach-said_bye_example :
    (gone.0.signal ≡ idle_closed)
    × (gone.0.cancelled ≡ true)
    × (gone.0.listening ≡ false)
    × (gone.0.worker_done ≡ true)
Reach-said_bye_example = Reach-said_bye false gone.0 gone.1 gone.2

abbrev interrupted : Shutdown.Process
interrupted = record (up true) { signal = signalled }

Reach-ends_example :
    CanStep interrupted
    × ((q : Shutdown.Process) → Shutdown.Step interrupted q → steps_left q < steps_left interrupted)
    × (steps_left interrupted ≤ 8)
Reach-ends_example =
    Reach-ends true interrupted (Shutdown.next Shutdown.here (interrupt tt refl)) (λ e. cc) tt
