-- ===== src/Api/Status/Metrics.antt =====
-- What /metrics reports while requests run.
use code_sandbox.Prelude.{ℕ, ◌+◌, ◌≤◌, ◌≡◌, sym, ◌∙◌, subst, pos, ◌≤ℤ◌, length, min, arith}
use code_sandbox.Host.{done}
use code_sandbox.Config.{Config}
use code_sandbox.Executor.Stats.{StatsSnapshot, ring_cap, counters}
use code_sandbox.Executor.Stats.Latest.{Reports, report-Reports, snapshot-report}
use code_sandbox.Executor.Run.{Engine, new_engine}
use code_sandbox.Executor.Admission.{Pool, Reach, start}
use code_sandbox.Executor.Admission.Books.{Reach-IsConsistent, Reach-keeps, Reach-grows}
use code_sandbox.Api.Status.{metrics}

samples_bound : (a b c d : ℕ) → a ≡ min b ring_cap → b ≤ c → a ≤ d + c
samples_bound a b c d h l = omega arith

-- However the steps of calls interleave on a new executor with the copy of the ring and the three loads
-- that follow it, metrics never panics: the percentiles describe the latest 1024 durations at the copy,
-- and the total, the rejected calls and the calls in flight are each those past the additions at the
-- time of its own load. There are never more samples than calls counted.
pub metrics-Reports :
    (cfg : Config) (e : Engine) (p q r s : Pool)
    → new_engine cfg ≡ done e
    → Reach cfg (start e) p
    → Reach cfg p q
    → Reach cfg q r
    → Reach cfg r s
    → (out : StatsSnapshot) × (metrics cfg p.engine q.engine r.engine s.engine ≡ done out)
      × (out.samples ≡ min (length p.durations) ring_cap)
      × Reports p.durations out
      × (out.total ≡ pos (q.counted + q.running + length q.durations))
      × (out.rejected ≡ pos r.refused)
      × (out.in_flight ≡ pos (s.running + s.ending))
      × (pos out.samples ≤ℤ out.total)
unfolding metrics
metrics-Reports cfg e p q r s h rp rq rr rs =
    let kp = Reach-IsConsistent cfg e p h rp in
    let kq = Reach-keeps kp rq in
    let kr = Reach-keeps kq rr in
    let ks = Reach-keeps kr rs in
    let total = q.engine.stats.total in
    let rejected = r.engine.stats.rejected in
    let in_flight = s.engine.stats.in_flight in
    let base =
      counters p.engine.stats.ring_sz total rejected in_flight cfg.max_concurrency
        cfg.queue_depth in
    let (out, made, kept, says) = report-Reports p.durations base in
    let samples : out.samples ≡ min (length p.durations) ring_cap = kept.0 ∙ kp.ring.size in
    let counted : out.total ≡ pos (q.counted + q.running + length q.durations) =
      kept.1 ∙ kq.total in
    (
      out,
      snapshot-report p.durations p.engine.stats total rejected in_flight cfg.max_concurrency
            cfg.queue_depth kp.ring
          ∙ made,
      samples,
      says,
      counted,
      kept.2 ∙ kr.rejected,
      kept.3 ∙ ks.in_flight,
      subst (λ z. pos out.samples ≤ℤ z) (sym counted)
          (omega (
            arith,
            samples_bound out.samples (length p.durations) (length q.durations)
                (q.counted + q.running) samples (Reach-grows rq).0,
          )),
    )
