-- ===== src/Executor/Admission/Full.antt =====
-- How many calls of Run execute at once.
use code_sandbox.Prelude.{
  ℕ, zero, suc, ◌≡◌, refl, sym, ap, subst, true, arith, ℤ, pos, ◌+ℤ◌, ◌≤ℤ◌, ltb_ℤ, FitsInt64,
  int64_of_fits,
}
use code_sandbox.Host.{done}
use code_sandbox.Config.{Config}
use code_sandbox.Executor.Run.{Engine, capacity, new_engine}
use code_sandbox.Executor.Run.Slots.{new_engine_done}
use code_sandbox.Executor.Admission.{Pool, send, count, enter, Reach, here, next, start}

-- All calls that have a slot are executing, and they are n.
abbrev AllRun : ℕ → Pool → Type 0
AllRun n q = (q.engine.slots ≡ n) × (q.running ≡ n) × (q.sent ≡ 0) × (q.counted ≡ 0)

capacity-sum :
    (cfg : Config)
    → FitsInt64 (cfg.max_concurrency +ℤ cfg.queue_depth)
    → capacity cfg ≡ cfg.max_concurrency +ℤ cfg.queue_depth
unfolding capacity
capacity-sum cfg h = int64_of_fits (cfg.max_concurrency +ℤ cfg.queue_depth) h

free_slot : (n slots : ℕ) (c : ℤ) → slots ≡ n → pos (suc n) ≤ℤ c → ltb_ℤ (pos slots) c ≡ true
free_slot n slots c h k = ground arith

fill :
    (cfg : Config) (e : Engine) (n : ℕ)
    → new_engine cfg ≡ done e
    → pos n ≤ℤ capacity cfg
    → (q : Pool) × Reach cfg (start e) q × AllRun n q
fill cfg e zero h c =
    (start e, here, (ap (λ x. x.slots) (new_engine_done cfg e h).1, refl, refl, refl))
fill cfg e (suc n) h c =
    let (q, r, (a, b, s, t)) = fill cfg e n h (omega arith) in
    let one = next r (send (free_slot n q.engine.slots (capacity cfg) a c)) in
    let two = next one (count 0 (omega arith)) in
    (_, next two (enter 0 (omega arith)), (omega arith, omega arith, refl, refl))

-- The semaphore lets as many calls execute at once as its whole capacity, which is max_concurrency plus
-- queue_depth if that sum is an int: for each number up to it there is a state with that many calls
-- in the midst of their execution.
pub Reach-active :
    (cfg : Config) (e : Engine) (n : ℕ)
    → new_engine cfg ≡ done e
    → FitsInt64 (cfg.max_concurrency +ℤ cfg.queue_depth)
    → pos n ≤ℤ cfg.max_concurrency +ℤ cfg.queue_depth
    → (q : Pool) × Reach cfg (start e) q × (q.running ≡ n)
Reach-active cfg e n h fits c =
    let (q, r, a) = fill cfg e n h (subst (λ z. pos n ≤ℤ z) (sym (capacity-sum cfg fits)) c) in
    (q, r, a.1)
