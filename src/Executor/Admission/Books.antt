-- ===== src/Executor/Admission/Books.antt =====
-- The books of the executor while calls of Run interleave.
use code_sandbox.Prelude.{
  ℕ, ◌+◌, ◌≤◌, ◌≡◌, refl, sym, ap, ◌∙◌, subst, true, [], ◌∷◌, ◌++◌, arith, ℤ, pos, ◌+ℤ◌, ◌-ℤ◌, ◌≤ℤ◌,
  length, length-append,
}
use code_sandbox.Host.{done}
use code_sandbox.Config.{Config}
use code_sandbox.Executor.Stats.{Stats, new_stats, dec_in_flight, inc_rejected, observe}
use code_sandbox.Executor.Stats.Window.{
  Holds, new_stats-Holds, observed, observe_done, observed-Holds,
}
use code_sandbox.Executor.Run.{Engine, capacity, new_engine, has_room}
use code_sandbox.Executor.Run.Slots.{Holds-counters, new_engine_done}
use code_sandbox.Executor.Admission.{
  Pool, Step, send, refuse, reject, count, enter, finish, leave, receive, Reach, here, next, start,
  holding, with_stats,
}

-- The books of the executor, against the calls: a slot is taken for each call from its send to its
-- receive, no more than the capacity are, each counter counts the calls past its additions, and the
-- ring holds the durations.
pub record IsConsistent (cfg : Config) (p : Pool) : Type 0 where
  pub slots : p.engine.slots ≡ holding p
  pub within : pos (holding p) ≤ℤ capacity cfg
  pub in_flight : p.engine.stats.in_flight ≡ pos (p.running + p.ending)
  pub total : p.engine.stats.total ≡ pos (p.counted + p.running + length p.durations)
  pub rejected : p.engine.stats.rejected ≡ pos p.refused
  pub past : p.ending + p.leaving ≤ length p.durations
  pub ring : Holds p.durations p.engine.stats

plus_one : (z : ℤ) (a b : ℕ) → z ≡ pos a → b ≡ a + 1 → z +ℤ pos 1 ≡ pos b
unfolding ◌+ℤ◌
plus_one z a b h k = rw (h, k) (ground arith)

minus_one : (z : ℤ) (a b : ℕ) → z ≡ pos a → a ≡ b + 1 → z -ℤ pos 1 ≡ pos b
unfolding ◌-ℤ◌
minus_one z a b h k = rw (h, k) (ground arith)

same : (z : ℤ) (a b : ℕ) → z ≡ pos a → b ≡ a → z ≡ pos b
same z a b h k = h ∙ ap pos (sym k)

start-IsConsistent :
    (cfg : Config) (e : Engine) → new_engine cfg ≡ done e → IsConsistent cfg (start e)
start-IsConsistent cfg e h =
    let (c, q) = new_engine_done cfg e h in
    subst (λ x. IsConsistent cfg (start x)) (sym q)
      (unfold new_stats in
        record {
          slots = refl;
          within = c;
          in_flight = refl;
          total = refl;
          rejected = refl;
          past = omega arith;
          ring = new_stats-Holds;
        })

module _ (cfg : Config) (p : Pool) (h : IsConsistent cfg p) where
  counters-Holds :
      (t r f : ℤ)
      → Holds p.durations (record p.engine.stats { total = t; rejected = r; in_flight = f })
  counters-Holds t r f = Holds-counters p.durations p.engine.stats t r f h.ring

  room : has_room cfg p.engine ≡ true → pos (holding p + 1) ≤ℤ capacity cfg
  room e = ground (arith, h.slots)

  observed_stats :
      (d : ℤ) (s : Stats) → observe p.engine.stats d ≡ done s → observed p.engine.stats d ≡ s
  observed_stats d s e = let q = sym (observe_done p.durations p.engine.stats d h.ring) ∙ e in cc q

-- Every step keeps the books.
pub Step-IsConsistent :
    {cfg : Config} {p q : Pool} → Step cfg p q → IsConsistent cfg p → IsConsistent cfg q
Step-IsConsistent {cfg} {p} (send e) h = record {
  slots = omega (arith, h.slots);
  within = omega (arith, room cfg p h e);
  in_flight = h.in_flight;
  total = h.total;
  rejected = h.rejected;
  past = h.past;
  ring = h.ring;
}
Step-IsConsistent (refuse e) h = record {
  slots = h.slots;
  within = h.within;
  in_flight = h.in_flight;
  total = h.total;
  rejected = h.rejected;
  past = h.past;
  ring = h.ring;
}
Step-IsConsistent {cfg} {p} (reject n e) h =
    unfold inc_rejected in
    record {
      slots = h.slots;
      within = h.within;
      in_flight = h.in_flight;
      total = h.total;
      rejected = plus_one _ p.refused _ h.rejected refl;
      past = h.past;
      ring = counters-Holds cfg p h _ _ _;
    }
Step-IsConsistent {cfg} {p} (count n e) h = record {
  slots = omega (arith, h.slots);
  within = omega (arith, h.within);
  in_flight = h.in_flight;
  total = plus_one _ _ _ h.total (omega arith);
  rejected = h.rejected;
  past = h.past;
  ring = counters-Holds cfg p h _ _ _;
}
Step-IsConsistent {cfg} {p} (enter n e) h = record {
  slots = omega (arith, h.slots);
  within = omega (arith, h.within);
  in_flight = plus_one _ _ _ h.in_flight (omega arith);
  total = same _ _ _ h.total (omega arith);
  rejected = h.rejected;
  past = h.past;
  ring = counters-Holds cfg p h _ _ _;
}
Step-IsConsistent {cfg} {p} (finish n d s e o) h =
    let k : length (p.durations ++ d ∷ []) ≡ length p.durations + 1 =
      length-append p.durations (d ∷ []) in
    subst
      (λ s. IsConsistent cfg (record p {
        engine = with_stats p.engine s;
        running = n;
        ending = p.ending + 1;
        durations = p.durations ++ d ∷ [];
      }))
      (observed_stats cfg p h d s o)
      (unfold observed in
        record {
          slots = omega (arith, h.slots);
          within = omega (arith, h.within);
          in_flight = same _ _ _ h.in_flight (omega arith);
          total = same _ _ _ h.total (omega (arith, k));
          rejected = h.rejected;
          past = omega (arith, h.past, k);
          ring = observed-Holds p.durations p.engine.stats d h.ring;
        })
Step-IsConsistent {cfg} {p} (leave n e) h =
    unfold dec_in_flight in
    record {
      slots = omega (arith, h.slots);
      within = omega (arith, h.within);
      in_flight = minus_one _ _ _ h.in_flight (omega arith);
      total = h.total;
      rejected = h.rejected;
      past = omega (arith, h.past);
      ring = counters-Holds cfg p h _ _ _;
    }
Step-IsConsistent {cfg} {p} (receive n e) h = record {
  slots = omega (arith, h.slots);
  within = omega (arith, h.within);
  in_flight = h.in_flight;
  total = h.total;
  rejected = h.rejected;
  past = omega (arith, h.past);
  ring = h.ring;
}

pub Reach-keeps :
    {cfg : Config} {p q : Pool} → IsConsistent cfg p → Reach cfg p q → IsConsistent cfg q
Reach-keeps h here = h
Reach-keeps h (next r s) = Step-IsConsistent s (Reach-keeps h r)

-- However the steps of calls interleave on a new executor, the books agree with the calls: a slot is
-- taken for each call between its send and its receive, never more than the capacity; the in-flight
-- counter, the total and the count of the rejected are those of the calls past each addition; and the
-- ring holds the latest durations.
pub Reach-IsConsistent :
    (cfg : Config) (e : Engine) (q : Pool)
    → new_engine cfg ≡ done e
    → Reach cfg (start e) q
    → IsConsistent cfg q
Reach-IsConsistent cfg e q h r = Reach-keeps (start-IsConsistent cfg e h) r

-- What has been observed or turned away is never forgotten.
pub Reach-grows :
    {cfg : Config} {p q : Pool}
    → Reach cfg p q
    → (length p.durations ≤ length q.durations) × (p.refused ≤ q.refused)
Reach-grows here = (omega arith, omega arith)
Reach-grows (next r s) =
    let (a, b) = Reach-grows r in
    let (c, d) = Step-grows s in (omega (arith, a, c), omega (arith, b, d))
  where
    Step-grows :
        {cfg : Config} {p q : Pool}
        → Step cfg p q
        → (length p.durations ≤ length q.durations) × (p.refused ≤ q.refused)
    Step-grows (send e) = (omega arith, omega arith)
    Step-grows (refuse e) = (omega arith, omega arith)
    Step-grows (reject n e) = (omega arith, omega arith)
    Step-grows (count n e) = (omega arith, omega arith)
    Step-grows (enter n e) = (omega arith, omega arith)
    Step-grows {p = p} (finish n d s e o) =
        (omega (arith, length-append p.durations (d ∷ [])), omega arith)
    Step-grows (leave n e) = (omega arith, omega arith)
    Step-grows (receive n e) = (omega arith, omega arith)
