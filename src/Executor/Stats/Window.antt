-- ===== src/Executor/Stats/Window.antt =====
-- The ring holds the latest observations.
use code_sandbox.Prelude.{
  ℕ, suc, ◌+◌, ◌%◌, ◌≤◌, ◌<◌, ◌≡◌, ◌≢◌, refl, sym, ◌∙◌, some, List, [], ◌∷◌, ◌++◌, arith, ltb,
  lt→ltb, if◌then◌else◌, ℤ, pos, length, length-append, length-set, length-replicate, set,
  get_elem?, get_elem?-set_self, get_elem?-set_ne, get_elem?-append_left, min,
}
use native.Mathlib.Decide.{ℕ_discrete}
use code_sandbox.Host.{done}
use code_sandbox.Executor.Stats.{Stats, ring_cap, new_stats, observe}

-- The state after a history of observations, the oldest first: slot i % 1024 holds the i-th one, for
-- each of the latest 1024.
pub record Holds (history : List ℤ) (s : Stats) : Type 0 where
  pub capacity : length s.ring ≡ ring_cap
  pub next : s.ring_idx ≡ length history % ring_cap
  pub size : s.ring_sz ≡ min (length history) ring_cap
  pub slots :
      (i : ℕ)
      → i < length history
      → length history ≤ i + ring_cap
      → get_elem? s.ring (i % ring_cap) ≡ get_elem? history i

get_elem?-append_last : (xs : List ℤ) (d : ℤ) → get_elem? (xs ++ d ∷ []) (length xs) ≡ some d
get_elem?-append_last [] d = refl
get_elem?-append_last (x ∷ xs) d = get_elem?-append_last xs d

pub new_stats-Holds : Holds [] new_stats
unfolding new_stats
new_stats-Holds = record {
  capacity = length-replicate ring_cap (pos 0);
  next = refl;
  size = omega arith;
  slots = λ i h. elim h [ ];
}

-- What one observation leaves.
unfoldable pub observed : Stats → ℤ → Stats
observed s d = record s {
  ring = set s.ring s.ring_idx d;
  ring_idx = (s.ring_idx + 1) % ring_cap;
  ring_sz = if ltb s.ring_sz ring_cap then s.ring_sz + 1 else s.ring_sz;
}

pub observe_done :
    (history : List ℤ) (s : Stats) (d : ℤ) → Holds history s → observe s d ≡ done (observed s d)
unfolding observe observed
observe_done history s d h =
    rw (lt→ltb s.ring_idx (length s.ring) (omega (arith, h.capacity, h.next)))

slots_step :
    (history : List ℤ) (s : Stats) (d : ℤ)
    → Holds history s
    → (i : ℕ) → i < suc (length history)
    → suc (length history) ≤ i + ring_cap
    → get_elem? (set s.ring s.ring_idx d) (i % ring_cap) ≡ get_elem? (history ++ d ∷ []) i
slots_step history s d h i lt le = elim (ℕ_discrete i (length history)) [
  | yes e ↦
      rw (e, ← h.next)
        (get_elem?-set_self s.ring s.ring_idx d (omega (arith, h.capacity, h.next))
          ∙ sym (get_elem?-append_last history d))
  | no ne ↦
      get_elem?-set_ne s.ring d (apart ne)
      ∙ h.slots i (omega arith) (omega arith)
      ∙ sym (get_elem?-append_left history (d ∷ []) i (omega arith))
]
  where
    apart : i ≢ length history → s.ring_idx ≢ i % ring_cap
    apart ne = omega (arith, h.next)

pub observed-Holds :
    (history : List ℤ) (s : Stats) (d : ℤ)
    → Holds history s
    → Holds (history ++ d ∷ []) (observed s d)
unfolding observed
observed-Holds history s d h =
    let n : length (history ++ d ∷ []) ≡ suc (length history) =
      omega (arith, length-append history (d ∷ [])) in
    record {
      capacity = length-set s.ring s.ring_idx d ∙ h.capacity;
      next = rw n (omega (arith, h.next));
      size = rw n (ground (arith, h.size));
      slots = λ i lt le. slots_step history s d h i (omega (arith, n)) (omega (arith, n));
    }

-- One observation never panics, and adds itself to the history that the ring stands for.
pub observe-Holds :
    (history : List ℤ) (s : Stats) (d : ℤ)
    → Holds history s
    → (s' : Stats) × (observe s d ≡ done s') × Holds (history ++ d ∷ []) s'
observe-Holds history s d h =
    (observed s d, observe_done history s d h, observed-Holds history s d h)
