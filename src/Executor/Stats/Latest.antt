-- ===== src/Executor/Stats/Latest.antt =====
-- What Snapshot reports, described by the durations that were observed and not by the ring.
use code_sandbox.Prelude.{
  ℕ, ◌+◌, ◌-◌, ◌%◌, ◌≤◌, ◌<◌, ◌≡◌, refl, sym, ap, ◌∙◌, List, [], ◌∷◌, ◌++◌, append-nil, arith, ℤ,
  length, length-append, get_elem?, take, drop, take-append-drop, take_all, get_elem?-ext,
  get_elem?-drop, get_elem?-take, get_elem?-append_right, get_elem?-append_left, length-take,
  length-drop, min,
}
use native.Mathlib.Decide.{dec_lt}
use code_sandbox.Host.{Out, done}
use code_sandbox.Executor.Stats.{
  Stats, StatsSnapshot, ring_cap, insert_sorted, sort, counters, percentiles, snapshot,
}
use code_sandbox.Executor.Stats.Window.{Holds}
use code_sandbox.Executor.Stats.Snapshots.{
  Kept, Describes, percentiles_describe, snapshot_sorted, samples_of,
}

insert_sorted_comm :
    (a b : ℤ) (xs : List ℤ)
    → insert_sorted a (insert_sorted b xs) ≡ insert_sorted b (insert_sorted a xs)
unfolding insert_sorted
insert_sorted_comm a b [] = ground arith
insert_sorted_comm a b (x ∷ xs) = ground (arith, insert_sorted_comm a b xs)

sort_middle :
    (xs : List ℤ) (d : ℤ) (ys : List ℤ) → sort (xs ++ d ∷ ys) ≡ insert_sorted d (sort (xs ++ ys))
unfolding sort
sort_middle [] d ys = refl
sort_middle (x ∷ xs) d ys =
    ap (insert_sorted x) (sort_middle xs d ys) ∙ insert_sorted_comm x d (sort (xs ++ ys))

-- Sorting forgets where a list was cut and turned round.
sort-append_comm : (xs ys : List ℤ) → sort (xs ++ ys) ≡ sort (ys ++ xs)
unfolding sort
sort-append_comm [] ys = ap sort (sym (append-nil ys))
sort-append_comm (x ∷ xs) ys =
    ap (insert_sorted x) (sort-append_comm xs ys) ∙ sym (sort_middle ys x xs)

-- The durations that the ring holds, the oldest first.
abbrev pub latest : List ℤ → List ℤ
latest history = drop (length history - ring_cap) history

length-latest : (history : List ℤ) → length (latest history) ≡ min (length history) ring_cap
length-latest history = omega (arith, length-drop (length history - ring_cap) history)

module _ (history : List ℤ) (s : Stats) (h : Holds history s) where
  -- A ring that is not full yet begins with the durations.
  ring_part : length history ≤ ring_cap → take s.ring_sz s.ring ≡ latest history
  ring_part fits =
      let n : s.ring_sz ≡ length history = omega (arith, h.size) in
      let none_lost : length history - ring_cap ≡ 0 = omega arith in
      rw none_lost (
        get_elem?-ext (take s.ring_sz s.ring) history
          (omega (arith, length-take s.ring_sz s.ring, h.capacity))
          (λ i l.
            let small : i < s.ring_sz = omega (arith, length-take s.ring_sz s.ring) in
            get_elem?-take s.ring_sz s.ring i small
            ∙ ap (get_elem? s.ring) (mod_small i (omega arith))
            ∙ h.slots i (omega arith) (omega arith)))
    where
      mod_small : (i : ℕ) → i < 1024 → i ≡ i % 1024
      mod_small i l = omega arith

  -- Slot i holds the latest duration whose number is i, modulo the capacity.
  slot :
      (i j : ℕ)
      → j % ring_cap ≡ i
      → j < length history
      → length history ≤ j + ring_cap
      → get_elem? s.ring i ≡ get_elem? history j
  slot i j e l k = ap (get_elem? s.ring) (sym e) ∙ h.slots j l k

  -- Where the oldest duration of a full ring stands, counted from the end.
  abbrev turn : ℕ
  turn = ring_cap - length history % ring_cap

  turned : List ℤ
  turned = drop turn (latest history) ++ take turn (latest history)

  length-newer :
      ring_cap ≤ length history → length (drop turn (latest history)) ≡ length history % ring_cap
  length-newer full = omega (arith, length-drop turn (latest history), length-latest history)

  slot-turned :
      ring_cap ≤ length history → (i : ℕ) → i < ring_cap → get_elem? s.ring i ≡ get_elem? turned i
  unfolding turned
  slot-turned full i l = elim (dec_lt i (length history % ring_cap)) [
    | yes newer ↦
        slot i (length history - ring_cap + (turn + i)) (omega arith) (omega arith) (omega arith)
        ∙ sym (
            get_elem?-append_left (drop turn (latest history)) (take turn (latest history)) i
              (omega (arith, length-newer full))
            ∙ get_elem?-drop turn (latest history) i
            ∙ get_elem?-drop (length history - ring_cap) history (turn + i))
    | no older ↦
        let j = i - length history % ring_cap in
        slot i (length history - ring_cap + j) (omega arith) (omega arith) (omega arith)
        ∙ sym (
            ap (get_elem? turned) (omega (arith, length-newer full))
            ∙ get_elem?-append_right (drop turn (latest history)) (take turn (latest history)) j
            ∙ get_elem?-take turn (latest history) j (omega arith)
            ∙ get_elem?-drop (length history - ring_cap) history j)
  ]

  length-turned : ring_cap ≤ length history → length turned ≡ ring_cap
  unfolding turned
  length-turned full = omega (
    arith,
    length-append (drop turn (latest history)) (take turn (latest history)),
    length-newer full,
    length-take turn (latest history),
    length-latest history,
  )

  ring_full : ring_cap ≤ length history → s.ring ≡ turned
  ring_full full =
      get_elem?-ext s.ring turned (h.capacity ∙ sym (length-turned full))
        (λ i l. slot-turned full i (omega (arith, h.capacity)))

  sort-turned : sort turned ≡ sort (take turn (latest history) ++ drop turn (latest history))
  unfolding turned
  sort-turned = sort-append_comm (drop turn (latest history)) (take turn (latest history))

  -- The samples of a snapshot are the latest durations, up to their order.
  sort-samples : sort (samples_of s) ≡ sort (latest history)
  sort-samples = elim (dec_lt (length history) ring_cap) [
    | yes part ↦ ap sort (ring_part (omega arith))
    | no full ↦
        let f : ring_cap ≤ length history = omega arith in
        ap sort (take_all s.ring_sz s.ring (omega (arith, h.size, h.capacity)) ∙ ring_full f)
        ∙ sort-turned
        ∙ ap sort (take-append-drop turn (latest history))
  ]

-- What a snapshot says of a row of durations: nothing if there is none, and otherwise the percentiles
-- of the latest 1024 of them.
unfoldable pub report : List ℤ → StatsSnapshot → Out StatsSnapshot
report [] out = done out
report (d ∷ ds) out = percentiles (length (latest (d ∷ ds))) (sort (latest (d ∷ ds))) out

-- Snapshot, read from the ring, is the report of the durations that were observed: however often the
-- ring has wrapped round, the percentiles are those of the latest 1024. The counters are as loaded.
pub snapshot-report :
    (history : List ℤ) (s : Stats) (total rejected in_flight max_conc queue : ℤ)
    → Holds history s
    → snapshot s total rejected in_flight max_conc queue
      ≡ report history (counters s.ring_sz total rejected in_flight max_conc queue)
unfolding report snapshot
snapshot-report [] s total rejected in_flight max_conc queue h = ground (arith, h.size)
snapshot-report (d ∷ ds) s total rejected in_flight max_conc queue h =
    let n : length (latest (d ∷ ds)) ≡ s.ring_sz = omega (arith, length-latest (d ∷ ds), h.size) in
    snapshot_sorted s total rejected in_flight max_conc queue (omega (arith, h.size, h.capacity))
      (omega (arith, h.size))
    ∙ ap
        (λ k.
          percentiles k (sort (samples_of s))
            (counters s.ring_sz total rejected in_flight max_conc queue))
        (sym n)
    ∙ ap
        (λ l.
          percentiles (length (latest (d ∷ ds))) l
            (counters s.ring_sz total rejected in_flight max_conc queue))
        (sort-samples (d ∷ ds) s h)

-- What a report says of a row of durations, apart from the counters.
abbrev pub Reports : List ℤ → StatsSnapshot → Type 0
Reports [] out = Unit {0}
Reports (d ∷ ds) out = Describes (latest (d ∷ ds)) out

pub report-Reports :
    (history : List ℤ) (out : StatsSnapshot)
    → (out' : StatsSnapshot) × (report history out ≡ done out')
      × Kept out out'
      × Reports history out'
unfolding report
report-Reports [] out = (out, refl, (refl, refl, refl, refl, refl, refl), tt)
report-Reports (d ∷ ds) out =
    percentiles_describe (latest (d ∷ ds)) out (omega (arith, length-latest (d ∷ ds)))
