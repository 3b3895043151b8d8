-- ===== src/Executor/Stats.antt =====
-- internal/executor/stats.go: the counters and the ring of recent latencies.
-- Durations are nanoseconds. Observe and the copy of Snapshot hold the lock and are one step each;
-- every addition to a counter and every load of one is a step of its own.
pub mod Sort
pub mod Snapshots
pub mod Window
pub mod Latest
use code_sandbox.Prelude.{
  ℕ, zero, suc, ◌+◌, ◌-◌, ◌*◌, ◌/◌, ◌%◌, ◌≤◌, ◌<◌, ◌≡◌, refl, Bool, true, false, Option, none, some,
  List, [], ◌∷◌, ltb, leb, ◌==◌, if◌then◌else◌, ℤ, pos, negsuc, ◌+ℤ◌, ◌-ℤ◌, leb_ℤ, quot, length,
  set, get_elem?, take, replicate,
}
use code_sandbox.Host.{Out, done, panicked}

abbrev pub ring_cap : ℕ
ring_cap = 1024

-- Stats
pub record Stats : Type 0 where
  pub total : ℤ
  pub rejected : ℤ
  pub in_flight : ℤ
  pub ring : List ℤ
  pub ring_idx : ℕ
  pub ring_sz : ℕ

-- NewStats
unfoldable pub new_stats : Stats
new_stats = record {
  total = pos 0;
  rejected = pos 0;
  in_flight = pos 0;
  ring = replicate ring_cap (pos 0);
  ring_idx = 0;
  ring_sz = 0;
}

-- s.total.Add(1)
abbrev pub add_total : Stats → Stats
add_total s = record s { total = s.total +ℤ pos 1 }

-- s.inFlight.Add(1)
abbrev pub add_in_flight : Stats → Stats
add_in_flight s = record s { in_flight = s.in_flight +ℤ pos 1 }

-- IncInFlight, whose two additions are two steps
unfoldable pub inc_in_flight : Stats → Stats
inc_in_flight s = add_in_flight (add_total s)

-- DecInFlight
unfoldable pub dec_in_flight : Stats → Stats
dec_in_flight s = record s { in_flight = s.in_flight -ℤ pos 1 }

-- IncRejected
unfoldable pub inc_rejected : Stats → Stats
inc_rejected s = record s { rejected = s.rejected +ℤ pos 1 }

-- Observe; a write past the end of the ring is a panic
unfoldable pub observe : Stats → ℤ → Out Stats
observe s d =
    if ltb s.ring_idx (length s.ring)
    then done (record s {
      ring = set s.ring s.ring_idx d;
      ring_idx = (s.ring_idx + 1) % ring_cap;
      ring_sz = if ltb s.ring_sz ring_cap then s.ring_sz + 1 else s.ring_sz;
    })
    else panicked

-- StatsSnapshot
pub record StatsSnapshot : Type 0 where
  pub total : ℤ
  pub rejected : ℤ
  pub in_flight : ℤ
  pub max_concurrency : ℤ
  pub queue_depth : ℤ
  pub samples : ℕ
  pub p50_ms : ℤ
  pub p95_ms : ℤ
  pub p99_ms : ℤ
  pub max_ms : ℤ

-- pIdx(n, percent / 100) for n > 0. int(float64(n) * p) is the whole part of n * percent / 100: for
-- p = 0.50, 0.95 and 0.99 and every n up to the ring's 1024 the float product does not cross a
-- whole number.
unfoldable pub p_idx : ℕ → ℕ → ℕ
p_idx n percent = let i = n * percent / 100 in if leb n i then n - 1 else i

-- sort.Slice by <, on values whose order is total: the sorted list is unique
unfoldable pub insert_sorted : ℤ → List ℤ → List ℤ
insert_sorted d [] = d ∷ []
insert_sorted d (x ∷ xs) = if leb_ℤ d x then d ∷ x ∷ xs else x ∷ insert_sorted d xs

unfoldable pub sort : List ℤ → List ℤ
unfolding insert_sorted
sort [] = []
sort (x ∷ xs) = insert_sorted x (sort xs)

-- Milliseconds
unfoldable pub milliseconds : ℤ → ℤ
milliseconds d = quot d 1_000_000

-- Four reads of the sorted copy, each of which panics past its end.
four : Option ℤ → Option ℤ → Option ℤ → Option ℤ → StatsSnapshot → Out StatsSnapshot
four (some a) (some b) (some c) (some d) out = done (record out {
  p50_ms = milliseconds a;
  p95_ms = milliseconds b;
  p99_ms = milliseconds c;
  max_ms = milliseconds d;
})
four _ _ _ _ out = panicked

pub percentiles : ℕ → List ℤ → StatsSnapshot → Out StatsSnapshot
unfolding four p_idx
percentiles n cp out =
    four (get_elem? cp (p_idx n 50)) (get_elem? cp (p_idx n 95)) (get_elem? cp (p_idx n 99))
      (get_elem? cp (n - 1)) out

-- The snapshot before its percentiles are filled in: the number of samples that were copied, and the
-- three counters as they were loaded.
abbrev pub counters : ℕ → ℤ → ℤ → ℤ → ℤ → ℤ → StatsSnapshot
counters n total rejected in_flight max_conc queue = record {
  total = total;
  rejected = rejected;
  in_flight = in_flight;
  max_concurrency = max_conc;
  queue_depth = queue;
  samples = n;
  p50_ms = pos 0;
  p95_ms = pos 0;
  p99_ms = pos 0;
  max_ms = pos 0;
}

-- Snapshot, of the state in which the ring is copied and of the values that the three loads after it
-- give; s.ring[:n] panics past the ring's capacity
pub snapshot : Stats → ℤ → ℤ → ℤ → ℤ → ℤ → Out StatsSnapshot
snapshot s total rejected in_flight max_conc queue =
    let n = s.ring_sz in
    let out = counters n total rejected in_flight max_conc queue in
    if ltb (length s.ring) n
    then panicked
    else if n == 0
    then done out
    else percentiles n (sort (take n s.ring)) out
