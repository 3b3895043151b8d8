-- ===== src/Executor/Stats/Snapshots.antt =====
-- What Snapshot reports of the ring.
use code_sandbox.Prelude.{
  In, ℕ, ◌-◌, ◌≤◌, ◌<◌, ◌≡◌, refl, ap, sym, ◌∙◌, some, List, arith, ℤ, ◌≤ℤ◌, quot, length,
  get_elem?, take, length-take,
}
use code_sandbox.Host.{done}
use code_sandbox.Executor.Stats.{
  Stats, StatsSnapshot, p_idx, sort, milliseconds, counters, four, percentiles, snapshot,
}
use code_sandbox.Executor.Stats.Sort.{
  sort-IsSorted, length-sort, sort-In_iff, IsSorted-get, get_elem?-In, In-get_elem?,
}

quot_mono : (a b : ℤ) → a ≤ℤ b → milliseconds a ≤ℤ milliseconds b
unfolding milliseconds quot
quot_mono a b h = ground arith

-- The samples that a snapshot is taken of.
abbrev pub samples_of : Stats → List ℤ
samples_of s = take s.ring_sz s.ring

-- A number that is the whole milliseconds of one of the samples.
abbrev pub IsSample : List ℤ → ℤ → Type 0
IsSample ds ms = (d : ℤ) × In d ds × (ms ≡ milliseconds d)

-- All but the percentiles is the same.
abbrev pub Kept : StatsSnapshot → StatsSnapshot → Type 0
Kept out out' =
    (out'.samples ≡ out.samples)
    × (out'.total ≡ out.total)
    × (out'.rejected ≡ out.rejected)
    × (out'.in_flight ≡ out.in_flight)
    × (out'.max_concurrency ≡ out.max_concurrency)
    × (out'.queue_depth ≡ out.queue_depth)

pub record Describes (ds : List ℤ) (out : StatsSnapshot) : Type 0 where
  pub p50_sample : IsSample ds out.p50_ms
  pub p95_sample : IsSample ds out.p95_ms
  pub p99_sample : IsSample ds out.p99_ms
  pub max_sample : IsSample ds out.max_ms
  pub p50-le-p95 : out.p50_ms ≤ℤ out.p95_ms
  pub p95-le-p99 : out.p95_ms ≤ℤ out.p99_ms
  pub p99-le-max : out.p99_ms ≤ℤ out.max_ms
  pub greatest : (d : ℤ) → In d ds → milliseconds d ≤ℤ out.max_ms

p_idx-lt : (n percent : ℕ) → 0 < n → p_idx n percent < n
unfolding p_idx
p_idx-lt n percent h = ground arith

p_idx_order : (n : ℕ) → (p_idx n 50 ≤ p_idx n 95) × (p_idx n 95 ≤ p_idx n 99)
unfolding p_idx
p_idx_order n = (ground arith, ground arith)

module _ (ds : List ℤ) (out : StatsSnapshot) (h : 0 < length ds) where
  rank : (i : ℕ) → i < length ds → (a : ℤ) × (get_elem? (sort ds) i ≡ some a) × In a ds
  rank i l =
      let (a, e, m) = get_elem?-In (sort ds) i (omega (arith, length-sort ds)) in
      (a, e, (sort-In_iff a ds).0 m)

  rank_mono :
      (i j : ℕ) (a b : ℤ)
      → i ≤ j
      → get_elem? (sort ds) i ≡ some a
      → get_elem? (sort ds) j ≡ some b
      → milliseconds a ≤ℤ milliseconds b
  rank_mono i j a b l p q = quot_mono a b (IsSorted-get a b (sort ds) i j (sort-IsSorted ds) l p q)

  pub percentiles_describe :
      (out' : StatsSnapshot) × (percentiles (length ds) (sort ds) out ≡ done out')
      × Kept out out'
      × Describes ds out'
  unfolding percentiles four
  percentiles_describe =
      let n = length ds in
      let (a, ea, ma) = rank (p_idx n 50) (p_idx-lt n 50 h) in
      let (b, eb, mb) = rank (p_idx n 95) (p_idx-lt n 95 h) in
      let (c, ec, mc) = rank (p_idx n 99) (p_idx-lt n 99 h) in
      let (d, ed, md) = rank (n - 1) (omega arith) in
      (
        record out {
          p50_ms = milliseconds a;
          p95_ms = milliseconds b;
          p99_ms = milliseconds c;
          max_ms = milliseconds d;
        },
        rw (ea, eb, ec, ed),
        (refl, refl, refl, refl, refl, refl),
        record {
          p50_sample = (a, ma, refl);
          p95_sample = (b, mb, refl);
          p99_sample = (c, mc, refl);
          max_sample = (d, md, refl);
          p50-le-p95 = rank_mono (p_idx n 50) (p_idx n 95) a b (p_idx_order n).0 ea eb;
          p95-le-p99 = rank_mono (p_idx n 95) (p_idx n 99) b c (p_idx_order n).1 eb ec;
          p99-le-max = rank_mono (p_idx n 99) (n - 1) c d (omega (arith, p_idx-lt n 99 h)) ec ed;
          greatest = λ x m.
              let (i, l, e) = In-get_elem? x (sort ds) ((sort-In_iff x ds).1 m) in
              rank_mono i (n - 1) x d (omega (arith, length-sort ds)) e ed;
        },
      )

pub snapshot_sorted :
    (s : Stats) (total rejected in_flight max_conc queue : ℤ)
    → s.ring_sz ≤ length s.ring
    → 0 < s.ring_sz
    → snapshot s total rejected in_flight max_conc queue
      ≡ percentiles s.ring_sz
          (sort (samples_of s))
          (counters s.ring_sz total rejected in_flight max_conc queue)
unfolding snapshot
snapshot_sorted s total rejected in_flight max_conc queue fits some_samples = ground arith

-- With samples in the ring, Snapshot never panics, whatever the loads of the counters give: each percentile is one of the samples, in whole
-- milliseconds, they are in order, and the maximum is the greatest sample.
pub snapshot-Describes :
    (s : Stats) (total rejected in_flight max_conc queue : ℤ)
    → s.ring_sz ≤ length s.ring
    → 0 < s.ring_sz
    → (out : StatsSnapshot) × (snapshot s total rejected in_flight max_conc queue ≡ done out)
      × (out.samples ≡ s.ring_sz)
      × Describes (samples_of s) out
snapshot-Describes s total rejected in_flight max_conc queue fits some_samples =
    let base = counters s.ring_sz total rejected in_flight max_conc queue in
    let n : length (samples_of s) ≡ s.ring_sz = omega (arith, length-take s.ring_sz s.ring) in
    let (out, e, m, d) = percentiles_describe (samples_of s) base (omega (arith, n)) in
    (
      out,
      snapshot_sorted s total rejected in_flight max_conc queue fits some_samples
          ∙ ap (λ k. percentiles k (sort (samples_of s)) base) (sym n)
          ∙ e,
      m.0,
      d,
    )
