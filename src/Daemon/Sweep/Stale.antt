-- ===== src/Daemon/Sweep/Stale.antt =====
-- Which directories the sweep removes.
use code_sandbox.Prelude.{
  In, ℕ, suc, ◌≡◌, ◌↔◌, refl, sym, ◌∙◌, ◌⊎◌, inl, inr, true, false, Bool-cases, Option, none, some,
  List, [], ◌∷◌, arith, ℤ, ◌-ℤ◌, ◌<ℤ◌, Bytes, codes, ok,
}
use code_sandbox.Strings.{has_prefix}
use code_sandbox.Strings.Paths.{join_path}
use code_sandbox.Daemon.Sweep.{
  count_removal, JobEntry, Disk, before_cutoff, is_stale, sweep_entry, sweep_entries,
  sweep_stale_jobs,
}

-- A job directory, last changed more than the maximal age ago.
pub record IsStale (disk : Disk) (max_age : ℤ) (e : JobEntry) : Type 0 where
  pub job : has_prefix e.name (codes "job-") ≡ true
  pub changed : ℤ
  pub known : e.mod_time ≡ some changed
  pub old : changed <ℤ (disk.now -ℤ max_age)

-- The path is that of a stale entry of the list.
abbrev pub OfStale : Disk → Bytes → ℤ → Bytes → List JobEntry → Type 0
OfStale disk root max_age p [] = ⊥
OfStale disk root max_age p (e ∷ es) =
    (IsStale disk max_age e × (join_path root e.name ≡ p)) ⊎ OfStale disk root max_age p es

-- How many of these paths can be removed.
pub removable : Disk → List Bytes → ℕ
removable disk [] = 0
removable disk (p ∷ ps) = elim (disk.remove_all p) [
  | none ↦ suc (removable disk ps)
  | some e ↦ removable disk ps
]

counted :
    (o : Option Bytes) (n k : ℕ) → n ≡ k → count_removal o n ≡ elim o [ none ↦ suc k | some e ↦ k ]
unfolding count_removal
counted none n k e = omega arith
counted (some x) n k e = e

module _ (disk : Disk) (root : Bytes) (max_age : ℤ) where
  before_cutoff-true :
      (cutoff : ℤ) (o : Option ℤ)
      → before_cutoff cutoff o ≡ true
      → (t : ℤ) × (o ≡ some t) × (t <ℤ cutoff)
  unfolding before_cutoff
  before_cutoff-true cutoff none h = cc h
  before_cutoff-true cutoff (some t) h = (t, refl, ground arith)

  is_stale-IsStale :
      (e : JobEntry) → is_stale (disk.now -ℤ max_age) e ≡ true → IsStale disk max_age e
  unfolding is_stale
  is_stale-IsStale e h =
      let (t, k, o) = before_cutoff-true (disk.now -ℤ max_age) e.mod_time (ground arith) in
      record { job = ground arith; changed = t; known = k; old = o }

  IsStale-is_stale :
      (e : JobEntry) → IsStale disk max_age e → is_stale (disk.now -ℤ max_age) e ≡ true
  unfolding is_stale before_cutoff
  IsStale-is_stale e s = rw (s.job, s.known) (let o = s.old in ground arith)

  sweep_entries-removals :
      (es : List JobEntry) (p : Bytes)
      → In p (sweep_entries disk root (disk.now -ℤ max_age) es).removals
        ↔ OfStale disk root max_age p es
  unfolding sweep_entries sweep_entry
  sweep_entries-removals [] p = ((λ h. h), (λ h. h))
  sweep_entries-removals (e ∷ es) p =
      let (to, from) = sweep_entries-removals es p in
      elim (Bool-cases (is_stale (disk.now -ℤ max_age) e)) [
        | inl q ↦ rw q (
          (λ h. elim h [ inl x ↦ inl (is_stale-IsStale e q, x) | inr x ↦ inr (to x) ]),
          (λ h. elim h [ inl x ↦ inl x.1 | inr x ↦ inr (from x) ]),
        )
        | inr q ↦
            rw q
              ((λ h. inr (to h)), (λ h. elim h [ inl x ↦ absurd (fresh e q x.0) | inr x ↦ from x ]))
      ]
    where
      fresh : (e : JobEntry) → is_stale (disk.now -ℤ max_age) e ≡ false → ¬ IsStale disk max_age e
      fresh e q s = let r = sym q ∙ IsStale-is_stale e s in cc r

  sweep_entries-removed :
      (es : List JobEntry)
      → (sweep_entries disk root (disk.now -ℤ max_age) es).removed
        ≡ removable disk (sweep_entries disk root (disk.now -ℤ max_age) es).removals
  unfolding sweep_entries sweep_entry removable
  sweep_entries-removed [] = refl
  sweep_entries-removed (e ∷ es) = elim (Bool-cases (is_stale (disk.now -ℤ max_age) e)) [
    | inl q ↦ rw q (
        counted (disk.remove_all (join_path root e.name))
          (sweep_entries disk root (disk.now -ℤ max_age) es).removed _ (sweep_entries-removed es))
    | inr q ↦ rw q (sweep_entries-removed es)
  ]

  -- sweepStaleJobs removes exactly the entries of the root whose name begins with "job-" and whose
  -- modification time is known and earlier than the maximal age allows, and counts those of them whose
  -- removal succeeds.
  pub sweep_stale_jobs-removals :
      (es : List JobEntry) (p : Bytes)
      → disk.read_dir root ≡ ok es
      → (In p (sweep_stale_jobs disk root max_age).removals ↔ OfStale disk root max_age p es)
        × ((sweep_stale_jobs disk root max_age).removed
            ≡ removable disk (sweep_stale_jobs disk root max_age).removals)
  unfolding sweep_stale_jobs
  sweep_stale_jobs-removals es p h =
      rw (h, sweep_stale_jobs) (sweep_entries-removals es p, sweep_entries-removed es)
