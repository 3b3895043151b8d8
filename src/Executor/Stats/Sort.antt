-- ===== src/Executor/Stats/Sort.antt =====
-- Sorting of durations.
use code_sandbox.Prelude.{
  In, ℕ, zero, suc, ◌≤◌, ◌<◌, ◌≡◌, refl, ap, ◌∙◌, ◌⊎◌, inl, inr, Bool-cases, some, List, [], ◌∷◌,
  arith, ℤ, ◌≤ℤ◌, leb_ℤ, length, get_elem?,
}
use code_sandbox.Executor.Stats.{insert_sorted, sort}

-- Every element is at least d.
abbrev AllFrom : ℤ → List ℤ → Type 0
AllFrom d [] = Unit {0}
AllFrom d (x ∷ xs) = (d ≤ℤ x) × AllFrom d xs

abbrev IsSorted : List ℤ → Type 0
IsSorted [] = Unit {0}
IsSorted (x ∷ xs) = AllFrom x xs × IsSorted xs

AllFrom-mono : (c d : ℤ) (xs : List ℤ) → c ≤ℤ d → AllFrom d xs → AllFrom c xs
AllFrom-mono c d [] h a = tt
AllFrom-mono c d (x ∷ xs) h a = (omega arith, AllFrom-mono c d xs h a.1)

insert_sorted-AllFrom :
    (c d : ℤ) (xs : List ℤ) → c ≤ℤ d → AllFrom c xs → AllFrom c (insert_sorted d xs)
unfolding insert_sorted
insert_sorted-AllFrom c d [] h a = (h, tt)
insert_sorted-AllFrom c d (x ∷ xs) h a = ground (arith, insert_sorted-AllFrom c d xs h a.1)

insert_sorted-IsSorted : (d : ℤ) (xs : List ℤ) → IsSorted xs → IsSorted (insert_sorted d xs)
unfolding insert_sorted
insert_sorted-IsSorted d [] h = (tt, tt)
insert_sorted-IsSorted d (x ∷ xs) h = elim (Bool-cases (leb_ℤ d x)) [
  | inl e ↦ rw e (((ground arith), AllFrom-mono d x xs (ground arith) h.0), h)
  | inr e ↦ rw e (insert_sorted-AllFrom x d xs (ground arith) h.0, insert_sorted-IsSorted d xs h.1)
]

pub sort-IsSorted : (xs : List ℤ) → IsSorted (sort xs)
unfolding sort
sort-IsSorted [] = tt
sort-IsSorted (x ∷ xs) = insert_sorted-IsSorted x (sort xs) (sort-IsSorted xs)

length-insert_sorted : (d : ℤ) (xs : List ℤ) → length (insert_sorted d xs) ≡ suc (length xs)
unfolding insert_sorted
length-insert_sorted d [] = refl
length-insert_sorted d (x ∷ xs) = ground (arith, length-insert_sorted d xs)

pub length-sort : (xs : List ℤ) → length (sort xs) ≡ length xs
unfolding sort
length-sort [] = refl
length-sort (x ∷ xs) = length-insert_sorted x (sort xs) ∙ ap suc (length-sort xs)

insert_sorted-In : (c d : ℤ) (xs : List ℤ) → In c (insert_sorted d xs) → (d ≡ c) ⊎ In c xs
unfolding insert_sorted
insert_sorted-In c d [] h = h
insert_sorted-In c d (x ∷ xs) h = ground (arith, insert_sorted-In c d xs)

sort-In : (c : ℤ) (xs : List ℤ) → In c (sort xs) → In c xs
unfolding sort
sort-In c [] h = h
sort-In c (x ∷ xs) h = ground (arith, insert_sorted-In c x (sort xs) h, sort-In c xs)

In-insert_sorted : (c d : ℤ) (xs : List ℤ) → (d ≡ c) ⊎ In c xs → In c (insert_sorted d xs)
unfolding insert_sorted
In-insert_sorted c d [] h = h
In-insert_sorted c d (x ∷ xs) h = ground (arith, In-insert_sorted c d xs)

In-sort : (c : ℤ) (xs : List ℤ) → In c xs → In c (sort xs)
unfolding sort
In-sort c [] h = h
In-sort c (x ∷ xs) (inl e) = In-insert_sorted c x (sort xs) (inl e)
In-sort c (x ∷ xs) (inr m) = In-insert_sorted c x (sort xs) (inr (In-sort c xs m))

-- Sorting keeps the elements.
pub sort-In_iff : (c : ℤ) (xs : List ℤ) → (In c (sort xs) → In c xs) × (In c xs → In c (sort xs))
sort-In_iff c xs = (sort-In c xs, In-sort c xs)

AllFrom-get : (d a : ℤ) (xs : List ℤ) (i : ℕ) → AllFrom d xs → get_elem? xs i ≡ some a → d ≤ℤ a
AllFrom-get d a [] i h e = cc
AllFrom-get d a (x ∷ xs) zero h e = ground arith
AllFrom-get d a (x ∷ xs) (suc i) h e = AllFrom-get d a xs i h.1 e

-- In a sorted list a later element is not smaller.
pub IsSorted-get :
    (a b : ℤ) (xs : List ℤ) (i j : ℕ)
    → IsSorted xs
    → i ≤ j
    → get_elem? xs i ≡ some a
    → get_elem? xs j ≡ some b
    → a ≤ℤ b
IsSorted-get a b [] i j h l p q = cc
IsSorted-get a b (x ∷ xs) zero zero h l p q = ground arith
IsSorted-get a b (x ∷ xs) zero (suc j) h l p q = AllFrom-get a b xs j (subst_head x a xs h.0 p) q
  where
    subst_head : (x a : ℤ) (xs : List ℤ) → AllFrom x xs → some x ≡ some a → AllFrom a xs
    subst_head x a xs h p = AllFrom-mono a x xs (ground arith) h
IsSorted-get a b (x ∷ xs) (suc i) zero h l p q = absurd (omega arith)
IsSorted-get a b (x ∷ xs) (suc i) (suc j) h l p q = IsSorted-get a b xs i j h.1 (omega arith) p q

-- An index below the length has an element, which is one of the list's.
pub get_elem?-In :
    (xs : List ℤ) (i : ℕ) → i < length xs → (a : ℤ) × (get_elem? xs i ≡ some a) × In a xs
get_elem?-In [] i h = elim h [ ]
get_elem?-In (x ∷ xs) zero h = (x, refl, inl refl)
get_elem?-In (x ∷ xs) (suc i) h = let (a, e, m) = get_elem?-In xs i (omega arith) in (a, e, inr m)

-- An element of the list stands at an index.
pub In-get_elem? :
    (a : ℤ) (xs : List ℤ) → In a xs → (i : ℕ) × (i < length xs) × (get_elem? xs i ≡ some a)
In-get_elem? a [] h = elim h [ ]
In-get_elem? a (x ∷ xs) (inl e) = (0, omega arith, ap some e)
In-get_elem? a (x ∷ xs) (inr m) = let (i, l, e) = In-get_elem? a xs m in (suc i, omega arith, e)
