-- ===== src/Strings/Words.antt =====
-- `strings.Fields`, and what the comparison of outputs needs of it.
use code_sandbox.Prelude.{
  ℕ, zero, suc, ◌≡◌, refl, ap, Option, none, some, List, [], ◌∷◌, ◌++◌, append-nil, length,
  replicate, Bytes, codes,
}
use code_sandbox.Strings.Blank.{AllBlank, marks, marks-append_blank}

unfoldable pub emit : Bytes → List Bytes
emit [] = []
emit (c ∷ s) = (c ∷ s) ∷ []

-- The maximal runs of bytes; the second argument is the run so far.
unfoldable pub runs : List (Option ℕ) → Bytes → List Bytes
unfolding emit
runs [] cur = emit cur
runs (none ∷ m) cur = emit cur ++ runs m []
runs (some c ∷ m) cur = runs m (cur ++ c ∷ [])

-- strings.Fields
unfoldable pub fields : Bytes → List Bytes
unfolding runs marks
fields s = runs (marks 0 s) []

fields_tests :
    (fields (codes "  hello\tworld\n") ≡ codes "hello" ∷ codes "world" ∷ [])
    × (fields (0x61 ∷ 0xE2 ∷ 0x80 ∷ 0x83 ∷ 0x62 ∷ []) ≡ codes "a" ∷ codes "b" ∷ [])
    × (fields (codes " \n ") ≡ [])
unfolding fields
fields_tests = (refl, refl, refl)

runs_blank : (n : ℕ) (cur : Bytes) → runs (replicate n none) cur ≡ emit cur
unfolding runs
runs_blank zero cur = refl
runs_blank (suc n) cur = rw (runs_blank n []) (append-nil (emit cur))

runs-append_blank :
    (m : List (Option ℕ)) (n : ℕ) (cur : Bytes) → runs (m ++ replicate n none) cur ≡ runs m cur
unfolding runs
runs-append_blank [] n cur = runs_blank n cur
runs-append_blank (none ∷ m) n cur = ap (λ r. emit cur ++ r) (runs-append_blank m n [])
runs-append_blank (some c ∷ m) n cur = runs-append_blank m n (cur ++ c ∷ [])

-- White space at the end of a text does not change its fields.
pub fields-append_blank : (s w : Bytes) → AllBlank w → fields (s ++ w) ≡ fields s
unfolding fields
fields-append_blank s w h =
    rw (marks-append_blank 0 s w h) (runs-append_blank (marks 0 s) (length w) [])
