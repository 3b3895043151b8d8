-- ===== src/Strings.antt =====
-- The functions of Go's `strings` and `strconv` packages that the program calls, over bytes.
pub mod Blank
pub mod Words
pub mod Join
pub mod Decimal
pub mod Parse
pub mod Paths
use code_sandbox.Prelude.{
  ℕ, zero, suc, ◌+◌, ◌-◌, ◌*◌, ◌/◌, ◌%◌, Bool, true, false, ◌&&◌, ◌||◌, Option, none, some, List,
  [], ◌∷◌, ◌++◌, ltb, leb, ◌==◌, if◌then◌else◌, length, Bytes, ℤ, pos, negsuc, ◌≡◌, refl, codes,
}

-- strings.HasPrefix
unfoldable pub has_prefix : Bytes → Bytes → Bool
has_prefix s [] = true
has_prefix [] (p ∷ ps) = false
has_prefix (c ∷ s) (p ∷ ps) = c == p && has_prefix s ps

reverse_onto : Bytes → Bytes → Bytes
reverse_onto [] out = out
reverse_onto (c ∷ s) out = reverse_onto s (c ∷ out)

-- strings.HasSuffix
unfoldable pub has_suffix : Bytes → Bytes → Bool
unfolding has_prefix reverse_onto
has_suffix s p = has_prefix (reverse_onto s []) (reverse_onto p [])

-- One scan from the left; the first argument counts the bytes of a match that are still to skip.
replace_from : ℕ → Bytes → Bytes → Bytes → Bytes
unfolding has_prefix
replace_from k old new [] = []
replace_from (suc k) old new (c ∷ s) = replace_from k old new s
replace_from zero old new (c ∷ s) =
    let hit = has_prefix (c ∷ s) old in
    (if hit then new else c ∷ []) ++ replace_from (if hit then length old - 1 else 0) old new s

-- strings.ReplaceAll, for an `old` that is not empty
unfoldable pub replace_all : Bytes → Bytes → Bytes → Bytes
unfolding replace_from
replace_all s old new = replace_from 0 old new s

-- A byte of the cutset is cut if nothing is left behind it.
unfoldable pub keep_unless : (ℕ → Bool) → ℕ → Bytes → Bytes
keep_unless cut c [] = if cut c then [] else c ∷ []
keep_unless cut c (d ∷ r) = c ∷ d ∷ r

-- strings.TrimRight, for a cutset of ASCII characters
unfoldable pub trim_right : (ℕ → Bool) → Bytes → Bytes
unfolding keep_unless
trim_right cut [] = []
trim_right cut (c ∷ s) = keep_unless cut c (trim_right cut s)

-- strings.Join
unfoldable pub join : List Bytes → Bytes → Bytes
join [] sep = []
join (p ∷ []) sep = p
join (p ∷ q ∷ ps) sep = p ++ (sep ++ join (q ∷ ps) sep)

-- The decimal digits of n before `out`, on fuel; `n` itself is fuel enough.
unfoldable pub digits : ℕ → ℕ → Bytes → Bytes
digits zero n out = (b'0' + n % 10) ∷ out
digits (suc f) n out =
    let rest = digits f (n / 10) ((b'0' + n % 10) ∷ out) in
    if ltb n 10 then (b'0' + n % 10) ∷ out else rest

-- strconv.Itoa, and strconv.FormatInt in base 10
unfoldable pub itoa : ℤ → Bytes
unfolding digits
itoa (pos n) = digits n n []
itoa (negsuc n) = b'-' ∷ digits (suc n) (suc n) []

itoa_tests :
    (itoa (pos 0) ≡ codes "0") × (itoa (pos 262) ≡ codes "262") × (itoa (negsuc 9) ≡ codes "-10")
unfolding itoa
itoa_tests = (refl, refl, refl)

replace_test : replace_all (codes "a{x}{x}b") (codes "{x}") (codes "{") ≡ codes "a{{b"
unfolding replace_all
replace_test = refl

has_suffix_tests :
    (has_suffix (codes "py.yaml") (codes ".yaml") ≡ true)
    × (has_suffix (codes "yaml") (codes ".yaml") ≡ false)
unfolding has_suffix
has_suffix_tests = (refl, refl)
