-- ===== src/Strings/Parse.antt =====
-- strconv.Atoi, and that it reads back what strconv.Itoa prints.
use code_sandbox.Prelude.{
  ◌⊎◌, inr, ◌<◌, ℕ, zero, suc, ◌+◌, ◌-◌, ◌*◌, ◌/◌, ◌%◌, ◌≤◌, ◌<◌, ◌^◌, ◌≡◌, refl, sym, ap, ◌∙◌,
  true, ◌&&◌, Bool-cases, inl, inr, Option, none, some, [], ◌∷◌, arith, ltb, ltb→lt, leb, ◌==◌,
  if◌then◌else◌, ℤ, pos, negsuc, Bytes, codes, FitsInt64,
}
use code_sandbox.Strings.{digits, itoa}
use code_sandbox.Strings.Decimal.{digits_head}

-- The number that the digits continue, if they are digits.
unfoldable pub read_digits : ℕ → Bytes → Option ℕ
read_digits n [] = some n
read_digits n (c ∷ s) =
    let rest = read_digits (n * 10 + (c - b'0')) s in
    if leb b'0' c && leb c b'9' then rest else none

-- One digit or more.
unfoldable pub magnitude : Bytes → Option ℕ
unfolding read_digits
magnitude [] = none
magnitude (c ∷ s) = read_digits 0 (c ∷ s)

-- A number above the range of int64 is an error, and below it too.
unfoldable pub positive : Option ℕ → Option ℤ
positive none = none
positive (some n) = if ltb n (2 ^ 63) then some (pos n) else none

unfoldable pub negative : Option ℕ → Option ℤ
negative none = none
negative (some zero) = some (pos 0)
negative (some (suc n)) = if ltb n (2 ^ 63) then some (negsuc n) else none

-- Atoi; an error is `none`
unfoldable pub atoi : Bytes → Option ℤ
unfolding magnitude positive negative
atoi [] = none
atoi (c ∷ s) =
    if c == b'-'
    then negative (magnitude s)
    else if c == b'+'
    then positive (magnitude s)
    else positive (magnitude (c ∷ s))

atoi_tests :
    (atoi (codes "-12") ≡ some (negsuc 11))
    × (atoi (codes "+7") ≡ some (pos 7))
    × (atoi (codes "1_0") ≡ none)
    × (atoi (codes "-") ≡ none)
    × (atoi (codes "9223372036854775808") ≡ none)
    × (atoi (codes "-9223372036854775808") ≡ some (negsuc (2 ^ 63 - 1)))
unfolding atoi
atoi_tests = (refl, refl, refl, refl, refl, refl)

read_digit :
    (a d : ℕ) (s : Bytes) → d < 10 → read_digits a ((b'0' + d) ∷ s) ≡ read_digits (a * 10 + d) s
unfolding read_digits
read_digit a d s h = rw (in_range, value) refl
  where
    value : b'0' + d - b'0' ≡ d
    value = omega arith

    in_range : (leb b'0' (b'0' + d) && leb (b'0' + d) b'9') ≡ true
    in_range = ground arith

read_digits-digits :
    (f n : ℕ) (out : Bytes) → n ≤ f → read_digits 0 (digits f n out) ≡ read_digits n out
unfolding digits
read_digits-digits zero n out h =
    read_digit 0 (n % 10) out (omega arith) ∙ ap (λ k. read_digits k out) (omega arith)
read_digits-digits (suc f) n out h = elim (Bool-cases (ltb n 10)) [
  | inl e ↦ rw e (
      read_digit 0 (n % 10) out (omega arith)
      ∙ ap (λ k. read_digits k out) (omega (arith, ltb→lt n 10 e)))
  | inr e ↦ rw e (
      read_digits-digits f (n / 10) ((b'0' + n % 10) ∷ out) (omega arith)
      ∙ read_digit (n / 10) (n % 10) out (omega arith)
      ∙ ap (λ k. read_digits k out) (omega arith))
]

magnitude-digits : (n : ℕ) → magnitude (digits n n []) ≡ some n
unfolding magnitude
magnitude-digits n =
    let (c, r, e, l) = digits_head n n [] in
    ap magnitude e
    ∙ ap (read_digits 0) (sym e)
    ∙ read_digits-digits n n [] (omega arith)
    ∙ (unfold read_digits in refl)

unsigned : (c : ℕ) (r : Bytes) → b'0' ≤ c → atoi (c ∷ r) ≡ positive (magnitude (c ∷ r))
unfolding atoi
unsigned c r h = ground arith

signed : (s : Bytes) → atoi (b'-' ∷ s) ≡ negative (magnitude s)
unfolding atoi
signed s = refl

-- Atoi reads back what Itoa prints of each int.
pub atoi-itoa : (z : ℤ) → FitsInt64 z → atoi (itoa z) ≡ some z
unfolding itoa positive negative
atoi-itoa (pos n) h =
    let (c, r, e, l) = digits_head n n [] in
    ap atoi e
    ∙ unsigned c r l
    ∙ ap (λ s. positive (magnitude s)) (sym e)
    ∙ ap positive (magnitude-digits n)
    ∙ ground arith
atoi-itoa (negsuc n) h =
    signed (digits (suc n) (suc n) []) ∙ ap negative (magnitude-digits (suc n)) ∙ ground arith

-- Some byte is no digit.
abbrev pub HasOther : Bytes → Type 0
HasOther [] = ⊥
HasOther (c ∷ s) = (c < 48) ⊎ (57 < c) ⊎ HasOther s

read_digits-HasOther : (n : ℕ) (s : Bytes) → HasOther s → read_digits n s ≡ none
unfolding read_digits
read_digits-HasOther n [] h = elim h [ ]
read_digits-HasOther n (c ∷ s) h = ground (arith, read_digits-HasOther (n * 10 + (c - 48)) s)

magnitude-HasOther : (s : Bytes) → HasOther s → magnitude s ≡ none
unfolding magnitude
magnitude-HasOther [] h = refl
magnitude-HasOther (c ∷ s) h = read_digits-HasOther 0 (c ∷ s) h

pub atoi-HasOther : (c : ℕ) (s : Bytes) → HasOther s → atoi (c ∷ s) ≡ none
unfolding atoi positive negative
atoi-HasOther c s h =
    ground (arith, magnitude-HasOther s h, magnitude-HasOther (c ∷ s) (inr (inr h)))
