-- ===== src/Strings/Decimal.antt =====
-- What strconv.Itoa prints.
use code_sandbox.Prelude.{
  ℕ, zero, suc, ◌+◌, ◌/◌, ◌%◌, ◌≤◌, ◌≡◌, ◌≢◌, refl, arith, ltb, Bool-cases, inl, inr, [], ◌∷◌,
  Bytes, ℤ, pos, negsuc,
}
use code_sandbox.Strings.{digits, itoa}

-- A number is printed as one digit or more.
pub digits_head :
    (f n : ℕ) (out : Bytes) → (c : ℕ) × (r : Bytes) × (digits f n out ≡ c ∷ r) × (b'0' ≤ c)
unfolding digits
digits_head zero n out = (b'0' + n % 10, out, refl, omega arith)
digits_head (suc f) n out = elim (Bool-cases (ltb n 10)) [
  | inl e ↦ rw e (b'0' + n % 10, out, refl, omega arith)
  | inr e ↦ rw e (digits_head f (n / 10) ((b'0' + n % 10) ∷ out))
]

-- No number is printed as "--".
pub itoa-ne-dashes : (z : ℤ) → itoa z ≢ b'-' ∷ b'-' ∷ []
unfolding itoa
itoa-ne-dashes (pos n) h = let (c, r, e, l) = digits_head n n [] in ground arith
itoa-ne-dashes (negsuc n) h = let (c, r, e, l) = digits_head (suc n) (suc n) [] in ground arith
