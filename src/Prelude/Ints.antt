-- ===== src/Prelude/Ints.antt =====
-- Go's signed integers. A value is a ℤ; where the source computes in 64 bits and may wrap around,
-- the wrap is written out by `int64`.
use code_sandbox.Prelude.Names.{ℕ, suc, ◌+◌, ◌-◌, ◌*◌, ◌/◌, ◌%◌, ◌^◌, ◌≤◌, ◌<◌, ◌≡◌, Bool, arith}
use code_sandbox.Prelude.Tests.{ltb, leb, if◌then◌else◌}

-- `negsuc n` is -(n + 1).
pub data ℤ : Type 0 where
  pos : ℕ → ℤ
  negsuc : ℕ → ℤ

abbrev pub pos_part : ℤ → ℕ
pos_part (pos n) = n
pos_part (negsuc n) = 0

abbrev pub neg_part : ℤ → ℕ
neg_part (pos n) = 0
neg_part (negsuc n) = suc n

-- a - b, as an integer.
abbrev pub sub_ℕ : ℕ → ℕ → ℤ
sub_ℕ a b = if leb b a then pos (a - b) else negsuc (b - a - 1)

infixl 65 ◌+ℤ◌ ◌-ℤ◌
infixl 70 ◌*ℤ◌
infix 50 ◌≤ℤ◌ ◌<ℤ◌
unfoldable pub ◌+ℤ◌ : ℤ → ℤ → ℤ
a +ℤ b = sub_ℕ (pos_part a + pos_part b) (neg_part a + neg_part b)

unfoldable pub ◌-ℤ◌ : ℤ → ℤ → ℤ
a -ℤ b = sub_ℕ (pos_part a + neg_part b) (neg_part a + pos_part b)

-- Multiplication by a count, such as the nanoseconds of a second.
unfoldable pub ◌*ℤ◌ : ℤ → ℕ → ℤ
pos n *ℤ k = pos (n * k)
negsuc n *ℤ k = sub_ℕ 0 (suc n * k)

-- Go's `/` by a positive divisor, which rounds towards zero.
unfoldable pub quot : ℤ → ℕ → ℤ
quot (pos n) k = pos (n / k)
quot (negsuc n) k = sub_ℕ 0 (suc n / k)

abbrev pub ◌≤ℤ◌ : ℤ → ℤ → Type 0
a ≤ℤ b = pos_part a + neg_part b ≤ pos_part b + neg_part a

abbrev pub ◌<ℤ◌ : ℤ → ℤ → Type 0
a <ℤ b = pos_part a + neg_part b < pos_part b + neg_part a

abbrev pub ltb_ℤ : ℤ → ℤ → Bool
ltb_ℤ a b = ltb (pos_part a + neg_part b) (pos_part b + neg_part a)

abbrev pub leb_ℤ : ℤ → ℤ → Bool
leb_ℤ a b = leb (pos_part a + neg_part b) (pos_part b + neg_part a)

-- The value that 64 bits hold, read as a signed number.
unfoldable pub of_word : ℕ → ℤ
of_word w = if ltb w (2 ^ 63) then pos w else negsuc (2 ^ 64 - 1 - w)

unfoldable pub int64 : ℤ → ℤ
unfolding of_word
int64 (pos n) = of_word (n % 2 ^ 64)
int64 (negsuc n) = of_word (2 ^ 64 - 1 - n % 2 ^ 64)

pub record FitsInt64 (z : ℤ) : Type 0 where
  pub below : pos_part z < 2 ^ 63
  pub above : neg_part z ≤ 2 ^ 63

-- A value that fits is not changed.
pub int64_of_fits : (z : ℤ) → FitsInt64 z → int64 z ≡ z
unfolding int64
int64_of_fits (pos n) h = let b = h.below in ground arith
int64_of_fits (negsuc n) h = let b = h.above in ground arith

pub int64-FitsInt64 : (z : ℤ) → FitsInt64 (int64 z)
unfolding int64
int64-FitsInt64 (pos n) = ground arith
int64-FitsInt64 (negsuc n) = ground arith
