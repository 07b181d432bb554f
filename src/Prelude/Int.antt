-- ===== src/Prelude/Int.antt =====
-- Signed integers, over the native numbers. Go's `int` has 64 bits, and the values here are far
-- from its ends, so the operations do not wrap.
use maeve_csms_reservations.Prelude.{ℕ, suc, ◌+◌, ◌-◌, leb, if◌then◌else◌, ◌%◌, ◌<◌, ◌≡◌, arith}

-- `negsuc n` is -(n + 1).
pub data ℤ : Type 0 where
  pos : ℕ → ℤ
  negsuc : ℕ → ℤ

abbrev pub pos_part : ℤ → ℕ
pos_part (pos n) = n
pos_part (negsuc n) = 0

abbrev pub neg_part : ℤ → ℕ
neg_part (pos n) = 0
neg_part (negsuc n) = suc n

-- a - b, as an integer.
abbrev pub sub_ℕ : ℕ → ℕ → ℤ
sub_ℕ a b = if leb b a then pos (a - b) else negsuc (b - a - 1)

infixl 65 ◌+ℤ◌ ◌-ℤ◌
unfoldable pub ◌+ℤ◌ : ℤ → ℤ → ℤ
a +ℤ b = sub_ℕ (pos_part a + pos_part b) (neg_part a + neg_part b)

unfoldable pub ◌-ℤ◌ : ℤ → ℤ → ℤ
a -ℤ b = sub_ℕ (pos_part a + neg_part b) (neg_part a + pos_part b)

-- The conversion of an `int` to an `int8`, which keeps the last eight bits.
unfoldable pub to_int8 : ℤ → ℤ
to_int8 (pos n) = sub_ℕ ((n + 128) % 256) 128
to_int8 (negsuc n) = sub_ℕ ((383 - n % 256) % 256) 128

pub to_int8_id : (n : ℕ) → n < 128 → to_int8 (pos n) ≡ pos n
unfolding to_int8
to_int8_id n h = ground arith
