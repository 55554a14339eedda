-- ===== src/GoLib/Int64.antt =====
-- int64 as integers with the wrap-around written out.
use payrouter.Prelude.{
  ℕ, suc, ◌+◌, ◌-◌, ◌%◌, ◌^◌, ◌<◌, ◌≤◌, Bool, ltb, leb, if◌then◌else◌, ◌≡◌, arith,
}

-- `negsuc n` is -(n + 1).
pub data ℤ : Type 0 where
  pos : ℕ → ℤ
  negsuc : ℕ → ℤ

abbrev pub pos_part : ℤ → ℕ
pos_part (pos n) = n
pos_part (negsuc n) = 0

abbrev pub neg_part : ℤ → ℕ
neg_part (pos n) = 0
neg_part (negsuc n) = suc n

-- a - b, as an integer.
abbrev pub sub_ℕ : ℕ → ℕ → ℤ
sub_ℕ a b = if leb b a then pos (a - b) else negsuc (b - a - 1)

unfoldable pub ◌-ℤ◌ : ℤ → ℤ → ℤ

infixl 65 ◌-ℤ◌
a -ℤ b = sub_ℕ (pos_part a + neg_part b) (neg_part a + pos_part b)

abbrev pub ltb_ℤ : ℤ → ℤ → Bool
ltb_ℤ a b = ltb (pos_part a + neg_part b) (pos_part b + neg_part a)

-- The 64 bits of an integer, and the signed number that 64 bits stand for.
abbrev bits : ℤ → ℕ
bits (pos n) = n % 2 ^ 64
bits (negsuc n) = 2 ^ 64 - 1 - n % 2 ^ 64

abbrev of_bits : ℕ → ℤ
of_bits u = if ltb u (2 ^ 63) then pos u else negsuc (2 ^ 64 - 1 - u)

unfoldable pub wrap : ℤ → ℤ
wrap z = of_bits (bits z)

-- Go's `a - b` on int64.
unfoldable pub sub_int64 : ℤ → ℤ → ℤ
unfolding wrap ◌-ℤ◌
sub_int64 a b = wrap (a -ℤ b)

pub sub_int64-pos : (a b : ℕ) → a < 2 ^ 63 → b ≤ a → sub_int64 (pos a) (pos b) ≡ pos (a - b)
unfolding sub_int64
sub_int64-pos a b h k = ground arith
