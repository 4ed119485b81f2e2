-- ===== src/Data/Int64.antt =====
-- Go's `int64`: an integer in two's complement, whose `+` and `-` wrap around.
use community.Base.{
  ℕ, suc, ◌+◌, ◌-◌, ◌%◌, ◌^◌, ◌≤◌, ◌<◌, ◌≡◌, refl, Bool, true, arith, ltb, leb, eqb, if◌then◌else◌,
  ◌↔◌,
}

-- `negsuc n` is -(n + 1).
pub data ℤ : Type 0 where
  pos : ℕ → ℤ
  negsuc : ℕ → ℤ

abbrev pub pos_part : ℤ → ℕ
pos_part (pos n) = n
pos_part (negsuc n) = 0

abbrev pub neg_part : ℤ → ℕ
neg_part (pos n) = 0
neg_part (negsuc n) = suc n

infix 50 ◌≤ℤ◌ ◌<ℤ◌
abbrev pub ◌≤ℤ◌ : ℤ → ℤ → Type 0
a ≤ℤ b = pos_part a + neg_part b ≤ pos_part b + neg_part a

abbrev pub ◌<ℤ◌ : ℤ → ℤ → Type 0
a <ℤ b = pos_part a + neg_part b < pos_part b + neg_part a

abbrev pub ltb_ℤ : ℤ → ℤ → Bool
ltb_ℤ a b = ltb (pos_part a + neg_part b) (pos_part b + neg_part a)

abbrev pub leb_ℤ : ℤ → ℤ → Bool
leb_ℤ a b = leb (pos_part a + neg_part b) (pos_part b + neg_part a)

abbrev pub eqb_ℤ : ℤ → ℤ → Bool
eqb_ℤ a b = eqb (pos_part a + neg_part b) (pos_part b + neg_part a)

pub eqb_ℤ_iff : (a b : ℤ) → (eqb_ℤ a b ≡ true) ↔ (a ≡ b)
eqb_ℤ_iff (pos a) (pos b) = ground arith
eqb_ℤ_iff (pos a) (negsuc b) = ground arith
eqb_ℤ_iff (negsuc a) (pos b) = ground arith
eqb_ℤ_iff (negsuc a) (negsuc b) = ground arith

-- The 64 bits of an integer, and the integer that 64 bits stand for.
unfoldable pub to_bits : ℤ → ℕ
to_bits (pos n) = n % 2 ^ 64
to_bits (negsuc n) = 2 ^ 64 - 1 - n % 2 ^ 64

unfoldable pub of_bits : ℕ → ℤ
of_bits n = if ltb n (2 ^ 63) then pos n else negsuc (2 ^ 64 - 1 - n)

infixl 65 ◌+ℤ◌ ◌-ℤ◌
-- `a + b`
unfoldable pub ◌+ℤ◌ : ℤ → ℤ → ℤ
unfolding to_bits of_bits
a +ℤ b = of_bits ((to_bits a + to_bits b) % 2 ^ 64)

-- `a - b`
unfoldable pub ◌-ℤ◌ : ℤ → ℤ → ℤ
unfolding to_bits of_bits
a -ℤ b = of_bits ((to_bits a + 2 ^ 64 - to_bits b) % 2 ^ 64)

-- A value that an `int64` can hold.
abbrev pub InRange : ℤ → Type 0
InRange (pos n) = n < 2 ^ 63
InRange (negsuc n) = n < 2 ^ 63

-- A sum that an `int64` can hold is exact.
pub +ℤ_pos : (a b : ℕ) → a + b < 2 ^ 63 → pos a +ℤ pos b ≡ pos (a + b)
unfolding ◌+ℤ◌
+ℤ_pos a b h = ground arith

pub -ℤ_pos : (a b : ℕ) → a < 2 ^ 63 → b ≤ a → pos a -ℤ pos b ≡ pos (a - b)
unfolding ◌-ℤ◌
-ℤ_pos a b h k = ground arith

-- Counting up past the largest value wraps to the smallest.
pub +ℤ_wraps : pos (2 ^ 63 - 1) +ℤ pos 1 ≡ negsuc (2 ^ 63 - 1)
unfolding ◌+ℤ◌
+ℤ_wraps = refl

pub of_pos_part : (z : ℤ) → neg_part z ≡ 0 → z ≡ pos (pos_part z)
of_pos_part (pos n) h = refl
of_pos_part (negsuc n) h = absurd (omega (arith, h))
