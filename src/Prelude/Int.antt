-- ===== src/Prelude/Int.antt =====
-- Signed integers, for Go's `int` and for durations; `negsuc n` is -(n + 1).
use Prim.Native.Nat.{ℕ, zero, suc, ◌+◌, ◌-◌, ◌/◌, ◌%◌, ◌^◌, ◌≤◌, ◌<◌, compare, Ordering}
use mathlib.Core.Path.{◌≡◌}
use mathlib.Core.Bool.{Bool, true, false}
use native.Mathlib.Omega.{arith}

pub data ℤ : Type 0 where
  pos : ℕ → ℤ
  negsuc : ℕ → ℤ

abbrev pub pos_part : ℤ → ℕ
pos_part (pos n) = n
pos_part (negsuc n) = 0

abbrev pub neg_part : ℤ → ℕ
neg_part (pos n) = 0
neg_part (negsuc n) = suc n

-- The integer - n.
abbrev pub neg : ℕ → ℤ
neg zero = pos 0
neg (suc n) = negsuc n

infix 50 ◌≤ℤ◌ ◌<ℤ◌
abbrev pub ◌≤ℤ◌ : ℤ → ℤ → Type 0
a ≤ℤ b = pos_part a + neg_part b ≤ pos_part b + neg_part a

abbrev pub ◌<ℤ◌ : ℤ → ℤ → Type 0
a <ℤ b = pos_part a + neg_part b < pos_part b + neg_part a

abbrev pub int_ltb : ℤ → ℤ → Bool
int_ltb a b = elim (compare (pos_part a + neg_part b) (pos_part b + neg_part a)) [
  | Ordering.lt ↦ true
  | _ ↦ false
]

pub int_ltb→lt : (a b : ℤ) → int_ltb a b ≡ true → a <ℤ b
int_ltb→lt a b h = ground arith

pub int_ltb→le : (a b : ℤ) → int_ltb a b ≡ false → b ≤ℤ a
int_ltb→le a b h = ground arith

-- a - b, as an integer.
abbrev pub sub_ℕ : ℕ → ℕ → ℤ
sub_ℕ a b = elim (compare a b) [ Ordering.lt ↦ neg (b - a) | _ ↦ pos (a - b) ]

infixl 65 ◌+ℤ◌
abbrev pub ◌+ℤ◌ : ℤ → ℤ → ℤ
a +ℤ b = sub_ℕ (pos_part a + pos_part b) (neg_part a + neg_part b)

-- The int64 that a bit pattern of 64 bits stands for.
abbrev pub of_word : ℕ → ℤ
of_word u = elim (compare u (2 ^ 63)) [ Ordering.lt ↦ pos u | _ ↦ neg (2 ^ 64 - u) ]

-- The sum of two int64 wraps around.
unfoldable pub add_int64 : ℤ → ℤ → ℤ
add_int64 a b = of_word (
    (pos_part a + pos_part b + (2 ^ 64 - neg_part a % 2 ^ 64) + (2 ^ 64 - neg_part b % 2 ^ 64))
    % 2 ^ 64)

-- Division by a positive number, towards zero as in Go.
unfoldable pub div_trunc : ℤ → ℕ → ℤ
div_trunc (pos n) d = pos (n / d)
div_trunc (negsuc n) d = neg (suc n / d)
