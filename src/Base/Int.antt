-- ===== src/Base/Int.antt =====
-- Go's signed integers, where the program tests their sign; `negsuc n` is -(n + 1).
use Prim.Native.Nat.{ℕ, suc, ◌+◌, ◌-◌, ◌%◌, ◌^◌, ◌≤◌, ◌<◌}
use native.Mathlib.Omega.{arith}
use mathlib.Core.Path.{◌≡◌}
use mathlib.Core.Bool.{Bool, true}
use probatorium.Base.Tests.{◌==◌, ltb, leb, if◌then◌else◌}

pub data ℤ : Type 0 where
  pos : ℕ → ℤ
  negsuc : ℕ → ℤ

-- `i <= 0`.
abbrev pub le_zero : ℤ → Bool
le_zero (pos n) = n == 0
le_zero (negsuc n) = true

-- The rounds of `for r := 0; r < i; r++`.
abbrev pub rounds : ℤ → ℕ
rounds (pos n) = n
rounds (negsuc n) = 0

abbrev pub pos_part : ℤ → ℕ
pos_part (pos n) = n
pos_part (negsuc n) = 0

abbrev pub neg_part : ℤ → ℕ
neg_part (pos n) = 0
neg_part (negsuc n) = suc n

-- a - b, as an integer.
abbrev pub sub_ℕ : ℕ → ℕ → ℤ
sub_ℕ a b = if leb b a then pos (a - b) else negsuc (b - a - 1)

infixl 65 ◌+ℤ◌ ◌-ℤ◌
unfoldable pub ◌+ℤ◌ : ℤ → ℤ → ℤ
a +ℤ b = sub_ℕ (pos_part a + pos_part b) (neg_part a + neg_part b)

pub +ℤ_parts :
    (a b : ℤ)
    → pos_part (a +ℤ b) + neg_part a + neg_part b ≡ neg_part (a +ℤ b) + pos_part a + pos_part b
unfolding ◌+ℤ◌
+ℤ_parts a b = ground arith

unfoldable pub ◌-ℤ◌ : ℤ → ℤ → ℤ
a -ℤ b = sub_ℕ (pos_part a + neg_part b) (neg_part a + pos_part b)

abbrev pub ltb_ℤ : ℤ → ℤ → Bool
ltb_ℤ a b = ltb (pos_part a + neg_part b) (pos_part b + neg_part a)

-- The 64-bit word as a signed number.
abbrev signed_word : ℕ → ℤ
signed_word n = if ltb n (2 ^ 63) then pos n else negsuc (2 ^ 64 - 1 - n)

-- A number cut to int64, as a conversion or an overflow does.
unfoldable pub wrap64 : ℤ → ℤ
wrap64 (pos n) = signed_word (n % 2 ^ 64)
wrap64 (negsuc n) = signed_word (2 ^ 64 - 1 - n % 2 ^ 64)

abbrev pub InInt64 : ℤ → Type 0
InInt64 z = (pos_part z < 2 ^ 63) × (neg_part z ≤ 2 ^ 63)

pub wrap64-InInt64 : (z : ℤ) → InInt64 z → wrap64 z ≡ z
unfolding wrap64
wrap64-InInt64 (pos n) h = ground arith
wrap64-InInt64 (negsuc n) h = ground arith

unfoldable pub add64 : ℤ → ℤ → ℤ
add64 a b = wrap64 (a +ℤ b)

unfoldable pub sub64 : ℤ → ℤ → ℤ
sub64 a b = wrap64 (a -ℤ b)
