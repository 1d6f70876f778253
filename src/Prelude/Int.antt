-- ===== src/Prelude/Int.antt =====
-- Go's signed integers: `int` without wrap-around, and `int64` products, which wrap.
use Prim.Native.Nat.{ℕ, suc, ◌+◌, ◌-◌, ◌%◌}
use mathlib.Core.Bool.{Bool, ◌&&◌}
use spyder.Prelude.Tests.{ltb, leb, ◌==◌, if◌then◌else◌}

-- `negsuc n` is -(n + 1).
pub data ℤ : Type 0 where
  pos : ℕ → ℤ
  negsuc : ℕ → ℤ

abbrev pub pos_part : ℤ → ℕ
pos_part (pos n) = n
pos_part (negsuc n) = 0

abbrev pub neg_part : ℤ → ℕ
neg_part (pos n) = 0
neg_part (negsuc n) = suc n

-- `z > 0`.
abbrev pub is_positive : ℤ → Bool
is_positive z = ltb 0 (pos_part z)

abbrev pub is_zero : ℤ → Bool
is_zero z = pos_part z == 0 && neg_part z == 0

-- a - b, as an integer.
abbrev pub sub_ℕ : ℕ → ℕ → ℤ
sub_ℕ a b = if leb b a then pos (a - b) else negsuc (b - a - 1)

abbrev pub word : ℕ
word = 18_446_744_073_709_551_616

abbrev pub half_word : ℕ
half_word = 9_223_372_036_854_775_808

-- The 64-bit pattern of an integer, and the `int64` that a pattern stands for.
unfoldable pub to_word : ℤ → ℕ
to_word z = (pos_part z + (word - neg_part z % word)) % word

unfoldable pub of_word : ℕ → ℤ
of_word w = if ltb w half_word then pos w else sub_ℕ w word
