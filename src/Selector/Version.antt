-- ===== src/Selector/Version.antt =====
-- internal/selector/selector.go: the comparison of version strings.
pub mod Numeric
pub mod Order
use Prim.Native.Nat.{Ordering}
use spyder.Prelude.{
  ℕ, zero, suc, Bool, true, false, List, [], ◌∷◌, if◌then◌else◌, ltb, ◌==◌, length, take, get_elem?,
  none, some, Option,
}
use spyder.Prelude.Bytes.{Bytes, is_blank, split, trim_left}

abbrev pub segment_at : List Bytes → ℕ → Bytes
segment_at parts i = elim (get_elem? parts i) [ none ↦ [] | some s ↦ s ]

-- The loop of `trimTrailingZeros`: from `i` parts, how many stay.
unfoldable pub trimmed_length : List Bytes → ℕ → ℕ
trimmed_length parts zero = zero
trimmed_length parts (suc zero) = 1
trimmed_length parts (suc (suc i)) =
    let shorter = trimmed_length parts (suc i) in
    if is_blank (trim_left b'0' (segment_at parts (suc i))) then shorter else suc (suc i)

unfoldable pub trim_trailing_zeros : List Bytes → List Bytes
unfolding trimmed_length
trim_trailing_zeros parts = take (trimmed_length parts (length parts)) parts

abbrev zero_segment : Bytes
zero_segment = b'0' ∷ []

-- A segment without its leading zeros; a missing one is "0".
unfoldable pub stripped : Bytes → Bytes
stripped s = let t = trim_left b'0' s in if is_blank t then zero_segment else t

-- Go's `<` on strings: the order of the first bytes that differ.
unfoldable pub compare_bytes : Bytes → Bytes → Ordering
compare_bytes [] [] = Ordering.eq
compare_bytes [] (y ∷ ys) = Ordering.lt
compare_bytes (x ∷ xs) [] = Ordering.gt
compare_bytes (x ∷ xs) (y ∷ ys) =
    let rest = compare_bytes xs ys in
    if ltb x y then Ordering.lt else if ltb y x then Ordering.gt else rest

-- One round of the loop of `compareVersion`, on stripped segments.
unfoldable pub compare_segment : Bytes → Bytes → Ordering
unfolding compare_bytes
compare_segment a b =
    if ltb (length a) (length b)
    then Ordering.lt
    else if ltb (length b) (length a)
    then Ordering.gt
    else compare_bytes a b

abbrev pub then_compare : Ordering → Ordering → Ordering
then_compare Ordering.lt next = Ordering.lt
then_compare Ordering.eq next = next
then_compare Ordering.gt next = Ordering.gt

-- The loop, to the end of the longer list; a list that has ended stands for "0".
unfoldable pub compare_parts : List Bytes → List Bytes → Ordering
unfolding stripped compare_segment
compare_parts [] [] = Ordering.eq
compare_parts [] (b ∷ bs) =
    then_compare (compare_segment zero_segment (stripped b)) (compare_parts [] bs)
compare_parts (a ∷ rest) [] =
    then_compare (compare_segment (stripped a) zero_segment) (compare_parts rest [])
compare_parts (a ∷ rest) (b ∷ bs) =
    then_compare (compare_segment (stripped a) (stripped b)) (compare_parts rest bs)

unfoldable pub compare_version : Bytes → Bytes → Ordering
unfolding split trim_trailing_zeros compare_parts
compare_version a b =
    compare_parts (trim_trailing_zeros (split b'.' a)) (trim_trailing_zeros (split b'.' b))
