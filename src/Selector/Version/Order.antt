-- ===== src/Selector/Version/Order.antt =====
-- internal/selector/selector.go: the order of versions is the order of their numbers, padded with zeros.
use Prim.Native.Nat.{Ordering, compare}
use mathlib.Core.Path.{fun_ext}
use spyder.Prelude.{
  ℕ, zero, suc, ◌+◌, ◌≤◌, ◌<◌, ◌≡◌, refl, ◌∙◌, sym, ap, ap₂, inl, inr, true, List, [], ◌∷◌, arith,
  ltb, ◌==◌, length, take, map, All, Bool-cases,
}
use spyder.Prelude.Bytes.{Bytes, is_blank, split, trim_left}
use spyder.Selector.Version.{
  then_compare, compare_parts, segment_at, trimmed_length, trim_trailing_zeros, compare_version,
}
use spyder.Selector.Version.Numeric.{AreDigits, number, compare_segment-number, number-trim_left}

-- Lists of numbers by their first difference; a list that has ended goes on with zeros.
abbrev pub compare_numbers : List ℕ → List ℕ → Ordering
compare_numbers [] [] = Ordering.eq
compare_numbers [] (b ∷ bs) = then_compare (compare 0 b) (compare_numbers [] bs)
compare_numbers (a ∷ rest) [] = then_compare (compare a 0) (compare_numbers rest [])
compare_numbers (a ∷ rest) (b ∷ bs) = then_compare (compare a b) (compare_numbers rest bs)

abbrev pub numbers : List Bytes → List ℕ
numbers = map number

compare_parts-numbers :
    (xs ys : List Bytes)
    → All AreDigits xs
    → All AreDigits ys
    → compare_parts xs ys ≡ compare_numbers (numbers xs) (numbers ys)
unfolding compare_parts trim_left
compare_parts-numbers [] [] dx dy = refl
compare_parts-numbers [] (y ∷ ys) dx dy =
    ap₂ then_compare (compare_segment-number [] y tt dy.0) (compare_parts-numbers [] ys dx dy.1)
compare_parts-numbers (x ∷ xs) [] dx dy =
    ap₂ then_compare (compare_segment-number x [] dx.0 tt) (compare_parts-numbers xs [] dx.1 dy)
compare_parts-numbers (x ∷ xs) (y ∷ ys) dx dy =
    ap₂ then_compare (compare_segment-number x y dx.0 dy.0) (compare_parts-numbers xs ys dx.1 dy.1)

-- The number at a place, 0 beyond the end.
abbrev at : List ℕ → ℕ → ℕ
at [] i = 0
at (x ∷ xs) zero = x
at (x ∷ xs) (suc i) = at xs i

abbrev compare_at : ℕ → (ℕ → ℕ) → (ℕ → ℕ) → Ordering
compare_at zero f g = Ordering.eq
compare_at (suc n) f g =
    then_compare (compare (f 0) (g 0)) (compare_at n (λ i. f (suc i)) (λ i. g (suc i)))

-- Only the numbers at the places count, not where the lists end.
compare_numbers-at :
    (n : ℕ) (xs ys : List ℕ)
    → length xs ≤ n
    → length ys ≤ n
    → compare_numbers xs ys ≡ compare_at n (at xs) (at ys)
compare_numbers-at zero [] [] h k = refl
compare_numbers-at zero [] (y ∷ ys) h k = elim k [ ]
compare_numbers-at zero (x ∷ xs) ys h k = elim h [ ]
compare_numbers-at (suc n) [] [] h k = compare_numbers-at n [] [] (omega arith) (omega arith)
compare_numbers-at (suc n) [] (y ∷ ys) h k =
    ap (then_compare (compare 0 y)) (compare_numbers-at n [] ys (omega arith) (omega arith))
compare_numbers-at (suc n) (x ∷ xs) [] h k =
    ap (then_compare (compare x 0)) (compare_numbers-at n xs [] (omega arith) (omega arith))
compare_numbers-at (suc n) (x ∷ xs) (y ∷ ys) h k =
    ap (then_compare (compare x y)) (compare_numbers-at n xs ys (omega arith) (omega arith))

compare_numbers-same :
    (xs xs' ys ys' : List ℕ)
    → ((i : ℕ) → at xs i ≡ at xs' i)
    → ((i : ℕ) → at ys i ≡ at ys' i)
    → compare_numbers xs ys ≡ compare_numbers xs' ys'
compare_numbers-same xs xs' ys ys' h k =
    let n = length xs + length xs' + (length ys + length ys') in
    compare_numbers-at n xs ys (omega arith) (omega arith)
    ∙ ap₂ (compare_at n) (fun_ext h) (fun_ext k)
    ∙ sym (compare_numbers-at n xs' ys' (omega arith) (omega arith))

at-segment : (parts : List Bytes) (i : ℕ) → at (numbers parts) i ≡ number (segment_at parts i)
at-segment [] i = refl
at-segment (p ∷ parts) zero = refl
at-segment (p ∷ parts) (suc i) = at-segment parts i

at-take :
    (k : ℕ) (parts : List Bytes)
    → ((i : ℕ) → k ≤ i → at (numbers parts) i ≡ 0)
    → (i : ℕ) → at (numbers (take k parts)) i ≡ at (numbers parts) i
at-take zero parts z i = sym (z i (omega arith))
at-take (suc k) [] z i = refl
at-take (suc k) (p ∷ parts) z zero = refl
at-take (suc k) (p ∷ parts) z (suc i) = at-take k parts (λ j h. z (suc j) (omega arith)) i

at-beyond : (xs : List ℕ) (i : ℕ) → length xs ≤ i → at xs i ≡ 0
at-beyond [] i h = refl
at-beyond (x ∷ xs) zero h = elim h [ ]
at-beyond (x ∷ xs) (suc i) h = at-beyond xs i (omega arith)

number_blank : (s : Bytes) → is_blank (trim_left b'0' s) ≡ true → number s ≡ 0
number_blank s h = sym (number-trim_left s) ∙ blank_zero (trim_left b'0' s) h
  where
    blank_zero : (t : Bytes) → is_blank t ≡ true → number t ≡ 0
    blank_zero [] h = refl
    blank_zero (x ∷ xs) h = cc

-- What `trimTrailingZeros` cuts off stands for zeros.
trimmed_zero :
    (parts : List Bytes) (n i : ℕ)
    → trimmed_length parts n ≤ i
    → i < n
    → number (segment_at parts i) ≡ 0
unfolding trimmed_length
trimmed_zero parts zero i h k = elim k [ ]
trimmed_zero parts (suc zero) i h k = absurd (omega arith)
trimmed_zero parts (suc (suc n)) i h k =
    elim (Bool-cases (is_blank (trim_left b'0' (segment_at parts (suc n))))) [
      | inl blank ↦ elim (Bool-cases (i == suc n)) [
        | inl last ↦
            let e : i ≡ suc n = ground arith in rw e (number_blank (segment_at parts (suc n)) blank)
        | inr before ↦ trimmed_zero parts (suc n) i (rw (blank, trimmed_length) at h) (ground arith)
      ]
      | inr nonzero ↦ absurd (omega (arith, rw (nonzero, trimmed_length) at h))
    ]

length-numbers : (parts : List Bytes) → length (numbers parts) ≡ length parts
length-numbers [] = refl
length-numbers (p ∷ parts) = ap suc (length-numbers parts)

at-trim :
    (parts : List Bytes) (i : ℕ) → at (numbers (trim_trailing_zeros parts)) i ≡ at (numbers parts) i
unfolding trim_trailing_zeros
at-trim parts = at-take (trimmed_length parts (length parts)) parts λ i h.
    elim (Bool-cases (ltb i (length parts))) [
      | inl inside ↦ at-segment parts i ∙ trimmed_zero parts (length parts) i h (ground arith)
      | inr outside ↦ at-beyond (numbers parts) i (rw (length-numbers parts) (ground arith))
    ]

All-take {ℓ κ} : {A : Type ℓ} (P : A → Type κ) (k : ℕ) (xs : List A) → All P xs → All P (take k xs)
All-take P zero xs h = tt
All-take P (suc k) [] h = h
All-take P (suc k) (x ∷ xs) h = (h.0, All-take P k xs h.1)

-- A version string: digits between the dots. A part may be empty and then counts as 0.
abbrev pub IsVersion : Bytes → Type 0
IsVersion s = All AreDigits (split b'.' s)

-- The numbers of a version string.
abbrev pub version_numbers : Bytes → List ℕ
version_numbers s = numbers (split b'.' s)

-- Two version strings compare as their numbers do, at the first difference, where a version that
-- has fewer numbers goes on with zeros; leading zeros do not count.
pub compare_version-numbers :
    (a b : Bytes)
    → IsVersion a
    → IsVersion b
    → compare_version a b ≡ compare_numbers (version_numbers a) (version_numbers b)
unfolding compare_version
compare_version-numbers a b da db =
    compare_parts-numbers (trim_trailing_zeros (split b'.' a)) (trim_trailing_zeros (split b'.' b))
      (unfold trim_trailing_zeros in All-take AreDigits _ (split b'.' a) da)
      (unfold trim_trailing_zeros in All-take AreDigits _ (split b'.' b) db)
    ∙ compare_numbers-same _ _ _ _ (at-trim (split b'.' a)) (at-trim (split b'.' b))
