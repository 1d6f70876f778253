-- ===== src/Selector/Version/Numeric.antt =====
-- internal/selector/selector.go: version strings of digits compare as their numbers do.
use Prim.Native.Nat.{compare}
use native.Mathlib.Nat.{pow-suc, pow-le-pow_right}
use spyder.Prelude.{
  ℕ, ◌+◌, ◌-◌, ◌*◌, ◌^◌, ◌≤◌, ◌<◌, ◌≡◌, refl, ap, ◌⊎◌, inl, inr, [], ◌∷◌, arith, ◌==◌, length, All,
  if◌then◌else◌, Bool-cases,
}
use spyder.Prelude.Bytes.{Bytes, is_blank, trim_left}
use spyder.Selector.Version.{stripped, zero_segment, compare_bytes, compare_segment}

abbrev pub IsDigit : ℕ → Type 0
IsDigit c = (b'0' ≤ c) × (c ≤ b'9')

abbrev pub AreDigits : Bytes → Type 0
AreDigits = All IsDigit

-- The number that a list of decimal digits stands for; no digits stand for 0.
abbrev pub number : Bytes → ℕ
number [] = 0
number (c ∷ cs) = (c - b'0') * 10 ^ length cs + number cs

number-lt : (s : Bytes) → AreDigits s → number s < 10 ^ length s
number-lt [] d = omega arith
number-lt (c ∷ cs) d =
    let tail = number-lt cs d.1 in
    let digit : c - b'0' ≤ 9 = omega (arith, d.0) in rw pow-suc (grind arith)

first_digit : (d e p a b : ℕ) → a < p → d < e → d * p + a < e * p + b
first_digit d e p a b h k = grind arith

-- With as many digits on both sides the first digit that differs decides.
compare_bytes-number :
    (a b : Bytes)
    → AreDigits a
    → AreDigits b
    → length a ≡ length b
    → compare_bytes a b ≡ compare (number a) (number b)
unfolding compare_bytes
compare_bytes-number [] [] da db e = refl
compare_bytes-number [] (y ∷ ys) da db e = absurd (omega arith)
compare_bytes-number (x ∷ xs) [] da db e = absurd (omega arith)
compare_bytes-number (x ∷ xs) (y ∷ ys) da db e =
    let same : length xs ≡ length ys = omega arith in
    let tails = compare_bytes-number xs ys da.1 db.1 same in
    let px = number-lt xs da.1 in
    let py : number ys < 10 ^ length xs = rw same (number-lt ys db.1) in
    rw (← same) (
      ground (
        arith,
        tails,
        first_digit (x - b'0') (y - b'0') (10 ^ length xs) (number xs) (number ys) px,
        first_digit (y - b'0') (x - b'0') (10 ^ length xs) (number ys) (number xs) py,
        da.0,
        db.0,
      ))

pub number-trim_left : (s : Bytes) → number (trim_left b'0' s) ≡ number s
unfolding trim_left
number-trim_left [] = refl
number-trim_left (c ∷ cs) = ground (arith, number-trim_left cs)

AreDigits-trim_left : (s : Bytes) → AreDigits s → AreDigits (trim_left b'0' s)
unfolding trim_left
AreDigits-trim_left [] d = d
AreDigits-trim_left (c ∷ cs) d = ground (arith, AreDigits-trim_left cs)

-- Digits with no leading zero, or the one digit 0.
abbrev IsCanonical : Bytes → Type 0
IsCanonical [] = ⊥
IsCanonical (c ∷ cs) = (b'0' < c) ⊎ (cs ≡ [])

trim_left-IsCanonical :
    (s : Bytes) → AreDigits s → (trim_left b'0' s ≡ []) ⊎ IsCanonical (trim_left b'0' s)
unfolding trim_left
trim_left-IsCanonical [] d = inl refl
trim_left-IsCanonical (c ∷ cs) d = elim (Bool-cases (c == b'0')) [
  | inl zero_digit ↦ rw zero_digit (trim_left-IsCanonical cs d.1)
  | inr other ↦ rw other (inr (inl (ground (arith, d.0))))
]

stripped_lem :
    (s : Bytes)
    → AreDigits s
    → AreDigits (stripped s) × IsCanonical (stripped s) × (number (stripped s) ≡ number s)
unfolding stripped
stripped_lem s d =
    strip (trim_left b'0' s) (AreDigits-trim_left s d) (trim_left-IsCanonical s d)
      (number-trim_left s)
  where
    strip :
        (t : Bytes)
        → AreDigits t
        → (t ≡ []) ⊎ IsCanonical t
        → number t ≡ number s
        → let r = if is_blank t then zero_segment else t in
          AreDigits r × IsCanonical r × (number r ≡ number s)
    strip [] dt c e = ((omega arith, tt), inr refl, e)
    strip (x ∷ xs) dt c e = (dt, ground arith, e)

canonical_shorter :
    (a b : Bytes)
    → AreDigits a
    → AreDigits b
    → IsCanonical a
    → IsCanonical b
    → length a < length b
    → number a < number b
canonical_shorter a [] da db ca cb h = elim cb [ ]
canonical_shorter [] (y ∷ ys) da db ca cb h = elim ca [ ]
canonical_shorter (x ∷ xs) (y ∷ ys) da db ca (inr e) h = absurd (omega (arith, ap length e))
canonical_shorter (x ∷ xs) (y ∷ ys) da db ca (inl leading) h =
    let small = number-lt (x ∷ xs) da in
    let wide : 10 ^ length (x ∷ xs) ≤ 10 ^ length ys =
      pow-le-pow_right (omega arith) (omega arith) in
    let lead : 1 * 10 ^ length ys ≤ (y - b'0') * 10 ^ length ys = grind arith in omega arith

pub compare_segment-number :
    (a b : Bytes)
    → AreDigits a
    → AreDigits b
    → compare_segment (stripped a) (stripped b) ≡ compare (number a) (number b)
unfolding compare_segment
compare_segment-number a b da db =
    let (ra, ca, na) = stripped_lem a da in
    let (rb, cb, nb) = stripped_lem b db in
    ground (
      arith,
      na,
      nb,
      canonical_shorter (stripped a) (stripped b) ra rb ca cb,
      canonical_shorter (stripped b) (stripped a) rb ra cb ca,
      compare_bytes-number (stripped a) (stripped b) ra rb,
    )
