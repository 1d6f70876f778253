-- ===== src/Health/Backoff.antt =====
-- internal/health/model.go, `NextBackoff`: the delay before the next recovery attempt.
use native.Mathlib.Nat.{one-le-pow}
use spyder.Prelude.{ℕ, ◌*◌, ◌^◌, ◌%◌, ◌≤◌, ◌<◌, ◌≡◌, arith, pos, word, to_word, of_word, suc, min}
use spyder.Prelude.Int.{half_word}
use spyder.Health.Model.{backoff}

to_word-pos : (n : ℕ) → n < word → to_word (pos n) ≡ n
unfolding to_word
to_word-pos n h = omega arith

of_word-pos : (n : ℕ) → n < half_word → of_word n ≡ pos n
unfolding of_word
of_word-pos n h = ground arith

-- While base * 2^(attempts - 1) fits an int64, and for at most 63 attempts, it is the delay.
pub backoff_exact :
    (base n : ℕ)
    → n ≤ 62
    → base * 2 ^ n < half_word
    → backoff (pos base) (suc n) ≡ pos (base * 2 ^ n)
unfolding backoff
backoff_exact base n h k =
    let small : base < half_word = grind (arith, one-le-pow n 2 (omega arith)) in
    let shift : min n 62 ≡ n = omega arith in
    let inside : base * 2 ^ n % word ≡ base * 2 ^ n = omega arith in
    rw (shift, to_word-pos base (omega arith), inside) (of_word-pos (base * 2 ^ n) k)

-- From the 63rd attempt on, a base that is a multiple of four nanoseconds is delayed by nothing:
-- the product wraps to 0.
pub backoff_vanishes :
    (q n : ℕ) → 4 * q < half_word → 62 ≤ n → backoff (pos (4 * q)) (suc n) ≡ pos 0
unfolding backoff of_word
backoff_vanishes q n b h =
    let shift : min n 62 ≡ 62 = omega arith in
    let wrapped : 4 * q * 2 ^ 62 % word ≡ 0 = omega arith in
    rw (shift, to_word-pos (4 * q) (omega arith), wrapped)
