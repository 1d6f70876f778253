-- ===== src/Prelude/Select.antt =====
-- Searching a list: its first element that passes a test, the sublist of those that pass, and
-- predicates over all elements.
use mathlib.Core.Path.{◌≡◌, refl, ap}
use mathlib.Core.Logic.{inl, inr}
use mathlib.Core.Bool.{Bool, true, false, ◌&&◌}
use mathlib.Core.List.{List, [], ◌∷◌, ◌++◌, map}
use Prim.Native.Nat.{ℕ, zero, suc, ◌≤◌}
use native.Mathlib.Omega.{arith}
use spyder.Prelude.Tests.{Bool-cases}
use spyder.Prelude.Lists.{length, take, select, All}

-- `y` is the first element of the list that passes the test.
pub record IsFirst {ℓ} {A : Type ℓ} (p : A → Bool) (xs : List A) (y : A) : Type ℓ where
  pub pre : List A
  pub post : List A
  pub split : xs ≡ pre ++ y ∷ post
  pub hit : p y ≡ true
  pub before : All (λ x. p x ≡ false) pre

module _ {ℓ} {A : Type ℓ} (p : A → Bool) where
  pub select-IsFirst : (xs : List A) (y : A) (ys : List A) → select p xs ≡ y ∷ ys → IsFirst p xs y
  select-IsFirst [] y ys h = cc
  select-IsFirst (x ∷ xs) y ys h = elim (Bool-cases (p x)) [
    | inl hit ↦
        let e : x ≡ y = ground arith in
        record { pre = []; post = xs; split = rw e; hit = rw (← e) hit; before = tt }
    | inr miss ↦
        let rest = select-IsFirst xs y ys (rw miss at h) in
        record {
          pre = x ∷ rest.pre;
          post = rest.post;
          split = ap (λ l. x ∷ l) rest.split;
          hit = rest.hit;
          before = (miss, rest.before);
        }
  ]

  pub select-empty : (xs : List A) → select p xs ≡ [] → All (λ x. p x ≡ false) xs
  select-empty [] h = tt
  select-empty (x ∷ xs) h = elim (Bool-cases (p x)) [
    | inl hit ↦ cc (rw hit at h)
    | inr miss ↦ (miss, select-empty xs (rw miss at h))
  ]

  pub select-select :
      (q : A → Bool) (xs : List A) → select q (select p xs) ≡ select (λ x. p x && q x) xs
  select-select q [] = refl
  select-select q (x ∷ xs) = ground (arith, select-select q xs)

pub All-map {ℓ κ κ'} :
    {A : Type ℓ} {P : A → Type κ} {Q : A → Type κ'} (xs : List A)
    → ((x : A) → P x → Q x)
    → All P xs
    → All Q xs
All-map [] f h = tt
All-map (x ∷ xs) f h = (f x h.0, All-map xs f h.1)

pub All-left {ℓ κ} : {A : Type ℓ} (P : A → Type κ) (xs ys : List A) → All P (xs ++ ys) → All P xs
All-left P [] ys h = tt
All-left P (x ∷ xs) ys h = (h.0, All-left P xs ys h.1)

pub All-both {ℓ κ κ'} :
    {A : Type ℓ} (P : A → Type κ) (Q : A → Type κ') (xs : List A)
    → All P xs
    → All Q xs
    → All (λ x. P x × Q x) xs
All-both P Q [] h k = tt
All-both P Q (x ∷ xs) h k = ((h.0, k.0), All-both P Q xs h.1 k.1)

pub length-take_le {ℓ} : {A : Type ℓ} (n : ℕ) (xs : List A) → length (take n xs) ≤ n
length-take_le zero xs = omega arith
length-take_le (suc n) [] = omega arith
length-take_le (suc n) (x ∷ xs) = omega (arith, length-take_le n xs)

pub length-map {ℓ κ} :
    {A : Type ℓ} {B : Type κ} (f : A → B) (xs : List A) → length (map f xs) ≡ length xs
length-map f [] = refl
length-map f (x ∷ xs) = ap suc (length-map f xs)
