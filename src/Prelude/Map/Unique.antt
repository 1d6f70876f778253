-- ===== src/Prelude/Map/Unique.antt =====
-- Association lists that hold each key once, as Go's maps do, and the entries whose value passes a test.
use mathlib.Core.Path.{◌≡◌, refl}
use mathlib.Core.Bool.{Bool}
use mathlib.Core.List.{List, [], ◌∷◌}
use mathlib.Core.Option.{Option, none, some}
use native.Mathlib.Omega.{arith}
use spyder.Prelude.Tests.{if◌then◌else◌}
use spyder.Prelude.Map.{Eq, lookup, insert, erase, lookup-insert, lookup-erase}

-- The entries whose value passes a test.
unfoldable pub keep {ℓ κ} : {K : Type ℓ} {V : Type κ} → (V → Bool) → List (K × V) → List (K × V)
keep p [] = []
keep p ((k, v) ∷ m) = let rest = keep p m in if p v then (k, v) ∷ rest else rest

abbrev pub passing {κ} : {V : Type κ} → (V → Bool) → Option V → Option V
passing p none = none
passing p (some v) = if p v then some v else none

module _ {ℓ κ} {K : Type ℓ} {V : Type κ} ⦃e : Eq K⦄ where
  abbrev pub Unique : List (K × V) → Type κ
  Unique [] = Unit
  Unique ((k, v) ∷ m) = (lookup k m ≡ none) × Unique m

  pub insert-Unique : (k : K) (v : V) (m : List (K × V)) → Unique m → Unique (insert k v m)
  unfolding lookup insert
  insert-Unique k v [] u = (refl, tt)
  insert-Unique k v ((j, w) ∷ m) u =
      ground (arith, e.beq_iff j k, e.beq_iff k j, lookup-insert k j v m, insert-Unique k v m u.1)

  pub erase-Unique : (k : K) (m : List (K × V)) → Unique m → Unique (erase k m)
  unfolding lookup erase
  erase-Unique k [] u = tt
  erase-Unique k ((j, w) ∷ m) u =
      ground (arith, e.beq_iff j k, e.beq_iff k j, lookup-erase k j m, erase-Unique k m u.1)

  pub lookup-keep :
      (p : V → Bool) (k : K) (m : List (K × V))
      → Unique m
      → lookup k (keep p m) ≡ passing p (lookup k m)
  unfolding lookup keep
  lookup-keep p k [] u = refl
  lookup-keep p k ((j, v) ∷ m) u = ground (arith, e.beq_iff j k, lookup-keep p k m u.1)

  pub keep-Unique : (p : V → Bool) (m : List (K × V)) → Unique m → Unique (keep p m)
  unfolding lookup keep
  keep-Unique p [] u = tt
  keep-Unique p ((j, v) ∷ m) u = ground (arith, lookup-keep p j m u.1, keep-Unique p m u.1)
