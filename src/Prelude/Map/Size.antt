-- ===== src/Prelude/Map/Size.antt =====
-- The number of entries of an association list.
use Prim.Native.Nat.{ℕ, ◌+◌, ◌≤◌}
use mathlib.Core.Path.{◌≡◌}
use mathlib.Core.Bool.{Bool}
use mathlib.Core.List.{List, [], ◌∷◌}
use mathlib.Core.Option.{Option, none, some}
use native.Mathlib.Omega.{arith}
use spyder.Prelude.Lists.{length}
use spyder.Prelude.Map.{Eq, lookup, insert, erase}
use spyder.Prelude.Map.Unique.{keep}

-- What an insertion adds to a map in which the key has this value.
abbrev pub added {κ} : {V : Type κ} → Option V → ℕ
added none = 1
added (some v) = 0

module _ {ℓ κ} {K : Type ℓ} {V : Type κ} ⦃e : Eq K⦄ where
  pub length-insert :
      (k : K) (v : V) (m : List (K × V)) → length (insert k v m) ≡ length m + added (lookup k m)
  unfolding lookup insert
  length-insert k v [] = omega arith
  length-insert k v ((j, w) ∷ m) = ground (arith, length-insert k v m)

  pub length-erase : (k : K) (m : List (K × V)) → length (erase k m) ≤ length m
  unfolding erase
  length-erase k [] = omega arith
  length-erase k ((j, w) ∷ m) = ground (arith, length-erase k m)

  pub length-keep : (p : V → Bool) (m : List (K × V)) → length (keep p m) ≤ length m
  unfolding keep
  length-keep p [] = omega arith
  length-keep p ((j, v) ∷ m) = ground (arith, length-keep p m)
