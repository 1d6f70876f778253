-- ===== src/Pool/Steps/Look.antt =====
-- internal/pool/pool.go: what the loops over the instances find is in the map.
use spyder.Prelude.{
  ◌≡◌, ◌⊎◌, refl, ap, ◌∙◌, Bool, true, ◌&&◌, Option, none, some, List, [], ◌∷◌, String, string_eq,
  lookup, arith, Bool-cases, inl, inr,
}
use spyder.Prelude.Map.Unique.{Unique}
use spyder.Pool.{
  Tier, available, running, reserved, Instance, Pool, is_available, is_running, is_older, pick,
  oldest_from, pick_oldest_available, pick_running, pick_available,
}
use spyder.Pool.Sound.{IsSound}

pub running_of : (t : Tier) → is_running t ≡ true → t ≡ running
running_of available e = cc
running_of running e = refl
running_of reserved e = cc

pub available_of : (t : Tier) → is_available t ≡ true → t ≡ available
available_of available e = refl
available_of running e = cc
available_of reserved e = cc

-- An entry of the list.
abbrev Entry : List (String × Instance) → Instance → Type 0
Entry m i = (k : String) × (lookup k m ≡ some i)

entry_later :
    (k : String) (v i : Instance) (m : List (String × Instance))
    → Unique ((k, v) ∷ m)
    → Entry m i
    → Entry ((k, v) ∷ m) i
unfolding lookup
entry_later k v i m u (j, e) = (j, ground (arith, string_eq.beq_iff k j))

entry_here : (k : String) (i : Instance) (m : List (String × Instance)) → Entry ((k, i) ∷ m) i
unfolding lookup
entry_here k i m = (k, ground (arith, string_eq.beq_iff k k))

pick-found :
    (tier : Tier → Bool) (name : String) (m : List (String × Instance)) (i : Instance)
    → Unique m
    → pick tier name m ≡ some i
    → Entry m i × (string_eq.beq i.template name ≡ true) × (tier i.tier ≡ true)
unfolding pick
pick-found tier name [] i u e = cc
pick-found tier name ((k, v) ∷ m) i u e =
    elim (Bool-cases (string_eq.beq v.template name && tier v.tier)) [
      | inl hit ↦
          let same : v ≡ i = ground arith in
          (rw (← same) (entry_here k v m), ground arith, ground arith)
      | inr miss ↦
          let (found, fits, right) = pick-found tier name m i u.1 (rw miss at e) in
          (entry_later k v i m u found, fits, right)
    ]

oldest_from-found :
    (name : String) (o : Option Instance) (m : List (String × Instance)) (i : Instance)
    → Unique m
    → oldest_from name o m ≡ some i
    → (o ≡ some i)
      ⊎ (Entry m i × (string_eq.beq i.template name ≡ true) × (is_available i.tier ≡ true))
unfolding oldest_from
oldest_from-found name o [] i u e = inl e
oldest_from-found name o ((k, v) ∷ m) i u e =
    elim (Bool-cases (string_eq.beq v.template name && is_available v.tier && is_older v o)) [
      | inl hit ↦ elim (oldest_from-found name (some v) m i u.1 (rw hit at e)) [
        | inl same ↦
            let same' : v ≡ i = ground arith in
            inr (rw (← same') (entry_here k v m), ground arith, ground arith)
        | inr (found, fits, right) ↦ inr (entry_later k v i m u found, fits, right)
      ]
      | inr miss ↦ elim (oldest_from-found name o m i u.1 (rw miss at e)) [
        | inl same ↦ inl same
        | inr (found, fits, right) ↦ inr (entry_later k v i m u found, fits, right)
      ]
    ]

module _ (p : Pool) (name : String) (i : Instance) (s : IsSound p) where
  stands : Entry p.instances i → lookup i.id p.instances ≡ some i
  stands (k, e) = ap (λ j. lookup j p.instances) (s.keyed k i e) ∙ e

  pub pick_running-found :
      pick_running p name ≡ some i
      → (lookup i.id p.instances ≡ some i)
        × (string_eq.beq i.template name ≡ true)
        × (i.tier ≡ running)
  unfolding pick_running
  pick_running-found e =
      let (found, fits, runs) = pick-found is_running name p.instances i s.unique e in
      (stands found, fits, running_of i.tier runs)

  pub pick_available-found :
      pick_available p name ≡ some i
      → (lookup i.id p.instances ≡ some i)
        × (string_eq.beq i.template name ≡ true)
        × (i.tier ≡ available)
  unfolding pick_available
  pick_available-found e =
      let (found, fits, idle) = pick-found is_available name p.instances i s.unique e in
      (stands found, fits, available_of i.tier idle)

  pub pick_oldest_available-found :
      pick_oldest_available p name ≡ some i
      → (lookup i.id p.instances ≡ some i)
        × (string_eq.beq i.template name ≡ true)
        × (i.tier ≡ available)
  unfolding pick_oldest_available
  pick_oldest_available-found e = elim (oldest_from-found name none p.instances i s.unique e) [
    | inl bad ↦ cc bad
    | inr (found, fits, idle) ↦ (stands found, fits, available_of i.tier idle)
  ]
