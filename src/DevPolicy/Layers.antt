-- ===== src/DevPolicy/Layers.antt =====
-- internal/devpolicy/policy.go: the precedence of the layers.
use mathlib.Core.Path.{subst}
use spyder.Prelude.{
  ◌≡◌, refl, ap, sym, ◌∙◌, Option, none, some, List, [], ◌∷◌, ◌++◌, if◌then◌else◌, lookup, insert,
  lookup-insert, Bool-cases, inl, inr, All,
}
use spyder.Prelude.Bytes.{Bytes, bytes, bytes_eq}
use spyder.Prelude.Map.Unique.{Unique}
use spyder.DevPolicy.{
  Flags, Group, Config, Resolution, merge, is_member, group_source, merge_groups, app_flags,
  unresolved, resolve,
}

-- The layers that apply to a bundle, the weakest first, each with the name of its source.
unfoldable pub group_layers : Bytes → List Group → List (Bytes × Flags)
unfolding is_member
group_layers bundle [] = []
group_layers bundle (g ∷ gs) =
    let rest = group_layers bundle gs in
    if is_member bundle g then (group_source g, g.flags) ∷ rest else rest

unfoldable pub layers : Config → Bytes → Flags → List (Bytes × Flags)
unfolding group_layers app_flags
layers c bundle override =
    (bytes "global", c.global)
    ∷ (group_layers bundle c.groups
        ++ (bytes "app:" ++ bundle, app_flags c bundle) ∷ (bytes "session", override) ∷ [])

abbrev pub bound : Bytes → Option Bytes → Option (Bytes × Bytes)
bound source none = none
bound source (some v) = some (source, v)

abbrev pub or_else : Option (Bytes × Bytes) → Option (Bytes × Bytes) → Option (Bytes × Bytes)
or_else none later = later
or_else (some x) later = some x

-- The source and the value of a flag in the last layer that has it.
unfoldable pub strongest : Bytes → List (Bytes × Flags) → Option (Bytes × Bytes)
strongest k [] = none
strongest k ((source, f) ∷ ls) = or_else (strongest k ls) (bound source (lookup k f))

abbrev pub source_of : Option (Bytes × Bytes) → Option Bytes
source_of none = none
source_of (some (source, v)) = some source

abbrev pub value_of : Option (Bytes × Bytes) → Option Bytes
value_of none = none
value_of (some (source, v)) = some v

abbrev merge_all : List (Bytes × Flags) → Resolution → Resolution
merge_all [] r = r
merge_all ((source, f) ∷ ls) r = merge_all ls (merge f source r)

abbrev Tells : Resolution → Bytes → Option (Bytes × Bytes) → Type 0
Tells r k o = (lookup k r.flags ≡ value_of o) × (lookup k r.provenance ≡ source_of o)

merge-Tells :
    (f : Flags) (source : Bytes) (r : Resolution) (k : Bytes) (o : Option (Bytes × Bytes))
    → Unique f
    → Tells r k o
    → Tells (merge f source r) k (or_else (bound source (lookup k f)) o)
unfolding merge lookup
merge-Tells [] source r k o u t = t
merge-Tells ((j, v) ∷ f) source r k o u t =
    let r' : Resolution = record {
      flags = insert j v r.flags;
      provenance = insert j source r.provenance;
    } in
    elim (Bool-cases (bytes_eq.beq j k)) [
      | inl hit ↦
          let absent : lookup k f ≡ none =
            ap (λ i. lookup i f) (sym ((bytes_eq.beq_iff j k).0 hit)) ∙ u.0 in
          let now : Tells r' k (some (source, v)) = (
            lookup-insert j k v r.flags ∙ rw hit refl,
            lookup-insert j k source r.provenance ∙ rw hit refl,
          ) in
          let later = merge-Tells f source r' k (some (source, v)) u.1 now in
          let result =
            subst (λ x. Tells (merge f source r') k (or_else (bound source x) (some (source, v))))
              absent later in
          rw hit result
      | inr miss ↦
          let now : Tells r' k o = (
            lookup-insert j k v r.flags ∙ rw miss t.0,
            lookup-insert j k source r.provenance ∙ rw miss t.1,
          ) in
          rw miss (merge-Tells f source r' k o u.1 now)
    ]

-- Every layer has each flag once.
abbrev pub AreMaps : List (Bytes × Flags) → Type 0
AreMaps = All (λ l. Unique l.1)

or_else_assoc : (a b c : Option (Bytes × Bytes)) → or_else a (or_else b c) ≡ or_else (or_else a b) c
or_else_assoc none b c = refl
or_else_assoc (some x) b c = refl

merge_all-Tells :
    (ls : List (Bytes × Flags)) (r : Resolution) (k : Bytes) (o : Option (Bytes × Bytes))
    → AreMaps ls
    → Tells r k o
    → Tells (merge_all ls r) k (or_else (strongest k ls) o)
unfolding strongest
merge_all-Tells [] r k o u t = t
merge_all-Tells ((source, f) ∷ ls) r k o u t =
    subst (Tells (merge_all ls (merge f source r)) k)
      (or_else_assoc (strongest k ls) (bound source (lookup k f)) o)
      (merge_all-Tells ls (merge f source r) k (or_else (bound source (lookup k f)) o) u.1
        (merge-Tells f source r k o u.0 t))

merge_all-append :
    (xs ys : List (Bytes × Flags)) (r : Resolution)
    → merge_all (xs ++ ys) r ≡ merge_all ys (merge_all xs r)
merge_all-append [] ys r = refl
merge_all-append ((source, f) ∷ xs) ys r = merge_all-append xs ys (merge f source r)

merge_groups-layers :
    (bundle : Bytes) (gs : List Group) (r : Resolution)
    → merge_groups bundle gs r ≡ merge_all (group_layers bundle gs) r
unfolding merge_groups group_layers
merge_groups-layers bundle [] r = refl
merge_groups-layers bundle (g ∷ gs) r = elim (Bool-cases (is_member bundle g)) [
  | inl yes_member ↦
      rw yes_member (merge_groups-layers bundle gs (merge g.flags (group_source g) r))
  | inr other ↦ rw other (merge_groups-layers bundle gs r)
]

or_else-none : (o : Option (Bytes × Bytes)) → or_else o none ≡ o
or_else-none none = refl
or_else-none (some x) = refl

-- A flag has the value of the last layer that binds it, in the order global, the groups that have the
-- bundle, the app, the session, and its provenance is the source of that same layer; a flag that no
-- layer binds has neither. Each layer has each flag once.
pub resolve-strongest :
    (c : Config) (bundle : Bytes) (override : Flags) (k : Bytes)
    → AreMaps (layers c bundle override)
    → (lookup k (resolve c bundle override).flags
        ≡ value_of (strongest k (layers c bundle override)))
      × (lookup k (resolve c bundle override).provenance
          ≡ source_of (strongest k (layers c bundle override)))
unfolding resolve layers lookup
resolve-strongest c bundle override k maps =
    let ends = (bytes "app:" ++ bundle, app_flags c bundle) ∷ (bytes "session", override) ∷ [] in
    let start = merge c.global (bytes "global") unresolved in
    let same : resolve c bundle override ≡ merge_all (layers c bundle override) unresolved =
      ap (merge_all ends) (merge_groups-layers bundle c.groups start)
      ∙ sym (merge_all-append (group_layers bundle c.groups) ends start) in
    subst (λ r. Tells r k (strongest k (layers c bundle override))) (sym same)
      (subst (Tells (merge_all (layers c bundle override) unresolved) k)
        (or_else-none (strongest k (layers c bundle override)))
        (merge_all-Tells (layers c bundle override) unresolved k none maps (refl, refl)))
