-- ===== src/Selector/Match.antt =====
-- internal/selector/selector.go: selectors, candidates, and whether a candidate satisfies a selector.
-- The attributes of a selector stand in the order in which its map is walked.
pub mod Spec
use Prim.Native.Nat.{Ordering}
use spyder.Prelude.{
  ℕ, ◌+◌, Bool, true, false, not, ◌&&◌, ◌||◌, Option, none, some, List, [], ◌∷◌, ◌++◌,
  if◌then◌else◌, length,
}
use spyder.Prelude.{lookup}
use spyder.Prelude.Bytes.{
  Bytes, bytes, bytes_beq, bytes_eq, is_blank, to_lower, equal_fold, contains,
}
use spyder.Selector.Version.{compare_version}

pub record Selector : Type 0 where
  pub platform : Bytes
  pub model_family : Bytes
  pub os_min : Bytes
  pub os_max : Bytes
  pub orientation_capable : Bool
  pub tags : List Bytes
  pub attrs : List (Bytes × Bytes)

-- The fields of `device.Info` that the selector reads.
pub record Info : Type 0 where
  pub uuid : Bytes
  pub platform : Bytes
  pub model : Bytes
  pub os : Bytes

-- The fields of `inventory.Entry` that the selector reads.
pub record Entry : Type 0 where
  pub alias : Bytes
  pub tags : List Bytes
  pub attrs : List (Bytes × Bytes)

pub record Candidate : Type 0 where
  pub info : Info
  pub entry : Entry
  pub is_sim_or_emu : Bool
  pub is_reserved : Bool

-- A predicate that failed, before it is printed.
pub data Predicate : Type 0 where
  platform_is model_family_is os_min_is os_max_is : Bytes → Predicate
  orientation_is : Predicate
  tag_is : Bytes → Predicate
  attr_is : Bytes → Bytes → Predicate

unfoldable pub contains_tag : List Bytes → Bytes → Bool
contains_tag [] target = false
contains_tag (t ∷ ts) target =
    let rest = contains_tag ts target in bytes_beq (to_lower t) (to_lower target) || rest

unfoldable pub model_family_matches : Bytes → Bytes → List Bytes → Bool
unfolding contains_tag
model_family_matches family model tags =
    contains (to_lower model) (to_lower family) || contains_tag tags family

abbrev pub is_less : Ordering → Bool
is_less Ordering.lt = true
is_less Ordering.eq = false
is_less Ordering.gt = false

abbrev pub is_greater : Ordering → Bool
is_greater Ordering.lt = false
is_greater Ordering.eq = false
is_greater Ordering.gt = true

-- The loops over the tags and the attributes; `none` is that all of them hold.
unfoldable pub failed_tag : List Bytes → List Bytes → Option Predicate
failed_tag have [] = none
failed_tag have (t ∷ ts) =
    let rest = failed_tag have ts in if not (contains_tag have t) then some (tag_is t) else rest

-- `got, ok := attrs[k]; !ok || got != v`.
abbrev pub attr_fails : Option Bytes → Bytes → Bool
attr_fails none v = true
attr_fails (some got) v = not (bytes_beq got v)

unfoldable pub failed_attr : List (Bytes × Bytes) → List (Bytes × Bytes) → Option Predicate
failed_attr have [] = none
failed_attr have ((k, v) ∷ rest) =
    let later = failed_attr have rest in
    if attr_fails (lookup k have) v then some (attr_is k v) else later

abbrev pub first_failure : Option Predicate → Option Predicate → Option Predicate
first_failure none later = later
first_failure (some p) later = some p

-- The predicate that fails first, or `none` for a match.
unfoldable pub match_candidate : Selector → Candidate → Option Predicate
unfolding failed_tag failed_attr
match_candidate sel c =
    if not (equal_fold c.info.platform sel.platform)
    then some (platform_is sel.platform)
    else if not (is_blank sel.model_family)
        && not (model_family_matches sel.model_family c.info.model c.entry.tags)
    then some (model_family_is sel.model_family)
    else if not (is_blank sel.os_min)
        && not (is_blank c.info.os)
        && is_less (compare_version c.info.os sel.os_min)
    then some (os_min_is sel.os_min)
    else if not (is_blank sel.os_max)
        && not (is_blank c.info.os)
        && is_greater (compare_version c.info.os sel.os_max)
    then some (os_max_is sel.os_max)
    else if sel.orientation_capable && not c.is_sim_or_emu
    then some orientation_is
    else first_failure (failed_tag c.entry.tags sel.tags) (failed_attr c.entry.attrs sel.attrs)
