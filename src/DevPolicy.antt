-- ===== src/DevPolicy.antt =====
-- internal/devpolicy/policy.go: the flags of an app from the layers of a configuration, and the layer that
-- each comes from. A Go map is an association list with unique keys.
pub mod Layers
pub mod Validate
pub mod Sessions
pub mod Dispatch
mod Tests
use spyder.Prelude.{
  ℕ, Bool, true, false, ◌||◌, Option, none, some, List, [], ◌∷◌, ◌++◌, if◌then◌else◌, lookup,
  insert,
}
use spyder.Prelude.Bytes.{Bytes, bytes, bytes_beq, bytes_eq, has_prefix}

abbrev pub Flags : Type 0
Flags = List (Bytes × Bytes)

pub record Group : Type 0 where
  pub name : Bytes
  pub bundle_ids : List Bytes
  pub bundle_prefixes : List Bytes
  pub flags : Flags

pub record Config : Type 0 where
  pub version : ℕ
  pub owner : Bytes
  pub global : Flags
  pub groups : List Group
  pub apps : List (Bytes × Flags)

pub record Resolution : Type 0 where
  pub flags : Flags
  pub provenance : List (Bytes × Bytes)

-- The function `merge` of `Resolve`.
unfoldable pub merge : Flags → Bytes → Resolution → Resolution
unfolding insert
merge [] source r = r
merge ((k, v) ∷ f) source r =
    merge f source
      (record { flags = insert k v r.flags; provenance = insert k source r.provenance })

abbrev pub any : (Bytes → Bool) → List Bytes → Bool
any p [] = false
any p (x ∷ xs) = p x || any p xs

-- A group has the bundle by its identifier or by a prefix.
unfoldable pub is_member : Bytes → Group → Bool
is_member bundle g =
    any (bytes_beq bundle) g.bundle_ids || any (has_prefix bundle) g.bundle_prefixes

abbrev pub group_source : Group → Bytes
group_source g = bytes "group:" ++ g.name

unfoldable pub merge_groups : Bytes → List Group → Resolution → Resolution
unfolding is_member merge
merge_groups bundle [] r = r
merge_groups bundle (g ∷ gs) r =
    merge_groups bundle gs (if is_member bundle g then merge g.flags (group_source g) r else r)

-- `c.Apps[bundle]`, an empty map for an app without an entry.
abbrev pub or_empty : Option Flags → Flags
or_empty none = []
or_empty (some f) = f

unfoldable pub app_flags : Config → Bytes → Flags
app_flags c bundle = or_empty (lookup bundle c.apps)

abbrev pub unresolved : Resolution
unresolved = record { flags = []; provenance = [] }

unfoldable pub resolve : Config → Bytes → Flags → Resolution
unfolding merge merge_groups app_flags
resolve c bundle override = merge override (bytes "session") (
    merge (app_flags c bundle) (bytes "app:" ++ bundle)
      (merge_groups bundle c.groups (merge c.global (bytes "global") unresolved)))
