-- ===== src/DevPolicy/Validate.antt =====
-- internal/devpolicy/policy.go: `Validate`, as whether it returns no error; which one it returns is left out.
pub mod Resolved
mod Tests
use spyder.Prelude.{
  ℕ, ◌+◌, Bool, true, false, not, ◌&&◌, ◌||◌, List, [], ◌∷◌, if◌then◌else◌, leb, ◌==◌, length,
}
use spyder.Prelude.Bytes.{Bytes, bytes_beq, is_blank, trim_space}
use spyder.DevPolicy.{Flags, Group, Config, any}

abbrev pub max_flag_key : ℕ
max_flag_key = 128

abbrev pub max_flag_value : ℕ
max_flag_value = 4096

abbrev pub max_flags_per_scope : ℕ
max_flags_per_scope = 256

-- Nothing but white space.
unfoldable pub is_space_only : Bytes → Bool
unfolding trim_space
is_space_only s = is_blank (trim_space s)

abbrev pub is_flag : Bytes × Bytes → Bool
is_flag (k, v) =
    not (is_space_only k) && leb (length k) max_flag_key && leb (length v) max_flag_value

abbrev pub are_each_flags : Flags → Bool
are_each_flags [] = true
are_each_flags (f ∷ fs) = is_flag f && are_each_flags fs

-- The function `check` of `Validate`.
unfoldable pub check_flags : Flags → Bool
unfolding is_space_only
check_flags f = leb (length f) max_flags_per_scope && are_each_flags f

-- `strings.HasSuffix p "."`.
abbrev pub ends_in_dot : Bytes → Bool
ends_in_dot [] = false
ends_in_dot (x ∷ []) = x == b'.'
ends_in_dot (x ∷ y ∷ ys) = ends_in_dot (y ∷ ys)

abbrev pub is_bad_prefix : Bytes → Bool
is_bad_prefix p = not (ends_in_dot p) || not (leb 3 (length p))

abbrev pub is_group : List Bytes → Group → Bool
is_group names g =
    not (is_space_only g.name)
    && leb (length g.name) 128
    && not (any (bytes_beq g.name) names)
    && not (length g.bundle_ids + length g.bundle_prefixes == 0)
    && not (any is_space_only g.bundle_ids)
    && not (any is_bad_prefix g.bundle_prefixes)
    && check_flags g.flags

-- The groups, with the names of those before.
unfoldable pub check_groups : List Bytes → List Group → Bool
unfolding is_space_only check_flags
check_groups names [] = true
check_groups names (g ∷ gs) =
    let rest = check_groups (g.name ∷ names) gs in is_group names g && rest

unfoldable pub check_apps : List (Bytes × Flags) → Bool
unfolding is_space_only check_flags
check_apps [] = true
check_apps ((id, f) ∷ m) =
    let rest = check_apps m in not (is_space_only id) && check_flags f && rest

unfoldable pub validate : Config → Bool
unfolding check_flags check_groups check_apps
validate c =
    c.version == 1
    && leb (length c.owner) 256
    && leb (length c.groups) 64
    && leb (length c.apps) 512
    && check_flags c.global
    && check_groups [] c.groups
    && check_apps c.apps
