-- ===== src/DevPolicy/Validate/Resolved.antt =====
-- internal/devpolicy/policy.go: what a configuration that passes `Validate` resolves to.
use spyder.Prelude.{◌≡◌, true, some, List, [], ◌∷◌, arith, lookup, insert, All, if_cases}
use spyder.Prelude.Bytes.{Bytes, bytes_eq, bytes}
use spyder.DevPolicy.{
  Flags, Group, Config, Resolution, merge, merge_groups, app_flags, or_empty, is_member, resolve,
  unresolved,
}
use spyder.DevPolicy.Validate.{
  is_flag, are_each_flags, check_flags, check_groups, check_apps, validate,
}

abbrev pub IsFlag : Bytes × Bytes → Type 0
IsFlag f = is_flag f ≡ true

each-IsFlag : (f : Flags) → are_each_flags f ≡ true → All IsFlag f
each-IsFlag [] h = tt
each-IsFlag (x ∷ f) h = (ground (arith, h), each-IsFlag f (ground (arith, h)))

check_flags-IsFlag : (f : Flags) → check_flags f ≡ true → All IsFlag f
unfolding check_flags
check_flags-IsFlag f h = each-IsFlag f (ground (arith, h))

insert-IsFlag : (k v : Bytes) (m : Flags) → IsFlag (k, v) → All IsFlag m → All IsFlag (insert k v m)
unfolding insert
insert-IsFlag k v [] h all = (h, tt)
insert-IsFlag k v ((j, w) ∷ m) h all =
    if_cases (All IsFlag) (bytes_eq.beq j k) ((k, v) ∷ m) ((j, w) ∷ insert k v m) (λ e. (h, all.1))
      (λ e. (all.0, insert-IsFlag k v m h all.1))

merge-IsFlag :
    (f : Flags) (source : Bytes) (r : Resolution)
    → All IsFlag f
    → All IsFlag r.flags
    → All IsFlag (merge f source r).flags
unfolding merge
merge-IsFlag [] source r h all = all
merge-IsFlag ((k, v) ∷ f) source r h all =
    merge-IsFlag f source _ h.1 (insert-IsFlag k v r.flags h.0 all)

abbrev Holds : Resolution → Type 0
Holds r = All IsFlag r.flags

merge_groups-IsFlag :
    (bundle : Bytes) (names : List Bytes) (gs : List Group) (r : Resolution)
    → check_groups names gs ≡ true
    → All IsFlag r.flags
    → All IsFlag (merge_groups bundle gs r).flags
unfolding merge_groups check_groups
merge_groups-IsFlag bundle names [] r h all = all
merge_groups-IsFlag bundle names (g ∷ gs) r h all =
    let good : check_flags g.flags ≡ true = ground (arith, h) in
    let others : check_groups (g.name ∷ names) gs ≡ true = ground (arith, h) in
    merge_groups-IsFlag bundle (g.name ∷ names) gs _ others (
      if_cases Holds (is_member bundle g) _ _
        (λ e. merge-IsFlag g.flags _ r (check_flags-IsFlag g.flags good) all) (λ e. all))

apps-IsFlag :
    (bundle : Bytes) (m : List (Bytes × Flags))
    → check_apps m ≡ true
    → All IsFlag (or_empty (lookup bundle m))
unfolding lookup check_apps
apps-IsFlag bundle [] h = tt
apps-IsFlag bundle ((id, f) ∷ m) h =
    let good : check_flags f ≡ true = ground (arith, h) in
    let others : check_apps m ≡ true = ground (arith, h) in
    if_cases (λ o. All IsFlag (or_empty o)) (bytes_eq.beq id bundle) (some f) (lookup bundle m)
      (λ e. check_flags-IsFlag f good) (λ e. apps-IsFlag bundle m others)

-- Whatever the app, a configuration that passes `Validate`, with an override whose flags pass its checks,
-- resolves to flags that pass them too: each key is not only white space and has at most 128 bytes, and each
-- value has at most 4096.
pub validate-resolve :
    (c : Config) (bundle : Bytes) (override : Flags)
    → validate c ≡ true
    → check_flags override ≡ true
    → All IsFlag (resolve c bundle override).flags
unfolding resolve validate app_flags
validate-resolve c bundle override h o =
    let global : check_flags c.global ≡ true = ground (arith, h) in
    let groups : check_groups [] c.groups ≡ true = ground (arith, h) in
    let apps : check_apps c.apps ≡ true = ground (arith, h) in
    merge-IsFlag override (bytes "session") _ (check_flags-IsFlag override o) (
      merge-IsFlag (app_flags c bundle) _ _ (apps-IsFlag bundle c.apps apps) (
        merge_groups-IsFlag bundle [] c.groups _ groups (
          merge-IsFlag c.global (bytes "global") unresolved (check_flags-IsFlag c.global global)
            tt)))
