-- ===== src/Selector/Strings/Steps.antt =====
-- internal/selector/parse_string.go: what the entries of a selector do, one kind after the other.
use spyder.Prelude.{
  ◌≡◌, refl, sym, ap, ◌∙◌, Bool, true, false, List, [], ◌∷◌, ◌++◌, arith, All, All-append, insert,
}
use spyder.Prelude.Bytes.{Bytes, bytes, bytes_beq, bytes_eq, has_prefix, to_lower}
use spyder.Selector.Match.{Selector}
use spyder.Selector.Strings.{ok, Draft, is_set, check_dup, store, assign, field_of, parse_bool}
use spyder.Selector.Strings.Render.{IsEntry, append_nil}
use spyder.Selector.Strings.Entries.{assign_all, selector_of, Distinct}
use spyder.Selector.Strings.Printed.{
  optional, flag_entry, tag_entry, attr_entries, IsTag, split-join,
}

-- The keys that the optional entries set.
abbrev pub set_if : Bytes → Bytes → List Bytes → List Bytes
set_if key [] set = set
set_if key (x ∷ v) set = key ∷ set

pub set_if-unset :
    (j key v : Bytes) (set : List Bytes)
    → bytes_beq key j ≡ false
    → is_set j set ≡ false
    → is_set j (set_if key v set) ≡ false
unfolding is_set
set_if-unset j key [] set other h = h
set_if-unset j key (x ∷ v) set other h = ground (arith, other, h)

abbrev pub draft : Selector → List Bytes → Draft
draft s set = record { selector = s; set = set }

abbrev pub flag_set : Bool → List Bytes → List Bytes
flag_set true set = bytes "orientation_capable" ∷ set
flag_set false set = set

abbrev pub tags_set : List Bytes → List Bytes → List Bytes
tags_set [] set = set
tags_set (t ∷ ts) set = bytes "tags" ∷ set

-- What each kind of entry does to a selector in which its field is not set.
module _ (s : Selector) (set : List Bytes) (es : List (Bytes × Bytes)) where
  pub platform_step :
      (v : Bytes)
      → is_set (bytes "platform") set ≡ false
      → assign_all (optional (bytes "platform") v ++ es) (draft (record s { platform = [] }) set)
        ≡ assign_all es (draft (record s { platform = v }) (set_if (bytes "platform") v set))
  unfolding assign_all assign field_of check_dup store
  platform_step [] h = refl
  platform_step (x ∷ v) h = rw h

  pub model_step :
      (v : Bytes)
      → is_set (bytes "model") set ≡ false
      → assign_all (optional (bytes "model") v ++ es) (draft (record s { model_family = [] }) set)
        ≡ assign_all es (draft (record s { model_family = v }) (set_if (bytes "model") v set))
  unfolding assign_all assign field_of check_dup store
  model_step [] h = refl
  model_step (x ∷ v) h = rw h

  pub os_min_step :
      (v : Bytes)
      → is_set (bytes "os_min") set ≡ false
      → assign_all (optional (bytes "os_min") v ++ es) (draft (record s { os_min = [] }) set)
        ≡ assign_all es (draft (record s { os_min = v }) (set_if (bytes "os_min") v set))
  unfolding assign_all assign field_of check_dup store
  os_min_step [] h = refl
  os_min_step (x ∷ v) h = rw h

  pub os_max_step :
      (v : Bytes)
      → is_set (bytes "os_max") set ≡ false
      → assign_all (optional (bytes "os_max") v ++ es) (draft (record s { os_max = [] }) set)
        ≡ assign_all es (draft (record s { os_max = v }) (set_if (bytes "os_max") v set))
  unfolding assign_all assign field_of check_dup store
  os_max_step [] h = refl
  os_max_step (x ∷ v) h = rw h

  pub flag_step :
      (b : Bool)
      → is_set (bytes "orientation_capable") set ≡ false
      → assign_all (flag_entry b ++ es) (draft (record s { orientation_capable = false }) set)
        ≡ assign_all es (draft (record s { orientation_capable = b }) (flag_set b set))
  unfolding assign_all assign field_of check_dup store parse_bool to_lower
  flag_step false h = refl
  flag_step true h = rw h

  pub tags_step :
      (ts : List Bytes)
      → All IsTag ts
      → is_set (bytes "tags") set ≡ false
      → assign_all (tag_entry ts ++ es) (draft (record s { tags = [] }) set)
        ≡ assign_all es (draft (record s { tags = ts }) (tags_set ts set))
  unfolding assign_all assign field_of check_dup store
  tags_step [] all h = refl
  tags_step (t ∷ ts) all h = rw (h, split-join t ts all)

-- The names of the attributes so far differ from the name.
abbrev pub IsNew : List (Bytes × Bytes) → Bytes × Bytes → Type 0
IsNew acc e = All (λ f. bytes_beq f.0 e.0 ≡ false) acc

insert-new :
    (n v : Bytes) (acc : List (Bytes × Bytes))
    → IsNew acc (n, v)
    → insert n v acc ≡ acc ++ (n, v) ∷ []
unfolding insert
insert-new n v [] all = refl
insert-new n v ((m, w) ∷ acc) all = rw (all.0, insert-new n v acc all.1)

append_one :
    (acc m : List (Bytes × Bytes)) (e : Bytes × Bytes) → (acc ++ e ∷ []) ++ m ≡ acc ++ e ∷ m
append_one [] m e = refl
append_one (f ∷ acc) m e = ap (λ r. f ∷ r) (append_one acc m e)

-- What is to come is new, and its key is not set.
abbrev pub Fresh : List (Bytes × Bytes) → List Bytes → List (Bytes × Bytes) → Type 0
Fresh acc set m = All (λ e. IsNew acc e × (is_set (bytes "attr." ++ e.0) set ≡ false)) m

still_Fresh :
    (acc : List (Bytes × Bytes)) (set : List Bytes) (e : Bytes × Bytes) (m : List (Bytes × Bytes))
    → All (λ f. bytes_beq e.0 f.0 ≡ false) m
    → Fresh acc set m
    → Fresh (acc ++ e ∷ []) ((bytes "attr." ++ e.0) ∷ set) m
unfolding is_set
still_Fresh acc set e [] apart all = tt
still_Fresh acc set e (f ∷ m) apart all = (
  (
    All-append (λ g. bytes_beq g.0 f.0 ≡ false) acc (e ∷ []) all.0.0 (apart.0, tt),
    rw (apart.0, all.0.1),
  ),
  still_Fresh acc set e m apart.1 all.1,
)

pub attrs_step :
    (s : Selector) (acc m : List (Bytes × Bytes)) (set : List Bytes)
    → All IsEntry m
    → Distinct m
    → Fresh acc set m
    → selector_of (assign_all (attr_entries m) (draft (record s { attrs = acc }) set))
      ≡ ok (record s { attrs = acc ++ m })
unfolding assign_all assign field_of check_dup store has_prefix
attrs_step s acc [] set all apart fresh =
    ap (λ r. ok (record s { attrs = r })) (sym (append_nil acc))
attrs_step s acc ((n, v) ∷ m) set all apart fresh =
    rw (all.0.0.0, fresh.0.1, insert-new n v acc fresh.0.0)
      (attrs_step s (acc ++ (n, v) ∷ []) m ((bytes "attr." ++ n) ∷ set) all.1 apart.1
          (still_Fresh acc set (n, v) m apart.0 fresh.1)
        ∙ ap (λ r. ok (record s { attrs = r })) (append_one acc m (n, v)))
