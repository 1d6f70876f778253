-- ===== src/Selector/Strings.antt =====
-- internal/selector/parse_string.go: the compact form of a selector, `key=value` pairs between commas. The
-- text of an error is left out; what it names is kept.
pub mod Render
pub mod Entries
pub mod Printed
pub mod Steps
pub mod RoundTrip
mod Tests
use spyder.Prelude.{
  ℕ, ◌+◌, Bool, true, false, not, ◌&&◌, ◌||◌, Option, none, some, List, [], ◌∷◌, ◌++◌,
  if◌then◌else◌, length, drop, insert,
}
use spyder.Prelude.Bytes.{
  Bytes, bytes, bytes_beq, bytes_eq, is_blank, to_lower, has_prefix, split, trim_space,
}
use spyder.Selector.Match.{Selector}

pub data Failure : Type 0 where
  empty_selector empty_token missing_equals empty_key empty_value ambiguous bad_bool empty_attr :
      Failure
  duplicate unknown_key : Bytes → Failure

pub data Parsed (A : Type 0) : Type 0 where
  ok : A → Parsed A
  err : Failure → Parsed A

abbrev pub then_parse : {A B : Type 0} → Parsed A → (A → Parsed B) → Parsed B
then_parse (ok a) f = f a
then_parse (err e) f = err e

abbrev pub push_first : ℕ → Option (Bytes × Bytes) → Option (Bytes × Bytes)
push_first x none = none
push_first x (some (a, b)) = some (x ∷ a, b)

-- `strings.Index` with what stands before and after the first occurrence.
unfoldable pub cut : Bytes → Bytes → Option (Bytes × Bytes)
unfolding has_prefix
cut sep [] = if has_prefix [] sep then some ([], []) else none
cut sep (x ∷ xs) =
    let rest = cut sep xs in
    if has_prefix (x ∷ xs) sep then some ([], drop (length sep) (x ∷ xs)) else push_first x rest

-- A key with its operator, and a value.
abbrev pub entry_of : Bytes → Bytes → Bytes → Parsed (Bytes × Bytes)
entry_of k op v =
    if is_blank k then err empty_key else if is_blank v then err empty_value else ok (k ++ op, v)

abbrev pub plain_entry : Option (Bytes × Bytes) → Parsed (Bytes × Bytes)
plain_entry none = err missing_equals
plain_entry (some (a, b)) = entry_of (trim_space a) [] (trim_space b)

abbrev pub at_most_entry : Bytes → Option (Bytes × Bytes) → Parsed (Bytes × Bytes)
at_most_entry token none = plain_entry (cut (bytes "=") token)
at_most_entry token (some (a, b)) = entry_of (trim_space a) (bytes "<=") (trim_space b)

abbrev pub at_least_entry : Bytes → Option (Bytes × Bytes) → Parsed (Bytes × Bytes)
at_least_entry token none = at_most_entry token (cut (bytes "<=") token)
at_least_entry token (some (a, b)) = entry_of (trim_space a) (bytes ">=") (trim_space b)

unfoldable pub split_entry : Bytes → Parsed (Bytes × Bytes)
unfolding cut trim_space
split_entry token = at_least_entry token (cut (bytes ">=") token)

-- What a key stands for.
pub data Field : Type 0 where
  platform_field model_field os_min_field os_max_field orientation_field tags_field : Field
  ambiguous_field unknown_field : Field
  attr_field : Bytes → Field

unfoldable pub field_of : Bytes → Field
unfolding has_prefix
field_of key =
    if bytes_beq key (bytes "platform")
    then platform_field
    else if bytes_beq key (bytes "model")
    then model_field
    else if bytes_beq key (bytes "os>=")
    then os_min_field
    else if bytes_beq key (bytes "os<=")
    then os_max_field
    else if bytes_beq key (bytes "os_min")
    then os_min_field
    else if bytes_beq key (bytes "os_max")
    then os_max_field
    else if bytes_beq key (bytes "os")
    then ambiguous_field
    else if bytes_beq key (bytes "orientation_capable")
    then orientation_field
    else if bytes_beq key (bytes "tags")
    then tags_field
    else if has_prefix key (bytes "attr.")
    then attr_field (drop 5 key)
    else unknown_field

-- The selector so far and the keys that were set.
pub record Draft : Type 0 where
  pub selector : Selector
  pub set : List Bytes

abbrev pub empty_draft : Draft
empty_draft = record {
  selector = record {
    platform = [];
    model_family = [];
    os_min = [];
    os_max = [];
    orientation_capable = false;
    tags = [];
    attrs = [];
  };
  set = [];
}

unfoldable pub is_set : Bytes → List Bytes → Bool
is_set key [] = false
is_set key (k ∷ ks) = let rest = is_set key ks in bytes_beq k key || rest

-- `checkDup`.
unfoldable pub check_dup : Bytes → Draft → Parsed Draft
unfolding is_set
check_dup key d =
    if is_set key d.set then err (duplicate key) else ok (record d { set = key ∷ d.set })

unfoldable pub parse_bool : Bytes → Parsed Bool
unfolding to_lower
parse_bool s =
    if bytes_beq (to_lower s) (bytes "true") || bytes_beq (to_lower s) (bytes "1")
    then ok true
    else if bytes_beq (to_lower s) (bytes "false") || bytes_beq (to_lower s) (bytes "0")
    then ok false
    else err bad_bool

abbrev pub with_selector : Draft → Selector → Draft
with_selector d s = record d { selector = s }

-- The value goes to the field, once the key has been checked.
unfoldable pub store : Field → Bytes → Bytes → Draft → Parsed Draft
unfolding parse_bool split insert
store platform_field key v d = ok (with_selector d (record d.selector { platform = v }))
store model_field key v d = ok (with_selector d (record d.selector { model_family = v }))
store os_min_field key v d = ok (with_selector d (record d.selector { os_min = v }))
store os_max_field key v d = ok (with_selector d (record d.selector { os_max = v }))
store orientation_field key v d =
    then_parse (parse_bool v)
      (λ b. ok (with_selector d (record d.selector { orientation_capable = b })))
store tags_field key v d = ok (with_selector d (record d.selector { tags = split b'+' v }))
store (attr_field name) key v d =
    ok (with_selector d (record d.selector { attrs = insert name v d.selector.attrs }))
store ambiguous_field key v d = err ambiguous
store unknown_field key v d = err (unknown_key key)

-- What a key is refused for before it is known whether it is a duplicate.
abbrev pub refusal : Field → Bytes → Option Failure
refusal ambiguous_field key = some ambiguous
refusal unknown_field key = some (unknown_key key)
refusal (attr_field name) key = if is_blank name then some empty_attr else none
refusal _ key = none

unfoldable pub assign : Bytes × Bytes → Draft → Parsed Draft
unfolding field_of check_dup store
assign (key, v) d = elim (refusal (field_of key) key) [
  | none ↦ then_parse (check_dup key d) (store (field_of key) key v)
  | some e ↦ err e
]

-- One part between commas.
unfoldable pub parse_part : Bytes → Draft → Parsed Draft
unfolding trim_space split_entry assign
parse_part part d =
    if is_blank (trim_space part)
    then err empty_token
    else then_parse (split_entry (trim_space part)) (λ e. assign e d)

unfoldable pub parse_parts : List Bytes → Draft → Parsed Draft
unfolding parse_part
parse_parts [] d = ok d
parse_parts (p ∷ ps) d = then_parse (parse_part p d) (parse_parts ps)

unfoldable pub parse_selector_string : Bytes → Parsed Selector
unfolding trim_space split parse_parts
parse_selector_string s =
    if is_blank (trim_space s)
    then err empty_selector
    else then_parse (parse_parts (split b',' s) empty_draft) (λ d. ok d.selector)
