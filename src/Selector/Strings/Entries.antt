-- ===== src/Selector/Strings/Entries.antt =====
-- internal/selector/parse_string.go: a text is parsed to what its entries say, one after the other.
use spyder.Prelude.{
  ℕ, ◌≡◌, refl, sym, ap, ◌∙◌, false, Option, none, some, List, [], ◌∷◌, arith, map, All, if_cases,
  Bool-cases, inl, inr, if◌then◌else◌,
}
use spyder.Prelude.Bytes.{
  Bytes, bytes_beq, is_blank, is_space, trim_space, trim_start, trim_end, split,
}
use spyder.Selector.Match.{Selector}
use spyder.Selector.Strings.{
  Failure, duplicate, empty_token, split_entry, Parsed, Field, platform_field, model_field,
  os_min_field, os_max_field, orientation_field, tags_field, attr_field, ambiguous_field,
  unknown_field, parse_bool, ok, err, then_parse, Draft, empty_draft, is_set, check_dup, store,
  assign, field_of, refusal, parse_part, parse_parts, parse_selector_string,
}
use spyder.Selector.Strings.Render.{
  IsEntry, render_entry, render, split-render, split_entry-render, trim_space-render,
}

-- The entries, taken in order.
unfoldable pub assign_all : List (Bytes × Bytes) → Draft → Parsed Draft
unfolding assign
assign_all [] d = ok d
assign_all (e ∷ es) d = then_parse (assign e d) (assign_all es)

abbrev pub selector_of : Parsed Draft → Parsed Selector
selector_of p = then_parse p (λ d. ok d.selector)

parse_part-render :
    (e : Bytes × Bytes) (d : Draft) → IsEntry e → parse_part (render_entry e) d ≡ assign e d
unfolding parse_part
parse_part-render e d h =
    let (trimmed, full) = trim_space-render e h in
    rw (parse_part, trimmed, full, split_entry-render e h)

then_same :
    {A B : Type 0} (p : Parsed A) {f g : A → Parsed B}
    → ((a : A) → f a ≡ g a)
    → then_parse p f ≡ then_parse p g
then_same (ok a) same = same a
then_same (err e) same = refl

parse_parts-render :
    (es : List (Bytes × Bytes)) (d : Draft)
    → All IsEntry es
    → parse_parts (map render_entry es) d ≡ assign_all es d
unfolding parse_parts assign_all
parse_parts-render [] d all = refl
parse_parts-render (e ∷ es) d all =
    ap (λ p. then_parse p (parse_parts (map render_entry es))) (parse_part-render e d all.0)
    ∙ then_same (assign e d) (λ d'. parse_parts-render es d' all.1)

solid_start : (x : ℕ) (xs : Bytes) → is_space x ≡ false → is_blank (trim_space (x ∷ xs)) ≡ false
unfolding trim_space trim_start trim_end
solid_start x xs h = ground (arith, h)

render-full :
    (e : Bytes × Bytes) (es : List (Bytes × Bytes))
    → IsEntry e
    → is_blank (trim_space (render (e ∷ es))) ≡ false
unfolding render
render-full ([], v) es ((nk, pk), word) = absurd (cc nk)
render-full (x ∷ xs, v) [] ((nk, pk), word) = solid_start x _ (ground (arith, pk))
render-full (x ∷ xs, v) (f ∷ es) ((nk, pk), word) = solid_start x _ (ground (arith, pk))

-- The text of one or more entries, whose keys and values have no white space, commas or operators, is
-- parsed to the selector that the entries say, or to the error of the first entry that is refused.
pub parse_selector_string-render :
    (e : Bytes × Bytes) (es : List (Bytes × Bytes))
    → All IsEntry (e ∷ es)
    → parse_selector_string (render (e ∷ es)) ≡ selector_of (assign_all (e ∷ es) empty_draft)
unfolding parse_selector_string
parse_selector_string-render e es all =
    rw (parse_selector_string, render-full e es all.0, split-render e es all)
      (ap selector_of (parse_parts-render (e ∷ es) empty_draft all))

then_ok :
    {A B : Type 0} (p : Parsed A) (f : A → Parsed B) (b : B)
    → then_parse p f ≡ ok b
    → (a : A) × (p ≡ ok a) × (f a ≡ ok b)
then_ok (ok a) f b h = (a, refl, h)
then_ok (err e) f b h = absurd (cc h)

abbrev set_of : Parsed Draft → List Bytes
set_of (ok d) = d.set
set_of (err e) = []

store-set : (f : Field) (key v : Bytes) (d d' : Draft) → store f key v d ≡ ok d' → d'.set ≡ d.set
unfolding store
store-set platform_field key v d d' h = sym (ap set_of h)
store-set model_field key v d d' h = sym (ap set_of h)
store-set os_min_field key v d d' h = sym (ap set_of h)
store-set os_max_field key v d d' h = sym (ap set_of h)
store-set tags_field key v d d' h = sym (ap set_of h)
store-set (attr_field name) key v d d' h = sym (ap set_of h)
store-set orientation_field key v d d' h =
    let (b, e, g) = then_ok (parse_bool v) _ d' h in sym (ap set_of g)
store-set ambiguous_field key v d d' h = absurd (cc h)
store-set unknown_field key v d d' h = absurd (cc h)

check_dup-set :
    (key : Bytes) (d d' : Draft)
    → check_dup key d ≡ ok d'
    → (d'.set ≡ key ∷ d.set) × (is_set key d.set ≡ false)
unfolding check_dup
check_dup-set key d d' =
    if_cases (λ p. p ≡ ok d' → (d'.set ≡ key ∷ d.set) × (is_set key d.set ≡ false))
      (is_set key d.set) (err (duplicate key)) (ok (record d { set = key ∷ d.set }))
      (λ e h. absurd (cc h)) (λ e h. (sym (ap set_of h), e))

-- A key that is assigned was not set before, and is the one that is set now.
assign-set :
    (e : Bytes × Bytes) (d d' : Draft)
    → assign e d ≡ ok d'
    → (d'.set ≡ e.0 ∷ d.set) × (is_set e.0 d.set ≡ false)
unfolding assign
assign-set (k, v) d d' = from (refusal (field_of k) k)
  where
    from :
        (o : Option Failure)
        → (elim o [ none ↦ then_parse (check_dup k d) (store (field_of k) k v) | some e ↦ err e ])
          ≡ ok d'
        → (d'.set ≡ k ∷ d.set) × (is_set k d.set ≡ false)
    from none h =
        let (d1, checked, stored) = then_ok (check_dup k d) (store (field_of k) k v) d' h in
        let (set, fresh) = check_dup-set k d d1 checked in
        (store-set (field_of k) k v d1 d' stored ∙ set, fresh)
    from (some e) h = absurd (cc h)

-- Entries no two of which have the same key.
abbrev pub Distinct : List (Bytes × Bytes) → Type 0
Distinct [] = Unit
Distinct (e ∷ es) = All (λ f. bytes_beq e.0 f.0 ≡ false) es × Distinct es

abbrev IsUnset : Draft → Bytes × Bytes → Type 0
IsUnset d e = is_set e.0 d.set ≡ false

-- What is not set after an entry was assigned was not set before and is not its key.
earlier :
    (e : Bytes × Bytes) (d d' : Draft) (es : List (Bytes × Bytes))
    → d'.set ≡ e.0 ∷ d.set
    → All (IsUnset d') es
    → All (λ f. bytes_beq e.0 f.0 ≡ false) es × All (IsUnset d) es
unfolding is_set
earlier e d d' [] h all = (tt, tt)
earlier e d d' (f ∷ es) h all =
    let (apart, before) = earlier e d d' es h all.1 in
    let here : is_set f.0 (e.0 ∷ d.set) ≡ false = ap (is_set f.0) (sym h) ∙ all.0 in
    ((ground (arith, here), apart), (ground (arith, here), before))

assign_all-Distinct :
    (es : List (Bytes × Bytes)) (d d' : Draft)
    → assign_all es d ≡ ok d'
    → Distinct es × All (IsUnset d) es
unfolding assign_all
assign_all-Distinct [] d d' h = (tt, tt)
assign_all-Distinct (e ∷ es) d d' h =
    let (d1, first, rest) = then_ok (assign e d) (assign_all es) d' h in
    let (set, fresh) = assign-set e d d1 first in
    let (distinct, unset) = assign_all-Distinct es d1 d' rest in
    let (apart, before) = earlier e d d1 es set unset in ((apart, distinct), (fresh, before))

-- The entry that one part between commas holds.
abbrev pub read_part : Bytes → Parsed (Bytes × Bytes)
read_part p = if is_blank (trim_space p) then err empty_token else split_entry (trim_space p)

-- The entries of all parts, or the error of the first part that holds none.
abbrev pub read_parts : List Bytes → Parsed (List (Bytes × Bytes))
read_parts [] = ok []
read_parts (p ∷ ps) = then_parse (read_part p) (λ e. then_parse (read_parts ps) (λ es. ok (e ∷ es)))

part_ok :
    (p : Bytes) (d d' : Draft)
    → parse_part p d ≡ ok d'
    → (e : Bytes × Bytes) × (read_part p ≡ ok e) × (assign e d ≡ ok d')
unfolding parse_part
part_ok p d d' = elim (Bool-cases (is_blank (trim_space p))) [
  | inl blank ↦ rw (blank, parse_part) (λ h. absurd (cc h))
  | inr full ↦
      rw (full, parse_part) (λ h. then_ok (split_entry (trim_space p)) (λ e. assign e d) d' h)
]

parts_ok :
    (ps : List Bytes) (d d' : Draft)
    → parse_parts ps d ≡ ok d'
    → (es : List (Bytes × Bytes)) × (read_parts ps ≡ ok es) × (assign_all es d ≡ ok d')
unfolding parse_parts assign_all
parts_ok [] d d' h = ([], refl, h)
parts_ok (p ∷ ps) d d' h =
    let (d1, first, rest) = then_ok (parse_part p d) (parse_parts ps) d' h in
    let (e, read, assigned) = part_ok p d d1 first in
    let (es, reads, assigns) = parts_ok ps d1 d' rest in
    (e ∷ es, rw (read, reads) refl, rw assigned assigns)

-- Whatever the text: if it is parsed, then each of its parts between commas holds an entry, no two of the
-- entries have the same key (with its operator, and without the white space around it), and the selector is
-- what the entries assign, taken in order.
pub parse_selector_string-Distinct :
    (text : Bytes) (s : Selector)
    → parse_selector_string text ≡ ok s
    → (es : List (Bytes × Bytes)) × (read_parts (split b',' text) ≡ ok es)
      × Distinct es
      × (selector_of (assign_all es empty_draft) ≡ ok s)
unfolding parse_selector_string
parse_selector_string-Distinct text s = elim (Bool-cases (is_blank (trim_space text))) [
  | inl blank ↦ rw (blank, parse_selector_string) (λ h. absurd (cc h))
  | inr full ↦
      rw (full, parse_selector_string)
        (λ h.
          let (d, parsed, same) =
            then_ok (parse_parts (split b',' text) empty_draft) (λ d. ok d.selector) s h in
          let (es, reads, assigned) = parts_ok (split b',' text) empty_draft d parsed in
          (es, reads, (assign_all-Distinct es empty_draft d assigned).0, rw assigned same))
]
