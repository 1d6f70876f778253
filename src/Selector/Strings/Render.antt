-- ===== src/Selector/Strings/Render.antt =====
-- internal/selector/parse_string.go: the text of a list of entries, and what its parts are.
use spyder.Prelude.{
  ℕ, ◌≡◌, refl, ap, ◌∙◌, Bool, true, false, not, ◌&&◌, ◌||◌, none, some, List, [], ◌∷◌, ◌++◌, arith,
  map, ◌==◌, All, Bool-cases, inl, inr,
}
use spyder.Prelude.Bytes.{
  Bytes, is_blank, is_space, has_prefix, split, trim_space, trim_start, trim_end,
}
use spyder.Selector.Strings.{ok, cut, split_entry}

-- A byte that is no white space and has no meaning between entries or between a key and its value.
abbrev pub is_plain : ℕ → Bool
is_plain c = not (is_space c || c == b',' || c == b'=' || c == b'<' || c == b'>')

abbrev pub is_plain_text : Bytes → Bool
is_plain_text [] = true
is_plain_text (x ∷ xs) = is_plain x && is_plain_text xs

-- A text of plain bytes that is not empty.
abbrev pub IsWord : Bytes → Type 0
IsWord s = (is_blank s ≡ false) × (is_plain_text s ≡ true)

abbrev pub IsEntry : Bytes × Bytes → Type 0
IsEntry (k, v) = IsWord k × IsWord v

abbrev pub render_entry : Bytes × Bytes → Bytes
render_entry (k, v) = k ++ b'=' ∷ v

unfoldable pub render : List (Bytes × Bytes) → Bytes
render [] = []
render (e ∷ []) = render_entry e
render (e ∷ f ∷ es) = render_entry e ++ b',' ∷ render (f ∷ es)

-- The bytes of an entry are not white space and not a comma.
abbrev is_solid : ℕ → Bool
is_solid c = not (is_space c || c == b',')

abbrev is_solid_text : Bytes → Bool
is_solid_text [] = true
is_solid_text (x ∷ xs) = is_solid x && is_solid_text xs

plain-solid : (s : Bytes) → is_plain_text s ≡ true → is_solid_text s ≡ true
plain-solid [] h = refl
plain-solid (x ∷ xs) h = ground (arith, plain-solid xs)

solid-append :
    (k v : Bytes)
    → is_plain_text k ≡ true
    → is_plain_text v ≡ true
    → is_solid_text (k ++ b'=' ∷ v) ≡ true
solid-append [] v h i = ground (arith, plain-solid v i)
solid-append (x ∷ xs) v h i = ground (arith, solid-append xs v)

trim_end-solid : (s : Bytes) → is_solid_text s ≡ true → trim_end s ≡ s
unfolding trim_end
trim_end-solid [] h = refl
trim_end-solid (x ∷ xs) h = ground (arith, trim_end-solid xs)

pub trim_space-solid : (s : Bytes) → is_solid_text s ≡ true → trim_space s ≡ s
unfolding trim_space trim_start
trim_space-solid [] h = trim_end-solid [] h
trim_space-solid (x ∷ xs) h = ground (arith, trim_end-solid (x ∷ xs) h)

abbrev pub is_without : ℕ → Bytes → Bool
is_without sep [] = true
is_without sep (x ∷ xs) = not (x == sep) && is_without sep xs

solid-without : (s : Bytes) → is_solid_text s ≡ true → is_without b',' s ≡ true
solid-without [] h = refl
solid-without (x ∷ xs) h = ground (arith, solid-without xs)

split-first : (sep : ℕ) (s : Bytes) → (p : Bytes) × (ps : List Bytes) × (split sep s ≡ p ∷ ps)
unfolding split
split-first sep [] = ([], [], refl)
split-first sep (x ∷ xs) =
    let (p, ps, e) = split-first sep xs in
    elim (Bool-cases (x == sep)) [
      | inl h ↦ ([], p ∷ ps, rw (e, h))
      | inr h ↦ (x ∷ p, ps, rw (e, h))
    ]

-- The first part of a text up to a separator, and a text without one.
pub split-without :
    (sep : ℕ) (s rest : Bytes)
    → is_without sep s ≡ true
    → split sep (s ++ sep ∷ rest) ≡ s ∷ split sep rest
unfolding split
split-without sep [] rest h =
    let same : (sep == sep) ≡ true = ground arith in
    let (p, ps, e) = split-first sep rest in rw (e, same)
split-without sep (x ∷ xs) rest h =
    let whole : is_without sep xs ≡ true = ground (arith, h) in
    let other : (x == sep) ≡ false = ground (arith, h) in
    rw (split-without sep xs rest whole, other)

pub split-whole : (sep : ℕ) (s : Bytes) → is_without sep s ≡ true → split sep s ≡ s ∷ []
unfolding split
split-whole sep [] h = refl
split-whole sep (x ∷ xs) h =
    let whole : is_without sep xs ≡ true = ground (arith, h) in
    let other : (x == sep) ≡ false = ground (arith, h) in rw (split-whole sep xs whole, other)

cut-plain :
    (sep s : Bytes) (c : ℕ) → is_plain_text s ≡ true → is_plain c ≡ false → cut (c ∷ sep) s ≡ none
unfolding cut has_prefix
cut-plain sep [] c h plain = refl
cut-plain sep (x ∷ xs) c h plain = ground (arith, cut-plain sep xs c)

-- The first equals sign is right after the key.
cut-found : (k v : Bytes) → is_plain_text k ≡ true → cut (b'=' ∷ []) (k ++ b'=' ∷ v) ≡ some (k, v)
unfolding cut has_prefix
cut-found [] v h = refl
cut-found (x ∷ xs) v h =
    let whole : is_plain_text xs ≡ true = ground (arith, h) in
    let other : (x == b'=') ≡ false = ground (arith, h) in rw (other, cut-found xs v whole)

-- A separator that begins with `c` is not found in an entry whose key and value are plain, where `c` is not
-- the equals sign.
cut-entry :
    (sep k v : Bytes) (c : ℕ)
    → is_plain_text k ≡ true
    → is_plain_text v ≡ true
    → is_plain c ≡ false
    → (c == b'=') ≡ false
    → cut (c ∷ sep) (k ++ b'=' ∷ v) ≡ none
unfolding cut has_prefix
cut-entry sep [] v c h i plain other = ground (arith, cut-plain sep v c i plain)
cut-entry sep (x ∷ xs) v c h i plain other = ground (arith, cut-entry sep xs v c)

-- The parts of the text are the entries, and each is read back.
pub split-render :
    (e : Bytes × Bytes) (es : List (Bytes × Bytes))
    → All IsEntry (e ∷ es)
    → split b',' (render (e ∷ es)) ≡ map render_entry (e ∷ es)
unfolding render
split-render (k, v) [] all =
    let ((nk, pk), (nv, pv)) = all.0 in
    split-whole b',' (k ++ b'=' ∷ v) (solid-without (k ++ b'=' ∷ v) (solid-append k v pk pv))
split-render (k, v) (f ∷ es) all =
    let ((nk, pk), (nv, pv)) = all.0 in
    split-without b',' (k ++ b'=' ∷ v) (render (f ∷ es))
      (solid-without (k ++ b'=' ∷ v) (solid-append k v pk pv))
    ∙ ap (λ ps. render_entry (k, v) ∷ ps) (split-render f es all.1)

pub append_nil : {A : Type 0} (s : List A) → s ++ [] ≡ s
append_nil [] = refl
append_nil (x ∷ xs) = ap (λ t. x ∷ t) (append_nil xs)

-- An entry is read back from its text.
pub split_entry-render : (e : Bytes × Bytes) → IsEntry e → split_entry (render_entry e) ≡ ok e
unfolding split_entry
split_entry-render (k, v) ((nk, pk), (nv, pv)) =
    rw
      (
        split_entry,
        cut-entry (b'=' ∷ []) k v b'>' pk pv refl refl,
        cut-entry (b'=' ∷ []) k v b'<' pk pv refl refl,
        cut-found k v pk,
        trim_space-solid k (plain-solid k pk),
        trim_space-solid v (plain-solid v pv),
        nk,
        nv,
      )
      (ap (λ key. ok (key, v)) (append_nil k))

render_entry-solid : (e : Bytes × Bytes) → IsEntry e → is_solid_text (render_entry e) ≡ true
render_entry-solid (k, v) ((nk, pk), (nv, pv)) = solid-append k v pk pv

-- So is it from a part, which is the entry's text.
pub trim_space-render :
    (e : Bytes × Bytes)
    → IsEntry e
    → (trim_space (render_entry e) ≡ render_entry e) × (is_blank (render_entry e) ≡ false)
trim_space-render (k, v) all =
    (trim_space-solid (render_entry (k, v)) (render_entry-solid (k, v) all), not_blank k v)
  where
    not_blank : (k v : Bytes) → is_blank (k ++ b'=' ∷ v) ≡ false
    not_blank [] v = refl
    not_blank (x ∷ xs) v = refl
