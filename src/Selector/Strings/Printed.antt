-- ===== src/Selector/Strings/Printed.antt =====
-- internal/selector/parse_string.go: the entries of a selector, and when they can be read back.
use spyder.Prelude.{
  ◌≡◌, refl, ap, ◌∙◌, Bool, true, false, List, [], ◌∷◌, ◌++◌, arith, All, All-append,
}
use spyder.Prelude.Bytes.{Bytes, bytes, bytes_eq, is_blank, split}
use spyder.Selector.Match.{Selector}
use spyder.Selector.Strings.Render.{
  IsEntry, IsWord, is_plain_text, is_without, split-without, split-whole,
}
use spyder.Selector.Strings.Entries.{Distinct}

-- The tags with a plus sign between them.
abbrev pub join_tags : List Bytes → Bytes
join_tags [] = []
join_tags (t ∷ []) = t
join_tags (t ∷ u ∷ ts) = t ++ b'+' ∷ join_tags (u ∷ ts)

abbrev pub optional : Bytes → Bytes → List (Bytes × Bytes)
optional key [] = []
optional key (x ∷ v) = (key, x ∷ v) ∷ []

abbrev pub flag_entry : Bool → List (Bytes × Bytes)
flag_entry true = (bytes "orientation_capable", bytes "true") ∷ []
flag_entry false = []

abbrev pub tag_entry : List Bytes → List (Bytes × Bytes)
tag_entry [] = []
tag_entry (t ∷ ts) = (bytes "tags", join_tags (t ∷ ts)) ∷ []

abbrev pub attr_entries : List (Bytes × Bytes) → List (Bytes × Bytes)
attr_entries [] = []
attr_entries ((n, v) ∷ m) = (bytes "attr." ++ n, v) ∷ attr_entries m

-- The entries of a selector; what is not set has none.
abbrev pub entries_of : Selector → List (Bytes × Bytes)
entries_of s =
    optional (bytes "platform") s.platform
    ++ (optional (bytes "model") s.model_family
        ++ (optional (bytes "os_min") s.os_min
            ++ (optional (bytes "os_max") s.os_max
                ++ (flag_entry s.orientation_capable
                    ++ (tag_entry s.tags ++ attr_entries s.attrs)))))

abbrev pub IsTag : Bytes → Type 0
IsTag t = IsWord t × (is_without b'+' t ≡ true)

-- A selector whose texts have no white space, no commas and no operators, whose tags have no plus signs,
-- and whose attributes have each name once.
pub record IsPlain (s : Selector) : Type 0 where
  pub platform : is_plain_text s.platform ≡ true
  pub model : is_plain_text s.model_family ≡ true
  pub os_min : is_plain_text s.os_min ≡ true
  pub os_max : is_plain_text s.os_max ≡ true
  pub tags : All IsTag s.tags
  pub attrs : All IsEntry s.attrs
  pub names : Distinct s.attrs

pub split-join :
    (t : Bytes) (ts : List Bytes) → All IsTag (t ∷ ts) → split b'+' (join_tags (t ∷ ts)) ≡ t ∷ ts
split-join t [] all = split-whole b'+' t all.0.1
split-join t (u ∷ ts) all =
    split-without b'+' t (join_tags (u ∷ ts)) all.0.1 ∙ ap (λ r. t ∷ r) (split-join u ts all.1)

-- The entries of a plain selector can be read back.
optional-IsEntry :
    (key v : Bytes) → IsWord key → is_plain_text v ≡ true → All IsEntry (optional key v)
optional-IsEntry key [] word h = tt
optional-IsEntry key (x ∷ v) word h = ((word, (refl, h)), tt)

flag-IsEntry : (b : Bool) → All IsEntry (flag_entry b)
flag-IsEntry true = (((refl, refl), (refl, refl)), tt)
flag-IsEntry false = tt

append-plain :
    (a b : Bytes)
    → is_plain_text a ≡ true
    → is_plain_text b ≡ true
    → is_plain_text (a ++ b'+' ∷ b) ≡ true
append-plain [] b h i = i
append-plain (x ∷ a) b h i = ground (arith, append-plain a b)

join_tags-plain : (ts : List Bytes) → All IsTag ts → is_plain_text (join_tags ts) ≡ true
join_tags-plain [] all = refl
join_tags-plain (t ∷ []) all = all.0.0.1
join_tags-plain (t ∷ u ∷ ts) all =
    append-plain t (join_tags (u ∷ ts)) all.0.0.1 (join_tags-plain (u ∷ ts) all.1)

join_tags-full : (t : Bytes) (ts : List Bytes) → IsTag t → is_blank (join_tags (t ∷ ts)) ≡ false
join_tags-full [] ts tag = absurd (cc tag.0.0)
join_tags-full (x ∷ t) [] tag = refl
join_tags-full (x ∷ t) (u ∷ ts) tag = refl

tags-IsEntry : (ts : List Bytes) → All IsTag ts → All IsEntry (tag_entry ts)
tags-IsEntry [] all = tt
tags-IsEntry (t ∷ ts) all =
    (((refl, refl), (join_tags-full t ts all.0, join_tags-plain (t ∷ ts) all)), tt)

attrs-IsEntry : (m : List (Bytes × Bytes)) → All IsEntry m → All IsEntry (attr_entries m)
attrs-IsEntry [] all = tt
attrs-IsEntry ((n, v) ∷ m) all = (((refl, all.0.0.1), all.0.1), attrs-IsEntry m all.1)

pub entries_of-IsEntry : (s : Selector) → IsPlain s → All IsEntry (entries_of s)
entries_of-IsEntry s p =
    All-append IsEntry (optional (bytes "platform") s.platform) _
      (optional-IsEntry (bytes "platform") s.platform (refl, refl) p.platform)
      (All-append IsEntry (optional (bytes "model") s.model_family) _
        (optional-IsEntry (bytes "model") s.model_family (refl, refl) p.model)
        (All-append IsEntry (optional (bytes "os_min") s.os_min) _
          (optional-IsEntry (bytes "os_min") s.os_min (refl, refl) p.os_min)
          (All-append IsEntry (optional (bytes "os_max") s.os_max) _
            (optional-IsEntry (bytes "os_max") s.os_max (refl, refl) p.os_max)
            (All-append IsEntry (flag_entry s.orientation_capable) _
              (flag-IsEntry s.orientation_capable)
              (All-append IsEntry (tag_entry s.tags) _ (tags-IsEntry s.tags p.tags)
                (attrs-IsEntry s.attrs p.attrs))))))
