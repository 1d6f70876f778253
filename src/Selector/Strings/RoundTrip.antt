-- ===== src/Selector/Strings/RoundTrip.antt =====
-- internal/selector/parse_string.go: every selector without white space and operators has a text from which
-- it is read back.
use mathlib.Core.Path.{subst}
use spyder.Prelude.{◌≡◌, refl, sym, ap, ◌∙◌, Bool, true, false, List, [], ◌∷◌, ◌++◌, arith, All}
use spyder.Prelude.Bytes.{Bytes, bytes, bytes_beq, bytes_eq}
use spyder.Selector.Match.{Selector}
use spyder.Selector.Strings.{ok, empty_draft, is_set, parse_selector_string}
use spyder.Selector.Strings.Render.{IsEntry, render}
use spyder.Selector.Strings.Entries.{assign_all, selector_of, parse_selector_string-render}
use spyder.Selector.Strings.Printed.{
  optional, flag_entry, tag_entry, attr_entries, entries_of, IsPlain, entries_of-IsEntry,
}
use spyder.Selector.Strings.Steps.{
  set_if, set_if-unset, draft, flag_set, tags_set, platform_step, model_step, os_min_step,
  os_max_step, flag_step, tags_step, attrs_step, Fresh,
}

attr_Fresh :
    (set : List Bytes) (m : List (Bytes × Bytes))
    → ((n : Bytes) → is_set (bytes "attr." ++ n) set ≡ false)
    → Fresh [] set m
attr_Fresh set [] h = tt
attr_Fresh set (e ∷ m) h = ((tt, h e.0), attr_Fresh set m h)

unset_flag :
    (j : Bytes) (b : Bool) (set : List Bytes)
    → bytes_beq (bytes "orientation_capable") j ≡ false
    → is_set j set ≡ false
    → is_set j (flag_set b set) ≡ false
unfolding is_set
unset_flag j true set other h = ground (arith, other, h)
unset_flag j false set other h = h

unset_tags :
    (j : Bytes) (ts : List Bytes) (set : List Bytes)
    → bytes_beq (bytes "tags") j ≡ false
    → is_set j set ≡ false
    → is_set j (tags_set ts set) ≡ false
unfolding is_set
unset_tags j [] set other h = h
unset_tags j (t ∷ ts) set other h = ground (arith, other, h)

-- The keys set after the four texts of a selector.
abbrev texts_set : Selector → List Bytes
texts_set s = set_if (bytes "os_max") s.os_max (
    set_if (bytes "os_min") s.os_min
      (set_if (bytes "model") s.model_family (set_if (bytes "platform") s.platform [])))

texts_set-unset :
    (s : Selector) (j : Bytes)
    → bytes_beq (bytes "platform") j ≡ false
    → bytes_beq (bytes "model") j ≡ false
    → bytes_beq (bytes "os_min") j ≡ false
    → bytes_beq (bytes "os_max") j ≡ false
    → is_set j (texts_set s) ≡ false
unfolding is_set
texts_set-unset s j a b c d = set_if-unset j (bytes "os_max") s.os_max _ d (
    set_if-unset j (bytes "os_min") s.os_min _ c (
      set_if-unset j (bytes "model") s.model_family _ b
        (set_if-unset j (bytes "platform") s.platform [] a refl)))

-- A selector of which only the texts are set.
abbrev texts_of : Selector → Selector
texts_of s = record s { orientation_capable = false; tags = []; attrs = [] }

-- The entries of the texts.
texts_assigned :
    (s : Selector) (es : List (Bytes × Bytes))
    → assign_all
        (optional (bytes "platform") s.platform
          ++ (optional (bytes "model") s.model_family
              ++ (optional (bytes "os_min") s.os_min
                  ++ (optional (bytes "os_max") s.os_max ++ es))))
        empty_draft
      ≡ assign_all es (draft (texts_of s) (texts_set s))
unfolding is_set
texts_assigned s es =
    let s0 = empty_draft.selector in
    let s1 = record s0 { platform = s.platform } in
    let s2 = record s1 { model_family = s.model_family } in
    let s3 = record s2 { os_min = s.os_min } in
    let k1 = set_if (bytes "platform") s.platform [] in
    let k2 = set_if (bytes "model") s.model_family k1 in
    let k3 = set_if (bytes "os_min") s.os_min k2 in
    let e3 = optional (bytes "os_max") s.os_max ++ es in
    let e2 = optional (bytes "os_min") s.os_min ++ e3 in
    let e1 = optional (bytes "model") s.model_family ++ e2 in
    platform_step s0 [] e1 s.platform refl
    ∙ model_step s1 k1 e2 s.model_family (set_if-unset _ _ s.platform [] refl refl)
    ∙ os_min_step s2 k2 e3 s.os_min
        (set_if-unset _ _ s.model_family k1 refl (set_if-unset _ _ s.platform [] refl refl))
    ∙ os_max_step s3 k3 es s.os_max (
        set_if-unset _ _ s.os_min k2 refl
          (set_if-unset _ _ s.model_family k1 refl (set_if-unset _ _ s.platform [] refl refl)))

-- The entries of a selector give the selector.
assigned : (s : Selector) → IsPlain s → selector_of (assign_all (entries_of s) empty_draft) ≡ ok s
assigned s p =
    let s4 = texts_of s in
    let s5 = record s4 { orientation_capable = s.orientation_capable } in
    let s6 = record s5 { tags = s.tags } in
    let k4 = texts_set s in
    let k5 = flag_set s.orientation_capable k4 in
    let k6 = tags_set s.tags k5 in
    let e6 = attr_entries s.attrs in
    let e5 = tag_entry s.tags ++ e6 in
    ap selector_of (
      texts_assigned s (flag_entry s.orientation_capable ++ e5)
      ∙ flag_step s4 k4 e5 s.orientation_capable (texts_set-unset s _ refl refl refl refl)
      ∙ tags_step s5 k5 e6 s.tags p.tags
          (unset_flag _ s.orientation_capable k4 refl (texts_set-unset s _ refl refl refl refl)))
    ∙ attrs_step s6 [] s.attrs k6 p.attrs p.names (
        attr_Fresh k6 s.attrs (λ n.
          unset_tags _ s.tags k5 refl
            (unset_flag _ s.orientation_capable k4 refl (texts_set-unset s _ refl refl refl refl))))

-- A selector that says anything, whose texts have no white space, commas or operators, whose tags have no
-- plus signs and whose attributes have each name once, is what its text is parsed to.
pub parse_selector_string-entries_of :
    (s : Selector) (e : Bytes × Bytes) (es : List (Bytes × Bytes))
    → IsPlain s
    → entries_of s ≡ e ∷ es
    → parse_selector_string (render (entries_of s)) ≡ ok s
parse_selector_string-entries_of s e es p some_entry =
    ap (λ l. parse_selector_string (render l)) some_entry
    ∙ parse_selector_string-render e es (subst (All IsEntry) some_entry (entries_of-IsEntry s p))
    ∙ ap (λ l. selector_of (assign_all l empty_draft)) (sym some_entry)
    ∙ assigned s p
