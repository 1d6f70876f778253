-- ===== src/Selector/Strings/Tests.antt =====
-- The text of a selector with a version and two tags.
use spyder.Prelude.{◌≡◌, refl, false, List, [], ◌∷◌}
use spyder.Prelude.Bytes.{
  Bytes, bytes, bytes_eq, has_prefix, split, trim_space, trim_start, trim_end,
}
use spyder.Selector.Match.{Selector}
use spyder.Selector.Strings.{
  ok, parse_selector_string, parse_parts, parse_part, split_entry, cut, assign, field_of, check_dup,
  is_set, store, parse_bool, empty_draft,
}
use spyder.Selector.Strings.Render.{render}
use spyder.Selector.Strings.Printed.{IsPlain, entries_of}
use spyder.Selector.Strings.RoundTrip.{parse_selector_string-entries_of}
use spyder.Selector.Strings.Entries.{
  Distinct, read_parts, selector_of, assign_all, parse_selector_string-Distinct,
}

abbrev on_ios : Bytes × Bytes
on_ios = (bytes "platform", bytes "ios")

abbrev others : List (Bytes × Bytes)
others = (bytes "os_min", bytes "17") ∷ (bytes "tags", bytes "lab+new") ∷ []

abbrev parsed : Selector
parsed = record {
  platform = bytes "ios";
  model_family = [];
  os_min = bytes "17";
  os_max = [];
  orientation_capable = false;
  tags = bytes "lab" ∷ bytes "new" ∷ [];
  attrs = [];
}

text : render (on_ios ∷ others) ≡ bytes "platform=ios,os_min=17,tags=lab+new"
unfolding render
text = refl

text-parsed : parse_selector_string (render (on_ios ∷ others)) ≡ ok parsed
unfolding parse_selector_string parse_parts parse_part split_entry cut assign field_of check_dup
    is_set store parse_bool render has_prefix split trim_space trim_start trim_end
text-parsed = refl

-- Two spellings of the least version are two keys: the later one counts.
twice :
    parse_selector_string (bytes "os>=16, os_min = 17")
    ≡ ok (record empty_draft.selector { os_min = bytes "17" })
unfolding parse_selector_string parse_parts parse_part split_entry cut assign field_of check_dup
    is_set store parse_bool has_prefix split trim_space trim_start trim_end
twice = refl

parse_selector_string-Distinct_example :
    (es : List (Bytes × Bytes)) × (read_parts (split b',' (bytes "os>=16, os_min = 17")) ≡ ok es)
    × Distinct es
    × (selector_of (assign_all es empty_draft)
        ≡ ok (record empty_draft.selector { os_min = bytes "17" }))
parse_selector_string-Distinct_example =
    parse_selector_string-Distinct (bytes "os>=16, os_min = 17")
      (record empty_draft.selector { os_min = bytes "17" }) twice

parsed-IsPlain : IsPlain parsed
parsed-IsPlain = record {
  platform = refl;
  model = refl;
  os_min = refl;
  os_max = refl;
  tags = (((refl, refl), refl), (((refl, refl), refl), tt));
  attrs = tt;
  names = tt;
}

parse_selector_string-entries_of_example :
    parse_selector_string (render (entries_of parsed)) ≡ ok parsed
parse_selector_string-entries_of_example =
    parse_selector_string-entries_of parsed on_ios others parsed-IsPlain refl
