-- ===== src/Selector/Match/Spec.antt =====
-- internal/selector/selector.go: a match as a conjunction of the predicates of a selector.
use spyder.Prelude.{
  ◌≡◌, refl, ◌↔◌, true, false, Option, none, some, List, [], ◌∷◌, arith, lookup, All,
}
use spyder.Prelude.Bytes.{Bytes, bytes_eq, bytes_beq_iff, is_blank, equal_fold}
use spyder.Selector.Version.{compare_version}
use spyder.Selector.Match.{
  Selector, Candidate, contains_tag, model_family_matches, is_less, is_greater, failed_tag,
  failed_attr, match_candidate, attr_fails,
}

-- A candidate satisfies a selector when it satisfies each predicate that the selector sets; a device
-- that reports no OS version satisfies the bounds.
pub record Satisfies (sel : Selector) (c : Candidate) : Type 0 where
  pub platform_equal : equal_fold c.info.platform sel.platform ≡ true
  pub family :
      is_blank sel.model_family ≡ false
      → model_family_matches sel.model_family c.info.model c.entry.tags ≡ true
  pub at_least :
      is_blank sel.os_min ≡ false
      → is_blank c.info.os ≡ false
      → is_less (compare_version c.info.os sel.os_min) ≡ false
  pub at_most :
      is_blank sel.os_max ≡ false
      → is_blank c.info.os ≡ false
      → is_greater (compare_version c.info.os sel.os_max) ≡ false
  pub rotates : sel.orientation_capable ≡ true → c.is_sim_or_emu ≡ true
  pub tagged : All (λ t. contains_tag c.entry.tags t ≡ true) sel.tags
  pub attributed : All (λ a. lookup a.0 c.entry.attrs ≡ some a.1) sel.attrs

failed_tag-none :
    (have ts : List Bytes) → (failed_tag have ts ≡ none) ↔ All (λ t. contains_tag have t ≡ true) ts
unfolding failed_tag
failed_tag-none have [] = (λ h. tt, λ h. refl)
failed_tag-none have (t ∷ ts) =
    (λ h. ground (arith, failed_tag-none have ts), λ h. ground (arith, failed_tag-none have ts))

attr_fails_iff : (o : Option Bytes) (v : Bytes) → (attr_fails o v ≡ false) ↔ (o ≡ some v)
attr_fails_iff none v = (λ h. cc, λ h. cc)
attr_fails_iff (some got) v =
    (λ h. ground (arith, bytes_beq_iff got v), λ h. ground (arith, bytes_beq_iff got v))

failed_attr-none :
    (have as' : List (Bytes × Bytes))
    → (failed_attr have as' ≡ none) ↔ All (λ a. lookup a.0 have ≡ some a.1) as'
unfolding failed_attr
failed_attr-none have [] = (λ h. tt, λ h. refl)
failed_attr-none have ((k, v) ∷ rest) = (
  λ h. ground (arith, failed_attr-none have rest, attr_fails_iff (lookup k have) v),
  λ h. ground (arith, failed_attr-none have rest, attr_fails_iff (lookup k have) v),
)

-- A candidate matches exactly when it satisfies every predicate of the selector.
pub match_candidate-Satisfies :
    (sel : Selector) (c : Candidate) → (match_candidate sel c ≡ none) ↔ Satisfies sel c
unfolding match_candidate
match_candidate-Satisfies sel c = (
  λ h. record {
    platform_equal = ground arith;
    family = λ s. ground arith;
    at_least = λ s o. ground arith;
    at_most = λ s o. ground arith;
    rotates = λ s. ground arith;
    tagged = (failed_tag-none c.entry.tags sel.tags).0 (ground arith);
    attributed = (failed_attr-none c.entry.attrs sel.attrs).0 (ground arith);
  },
  λ h. ground (
    arith,
    (failed_tag-none c.entry.tags sel.tags).1 h.tagged,
    (failed_attr-none c.entry.attrs sel.attrs).1 h.attributed,
  ),
)
