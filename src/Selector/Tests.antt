-- ===== src/Selector/Tests.antt =====
-- internal/selector: the theorems at concrete inputs.
use Prim.Native.Nat.{Ordering}
use spyder.Prelude.{◌≤◌, ◌≡◌, refl, ◌↔◌, true, false, none, [], ◌∷◌, map, take, arith, length, All}
use spyder.Prelude.Bytes.{bytes, equal_fold, contains, split, trim_left}
use spyder.Selector.Version.{compare_version}
use spyder.Selector.Version.Order.{version_numbers, compare_numbers, compare_version-numbers}
use spyder.Selector.Match.{Selector, Candidate, match_candidate, model_family_matches}
use spyder.Selector.Match.Spec.{Satisfies, match_candidate-Satisfies}
use spyder.Selector.Resolve.{ok, err, no_match, resolve, near_miss, misses, ask_pool}
use spyder.Selector.Resolve.Choice.{Usable, Chosen, resolve-Chosen}
use spyder.Selector.Resolve.Report.{resolve-no_match}

same_version : compare_version (bytes "17.0") (bytes "17") ≡ Ordering.eq
unfolding compare_version trim_left
same_version = refl

older_version : compare_version (bytes "9.3") (bytes "17.4.1") ≡ Ordering.lt
unfolding compare_version trim_left
older_version = refl

compare_version-numbers_example :
    compare_version (bytes "9.3") (bytes "17.4")
    ≡ compare_numbers (version_numbers (bytes "9.3")) (version_numbers (bytes "17.4"))
unfolding split
compare_version-numbers_example =
    compare_version-numbers (bytes "9.3") (bytes "17.4") (omega arith) (omega arith)

abbrev any_ios : Selector
any_ios = record {
  platform = bytes "ios";
  model_family = bytes "ipad";
  os_min = [];
  os_max = [];
  orientation_capable = false;
  tags = [];
  attrs = [];
}

abbrev ipad : Candidate
ipad = record {
  info = record {
    uuid = bytes "A1";
    platform = bytes "iOS";
    model = bytes "iPad Air";
    os = bytes "17.4";
  };
  entry = record { alias = bytes "desk"; tags = []; attrs = [] };
  is_sim_or_emu = false;
  is_reserved = false;
}

abbrev sim : Candidate
sim = record ipad { is_sim_or_emu = true }

abbrev iphone : Candidate
iphone = record ipad {
  info = record {
    uuid = bytes "B2";
    platform = bytes "ios";
    model = bytes "iPhone";
    os = bytes "17.4";
  };
}

match_candidate-Satisfies_example : (match_candidate any_ios ipad ≡ none) ↔ Satisfies any_ios ipad
match_candidate-Satisfies_example = match_candidate-Satisfies any_ios ipad

physical_first : resolve any_ios (iphone ∷ sim ∷ ipad ∷ []) none ≡ ok ipad.info
unfolding resolve match_candidate equal_fold model_family_matches contains
physical_first = refl

resolve-Chosen_example :
    (c : Candidate) × Chosen any_ios (iphone ∷ sim ∷ ipad ∷ []) c × (c.info ≡ ipad.info)
resolve-Chosen_example = resolve-Chosen any_ios (iphone ∷ sim ∷ ipad ∷ []) ipad.info physical_first

no_ipad : resolve any_ios (iphone ∷ []) none ≡ err (no_match (near_miss any_ios iphone ∷ []))
unfolding resolve match_candidate equal_fold model_family_matches contains ask_pool
no_ipad = refl

resolve-no_match_example :
    All (λ c. ¬ Usable any_ios c) (iphone ∷ [])
    × (no_match (near_miss any_ios iphone ∷ [])
        ≡ no_match (map (near_miss any_ios) (take 3 (misses any_ios (iphone ∷ [])))))
    × (length (map (near_miss any_ios) (take 3 (misses any_ios (iphone ∷ [])))) ≤ 3)
resolve-no_match_example =
    resolve-no_match any_ios (iphone ∷ []) (no_match (near_miss any_ios iphone ∷ [])) refl no_ipad
