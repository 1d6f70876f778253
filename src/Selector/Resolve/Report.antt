-- ===== src/Selector/Resolve/Report.antt =====
-- internal/selector/selector.go: the report where no device is chosen.
use spyder.Prelude.{
  ◌≤◌, ◌≡◌, refl, ◌∙◌, sym, false, not, ◌&&◌, none, List, [], ◌∷◌, map, arith, take, All, length,
}
use spyder.Prelude.Select.{select-empty, All-map, All-both, length-take_le, length-map}
use spyder.Prelude.Bytes.{is_blank}
use spyder.Selector.Match.{Selector, Candidate}
use spyder.Selector.Resolve.{
  Failure, no_match, Result, err, misses, near_miss, report, ask_pool, first_info, resolve,
}
use spyder.Selector.Resolve.Choice.{
  Usable, usable, not-usable, physical_free, sim_free, physical_free_lem, sim_free_lem,
}

unusable_of_empty :
    (sel : Selector) (cs : List Candidate)
    → physical_free sel cs ≡ []
    → sim_free sel cs ≡ []
    → All (λ c. ¬ Usable sel c) cs
unusable_of_empty sel cs hp hs = All-map cs (not-usable sel) (
    All-both (λ x. (usable sel x && not x.is_sim_or_emu) ≡ false)
      (λ x. (usable sel x && x.is_sim_or_emu) ≡ false) cs
      (select-empty _ cs (sym (physical_free_lem sel cs) ∙ hp))
      (select-empty _ cs (sym (sim_free_lem sel cs) ∙ hs)))

first_info-err :
    (ps ss : List Candidate) (later : Result) (f : Failure)
    → first_info ps (first_info ss later) ≡ err f
    → (ps ≡ []) × (ss ≡ []) × (later ≡ err f)
first_info-err [] [] later f h = (refl, refl, h)
first_info-err [] (s ∷ ss) later f h = cc
first_info-err (p ∷ ps) ss later f h = cc

-- Without a pool, and under a selector with a platform, an error means that no candidate satisfies the
-- selector and is free. It reports the first three candidates, at most, that do not satisfy the
-- selector, however many of its predicates they fail.
pub resolve-no_match :
    (sel : Selector) (cs : List Candidate) (f : Failure)
    → is_blank sel.platform ≡ false
    → resolve sel cs none ≡ err f
    → All (λ c. ¬ Usable sel c) cs
      × (f ≡ no_match (map (near_miss sel) (take 3 (misses sel cs))))
      × (length (map (near_miss sel) (take 3 (misses sel cs))) ≤ 3)
unfolding resolve ask_pool report
resolve-no_match sel cs f named h =
    let (hp, hs, e) = first_info-err _ _ _ f (rw (named, resolve) at h) in
    (
      unusable_of_empty sel cs hp hs,
      ground arith,
      omega (
        arith,
        length-map (near_miss sel) (take 3 (misses sel cs)),
        length-take_le 3 (misses sel cs),
      ),
    )
