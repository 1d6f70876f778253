-- ===== src/Selector/Resolve/Choice.antt =====
-- internal/selector/selector.go: the device that is chosen, and the report where none is.
use spyder.Prelude.{
  ◌≡◌, refl, ◌⊎◌, inl, inr, ◌∙◌, sym, Bool, true, false, not, ◌&&◌, none, List, [], ◌∷◌, ◌++◌,
  arith, select, All, Bool-cases,
}
use spyder.Prelude.Select.{
  IsFirst, select-IsFirst, select-empty, select-select, All-map, All-left, All-both,
}
use spyder.Prelude.Bytes.{is_blank}
use spyder.Selector.Match.{Selector, Info, Candidate}
use spyder.Selector.Match.Spec.{Satisfies, match_candidate-Satisfies}
use spyder.Selector.Resolve.{
  Result, ok, matches, free_matches, report, ask_pool, first_info, resolve,
}

-- A candidate that satisfies the selector and is not reserved.
abbrev pub Usable : Selector → Candidate → Type 0
Usable sel c = Satisfies sel c × (c.is_reserved ≡ false)

abbrev pub usable : Selector → Candidate → Bool
usable sel c = matches sel c && not c.is_reserved

usable_sound : (sel : Selector) (c : Candidate) → usable sel c ≡ true → Usable sel c
usable_sound sel c h = ((match_candidate-Satisfies sel c).0 (ground arith), ground arith)

usable_complete : (sel : Selector) (c : Candidate) → Usable sel c → usable sel c ≡ true
usable_complete sel c (s, free) = let m = (match_candidate-Satisfies sel c).1 s in ground arith

-- How a chosen candidate stands among the others: it is usable; and it is the first usable physical
-- device, or there is no usable physical device and it is the first usable simulator or emulator.
pub record Chosen (sel : Selector) (cs : List Candidate) (c : Candidate) : Type 0 where
  pub works : Usable sel c
  pub pre : List Candidate
  pub post : List Candidate
  pub split : cs ≡ pre ++ c ∷ post
  pub preferred :
      ((c.is_sim_or_emu ≡ false) × All (λ d. Usable sel d → d.is_sim_or_emu ≡ true) pre)
      ⊎ ((c.is_sim_or_emu ≡ true)
          × All (λ d. Usable sel d → d.is_sim_or_emu ≡ true) cs
          × All (λ d. ¬ Usable sel d) pre)

no_physical :
    (sel : Selector) (d : Candidate)
    → (usable sel d && not d.is_sim_or_emu) ≡ false
    → Usable sel d
    → d.is_sim_or_emu ≡ true
no_physical sel d h u = let e = usable_complete sel d u in ground arith

physical-Chosen :
    (sel : Selector) (cs : List Candidate) (c : Candidate)
    → IsFirst (λ x. usable sel x && not x.is_sim_or_emu) cs c
    → Chosen sel cs c
physical-Chosen sel cs c f =
    let hit = f.hit in
    record {
      works = usable_sound sel c (ground arith);
      pre = f.pre;
      post = f.post;
      split = f.split;
      preferred = inl (ground arith, All-map f.pre (no_physical sel) f.before);
    }

pub not-usable :
    (sel : Selector) (d : Candidate)
    → ((usable sel d && not d.is_sim_or_emu) ≡ false) × ((usable sel d && d.is_sim_or_emu) ≡ false)
    → ¬ Usable sel d
not-usable sel d (a, b) u = let e = usable_complete sel d u in cc (sim_or_not d.is_sim_or_emu e a b)
  where
    sim_or_not :
        (sim : Bool)
        → usable sel d ≡ true
        → (usable sel d && not sim) ≡ false
        → (usable sel d && sim) ≡ false
        → true ≡ false
    sim_or_not sim e a b = ground arith

sim-Chosen :
    (sel : Selector) (cs : List Candidate) (c : Candidate)
    → All (λ x. (usable sel x && not x.is_sim_or_emu) ≡ false) cs
    → IsFirst (λ x. usable sel x && x.is_sim_or_emu) cs c
    → Chosen sel cs c
sim-Chosen sel cs c none_physical f =
    let hit = f.hit in
    let P : Candidate → Type 0 = λ x. (usable sel x && not x.is_sim_or_emu) ≡ false in
    let ahead = All-left P f.pre (c ∷ f.post) (rw f.split at none_physical) in
    record {
      works = usable_sound sel c (ground arith);
      pre = f.pre;
      post = f.post;
      split = f.split;
      preferred = inr (
        ground arith,
        All-map cs (no_physical sel) none_physical,
        All-map f.pre (not-usable sel)
            (All-both P (λ x. (usable sel x && x.is_sim_or_emu) ≡ false) f.pre ahead f.before),
      );
    }

abbrev pub physical_free : Selector → List Candidate → List Candidate
physical_free sel cs = select (λ c. not c.is_sim_or_emu) (free_matches sel cs)

abbrev pub sim_free : Selector → List Candidate → List Candidate
sim_free sel cs = select (λ c. c.is_sim_or_emu) (free_matches sel cs)

pub physical_free_lem :
    (sel : Selector) (cs : List Candidate)
    → physical_free sel cs ≡ select (λ x. usable sel x && not x.is_sim_or_emu) cs
unfolding free_matches
physical_free_lem sel cs = select-select (usable sel) (λ c. not c.is_sim_or_emu) cs

pub sim_free_lem :
    (sel : Selector) (cs : List Candidate)
    → sim_free sel cs ≡ select (λ x. usable sel x && x.is_sim_or_emu) cs
unfolding free_matches
sim_free_lem sel cs = select-select (usable sel) (λ c. c.is_sim_or_emu) cs

choose :
    (sel : Selector) (cs ps ss : List Candidate) (later : Result) (info : Info)
    → physical_free sel cs ≡ ps
    → sim_free sel cs ≡ ss
    → first_info ps (first_info ss later) ≡ ok info
    → ((c : Candidate) × Chosen sel cs c × (c.info ≡ info)) ⊎ (later ≡ ok info)
choose sel cs (c ∷ ps) ss later info hp hs e = inl (
  c,
  physical-Chosen sel cs c (select-IsFirst _ cs c ps (sym (physical_free_lem sel cs) ∙ hp)),
  ground arith,
)
choose sel cs [] (c ∷ ss) later info hp hs e = inl (
  c,
  sim-Chosen sel cs c (select-empty _ cs (sym (physical_free_lem sel cs) ∙ hp))
      (select-IsFirst _ cs c ss (sym (sim_free_lem sel cs) ∙ hs)),
  ground arith,
)
choose sel cs [] [] later info hp hs e = inr e

-- Without a pool, a device that is returned is that of a candidate that satisfies the selector and is
-- not reserved: the first such physical device, or, if there is no such physical device, the first
-- such simulator or emulator.
pub resolve-Chosen :
    (sel : Selector) (cs : List Candidate) (info : Info)
    → resolve sel cs none ≡ ok info
    → (c : Candidate) × Chosen sel cs c × (c.info ≡ info)
unfolding resolve ask_pool report
resolve-Chosen sel cs info h = elim (Bool-cases (is_blank sel.platform)) [
  | inl blank ↦ absurd (cc (rw (blank, resolve) at h))
  | inr named ↦ elim (choose sel cs _ _ _ info refl refl (rw (named, resolve) at h)) [
    | inl chosen ↦ chosen
    | inr e ↦ absurd (cc e)
  ]
]
