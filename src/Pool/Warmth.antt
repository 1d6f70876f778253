-- ===== src/Pool/Warmth.antt =====
-- internal/pool/pool.go: Warm as a sequence of moves.
use mathlib.Core.Path.{subst}
use spyder.Prelude.{
  ℕ, zero, suc, ◌≡◌, refl, sym, ◌∙◌, false, none, some, List, String, string_eq, lookup, insert,
  lookup-insert, arith, Bool-cases, Option-cases, inl, inr,
}
use spyder.Pool.{
  available, Instance, TemplateConfig, World, Pool, reload, find_template, pick_available,
}
use spyder.Pool.Lifecycle.{with_instance, minted, mint_instance, boot_instance}
use spyder.Pool.Calls.{minted_in_turn, warm_one, warm_from, warm}
use spyder.Pool.Sound.{Run, stays, IsSound, Run-IsSound}
use spyder.Pool.Steps.{
  both, reload-Run, reload_same, Stands, booted-boots, Stands-after, boot_instance-Run, boot-cases,
  mint-cases, minted-Run,
}
use spyder.Pool.Steps.Look.{pick_available-found}

-- The `k` identifiers from the `n`-th on differ from `id`.
abbrev pub IsUnlike : World → String → ℕ → ℕ → Type 0
IsUnlike w id n zero = Unit
IsUnlike w id n (suc k) = (string_eq.beq id (w.uuid n) ≡ false) × IsUnlike w id (suc n) k

-- The `k` identifiers from the `n`-th on are new to the map, and differ.
abbrev pub AreNew : World → ℕ → ℕ → List (String × Instance) → Type 0
AreNew w n zero m = Unit
AreNew w n (suc k) m =
    (lookup (w.uuid n) m ≡ none) × IsUnlike w (w.uuid n) (suc n) k × AreNew w (suc n) k m

AreNew-insert :
    (w : World) (n k : ℕ) (i : Instance) (m : List (String × Instance))
    → IsUnlike w i.id n k
    → AreNew w n k m
    → AreNew w n k (insert i.id i m)
AreNew-insert w n zero i m d h = tt
AreNew-insert w n (suc k) i m d h =
    (lookup-insert i.id (w.uuid n) i m ∙ rw d.0 h.0, h.1, AreNew-insert w (suc n) k i m d.1 h.2)

IsUnlike-present :
    (w : World) (n k : ℕ) (i : Instance) (m : List (String × Instance))
    → lookup i.id m ≡ some i
    → AreNew w n k m
    → IsUnlike w i.id n k
IsUnlike-present w n zero i m here h = tt
IsUnlike-present w n (suc k) i m here h =
    (ground (arith, string_eq.beq_iff i.id (w.uuid n)), IsUnlike-present w (suc n) k i m here h.2)

boot_instance-AreNew :
    (w : World) (n k : ℕ) (p : Pool) (i : Instance)
    → Stands p i
    → AreNew w n k p.instances
    → AreNew w n k (boot_instance w p i).0.instances
boot_instance-AreNew w n k p i here new = elim (boot-cases w p i) [
  | inl e ↦ subst (λ x. AreNew w n k x.0.instances) (sym e) new
  | inr (j, b, e) ↦
      let same = (booted-boots w i j b).0 in
      subst (λ x. AreNew w n k x.0.instances) (sym e)
        (AreNew-insert w n k j p.instances
          (subst (λ id. IsUnlike w id n k) (sym same)
            (IsUnlike-present w n k i p.instances here new))
          new)
]

module _ (F : Instance → Type 0) (w : World) where
  boot_turn :
      (n k : ℕ) (p : Pool) (i : Instance)
      → IsSound p
      → Stands p i
      → i.tier ≡ available
      → AreNew w n k p.instances
      → Run F p (boot_instance w p i).0 × AreNew w n k (boot_instance w p i).0.instances
  boot_turn n k p i s here idle new =
      (boot_instance-Run F w p i s here idle, boot_instance-AreNew w n k p i here new)

  mint_turn :
      (n k : ℕ) (t : TemplateConfig) (p : Pool)
      → IsSound p
      → AreNew w n (suc k) p.instances
      → Run F p (minted_in_turn w (mint_instance w n p t)).0
        × AreNew w (suc n) k (minted_in_turn w (mint_instance w n p t)).0.instances
  mint_turn n k t p s new = elim (mint-cases w n p t) [
    | inl e ↦
        subst
          (λ x.
            Run F p (minted_in_turn w x).0 × AreNew w (suc n) k (minted_in_turn w x).0.instances)
          (sym e) (stays, new.2)
    | inr (d, e) ↦
        let i = minted t (w.uuid n) d (w.now n) in
        let p1 = with_instance p i in
        let first = minted-Run F p t (w.uuid n) d (w.now n) new.0 in
        let (next, fresh) =
          boot_turn (suc n) k p1 i (Run-IsSound F p p1 s first) (Stands-after p i) refl
            (AreNew-insert w (suc n) k i p.instances new.1 new.2) in
        subst
          (λ x.
            Run F p (minted_in_turn w x).0 × AreNew w (suc n) k (minted_in_turn w x).0.instances)
          (sym e) (both F p p1 _ first next, fresh)
  ]

  warm_one-Run :
      (n k : ℕ) (t : TemplateConfig) (p : Pool)
      → IsSound p
      → AreNew w n (suc k) p.instances
      → Run F p (warm_one w n t p).0 × AreNew w (suc n) k (warm_one w n t p).0.instances
  unfolding warm_one
  warm_one-Run n k t p s new = elim (Option-cases (pick_available p t.name)) [
    | inl e ↦ rw (e, warm_one) (mint_turn n k t p s new)
    | inr (i, e) ↦
        let (here, fits, idle) = pick_available-found p t.name i s e in
        rw (e, warm_one) (boot_turn (suc n) k p i s here idle new.2)
  ]

  warm_from-Run :
      (n k : ℕ) (t : TemplateConfig) (p : Pool)
      → IsSound p
      → AreNew w n k p.instances
      → Run F p (warm_from w n k t p).0
  unfolding warm_from
  warm_from-Run n zero t p s new = stays
  warm_from-Run n (suc k) t p s new =
      let p1 = (warm_one w n t p).0 in
      let (first, fresh) = warm_one-Run n k t p s new in
      elim (Bool-cases (warm_one w n t p).2) [
        | inr stop ↦ rw stop first
        | inl more ↦
            rw more (
              both F p p1 _ first (warm_from-Run (suc n) k t p1 (Run-IsSound F p p1 s first) fresh))
      ]

  pub warm-Run :
      (p : Pool) (name : String) (n : ℕ)
      → IsSound p
      → AreNew w 0 n p.instances
      → Run F p (warm w p name n).0
  unfolding warm
  warm-Run p name n s new =
      let p1 = reload w p in
      let first = reload-Run F w p in
      elim (Option-cases (find_template p1 name)) [
        | inl e ↦ rw (e, warm) first
        | inr (t, e) ↦
            rw (e, warm)
              (both F p p1 _ first (
                warm_from-Run 0 n t p1 (Run-IsSound F p p1 s first)
                  (subst (AreNew w 0 n) (sym (reload_same w p).0) new)))
      ]
