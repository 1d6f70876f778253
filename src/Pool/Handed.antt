-- ===== src/Pool/Handed.antt =====
-- internal/pool/pool.go: what a caller of Acquire gets.
use mathlib.Core.Path.{subst}
use spyder.Prelude.{
  ℕ, ◌≡◌, refl, ap, sym, ◌∙◌, true, false, none, some, List, [], ◌∷◌, String, string_eq, lookup,
  arith, Bool-cases, Option-cases, inl, inr,
}
use spyder.Pool.{
  reserved, Instance, TemplateConfig, World, Pool, is_reserved, is_blank, reload, template_in,
  find_template, pick_running, pick_available, cancel_linger,
}
use spyder.Pool.Lifecycle.{with_instance, minted, mark_reserved, handed_to}
use spyder.Pool.Calls.{ok, after_boot, after_mint, boot_for, mint_for, acquire_from, acquire}
use spyder.Pool.Sound.{IsSound, Run-IsSound}
use spyder.Pool.Steps.{
  reload-Run, reload_same, Stands, booted-boots, Stands-after, boot-cases, mint-cases,
}
use spyder.Pool.Steps.Look.{pick_running-found, pick_available-found}

-- `j` is an instance of the template that the pool holds for the holder, and that nobody held before.
pub record IsHanded (p q : Pool) (name holder : String) (j : Instance) : Type 0 where
  pub here : Stands q j
  pub tier : j.tier ≡ reserved
  pub held : j.holder ≡ holder
  pub fits : string_eq.beq j.template name ≡ true
  pub unheld : (i : Instance) → lookup j.id p.instances ≡ some i → is_reserved i.tier ≡ false

ok_inj : (x y : Instance) → ok x ≡ ok y → x ≡ y
ok_inj x y e = cc e

module _ (w : World) (p : Pool) (name holder : String) where
  marked :
      (now : ℕ) (q : Pool) (i j : Instance)
      → string_eq.beq i.template name ≡ true
      → ((x : Instance) → lookup i.id p.instances ≡ some x → is_reserved x.tier ≡ false)
      → ok (mark_reserved w now q i holder).1 ≡ ok j
      → IsHanded p (mark_reserved w now q i holder).0 name holder j
  unfolding mark_reserved
  marked now q i j fits unheld e =
      subst (λ x. IsHanded p (mark_reserved w now q i holder).0 name holder x)
        (ok_inj (handed_to i holder now) j e)
        (record {
          here = Stands-after q (handed_to i holder now);
          tier = refl;
          held = refl;
          fits = fits;
          unheld = unheld;
        })

  boot_for-IsHanded :
      (n : ℕ) (q : Pool) (i j : Instance)
      → string_eq.beq i.template name ≡ true
      → ((x : Instance) → lookup i.id p.instances ≡ some x → is_reserved x.tier ≡ false)
      → (boot_for w n holder q i).1 ≡ ok j
      → IsHanded p (boot_for w n holder q i).0 name holder j
  unfolding boot_for
  boot_for-IsHanded n q i j fits unheld e = elim (boot-cases w q i) [
    | inl b ↦ cc (subst (λ x. (after_boot w n holder x).1 ≡ ok j) b e)
    | inr (k, made, b) ↦
        let (id, tier, same, template) = booted-boots w i k made in
        subst (λ x. IsHanded p (after_boot w n holder x).0 name holder j) (sym b)
          (marked (w.now n) (with_instance q k) k j (ap (λ t. string_eq.beq t name) template ∙ fits)
            (λ x h. unheld x (ap (λ t. lookup t p.instances) (sym id) ∙ h))
            (subst (λ x. (after_boot w n holder x).1 ≡ ok j) b e))
  ]

  mint_for-IsHanded :
      (t : TemplateConfig) (j : Instance)
      → string_eq.beq t.name name ≡ true
      → lookup (w.uuid 0) p.instances ≡ none
      → (mint_for w holder p t).1 ≡ ok j
      → IsHanded p (mint_for w holder p t).0 name holder j
  unfolding mint_for
  mint_for-IsHanded t j fits free e = elim (mint-cases w 0 p t) [
    | inl b ↦ cc (subst (λ x. (after_mint w holder x).1 ≡ ok j) b e)
    | inr (d, b) ↦
        let i = minted t (w.uuid 0) d (w.now 0) in
        subst (λ x. IsHanded p (after_mint w holder x).0 name holder j) (sym b)
          (boot_for-IsHanded 1 (with_instance p i) i j fits (λ x h. cc (h, free))
            (subst (λ x. (after_mint w holder x).1 ≡ ok j) b e))
  ]

template_in-named :
    (name : String) (ts : List TemplateConfig) (t : TemplateConfig)
    → template_in name ts ≡ some t
    → t.name ≡ name
unfolding template_in
template_in-named name [] t e = cc
template_in-named name (x ∷ xs) t e =
    ground (arith, string_eq.beq_iff x.name name, template_in-named name xs t)

module _ (w : World) (p : Pool) (holder : String) (s : IsSound p) where
  acquire_from-IsHanded :
      (t : TemplateConfig) (j : Instance)
      → lookup (w.uuid 0) p.instances ≡ none
      → (acquire_from w holder p t).1 ≡ ok j
      → IsHanded p (acquire_from w holder p t).0 t.name holder j
  unfolding acquire_from cancel_linger
  acquire_from-IsHanded t j free e = elim (Option-cases (pick_running p t.name)) [
    | inr (i, found) ↦
        let (here, fits, runs) = pick_running-found p t.name i s found in
        rw (found, acquire_from)
          (marked w p t.name holder (w.now 0) (cancel_linger p i.id) i j fits (λ x h. ground arith)
            (rw (found, acquire_from) at e))
    | inl none_running ↦ elim (Option-cases (pick_available p t.name)) [
      | inr (i, found) ↦
          let (here, fits, idle) = pick_available-found p t.name i s found in
          rw (none_running, found, acquire_from)
            (boot_for-IsHanded w p t.name holder 0 p i j fits (λ x h. ground arith)
              (rw (none_running, found, acquire_from) at e))
      | inl none_idle ↦
          rw (none_running, none_idle, acquire_from)
            (mint_for-IsHanded w p t.name holder t j ((string_eq.beq_iff t.name t.name).1 refl) free
              (rw (none_running, none_idle, acquire_from) at e))
    ]
  ]

-- Acquire never hands out an instance that somebody holds: what it returns is an instance of the
-- template that the pool now records as reserved for the caller, and that was reserved for nobody
-- before, or did not exist. The identifier that the call may mint is new to the pool.
pub acquire-IsHanded :
    (w : World) (p : Pool) (name holder : String) (j : Instance)
    → IsSound p
    → lookup (w.uuid 0) p.instances ≡ none
    → (acquire w p name holder).1 ≡ ok j
    → IsHanded p (acquire w p name holder).0 name holder j
unfolding acquire find_template
acquire-IsHanded w p name holder j s free e = elim (Bool-cases (is_blank holder)) [
  | inl blank ↦ cc (rw (blank, acquire) at e)
  | inr named ↦
      let p1 = reload w p in
      let same = (reload_same w p).0 in
      elim (Option-cases (find_template p1 name)) [
        | inl unknown ↦ cc (rw (named, unknown, acquire) at e)
        | inr (t, known) ↦
            let handed =
              acquire_from-IsHanded w p1 holder
                (Run-IsSound (λ i. Unit) p p1 s (reload-Run (λ i. Unit) w p)) t j
                (ap (lookup (w.uuid 0)) same ∙ free) (rw (named, known, acquire) at e) in
            rw (named, known, acquire)
              (record {
                here = handed.here;
                tier = handed.tier;
                held = handed.held;
                fits =
                    ap (string_eq.beq j.template) (sym (template_in-named name p1.cfg t known))
                    ∙ handed.fits;
                unheld = λ i h. handed.unheld i (ap (lookup j.id) same ∙ h);
              })
      ]
]
