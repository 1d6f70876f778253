-- ===== src/Pool/Acquire.antt =====
-- internal/pool/pool.go: Acquire as a sequence of moves.
use mathlib.Core.Path.{subst}
use spyder.Prelude.{
  ℕ, ◌≡◌, refl, ap, sym, ◌∙◌, false, none, String, string_eq, lookup, Option-cases, inl, inr,
}
use spyder.Pool.{
  available, Instance, TemplateConfig, World, Pool, is_blank, pick_running, pick_available,
  cancel_linger,
}
use spyder.Pool.Lifecycle.{with_instance, minted}
use spyder.Pool.Calls.{after_boot, after_mint, boot_for, mint_for, acquire_from}
use spyder.Pool.Sound.{Run, stays, IsSound, Run-IsSound}
use spyder.Pool.Steps.{
  both, cancel_linger-Run, Stands, IsUnarmed-unless_running, cancelled, booted-boots, Stands-after,
  mark_reserved-Run, boot_instance-Run, boot-cases, mint-cases, minted-Run,
}
use spyder.Pool.Steps.Look.{pick_running-found, pick_available-found}

module _ (F : Instance → Type 0) (w : World) where
  boot_for-Run :
      (n : ℕ) (holder : String) (p : Pool) (i : Instance)
      → IsSound p
      → Stands p i
      → i.tier ≡ available
      → is_blank holder ≡ false
      → Run F p (boot_for w n holder p i).0
  unfolding boot_for
  boot_for-Run n holder p i s here idle named = elim (boot-cases w p i) [
    | inl e ↦ subst (λ x. Run F p (after_boot w n holder x).0) (sym e) stays
    | inr (j, b, e) ↦
        let (id, tier, same, template) = booted-boots w i j b in
        let first : Run F p (with_instance p j) =
          subst (λ x. Run F p x.0) e (boot_instance-Run F w p i s here idle) in
        let unarmed : lookup j.id p.linger_timers ≡ none =
          ap (λ k. lookup k p.linger_timers) id
          ∙ IsUnarmed-unless_running p i s here (rw idle refl) in
        subst (λ x. Run F p (after_boot w n holder x).0) (sym e)
          (both F p (with_instance p j) _ first (
            mark_reserved-Run F w (with_instance p j) j
              (Run-IsSound F p (with_instance p j) s first) (Stands-after p j) (w.now n) holder
              unarmed tier named))
  ]

  mint_for-Run :
      (holder : String) (p : Pool) (t : TemplateConfig)
      → IsSound p
      → lookup (w.uuid 0) p.instances ≡ none
      → is_blank holder ≡ false
      → Run F p (mint_for w holder p t).0
  unfolding mint_for
  mint_for-Run holder p t s free named = elim (mint-cases w 0 p t) [
    | inl e ↦ subst (λ x. Run F p (after_mint w holder x).0) (sym e) stays
    | inr (d, e) ↦
        let i = minted t (w.uuid 0) d (w.now 0) in
        let first = minted-Run F p t (w.uuid 0) d (w.now 0) free in
        subst (λ x. Run F p (after_mint w holder x).0) (sym e)
          (both F p (with_instance p i) _ first (
            boot_for-Run 1 holder (with_instance p i) i
              (Run-IsSound F p (with_instance p i) s first) (Stands-after p i) refl named))
  ]

  pub acquire_from-Run :
      (holder : String) (p : Pool) (t : TemplateConfig)
      → IsSound p
      → lookup (w.uuid 0) p.instances ≡ none
      → is_blank holder ≡ false
      → Run F p (acquire_from w holder p t).0
  unfolding acquire_from cancel_linger
  acquire_from-Run holder p t s free named = elim (Option-cases (pick_running p t.name)) [
    | inr (i, e) ↦
        let (here, fits, runs) = pick_running-found p t.name i s e in
        let first = cancel_linger-Run F p i.id in
        rw (e, acquire_from)
          (both F p (cancel_linger p i.id) _ first (
            mark_reserved-Run F w (cancel_linger p i.id) i (Run-IsSound F p _ s first) here
              (w.now 0) holder (cancelled p i) runs named))
    | inl none_running ↦ elim (Option-cases (pick_available p t.name)) [
      | inr (i, e) ↦
          let (here, fits, idle) = pick_available-found p t.name i s e in
          rw (none_running, e, acquire_from) (boot_for-Run 0 holder p i s here idle named)
      | inl none_idle ↦
          rw (none_running, none_idle, acquire_from) (mint_for-Run holder p t s free named)
    ]
  ]
