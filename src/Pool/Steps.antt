-- ===== src/Pool/Steps.antt =====
-- internal/pool/pool.go: what the pool's functions on one instance do, as sequences of moves.
pub mod Look
use spyder.Prelude.{
  ℕ, ◌≡◌, ◌⊎◌, refl, ap, ◌∙◌, Bool, true, false, Option, none, some, List, [], ◌∷◌, String,
  string_eq, lookup, insert, erase, lookup-insert, lookup-erase, beq_self, arith, Bool-cases,
  Option-cases, inl, inr,
}
use spyder.Pool.{
  available, running, reserved, Instance, TemplateConfig, World, Pool, is_running, is_available,
  is_reserved, is_blank, is_ios, is_android, reload, cancel_linger,
}
use spyder.Pool.Lifecycle.{
  with_instance, mint_device, minted, mint_instance, booted, boot_instance, shut, shutdown_instance,
  destroy_instance, handed_to, mark_reserved, with_store,
}
use spyder.Pool.Sound.{
  boots, hands, returns, parks, Move, quiet, disarms, arms, mints, changes, removes, Run, stays,
  goes, IsSound, Move-IsSound, Run-IsSound,
}

module _ (F : Instance → Type 0) where
  pub one : (p q : Pool) → Move F p q → Run F p q
  one p q m = goes p q stays m

  pub both : (p q r : Pool) → Run F p q → Run F q r → Run F p r
  both p q _ m stays = m
  both p q _ m (goes r s n o) = goes r s (both p q r m n) o

  pub reload-Run : (w : World) (p : Pool) → Run F p (reload w p)
  unfolding reload
  reload-Run w p = elim (Option-cases w.reloaded) [
    | inl e ↦ rw e stays
    | inr (cfg, e) ↦ rw e (one p (record p { cfg = cfg }) (quiet refl refl))
  ]

  pub cancel_linger-Run : (p : Pool) (id : String) → Run F p (cancel_linger p id)
  unfolding cancel_linger
  cancel_linger-Run p id = one p _ (disarms id refl refl)

pub reload_same :
    (w : World) (p : Pool)
    → ((reload w p).instances ≡ p.instances) × ((reload w p).linger_timers ≡ p.linger_timers)
unfolding reload
reload_same w p = elim (Option-cases w.reloaded) [
  | inl e ↦ rw e (refl, refl)
  | inr (cfg, e) ↦ rw e (refl, refl)
]

-- An instance as the map holds it.
abbrev pub Stands : Pool → Instance → Type 0
Stands p i = lookup i.id p.instances ≡ some i

abbrev pub IsUnarmed : Pool → Instance → Type 0
IsUnarmed p i = lookup i.id p.linger_timers ≡ none

pub IsUnarmed-unless_running :
    (p : Pool) (i : Instance) → IsSound p → Stands p i → is_running i.tier ≡ false → IsUnarmed p i
IsUnarmed-unless_running p i s here idle = elim (Option-cases (lookup i.id p.linger_timers)) [
  | inl e ↦ e
  | inr (d, e) ↦
      let (j, found, runs) = s.timers i.id d e in
      let same : i.tier ≡ running = ground arith in cc (same, idle)
]

pub cancelled : (p : Pool) (i : Instance) → IsUnarmed (cancel_linger p i.id) i
unfolding cancel_linger
cancelled p i = lookup-erase i.id i.id p.linger_timers ∙ rw (beq_self i.id) refl

pub booted-boots :
    (w : World) (i j : Instance)
    → booted w i ≡ some j
    → (j.id ≡ i.id) × (j.tier ≡ running) × (j.holder ≡ i.holder) × (j.template ≡ i.template)
unfolding booted
booted-boots w i j e = ground arith

pub shut-parks :
    (w : World) (i j : Instance)
    → shut w i ≡ some j
    → (j.id ≡ i.id) × (j.tier ≡ available) × (j.holder ≡ i.holder) × (j.template ≡ i.template)
unfolding shut
shut-parks w i j e = ground arith

pub Stands-after : (p : Pool) (i : Instance) → Stands (with_instance p i) i
Stands-after p i = lookup-insert i.id i.id i p.instances ∙ rw (beq_self i.id) refl

erase-insert :
    (k : String) (v : Instance) (m : List (String × Instance)) → erase k (insert k v m) ≡ erase k m
unfolding insert erase
erase-insert k v [] = ground (arith, beq_self k)
erase-insert k v ((j, x) ∷ m) = ground (arith, beq_self k, erase-insert k v m)

pub destroyed :
    (w : World) (p : Pool) (i : Instance)
    → ((destroy_instance w p i).0.instances ≡ erase i.id p.instances)
      × ((destroy_instance w p i).0.linger_timers ≡ p.linger_timers)
      × ((destroy_instance w p i).0.cfg ≡ p.cfg)
unfolding destroy_instance shutdown_instance
destroyed w p i = elim (Bool-cases (is_available i.tier)) [
  | inl a ↦ rw a (refl, refl, refl)
  | inr a ↦ rw a (elim (Option-cases (shut w i)) [
    | inl e ↦ rw (e, shutdown_instance) (refl, refl, refl)
    | inr (j, e) ↦
        rw (e, shutdown_instance)
          (
            ap (λ k. erase i.id (insert k j p.instances)) (shut-parks w i j e).0
                ∙ erase-insert i.id j p.instances,
            refl,
            refl,
          )
  ])
]

module _ (F : Instance → Type 0) (w : World) (p : Pool) (i : Instance) (s : IsSound p)
    (here : Stands p i) where
  pub destroy_instance-Run :
      IsUnarmed p i → (i.tier ≡ reserved → F i) → Run F p (destroy_instance w p i).0
  destroy_instance-Run unarmed free =
      let d = destroyed w p i in one F p _ (removes i here unarmed free d.0 d.1)

  pub shutdown_instance-Run : IsUnarmed p i → i.tier ≡ running → Run F p (shutdown_instance w p i).0
  unfolding shutdown_instance
  shutdown_instance-Run unarmed runs = elim (Option-cases (shut w i)) [
    | inl e ↦ rw (e, shutdown_instance) stays
    | inr (j, e) ↦
        let (id, tier, holder, template) = shut-parks w i j e in
        rw (e, shutdown_instance)
          (one F p _ (changes i j here id unarmed (parks runs tier holder) refl refl))
  ]

  pub mark_reserved-Run :
      (now : ℕ) (holder : String)
      → IsUnarmed p i
      → i.tier ≡ running
      → is_blank holder ≡ false
      → Run F p (mark_reserved w now p i holder).0
  unfolding mark_reserved
  mark_reserved-Run now holder unarmed runs named =
      one F p _
        (changes i (handed_to i holder now) here refl unarmed (hands runs refl named) refl refl)

  pub boot_instance-Run : i.tier ≡ available → Run F p (boot_instance w p i).0
  unfolding boot_instance
  boot_instance-Run idle = elim (Option-cases (booted w i)) [
    | inl e ↦ rw e stays
    | inr (j, e) ↦
        let (id, tier, holder, template) = booted-boots w i j e in
        rw e (
          one F p _ (
            changes i j here id (IsUnarmed-unless_running p i s here (rw idle refl))
              (boots idle tier holder) refl refl))
  ]

pub boot-cases :
    (w : World) (p : Pool) (i : Instance)
    → (boot_instance w p i ≡ (p, none))
      ⊎ ((j : Instance) × (booted w i ≡ some j)
          × (boot_instance w p i ≡ (with_instance p j, some j)))
unfolding boot_instance
boot-cases w p i = elim (Option-cases (booted w i)) [
  | inl e ↦ inl (rw e refl)
  | inr (j, e) ↦ inr (j, e, rw e refl)
]

pub mint-cases :
    (w : World) (n : ℕ) (p : Pool) (t : TemplateConfig)
    → (mint_instance w n p t ≡ (p, none))
      ⊎ ((d : String) × (mint_instance w n p t ≡ (
        with_instance p (minted t (w.uuid n) d (w.now n)),
        some (minted t (w.uuid n) d (w.now n)),
      )))
unfolding mint_instance
mint-cases w n p t = elim (Option-cases (mint_device w t (w.uuid n))) [
  | inl e ↦ inl (rw (e, mint_instance) refl)
  | inr (d, e) ↦ inr (d, rw (e, mint_instance) refl)
]

pub minted-Run :
    (F : Instance → Type 0) (p : Pool) (t : TemplateConfig) (id d : String) (now : ℕ)
    → lookup id p.instances ≡ none
    → Run F p (with_instance p (minted t id d now))
minted-Run F p t id d now free = one F p _ (mints (minted t id d now) free refl refl refl refl)
