-- ===== src/Pool/Retire.antt =====
-- internal/pool/pool.go: Release, the expiry of a linger timer and ForceShutdown as sequences of moves.
use mathlib.Core.Path.{subst}
use spyder.Prelude.{
  ◌≡◌, ◌⊎◌, refl, ap, sym, ◌∙◌, true, false, Option, none, some, String, string_eq, lookup, insert,
  lookup-erase, beq_self, arith, Bool-cases, Option-cases, inl, inr,
}
use spyder.Pool.{
  running, reserved, Instance, TemplateConfig, World, Pool, is_running, is_reserved, reload,
  find_template, pick_oldest_available, cancel_linger, linger_duration,
}
use spyder.Pool.Lifecycle.{destroy_instance}
use spyder.Pool.Calls.{
  give_back, returned, is_full, settle, release, make_room, park, on_linger_expired,
}
use spyder.Pool.Sound.{returns, arms, changes, Run, stays, IsSound, Run-IsSound}
use spyder.Pool.Steps.{
  one, both, reload-Run, reload_same, cancel_linger-Run, Stands, IsUnarmed,
  IsUnarmed-unless_running, Stands-after, destroyed, destroy_instance-Run, shutdown_instance-Run,
}
use spyder.Pool.Steps.Look.{pick_oldest_available-found, running_of}

reserved_of : (i : Instance) → is_reserved i.tier ≡ true → i.tier ≡ reserved
reserved_of i e = ground arith

pub some_inj {ℓ} : {A : Type ℓ} {x y : A} → some x ≡ some y → x ≡ y
some_inj e = cc e

pub make_room-cases :
    (w : World) (p : Pool) (t : TemplateConfig) (name : String)
    → ((is_full p t name ≡ false) × (make_room w p t name ≡ some p))
      ⊎ ((is_full p t name ≡ true)
          × (pick_oldest_available p name ≡ none)
          × (make_room w p t name ≡ none))
      ⊎ ((v : Instance) × (is_full p t name ≡ true)
          × (pick_oldest_available p name ≡ some v)
          × (make_room w p t name ≡ some (destroy_instance w p v).0))
unfolding make_room
make_room-cases w p t name = elim (Bool-cases (is_full p t name)) [
  | inr roomy ↦ inl (roomy, rw (roomy, make_room) refl)
  | inl full ↦ elim (Option-cases (pick_oldest_available p name)) [
    | inl nobody ↦ inr (inl (full, nobody, rw (full, make_room) (rw nobody refl)))
    | inr (v, found) ↦ inr (inr (v, full, found, rw (full, make_room) (rw found refl)))
  ]
]

module _ (F : Instance → Type 0) (w : World) where
  give_back-Run :
      (p : Pool) (i : Instance)
      → IsSound p
      → Stands p i
      → F i
      → i.tier ≡ reserved
      → Run F p (give_back w p i)
  unfolding give_back
  give_back-Run p i s here free held = one F p _ (
      changes i (returned i (w.now 0)) here refl
        (IsUnarmed-unless_running p i s here (rw held refl)) (returns free held refl refl) refl
        refl)

  -- From the pool that has the instance back, and has its configuration reloaded.
  settle-Run :
      (p : Pool) (i : Instance) (id : String)
      → IsSound p
      → Stands p i
      → i.tier ≡ running
      → IsUnarmed p i
      → i.id ≡ id
      → (t : Option TemplateConfig) → Run F p (settle w p i id t).0
  unfolding settle
  settle-Run p i id s here runs unarmed same none =
      destroy_instance-Run F w p i s here unarmed (λ held. cc (runs, held))
  settle-Run p i id s here runs unarmed same (some c) = one F p _ (
      arms i (linger_duration w c) here runs refl
        (ap (λ k. insert k (linger_duration w c) p.linger_timers) (sym same)))

  pub release-Run :
      (p : Pool) (id : String)
      → IsSound p
      → ((i : Instance) → lookup id p.instances ≡ some i → F i)
      → Run F p (release w p id).0
  unfolding release find_template give_back
  release-Run p id s free = elim (Option-cases (lookup id p.instances)) [
    | inl e ↦ rw (e, release) stays
    | inr (i, e) ↦
        let same = s.keyed id i e in
        let here : Stands p i = ap (λ k. lookup k p.instances) same ∙ e in
        elim (Bool-cases (is_reserved i.tier)) [
          | inr idle ↦ rw (e, release) (rw idle stays)
          | inl held ↦
              let tier = reserved_of i held in
              let back = returned i (w.now 0) in
              let p1 = give_back w p i in
              let first = give_back-Run p i s here (free i e) tier in
              let second = both F p p1 (reload w p1) first (reload-Run F w p1) in
              let (ei, et) = reload_same w p1 in
              let unarmed = IsUnarmed-unless_running p i s here (rw tier refl) in
              rw (e, release)
                (rw held (
                  both F p (reload w p1) _ second (
                    settle-Run (reload w p1) back id (Run-IsSound F p _ s second)
                      (ap (lookup i.id) ei ∙ Stands-after p back) refl
                      (ap (lookup i.id) et ∙ unarmed) same
                      (find_template (reload w p1) i.template))))
        ]
  ]

  pub evict-Run :
      (p : Pool) (i v : Instance) (name : String)
      → IsSound p
      → Stands p i
      → i.tier ≡ running
      → IsUnarmed p i
      → pick_oldest_available p name ≡ some v
      → Run F p (destroy_instance w p v).0
        × Stands (destroy_instance w p v).0 i
        × IsUnarmed (destroy_instance w p v).0 i
  evict-Run p i v name s here runs unarmed e =
      let (there, fits, idle) = pick_oldest_available-found p name v s e in
      let (ei, et, ec) = destroyed w p v in
      let other : string_eq.beq v.id i.id ≡ false = ground (arith, string_eq.beq_iff v.id i.id) in
      (
        destroy_instance-Run F w p v s there (IsUnarmed-unless_running p v s there (rw idle refl))
            (λ held. cc (idle, held)),
        ap (lookup i.id) ei ∙ (lookup-erase v.id i.id p.instances ∙ rw other here),
        ap (lookup i.id) et ∙ unarmed,
      )

  make_room_running :
      (p p1 : Pool) (t : TemplateConfig) (i : Instance)
      → IsSound p
      → Stands p i
      → i.tier ≡ running
      → IsUnarmed p i
      → make_room w p t i.template ≡ some p1
      → Run F p p1 × Stands p1 i × IsUnarmed p1 i
  make_room_running p p1 t i s here runs unarmed e = elim (make_room-cases w p t i.template) [
    | inl (roomy, same) ↦
        subst (λ q. Run F p q × Stands q i × IsUnarmed q i) (some_inj (sym same ∙ e))
          (stays, here, unarmed)
    | inr (inl (full, nobody, bad)) ↦ cc (bad, e)
    | inr (inr (v, full, found, evicted)) ↦
        subst (λ q. Run F p q × Stands q i × IsUnarmed q i) (some_inj (sym evicted ∙ e))
          (evict-Run p i v i.template s here runs unarmed found)
  ]

  park-Run :
      (p : Pool) (i : Instance) (t : Option TemplateConfig)
      → IsSound p
      → Stands p i
      → i.tier ≡ running
      → IsUnarmed p i
      → Run F p (park w p i t)
  unfolding park
  park-Run p i none s here runs unarmed =
      destroy_instance-Run F w p i s here unarmed (λ held. cc (runs, held))
  park-Run p i (some t) s here runs unarmed = elim (Option-cases (make_room w p t i.template)) [
    | inl e ↦ rw (e, park) (destroy_instance-Run F w p i s here unarmed (λ held. cc (runs, held)))
    | inr (p1, e) ↦
        let (first, here1, unarmed1) = make_room_running p p1 t i s here runs unarmed e in
        rw (e, park)
          (both F p p1 _ first
            (shutdown_instance-Run F w p1 i (Run-IsSound F p p1 s first) here1 unarmed1 runs))
  ]

  pub on_linger_expired-Run :
      (p : Pool) (id : String) → IsSound p → Run F p (on_linger_expired w p id)
  unfolding on_linger_expired find_template cancel_linger
  on_linger_expired-Run p id s = elim (Option-cases (lookup id p.instances)) [
    | inl e ↦ rw (e, on_linger_expired) stays
    | inr (i, e) ↦
        let same = s.keyed id i e in
        let here : Stands p i = ap (λ k. lookup k p.instances) same ∙ e in
        elim (Bool-cases (is_running i.tier)) [
          | inr idle ↦ rw (e, on_linger_expired) (rw idle stays)
          | inl runs ↦
              let p1 = cancel_linger p id in
              let (ei, et) = reload_same w p1 in
              let first =
                both F p p1 (reload w p1) (cancel_linger-Run F p id) (reload-Run F w p1) in
              rw (e, on_linger_expired)
                (rw runs (
                  both F p (reload w p1) _ first (
                    park-Run (reload w p1) i (find_template (reload w p1) i.template)
                      (Run-IsSound F p _ s first) (ap (lookup i.id) ei ∙ here)
                      (running_of i.tier runs)
                      (ap (lookup i.id) et
                        ∙ (ap (λ k. lookup k p1.linger_timers) same
                            ∙ (lookup-erase id id p.linger_timers ∙ rw (beq_self id) refl))))))
        ]
  ]
