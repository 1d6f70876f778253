-- ===== src/Health/Notify/Fired.antt =====
-- internal/health/notify.go: what one operation of the model means for the notifier.
use mathlib.Core.Path.{subst}
use spyder.Prelude.{
  ℕ, ◌≡◌, refl, sym, ap, ◌∙◌, Bool, true, false, Option, none, some, arith, lookup, lookup-insert,
  lookup-erase, beq_self, if_cases,
}
use spyder.Health.Entity.{
  Kind, EntityId, id_eq, Entity, Transition, is_needs_attention, fresh, Policy,
}
use spyder.Health.Model.{Model, get, ensure_entity, register, commit, put}
use spyder.Health.Calls.{Call, step_entity, step-commit}
use spyder.Health.Frame.{get-step, get-register, get-register_self, registered_entity}
use spyder.Health.Escalation.{step_entity-transition}
use spyder.Health.Notify.{
  Signal, notifies, clears, Notifier, is_active, is_early, post, handle_needs_attention,
  handle_cleared, came_from_attention, on_transition, Operation, calls, registers, subject, apply,
  message_for,
}

abbrev pub needs : Option Entity → Bool
needs none = false
needs (some e) = is_needs_attention e.state

-- What an operation fires tells how its subject's need of attention changes.
abbrev pub Tells : Model → Model → EntityId → Option Transition → Type 0
Tells m next id none = needs (get next id) ≡ needs (get m id)
Tells m next id (some t) =
    (t.id ≡ id)
    × (is_needs_attention t.to ≡ needs (get next id))
    × (came_from_attention t.from ≡ needs (get m id))

pub ensured :
    (m : Model) (id : EntityId) → is_needs_attention (ensure_entity m id).state ≡ needs (get m id)
unfolding ensure_entity fresh
ensured m id = ground arith

called :
    (m next : Model) (id : EntityId) (now : ℕ) (e e' : Entity) (fired : Option Transition)
    → get next id ≡ some e'
    → is_needs_attention e.state ≡ needs (get m id)
    → ((t : Transition)
        → fired ≡ some t
        → t ≡ record { id = id; from = some e.state; to = e'.state; at = now })
    → (fired ≡ none → e'.state ≡ e.state)
    → Tells m next id fired
called m next id now e e' none found before moved stayed =
    ap needs found ∙ ap is_needs_attention (stayed refl) ∙ before
called m next id now e e' (some t) found before moved stayed =
    let same = moved t refl in
    (
      ap (λ u. u.id) same,
      ap (λ u. is_needs_attention u.to) same ∙ sym (ap needs found),
      ap (λ u. came_from_attention u.from) same ∙ before,
    )

reneeded :
    (kind : Kind) (policy : Policy) (id : EntityId) (found : Option Entity)
    → is_needs_attention (registered_entity kind policy id found).state ≡ needs found
unfolding fresh
reneeded kind policy id none = refl
reneeded kind policy id (some e) = refl

registered :
    (m : Model) (now : ℕ) (id : EntityId) (kind : Kind) (policy : Policy)
    → let t = (register m now id kind policy).1 in
      (t.id ≡ id)
      × (is_needs_attention t.to ≡ needs (get m id))
      × (came_from_attention t.from ≡ needs (get m id))
unfolding register fresh
registered m now id kind policy = ground arith

committed :
    (m : Model) (now : ℕ) (id : EntityId) (c : Call)
    → let r = commit m id (step_entity id now c (ensure_entity m id)) in Tells m r.0 id r.1
committed m now id c =
    let e = ensure_entity m id in
    let r = step_entity id now c e in
    let (moved, stayed) = step_entity-transition id now c e in
    called m (put m id r.0) id now e r.0 r.1 (lookup-insert id id r.0 m.entities ∙ rw (beq_self id))
      (ensured m id) moved stayed

pub apply-Tells :
    (m : Model) (now : ℕ) (event : Operation)
    → Tells m (apply m now event).0 (subject event) (apply m now event).1
unfolding apply
apply-Tells m now (calls id c) =
    subst (λ r. Tells m r.0 id r.1) (sym (step-commit m now id c)) (committed m now id c)
apply-Tells m now (registers id kind policy) =
    let (mine, to, from) = registered m now id kind policy in
    let kept =
      ap needs (get-register_self m now id kind policy) ∙ reneeded kind policy id (get m id) in
    (mine, to ∙ sym kept, from)

-- Other entities stay as they were.
pub apply-other :
    (m : Model) (now : ℕ) (event : Operation) (j : EntityId)
    → id_eq.beq (subject event) j ≡ false
    → get (apply m now event).0 j ≡ get m j
unfolding apply
apply-other m now (calls id c) j other = get-step m now id j c ∙ rw other
apply-other m now (registers id kind policy) j other =
    get-register m now id j kind policy ∙ rw other

-- What a delivery says of an entity that was active or not.
abbrev pub Shows : Bool → Bool → Option Signal → Type 0
Shows before after none = after ≡ before
Shows before after (some (notifies key title message)) = (before ≡ false) × (after ≡ true)
Shows before after (some (clears key)) = (before ≡ true) × (after ≡ false)

abbrev pub Delivers : Notifier → EntityId → Notifier × Option Signal → Type 0
Delivers a id r = Shows (is_active a id) (is_active r.0 id) r.1

post-Delivers :
    (a : Notifier) (id : EntityId) (now : ℕ) (found : Option Entity)
    → is_active a id ≡ false
    → Delivers a id (post a id now found)
unfolding message_for
post-Delivers a id now none h = refl
post-Delivers a id now (some e) h =
    (h, ground (arith, lookup-insert id id true a.active, beq_self id))

attention-Delivers :
    (m : Model) (now after : ℕ) (a : Notifier) (id : EntityId)
    → Delivers a id (handle_needs_attention m now after a id)
unfolding handle_needs_attention
attention-Delivers m now after a id =
    if_cases (Delivers a id) (is_active a id) _ _ (λ h. refl)
      (λ idle.
        if_cases (Delivers a id) (is_early a.cooldown now (lookup id a.last_fired)) _ _ (λ h. refl)
          (λ h. post-Delivers a id after (get m id) idle))

cleared-Delivers : (a : Notifier) (id : EntityId) → Delivers a id (handle_cleared a id)
unfolding handle_cleared
cleared-Delivers a id =
    if_cases (Delivers a id) (is_active a id) _ _
      (λ h. (h, ground (arith, lookup-erase id id a.active, beq_self id))) (λ h. refl)

pub transition-Delivers :
    (m : Model) (now after : ℕ) (a : Notifier) (t : Transition)
    → Delivers a t.id (on_transition m now after a t)
unfolding on_transition
transition-Delivers m now after a t =
    if_cases (Delivers a t.id) (is_needs_attention t.to) _ _
      (λ h. attention-Delivers m now after a t.id)
      (λ h.
        if_cases (Delivers a t.id) (came_from_attention t.from) _ _ (λ k. cleared-Delivers a t.id)
          (λ k. refl))

-- The notifier's notes on another entity stay as they were.
abbrev pub Spares : Notifier → EntityId → Notifier × Option Signal → Type 0
Spares a id r =
    (j : EntityId)
    → id_eq.beq id j ≡ false
    → (is_active r.0 j ≡ is_active a j) × (lookup j r.0.last_fired ≡ lookup j a.last_fired)

post-Spares :
    (a : Notifier) (id : EntityId) (now : ℕ) (found : Option Entity)
    → Spares a id (post a id now found)
unfolding message_for
post-Spares a id now none j other = (refl, refl)
post-Spares a id now (some e) j other =
    (rw (lookup-insert id j true a.active, other), rw (lookup-insert id j now a.last_fired, other))

pub transition-Spares :
    (m : Model) (now after : ℕ) (a : Notifier) (t : Transition)
    → Spares a t.id (on_transition m now after a t)
unfolding on_transition handle_needs_attention handle_cleared
transition-Spares m now after a t =
    if_cases (Spares a t.id) (is_needs_attention t.to) _ _
      (λ h.
        if_cases (Spares a t.id) (is_active a t.id) _ _ (λ h j other. (refl, refl))
          (λ idle.
            if_cases (Spares a t.id) (is_early a.cooldown now (lookup t.id a.last_fired)) _ _
              (λ h j other. (refl, refl)) (λ h. post-Spares a t.id after (get m t.id))))
      (λ h.
        if_cases (Spares a t.id) (came_from_attention t.from) _ _
          (λ k.
            if_cases (Spares a t.id) (is_active a t.id) _ _
              (λ h j other. (rw (lookup-erase t.id j a.active, other), refl))
              (λ h j other. (refl, refl)))
          (λ k j other. (refl, refl)))
