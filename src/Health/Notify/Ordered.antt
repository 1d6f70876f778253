-- ===== src/Health/Notify/Ordered.antt =====
-- internal/health/notify.go: what is on screen, when transitions are handled in their order and when not.
use spyder.Prelude.{
  ℕ, zero, suc, ◌≡◌, refl, sym, ap, ◌∙◌, Bool, true, false, Option, none, some, List, [], ◌∷◌,
  arith, lookup, lookup-insert, lookup-erase, beq_self, Bool-cases, inl, inr, if_cases, All, ℤ,
  get_elem?,
}
use mathlib.Core.Path.{subst}
use spyder.Health.Entity.{EntityId, id_eq, Entity, Transition, is_needs_attention}
use spyder.Health.Model.{Model, get}
use spyder.Health.Notify.{
  Signal, Notifier, is_active, is_early, handle_needs_attention, handle_cleared,
  came_from_attention, on_transition, on_handled, Watched, subject, apply, Event, operates, handles,
  fired_last, without_nth, Moment, watch, message_for,
}
use spyder.Health.Notify.Fired.{needs, Tells, apply-Tells, apply-other, transition-Spares}
use spyder.Health.Notify.Signals.{run_watched, empty_watched}

-- A step that handles no transition before those that were fired earlier.
abbrev pub IsOrdered : Moment × Event → Type 0
IsOrdered (t, operates o) = Unit
IsOrdered (t, handles n) = n ≡ 0

-- The next waiting transition takes the need of attention on from `b`, if it is the entity's.
abbrev Next : Bool → Bool → Transition → (Bool → Type 0) → Type 0
Next true b t Rest = (came_from_attention t.from ≡ b) × Rest (is_needs_attention t.to)
Next false b t Rest = Rest b

-- The waiting transitions of the entity lead from `b` to `last`.
abbrev Chain : EntityId → Bool → List Transition → Bool → Type 0
Chain id b [] last = b ≡ last
Chain id b (t ∷ ts) last = Next (id_eq.beq t.id id) b t (λ b'. Chain id b' ts last)

next-map :
    (mine : Bool) (b : Bool) (t : Transition) (P Q : Bool → Type 0)
    → ((b' : Bool) → P b' → Q b')
    → Next mine b t P
    → Next mine b t Q
next-map true b t P Q f (from, rest) = (from, f (is_needs_attention t.to) rest)
next-map false b t P Q f rest = f b rest

fired-Chain :
    (id : EntityId) (ts : List Transition) (b x y : Bool) (t : Transition)
    → Next (id_eq.beq t.id id) x t (λ b'. b' ≡ y)
    → Chain id b ts x
    → Chain id b (fired_last ts (some t)) y
fired-Chain id [] b x y t link h =
    subst (λ x'. Next (id_eq.beq t.id id) x' t (λ b'. b' ≡ y)) (sym h) link
fired-Chain id (u ∷ ts) b x y t link h =
    next-map (id_eq.beq u.id id) b u (λ b'. Chain id b' ts x)
      (λ b'. Chain id b' (fired_last ts (some t)) y) (λ b' k. fired-Chain id ts b' x y t link k) h

-- What has been handled of the entity, and what is still to come.
abbrev Follows : Watched → EntityId → Type 0
Follows w id =
    (b : Bool) × (is_active w.notifier id ≡ true → b ≡ true)
    × Chain id b w.pending (needs (get w.model id))

linked :
    (m next : Model) (sid id : EntityId) (t : Transition)
    → Tells m next sid (some t)
    → (id_eq.beq sid id ≡ false → get next id ≡ get m id)
    → Next (id_eq.beq t.id id) (needs (get m id)) t (λ b'. b' ≡ needs (get next id))
linked m next sid id t (mine, to, from) other = elim (Bool-cases (id_eq.beq t.id id)) [
  | inl e ↦
      let same : sid ≡ id = sym mine ∙ (id_eq.beq_iff t.id id).0 e in
      rw e (from ∙ ap (λ i. needs (get m i)) same, to ∙ ap (λ i. needs (get next i)) same)
  | inr e ↦ rw e (sym (ap needs (other (ap (λ i. id_eq.beq i id) (sym mine) ∙ e))))
]

unmoved :
    (m next : Model) (sid id : EntityId)
    → Tells m next sid none
    → (id_eq.beq sid id ≡ false → get next id ≡ get m id)
    → needs (get next id) ≡ needs (get m id)
unmoved m next sid id tells other = elim (Bool-cases (id_eq.beq sid id)) [
  | inl e ↦
      let same = (id_eq.beq_iff sid id).0 e in
      sym (ap (λ i. needs (get next i)) same) ∙ tells ∙ ap (λ i. needs (get m i)) same
  | inr e ↦ ap needs (other e)
]

after-Chain :
    (m next : Model) (sid id : EntityId) (ts : List Transition) (b : Bool)
    (fired : Option Transition)
    → Tells m next sid fired
    → (id_eq.beq sid id ≡ false → get next id ≡ get m id)
    → Chain id b ts (needs (get m id))
    → Chain id b (fired_last ts fired) (needs (get next id))
after-Chain m next sid id ts b none tells other h =
    subst (Chain id b ts) (sym (unmoved m next sid id tells other)) h
after-Chain m next sid id ts b (some t) tells other h =
    fired-Chain id ts b (needs (get m id)) (needs (get next id)) t
      (linked m next sid id t tells other) h

abbrev IsQuiet : EntityId → Notifier × Option Signal → Type 0
IsQuiet id r = is_active r.0 id ≡ false

cleared-IsQuiet : (a : Notifier) (id : EntityId) → IsQuiet id (handle_cleared a id)
unfolding handle_cleared
cleared-IsQuiet a id =
    if_cases (IsQuiet id) (is_active a id) _ _
      (λ h. ground (arith, lookup-erase id id a.active, beq_self id)) (λ h. h)

-- After a transition to another state nothing is on screen.
left :
    (m : Model) (now after : ℕ) (a : Notifier) (t : Transition)
    → is_needs_attention t.to ≡ false
    → (is_active a t.id ≡ true → came_from_attention t.from ≡ true)
    → IsQuiet t.id (on_transition m now after a t)
unfolding on_transition
left m now after a t gone before =
    if_cases (IsQuiet t.id) (is_needs_attention t.to) _ _ (λ h. absurd (ground arith))
      (λ h.
        if_cases (IsQuiet t.id) (came_from_attention t.from) _ _ (λ k. cleared-IsQuiet a t.id)
          (λ k. ground (arith, before)))

arrived :
    (m : Model) (t : Moment) (a : Notifier) (tr : Transition)
    → (is_active a tr.id ≡ true → came_from_attention tr.from ≡ true)
    → is_active (on_transition m t.now t.after a tr).0 tr.id ≡ true
    → is_needs_attention tr.to ≡ true
arrived m t a tr before on = elim (Bool-cases (is_needs_attention tr.to)) [
  | inl e ↦ e
  | inr e ↦ absurd (cc (on, left m t.now t.after a tr e before))
]

handled-first :
    (w : Watched) (t : Moment) (id : EntityId) (ts : List Transition) (b : Bool)
    → (is_active w.notifier id ≡ true → b ≡ true)
    → Chain id b ts (needs (get w.model id))
    → (b' : Bool) × (is_active (on_handled w.model t w.notifier (get_elem? ts 0)).0 id ≡ true
        → b' ≡ true)
      × Chain id b' (without_nth 0 ts) (needs (get w.model id))
handled-first w t id [] b on h = (b, on, h)
handled-first w t id (tr ∷ ts) b on h = elim (Bool-cases (id_eq.beq tr.id id)) [
  | inl e ↦
      let same = (id_eq.beq_iff tr.id id).0 e in
      let (from, rest) = rw e at h in
      (
        is_needs_attention tr.to,
        λ k.
            arrived w.model t w.notifier tr
              (λ l. from ∙ on (sym (ap (is_active w.notifier) same) ∙ l))
              (ap (is_active (on_transition w.model t.now t.after w.notifier tr).0) same ∙ k),
        rest,
      )
  | inr e ↦
      let rest = rw e at h in
      (b, λ k. on (sym (transition-Spares w.model t.now t.after w.notifier tr id e).0 ∙ k), rest)
]

step-Follows :
    (w : Watched) (t : Moment) (e : Event) (id : EntityId)
    → IsOrdered (t, e)
    → Follows w id
    → Follows (watch w t e).0 id
unfolding watch
step-Follows w t (operates o) id ordered (b, on, h) = (
  b,
  on,
  after-Chain w.model (apply w.model t.at o).0 (subject o) id w.pending b (apply w.model t.at o).1
      (apply-Tells w.model t.at o) (λ k. apply-other w.model t.at o id k) h,
)
step-Follows w t (handles zero) id ordered (b, on, h) = handled-first w t id w.pending b on h
step-Follows w t (handles (suc n)) id ordered h = absurd (omega (arith, ordered))

follows :
    (es : List (Moment × Event)) (w : Watched) (id : EntityId)
    → All IsOrdered es
    → Follows w id
    → Follows (run_watched w es) id
unfolding run_watched
follows [] w id all h = h
follows ((t, e) ∷ es) w id all h =
    follows es (watch w t e).0 id all.1 (step-Follows w t e id all.0 h)

settled :
    (w : Watched) (id : EntityId)
    → Follows w id
    → w.pending ≡ []
    → is_active w.notifier id ≡ true
    → needs (get w.model id) ≡ true
settled w id (b, on, h) empty active =
    sym (subst (λ ts. Chain id b ts (needs (get w.model id))) empty h) ∙ on active

-- Whatever happens to the model, if transitions are handled in the order in which they were fired, then
-- whenever none of them waits to be handled, an entity whose notification is on screen needs attention.
pub run_watched-IsShown :
    (cooldown : ℤ) (es : List (Moment × Event)) (id : EntityId)
    → All IsOrdered es
    → (run_watched (empty_watched cooldown) es).pending ≡ []
    → is_active (run_watched (empty_watched cooldown) es).notifier id ≡ true
    → needs (get (run_watched (empty_watched cooldown) es).model id) ≡ true
unfolding lookup
run_watched-IsShown cooldown es id ordered =
    settled (run_watched (empty_watched cooldown) es) id
      (follows es (empty_watched cooldown) id ordered (false, (λ h. h), refl))

posts :
    (m : Model) (now after : ℕ) (a : Notifier) (t : Transition) (found : Entity)
    → is_needs_attention t.to ≡ true
    → is_active a t.id ≡ false
    → is_early a.cooldown now (lookup t.id a.last_fired) ≡ false
    → get m t.id ≡ some found
    → (is_active (on_transition m now after a t).0 t.id ≡ true)
      × ((on_transition m now after a t).1 ≡ some (message_for t.id found))
unfolding on_transition handle_needs_attention
posts m now after a t found arrives idle late there =
    rw (arrives, idle)
      (rw (late, there)
        (ground (arith, lookup-insert t.id t.id true a.active, beq_self t.id), refl))

-- A transition out of needing attention means nothing for an entity that is not on screen.
ignored :
    (m : Model) (t : Moment) (a : Notifier) (tr : Transition)
    → is_needs_attention tr.to ≡ false
    → is_active a tr.id ≡ false
    → (on_transition m t.now t.after a tr).0 ≡ a
unfolding on_transition handle_cleared
ignored m t a tr leaves idle = elim (Bool-cases (came_from_attention tr.from)) [
  | inl from ↦ rw (leaves, from) (rw idle refl)
  | inr from ↦ rw (leaves, from) refl
]

-- Two transitions of one entity wait, into needing attention and then out of it, and the entity does not
-- need attention any more. If the second is handled first, then the first, unless within the cooldown, posts a
-- notification, which stays on screen although nothing needs attention and no transition waits to clear it.
run_watched-crossed :
    (id : EntityId) (w : Watched) (rise fall : Transition) (t u : Moment) (found : Entity)
    → w.pending ≡ rise ∷ fall ∷ []
    → rise.id ≡ id
    → fall.id ≡ id
    → is_needs_attention rise.to ≡ true
    → is_needs_attention fall.to ≡ false
    → get w.model id ≡ some found
    → is_needs_attention found.state ≡ false
    → is_active w.notifier id ≡ false
    → is_early w.notifier.cooldown u.now (lookup id w.notifier.last_fired) ≡ false
    → let after = run_watched w ((t, handles 1) ∷ (u, handles 0) ∷ []) in
      (is_active after.notifier id ≡ true)
      × (needs (get after.model id) ≡ false)
      × (after.pending ≡ [])
unfolding run_watched watch
run_watched-crossed id w rise fall t u found waiting rises falls up down there healthy idle late =
    let nothing = ignored w.model t w.notifier fall down (ap (is_active w.notifier) falls ∙ idle) in
    let posted =
      posts w.model u.now u.after w.notifier rise found up (ap (is_active w.notifier) rises ∙ idle)
        (ap (λ i. is_early w.notifier.cooldown u.now (lookup i w.notifier.last_fired)) rises ∙ late)
        (ap (get w.model) rises ∙ there) in
    rw waiting (
      rw nothing (
        ap (is_active (on_transition w.model u.now u.after w.notifier rise).0) (sym rises)
            ∙ posted.0,
        ap needs there ∙ healthy,
        refl,
      ))
