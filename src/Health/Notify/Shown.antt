-- ===== src/Health/Notify/Shown.antt =====
-- internal/health/notify.go: what one step of the model or of the notifier means for one entity.
use spyder.Prelude.{◌≡◌, refl, true, false, Option, none, some, get_elem?, lookup}
use mathlib.Core.Path.{subst}
use spyder.Health.Entity.{EntityId, id_eq, Transition}
use spyder.Health.Model.{Model}
use spyder.Health.Notify.{
  Notifier, is_active, on_transition, Watched, Event, operates, handles, handled, on_handled,
  Moment, watch, is_about,
}
use spyder.Health.Notify.Fired.{Delivers, transition-Delivers, transition-Spares}

handled-Shows :
    (m : Model) (t : Moment) (a : Notifier) (id : EntityId) (tr : Option Transition)
    → is_about id tr ≡ true
    → Delivers a id (on_handled m t a tr)
handled-Shows m t a id none h = absurd (cc h)
handled-Shows m t a id (some tr) h =
    subst (λ i. Delivers a i (on_transition m t.now t.after a tr)) ((id_eq.beq_iff tr.id id).0 h)
      (transition-Delivers m t.now t.after a tr)

-- What a step delivers for the entity whose transition it handles.
pub watch-Shows :
    (w : Watched) (t : Moment) (e : Event) (id : EntityId)
    → is_about id (handled w e) ≡ true
    → Delivers w.notifier id ((watch w t e).0.notifier, (watch w t e).1)
unfolding watch
watch-Shows w t (operates o) id h = absurd (cc h)
watch-Shows w t (handles n) id h = handled-Shows w.model t w.notifier id (get_elem? w.pending n) h

-- What a notifier that became `b` has of the notes on the entity.
abbrev pub Keeps : Notifier → Notifier → EntityId → Type 0
Keeps a b id = (is_active b id ≡ is_active a id) × (lookup id b.last_fired ≡ lookup id a.last_fired)

handled-Keeps :
    (m : Model) (t : Moment) (a : Notifier) (id : EntityId) (tr : Option Transition)
    → is_about id tr ≡ false
    → Keeps a (on_handled m t a tr).0 id
handled-Keeps m t a id none h = (refl, refl)
handled-Keeps m t a id (some tr) h = transition-Spares m t.now t.after a tr id h

-- A step that handles no transition of the entity leaves the notes on it.
pub watch-Keeps :
    (w : Watched) (t : Moment) (e : Event) (id : EntityId)
    → is_about id (handled w e) ≡ false
    → Keeps w.notifier (watch w t e).0.notifier id
unfolding watch
watch-Keeps w t (operates o) id h = (refl, refl)
watch-Keeps w t (handles n) id h = handled-Keeps w.model t w.notifier id (get_elem? w.pending n) h
