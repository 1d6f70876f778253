-- ===== src/Health/Notify/Unseen.antt =====
-- internal/health/notify.go: an entity whose notification the cooldown held back.
use spyder.Prelude.{◌≡◌, Bool, true, false, not, ◌||◌, All}
use spyder.Health.Entity.{EntityId, id_eq, Transition}
use spyder.Health.Model.{Model, get}
use spyder.Health.Calls.{Call, observes, alarms}
use spyder.Health.Notify.{
  is_active, Watched, Operation, calls, registers, Event, operates, handles, Moment,
}
use spyder.Health.Notify.Fired.{needs}

-- A failing probe, or an alarm.
abbrev pub is_bad_news : Call → Bool
is_bad_news (observes ok detail) = not ok
is_bad_news (alarms detail) = true
is_bad_news _ = false

abbrev pub IsBadOperation : EntityId → Operation → Type 0
IsBadOperation id (calls j c) = (not (id_eq.beq j id) || is_bad_news c) ≡ true
IsBadOperation id (registers j kind policy) = id_eq.beq j id ≡ false

-- Bad news of the entity, or anything about another, or the handling of a transition.
abbrev pub IsBadNews : EntityId → Moment × Event → Type 0
IsBadNews id (t, operates o) = IsBadOperation id o
IsBadNews id (t, handles n) = Unit

abbrev IsSpared : EntityId → Transition → Type 0
IsSpared id t = id_eq.beq t.id id ≡ false

-- An entity that needs attention, is not on screen, and has no transition on its way.
pub record IsUnseen (id : EntityId) (w : Watched) : Type 0 where
  pub needing : needs (get w.model id) ≡ true
  pub off : is_active w.notifier id ≡ false
  pub spared : All (IsSpared id) w.pending
