-- ===== src/Health/Notify/Tests.antt =====
-- internal/health/notify.go: a device that needs attention, is healthy for a moment, and needs it again.
use spyder.Prelude.{
  ℕ, String, some, ◌≡◌, refl, true, false, List, [], ◌∷◌, string_eq, pos, lookup, insert, erase,
}
use spyder.Health.Entity.{
  EntityId, Entity, State, Transition, device, id_eq, fresh, zero_policy, append_evidence,
  observe_entity, attention_entity,
}
use spyder.Health.Model.{get, ensure_entity, observe, mark_needs_attention}
use spyder.Health.Calls.{observes, alarms, step}
use spyder.Health.Notify.{
  Event, operates, handles, calls, Moment, Watched, watch, apply, is_active, on_transition,
  handle_needs_attention, handle_cleared, message_for, notify_key, build_title, build_message,
  notifies, clears,
}
use spyder.Health.Notify.Fired.{needs}
use spyder.Health.Notify.Signals.{
  empty_watched, run_watched, deliveries, deliveries-Alternates, Alternates,
}
use spyder.Health.Notify.Ordered.{run_watched-IsShown}
use spyder.Health.Notify.Spacing.{Spaced, deliveries-Spaced}

abbrev phone : EntityId
phone = record { kind = device; name = "phone"; layer = "tunnel" }

abbrev at : ℕ → Moment
at n = record { at = n; now = n; after = n }

abbrev raised : String → Event
raised detail = operates (calls phone (alarms detail))

abbrev recovered : Event
recovered = operates (calls phone (observes true "back"))

-- An alarm and a recovery, each handled at once, and one more alarm.
abbrev flaps : List (Moment × Event)
flaps =
    (at 10, raised "gone")
    ∷ (at 10, handles 0)
    ∷ (at 20, recovered)
    ∷ (at 20, handles 0)
    ∷ (at 30, raised "gone again")
    ∷ []

abbrev one_alarm : List (Moment × Event)
one_alarm = (at 10, raised "gone") ∷ (at 10, handles 0) ∷ []

abbrev both : List (Moment × Event)
both = (at 10, raised "gone") ∷ (at 20, recovered) ∷ []

abbrev watched : Watched
watched = run_watched (empty_watched (pos 100)) flaps

flaps-delivered :
    deliveries phone (empty_watched (pos 100)) flaps
    ≡ (
      at 10,
      notifies "device/phone/tunnel" "spyder: device tunnel needs attention"
          "Device phone is attached but its tunnel can't be built — try unplug/replug. (gone)",
    )
      ∷ (at 20, clears "device/phone/tunnel")
      ∷ []
unfolding deliveries watch apply step observe mark_needs_attention ensure_entity fresh
    append_evidence observe_entity attention_entity on_transition handle_needs_attention
    handle_cleared message_for notify_key build_title build_message lookup insert erase
flaps-delivered = refl

one_alarm-active :
    ((run_watched (empty_watched (pos 100)) one_alarm).pending ≡ [])
    × (is_active (run_watched (empty_watched (pos 100)) one_alarm).notifier phone ≡ true)
unfolding run_watched watch apply step observe mark_needs_attention ensure_entity fresh
    append_evidence observe_entity attention_entity on_transition handle_needs_attention
    handle_cleared message_for notify_key build_title build_message lookup insert erase
one_alarm-active = (refl, refl)

abbrev transition : State → State → ℕ → Transition
transition from to n = record { id = phone; from = some from; to = to; at = n }

abbrev crossing : Watched
crossing = run_watched (empty_watched (pos 100)) both

abbrev recovered_phone : Entity
recovered_phone = record (fresh phone zero_policy) {
  last_probe = 20;
  evidence =
      record { at = 10; ok = false; detail = "gone" }
      ∷ record { at = 20; ok = true; detail = "back" }
      ∷ [];
}

-- Handled in the opposite order, the two transitions leave a notification on screen.
crossing-shown :
    let after = run_watched crossing ((at 30, handles 1) ∷ (at 30, handles 0) ∷ []) in
    (is_active after.notifier phone ≡ true)
    × (get after.model phone ≡ some recovered_phone)
    × (after.pending ≡ [])
unfolding run_watched watch apply step observe mark_needs_attention ensure_entity fresh
    append_evidence observe_entity attention_entity on_transition handle_needs_attention
    handle_cleared message_for notify_key build_title build_message lookup insert erase
crossing-shown = (refl, refl, refl)

run_watched-IsShown_example :
    needs (get (run_watched (empty_watched (pos 100)) one_alarm).model phone) ≡ true
run_watched-IsShown_example =
    run_watched-IsShown (pos 100) one_alarm phone (tt, (refl, tt)) one_alarm-active.0
      one_alarm-active.1

deliveries-Alternates_example :
    Alternates
      (is_active (empty_watched (pos 100)).notifier phone)
      (deliveries phone (empty_watched (pos 100)) flaps)
deliveries-Alternates_example = deliveries-Alternates phone (empty_watched (pos 100)) flaps

deliveries-Spaced_example :
    Spaced 100
      (lookup phone (empty_watched (pos 100)).notifier.last_fired)
      (deliveries phone (empty_watched (pos 100)) flaps)
deliveries-Spaced_example = deliveries-Spaced 100 phone (empty_watched (pos 100)) flaps refl

abbrev later : List (Moment × Event)
later =
    (at 1_000, raised "gone")
    ∷ (at 9_000, operates (calls phone (observes false "gone")))
    ∷ (at 9_001, handles 0)
    ∷ []
