-- ===== src/Health/Notify.antt =====
-- internal/health/notify.go: one notification per entity that needs attention. A delivery is a `Signal`
-- that the handler returns. The model fires a transition after it has released its lock, so the
-- transitions that are fired and not handled yet wait in `pending`, and are handled in any order.
pub mod Fired
pub mod Shown
pub mod Signals
pub mod Spacing
pub mod Ordered
pub mod Unseen
mod Tests
use spyder.Prelude.{
  ℕ, suc, ◌+◌, Bool, true, false, Option, none, some, List, [], ◌∷◌, String, str_append, string_eq,
  ltb, zero, get_elem?, if◌then◌else◌, lookup, insert, erase, ℤ, pos, negsuc,
}
use spyder.Health.Entity.{
  Kind, daemon, subprocess, device, host, EntityId, id_eq, Observation, Entity, Transition, State,
  is_needs_attention, Policy,
}
use spyder.Health.Model.{Model, get, register}
use spyder.Health.Calls.{Call, step}

-- What the notifier delivers, by the key of the entity.
pub data Signal : Type 0 where
  notifies : String → String → String → Signal
  clears : String → Signal

-- The struct less its lock, its model and its clock.
pub record Notifier : Type 0 where
  pub cooldown : ℤ
  pub active : List (EntityId × Bool)
  pub last_fired : List (EntityId × ℕ)

abbrev pub new_notifier : ℤ → Notifier
new_notifier cooldown = record { cooldown = cooldown; active = []; last_fired = [] }

-- Five minutes.
abbrev pub default_notify_cooldown : ℤ
default_notify_cooldown = pos 300_000_000_000

abbrev pub kind_name : Kind → String
kind_name daemon = "daemon"
kind_name subprocess = "subprocess"
kind_name device = "device"
kind_name host = "host"

abbrev slash : String → String → String
slash a b = str_append a (str_append "/" b)

unfoldable pub notify_key : EntityId → String
notify_key id =
    if string_eq.beq id.layer ""
    then slash (kind_name id.kind) id.name
    else slash (kind_name id.kind) (slash id.name id.layer)

-- The detail of the most recent observation, empty if there is none.
abbrev pub latest_detail : List Observation → String
latest_detail [] = ""
latest_detail (o ∷ []) = o.detail
latest_detail (o ∷ p ∷ os) = latest_detail (p ∷ os)

abbrev joined : String → String → String → String → String
joined a name b detail = str_append a (str_append name (str_append b detail))

unfoldable pub build_title : Kind → EntityId → String
build_title device id =
    if string_eq.beq id.layer "tunnel"
    then "spyder: device tunnel needs attention"
    else "spyder: device needs attention"
build_title subprocess id = "spyder: subprocess needs attention"
build_title host id = "spyder: host Wi-Fi needs attention"
build_title daemon id = "spyder: daemon stalled"

abbrev or_plain : String → String → String → String
or_plain detail plain full = if string_eq.beq detail "" then plain else full

unfoldable pub build_message : Kind → EntityId → String → String
build_message device id detail =
    if string_eq.beq id.layer "tunnel"
    then or_plain detail
        (joined "Device " id.name " is attached but its tunnel can't be built — try unplug/replug."
          "")
        (joined "Device " id.name
          " is attached but its tunnel can't be built — try unplug/replug. ("
          (str_append detail ")"))
    else or_plain detail (joined "Pinned device " id.name " needs attention." "")
        (joined "Pinned device " id.name " needs attention — " detail)
build_message subprocess id detail =
    or_plain detail (joined "spyder subprocess " id.name " keeps failing to restart." "")
      (joined "spyder subprocess " id.name " keeps failing to restart — " detail)
build_message host id detail =
    or_plain detail "Mac Wi-Fi may be blocking device connectivity — try bouncing Wi-Fi manually."
      (str_append "Mac Wi-Fi may be blocking device connectivity — " detail)
build_message daemon id detail =
    or_plain detail "spyder daemon operation is wedged-but-alive — a restart may be needed." (
      joined "spyder daemon operation is wedged-but-alive — a restart may be needed. (" detail ")"
        "")

unfoldable pub message_for : EntityId → Entity → Signal
unfolding notify_key build_title build_message
message_for id e =
    notifies (notify_key id) (build_title e.kind id)
      (build_message e.kind id (latest_detail e.evidence))

abbrev or_false : Option Bool → Bool
or_false none = false
or_false (some b) = b

abbrev pub is_active : Notifier → EntityId → Bool
is_active a id = or_false (lookup id a.active)

-- `ok && now.Sub(fired) < cooldown`.
abbrev pub is_early : ℤ → ℕ → Option ℕ → Bool
is_early cooldown now none = false
is_early (pos d) now (some fired) = ltb now (fired + d)
is_early (negsuc d) now (some fired) = ltb (now + suc d) fired

abbrev pub post : Notifier → EntityId → ℕ → Option Entity → Notifier × Option Signal
post a id now none = (a, none)
post a id now (some e) = (
  record a { active = insert id true a.active; last_fired = insert id now a.last_fired },
  some (message_for id e),
)

-- The clock is read once for the cooldown, at `now`, and once more after the delivery, at `after`.
unfoldable pub handle_needs_attention :
    Model → ℕ → ℕ → Notifier → EntityId → Notifier × Option Signal
unfolding message_for
handle_needs_attention m now after a id =
    if is_active a id
    then (a, none)
    else if is_early a.cooldown now (lookup id a.last_fired)
    then (a, none)
    else post a id after (get m id)

unfoldable pub handle_cleared : Notifier → EntityId → Notifier × Option Signal
unfolding notify_key
handle_cleared a id =
    if is_active a id
    then (record a { active = erase id a.active }, some (clears (notify_key id)))
    else (a, none)

abbrev pub came_from_attention : Option State → Bool
came_from_attention none = false
came_from_attention (some s) = is_needs_attention s

unfoldable pub on_transition : Model → ℕ → ℕ → Notifier → Transition → Notifier × Option Signal
unfolding handle_needs_attention handle_cleared
on_transition m now after a t =
    if is_needs_attention t.to
    then handle_needs_attention m now after a t.id
    else if came_from_attention t.from
    then handle_cleared a t.id
    else (a, none)

-- The model with the notifier that watches it, and the transitions on their way to the notifier.
pub record Watched : Type 0 where
  pub model : Model
  pub notifier : Notifier
  pub pending : List Transition

-- An operation of the model.
pub data Operation : Type 0 where
  calls : EntityId → Call → Operation
  registers : EntityId → Kind → Policy → Operation

abbrev pub subject : Operation → EntityId
subject (calls id c) = id
subject (registers id kind policy) = id

unfoldable pub apply : Model → ℕ → Operation → Model × Option Transition
unfolding step register
apply m now (calls id c) = step m now id c
apply m now (registers id kind policy) =
    let (next, t) = register m now id kind policy in (next, some t)

-- The section of the model under its lock, or the handling of the `n`-th transition that waits.
pub data Event : Type 0 where
  operates : Operation → Event
  handles : ℕ → Event

-- When the model reads its clock, and when the notifier does so first and last.
pub record Moment : Type 0 where
  pub at : ℕ
  pub now : ℕ
  pub after : ℕ

abbrev pub fired_last : List Transition → Option Transition → List Transition
fired_last ts none = ts
fired_last [] (some t) = t ∷ []
fired_last (u ∷ ts) (some t) = u ∷ fired_last ts (some t)

abbrev pub without_nth : ℕ → List Transition → List Transition
without_nth n [] = []
without_nth zero (t ∷ ts) = ts
without_nth (suc n) (t ∷ ts) = t ∷ without_nth n ts

-- The transition that a step handles.
abbrev pub handled : Watched → Event → Option Transition
handled w (operates o) = none
handled w (handles n) = get_elem? w.pending n

abbrev pub on_handled : Model → Moment → Notifier → Option Transition → Notifier × Option Signal
on_handled m t a none = (a, none)
on_handled m t a (some tr) = on_transition m t.now t.after a tr

-- The next step of the model or of the notifier, and what it delivers.
unfoldable pub watch : Watched → Moment → Event → Watched × Option Signal
unfolding apply on_transition
watch w t (operates o) =
    let (m, fired) = apply w.model t.at o in
    (record w { model = m; pending = fired_last w.pending fired }, none)
watch w t (handles n) =
    let (a, signal) = on_handled w.model t w.notifier (get_elem? w.pending n) in
    (record w { notifier = a; pending = without_nth n w.pending }, signal)

abbrev pub is_about : EntityId → Option Transition → Bool
is_about id none = false
is_about id (some t) = id_eq.beq t.id id
