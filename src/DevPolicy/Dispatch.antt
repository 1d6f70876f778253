-- ===== src/DevPolicy/Dispatch.antt =====
-- internal/devpolicy/controller.go: what `Reconcile` sends to one peer. Its worker first takes what it needs
-- (`snapshot`: the census of the peers and of USB, the configuration, the status of before, and the override
-- in force) and then decides on the call and makes it (`dispatch`). The peer's answer, the authorizers and
-- the clocks are arguments.
pub mod Guarded
mod Tests
use spyder.Prelude.{
  ℕ, ◌+◌, ◌-◌, ◌*◌, ◌/◌, Bool, true, false, not, ◌&&◌, ◌||◌, Option, none, some, List, [], ◌∷◌,
  if◌then◌else◌, ltb, leb, ◌==◌, lookup, erase,
}
use spyder.Prelude.Bytes.{Bytes, bytes, bytes_eq, is_blank}
use spyder.DevPolicy.{Flags, Config, Resolution, resolve}
use spyder.DevPolicy.Sessions.{
  SessionOverride, SessionKey, key_eq, Sessions, Authorizer, prune_sessions,
}

-- 10 seconds.
abbrev pub max_lease : ℕ
max_lease = 10_000_000_000

abbrev pub millisecond : ℕ
millisecond = 1_000_000

pub record Peer : Type 0 where
  pub id : Bytes
  pub device_id : Bytes
  pub bundle_id : Bytes
  pub is_capable : Bool
  pub is_ads_capable : Bool

pub data Reason : Type 0 where
  bad_policy no_proof unavailable refused stale cancelled failed : Reason

-- `error` is `none` for the empty string; a `lease_expires_at` of 0 is the zero time.
pub record Status : Type 0 where
  pub usb : Bool
  pub run_token : Bytes
  pub configured : Resolution
  pub unsupported : Flags
  pub applied : Flags
  pub error : Option Reason
  pub lease_expires_at : ℕ
  pub checked_at : ℕ

-- What the worker has taken. `previous` is the status of before, if the peer was there.
pub record Snapshot : Type 0 where
  pub peer : Peer
  pub config : Config
  pub is_config_bad : Bool
  pub is_on_usb : Bool
  pub is_proof_bad : Bool
  pub previous : Option Status
  pub override : Option SessionOverride
  pub now : ℕ

-- What the worker meets: the authorizers, whether the census is too old and the context cancelled, the
-- clock when it computes the lease, and whether the peer accepts a call.
pub record Moment : Type 0 where
  pub authorize : Authorizer
  pub authorize_session : Authorizer
  pub is_stale : Bool
  pub is_cancelled : Bool
  pub clock : ℕ
  pub accepts : Flags → ℕ → Bool

-- A call, with the flags and the lease.
pub record Push : Type 0 where
  pub flags : Flags
  pub lease : ℕ

abbrev pub peer_key : Peer → SessionKey
peer_key p = record { device = p.device_id; bundle = p.bundle_id }

-- The override in force for the peer, after the pruning.
unfoldable pub take_override : ℕ → Peer → Sessions → Option SessionOverride
unfolding prune_sessions lookup
take_override now p m = lookup (peer_key p) (prune_sessions now m)

abbrev override_flags : Option SessionOverride → Flags
override_flags none = []
override_flags (some s) = s.flags

abbrev pub configured_for : Snapshot → Resolution
configured_for w = resolve w.config w.peer.bundle_id (override_flags w.override)

-- The flags that the peer can take.
unfoldable pub supported : Snapshot → Flags
unfolding erase resolve
supported w =
    if w.peer.is_ads_capable
    then (configured_for w).flags
    else erase (bytes "ads") (configured_for w).flags

abbrev ads_of : Option Bytes → Flags
ads_of none = []
ads_of (some v) = (bytes "ads", v) ∷ []

unfoldable pub unsupported_flags : Snapshot → Flags
unfolding lookup resolve
unsupported_flags w =
    if w.peer.is_ads_capable then [] else ads_of (lookup (bytes "ads") (configured_for w).flags)

-- What the worker wants to send, and the error so far.
pub record Wish : Type 0 where
  pub desired : Flags
  pub error : Option Reason

abbrev pub revoke_if : Bool → Reason → Wish → Wish
revoke_if b reason w = if b then record { desired = []; error = some reason } else w

-- The flags are dropped without an error where the peer is not on USB.
abbrev pub drop_if : Bool → Wish → Wish
drop_if b w = if b then record w { desired = [] } else w

abbrev pub owner_of : Snapshot → Bytes
owner_of w = elim w.override [ none ↦ w.config.owner | some s ↦ s.owner ]

abbrev pub is_overridden : Option SessionOverride → Bool
is_overridden none = false
is_overridden (some s) = true

abbrev pub authorizer_of : Snapshot → Moment → Authorizer
authorizer_of w t = if is_overridden w.override then t.authorize_session else t.authorize

abbrev pub is_absent : Authorizer → Bool
is_absent none = true
is_absent (some authorize) = false

abbrev pub is_refused : Authorizer → Bytes → Bytes → Bool
is_refused none device owner = false
is_refused (some authorize) device owner = not (authorize device owner)

abbrev pub usb_of : Snapshot → Bool
usb_of w = w.is_on_usb && not w.is_proof_bad

unfoldable pub wish : Snapshot → Moment → Wish
unfolding supported
wish w t =
    let w0 : Wish = record { desired = supported w; error = none } in
    let w1 = revoke_if w.is_config_bad bad_policy w0 in
    let w2 = revoke_if w.is_proof_bad no_proof w1 in
    let w3 = drop_if (not (usb_of w)) w2 in
    let w4 = revoke_if (is_overridden w.override && is_absent (authorizer_of w t)) unavailable w3 in
    revoke_if (is_refused (authorizer_of w t) w.peer.device_id (owner_of w)) refused w4

-- The last checks before the call.
unfoldable pub last_wish : Snapshot → Moment → Wish
unfolding wish
last_wish w t = revoke_if t.is_cancelled cancelled (revoke_if t.is_stale stale (wish w t))

abbrev pub is_empty : Flags → Bool
is_empty [] = true
is_empty (x ∷ xs) = false

abbrev had_error : Option Reason → Bool
had_error none = false
had_error (some reason) = true

-- A first call, a renewal, a revocation, or a repetition after an error.
abbrev pub is_due : Option Status → Flags → Bool
is_due none desired = true
is_due (some s) desired = not (is_empty desired) || not (is_empty s.applied) || had_error s.error

-- What is left of the override, in whole milliseconds.
abbrev pub remaining : SessionOverride → ℕ → ℕ
remaining s clock = (s.expires_at - clock) / millisecond * millisecond

abbrev pub bound_by : Option SessionOverride → ℕ → Flags → Push
bound_by none clock desired = record { flags = desired; lease = max_lease }
bound_by (some s) clock [] = record { flags = []; lease = max_lease }
bound_by (some s) clock (x ∷ xs) =
    if remaining s clock == 0
    then record { flags = []; lease = max_lease }
    else if ltb (remaining s clock) max_lease
    then record { flags = x ∷ xs; lease = remaining s clock }
    else record { flags = x ∷ xs; lease = max_lease }

-- The call that is made, if any.
unfoldable pub push : Snapshot → Moment → Option Push
unfolding last_wish
push w t =
    if not w.peer.is_capable
    then none
    else if is_due w.previous (last_wish w t).desired
    then some (bound_by w.override t.clock (last_wish w t).desired)
    else none

-- The status of before, with a lease that has run out forgotten.
abbrev pub applied_before : Option Status → ℕ → Flags
applied_before none now = []
applied_before (some s) now = if leb s.lease_expires_at now then [] else s.applied

abbrev pub expiry_before : Option Status → ℕ → ℕ
expiry_before none now = 0
expiry_before (some s) now = if leb s.lease_expires_at now then 0 else s.lease_expires_at

abbrev token_of : Option SessionOverride → Bytes
token_of none = []
token_of (some s) = s.run_token

unfoldable pub base_status : Snapshot → Moment → Status
unfolding wish unsupported_flags resolve
base_status w t = record {
  usb = usb_of w;
  run_token = token_of w.override;
  configured = configured_for w;
  unsupported = unsupported_flags w;
  applied = applied_before w.previous w.now;
  error = (wish w t).error;
  lease_expires_at = expiry_before w.previous w.now;
  checked_at = w.now;
}

abbrev pub after_call : Snapshot → Moment → Status → Option Push → Status
after_call w t s none = s
after_call w t s (some p) =
    if t.accepts p.flags p.lease
    then record s {
      applied = p.flags;
      lease_expires_at = if is_empty p.flags then 0 else w.now + p.lease;
    }
    else record s { error = some failed }

-- The status that the worker publishes.
unfoldable pub dispatch : Snapshot → Moment → Status
unfolding base_status last_wish push
dispatch w t =
    let s = base_status w t in
    if not w.peer.is_capable
    then s
    else (let checked = record s { usb = s.usb && not t.is_stale; error = (last_wish w t).error } in
        after_call w t checked (push w t))
