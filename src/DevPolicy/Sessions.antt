-- ===== src/DevPolicy/Sessions.antt =====
-- internal/devpolicy/session.go: the overrides that a run sets for an app on a device and keeps alive by
-- setting them again. A call is one step; `authorize` is the controller's function of that name, `none`
-- if it is nil, as it answers at the time of the call.
pub mod Orderly
pub mod Owned
pub mod Effects
mod Tests
use spyder.Prelude.{
  ℕ, ◌+◌, ◌≡◌, ◌↔◌, Bool, true, false, not, ◌&&◌, ◌||◌, Option, none, some, List, [], ◌∷◌,
  if◌then◌else◌, ltb, leb, ◌==◌, ℤ, pos_part, is_positive, lookup, insert, erase, length, Eq, arith,
}
use spyder.Prelude.Map.Unique.{keep}
use spyder.Prelude.Bytes.{
  Bytes, bytes, bytes_beq, bytes_beq_iff, bytes_eq, is_blank, trim_space, contains_any,
}
use spyder.DevPolicy.{Flags}

-- 30 seconds.
abbrev pub max_session_lease : ℕ
max_session_lease = 30_000_000_000

abbrev pub max_session_overrides : ℕ
max_session_overrides = 512

abbrev pub max_owner_bytes : ℕ
max_owner_bytes = 256

pub record SessionOverride : Type 0 where
  pub owner : Bytes
  pub run_token : Bytes
  pub device_id : Bytes
  pub bundle_id : Bytes
  pub flags : Flags
  pub expires_at : ℕ

pub record SessionKey : Type 0 where
  pub device : Bytes
  pub bundle : Bytes

abbrev key_beq : SessionKey → SessionKey → Bool
key_beq a b = bytes_beq a.device b.device && bytes_beq a.bundle b.bundle

pub key_beq_iff : (a b : SessionKey) → (key_beq a b ≡ true) ↔ (a ≡ b)
key_beq_iff a b = (
  ground (arith, bytes_beq_iff a.device b.device, bytes_beq_iff a.bundle b.bundle),
  ground (arith, bytes_beq_iff a.device b.device, bytes_beq_iff a.bundle b.bundle),
)

instance abbrev pub key_eq : Eq SessionKey
key_eq = record { beq = key_beq; beq_iff = key_beq_iff }

abbrev pub key_of : SessionOverride → SessionKey
key_of s = record { device = s.device_id; bundle = s.bundle_id }

abbrev pub Sessions : Type 0
Sessions = List (SessionKey × SessionOverride)

pub data Failure : Type 0 where
  bad_identity bad_lease bad_flags unavailable refused other_run too_many : Failure

pub data Outcome : Type 0 where
  done : Outcome
  fails : Failure → Outcome

abbrev pub Authorizer : Type 0
Authorizer = Option (Bytes → Bytes → Bool)

unfoldable pub is_identity : Bytes → Bool
unfolding trim_space contains_any
is_identity v =
    bytes_beq (trim_space v) v
    && not (is_blank v)
    && leb (length v) max_owner_bytes
    && not (contains_any v (0 ∷ 13 ∷ 10 ∷ []))

unfoldable pub is_valid : SessionOverride → Bool
unfolding is_identity
is_valid s =
    is_identity s.owner
    && is_identity s.run_token
    && is_identity s.device_id
    && is_identity s.bundle_id

abbrev pub is_live : ℕ → SessionOverride → Bool
is_live now s = ltb now s.expires_at

unfoldable pub prune_sessions : ℕ → Sessions → Sessions
unfolding keep
prune_sessions now m = keep (is_live now) m

abbrev pub is_ads_value : Option Bytes → Bool
is_ads_value none = false
is_ads_value (some v) = bytes_beq v (bytes "suppressed") || bytes_beq v (bytes "normal")

unfoldable pub are_session_flags : Flags → Bool
unfolding lookup
are_session_flags f = length f == 1 && is_ads_value (lookup (bytes "ads") f)

abbrev pub is_lease : ℤ → Bool
is_lease lease = is_positive lease && leb (pos_part lease) max_session_lease

-- Whether the call comes from the run that set the override.
abbrev pub is_same_run : SessionOverride → SessionOverride → Bool
is_same_run previous s =
    bytes_beq previous.owner s.owner && bytes_beq previous.run_token s.run_token

abbrev pub is_allowed : (Bytes → Bytes → Bool) → SessionOverride → Bool
is_allowed authorize s = authorize s.device_id s.owner

abbrev pub leased : SessionOverride → ℕ → ℕ → SessionOverride
leased s now lease = record s { expires_at = now + lease }

-- The part of `SetSession` after the pruning, from the override that is there.
abbrev pub set_over :
    Sessions → SessionOverride → ℕ → ℕ → Option SessionOverride → Sessions × Outcome
set_over m s now lease none =
    if leb max_session_overrides (length m)
    then (m, fails too_many)
    else (insert (key_of s) (leased s now lease) m, done)
set_over m s now lease (some previous) =
    if is_same_run previous s
    then (insert (key_of s) (leased s now lease) m, done)
    else (m, fails other_run)

abbrev pub clear_over : Sessions → SessionOverride → Option SessionOverride → Sessions × Outcome
clear_over m s none = (erase (key_of s) m, done)
clear_over m s (some previous) =
    if is_same_run previous s then (erase (key_of s) m, done) else (m, fails other_run)

-- Both calls ask the authorizer, then go on with what they do.
abbrev pub authorized :
    Authorizer → SessionOverride → Sessions → Sessions × Outcome → Sessions × Outcome
authorized none s m r = (m, fails unavailable)
authorized (some authorize) s m r = if is_allowed authorize s then r else (m, fails refused)

unfoldable pub set_session : Authorizer → ℕ → SessionOverride → ℤ → Sessions → Sessions × Outcome
unfolding is_valid are_session_flags prune_sessions insert
set_session authorize now s lease m =
    if not (is_valid s)
    then (m, fails bad_identity)
    else if not (is_lease lease)
    then (m, fails bad_lease)
    else if not (are_session_flags s.flags)
    then (m, fails bad_flags)
    else (let live = prune_sessions now m in
        authorized authorize s m (set_over live s now (pos_part lease) (lookup (key_of s) live)))

unfoldable pub clear_session : Authorizer → ℕ → SessionOverride → Sessions → Sessions × Outcome
unfolding is_valid prune_sessions erase
clear_session authorize now s m =
    if not (is_valid s)
    then (m, fails bad_identity)
    else (let live = prune_sessions now m in
        authorized authorize s m (clear_over live s (lookup (key_of s) live)))

abbrev pub overrides : Sessions → List SessionOverride
overrides [] = []
overrides ((k, s) ∷ m) = s ∷ overrides m

unfoldable pub session_overrides : ℕ → Sessions → Sessions × List SessionOverride
unfolding prune_sessions
session_overrides now m = let live = prune_sessions now m in (live, overrides live)

-- The calls as values.
pub data Call : Type 0 where
  sets : SessionOverride → ℤ → Call
  clears : SessionOverride → Call
  lists : Call

unfoldable pub serve : Authorizer → ℕ → Call → Sessions → Sessions
unfolding set_session clear_session session_overrides
serve authorize now (sets s lease) m = (set_session authorize now s lease m).0
serve authorize now (clears s) m = (clear_session authorize now s m).0
serve authorize now lists m = (session_overrides now m).0

unfoldable pub serve_all : List (Authorizer × ℕ × Call) → Sessions → Sessions
unfolding serve
serve_all [] m = m
serve_all ((authorize, now, c) ∷ cs) m = serve_all cs (serve authorize now c m)
