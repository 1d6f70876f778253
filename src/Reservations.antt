-- ===== src/Reservations.antt =====
-- internal/reservations/reservations.go: exclusive holds on devices. Times are nanoseconds; the clock's
-- reading is an argument. What is written to the file is the list of reservations, before its encoding.
pub mod Touches
pub mod Holds
pub mod Exclusion
pub mod Expiry
pub mod Persistence
mod Tests
use spyder.Prelude.{
  ℕ, ◌+◌, Bool, true, false, Option, none, some, List, [], ◌∷◌, String, string_eq, if◌then◌else◌,
  ltb, ℤ, pos_part, is_positive, lookup, insert, erase, not, map,
}
use spyder.Prelude.Map.Unique.{keep}

pub record Reservation : Type 0 where
  pub device : String
  pub owner : String
  pub expires_at : ℕ
  pub note : String
  pub created_at : ℕ

-- `norm` is `none` for a nil normalizer.
pub record Store : Type 0 where
  pub norm : Option (String → String)
  pub state : List (String × Reservation)

pub data Failure : Type 0 where
  owner_required : Failure
  conflict : Reservation → Failure
  no_active : String → Failure

pub data Result {ℓ} (A : Type ℓ) : Type ℓ where
  ok : A → Result A
  err : Failure → Result A

abbrev pub default_ttl : ℕ
default_ttl = 3_600_000_000_000

abbrev pub max_ttl : ℕ
max_ttl = 86_400_000_000_000

unfoldable pub effective_ttl : ℤ → ℕ
effective_ttl ttl =
    if is_positive ttl
    then (if ltb max_ttl (pos_part ttl) then max_ttl else pos_part ttl)
    else default_ttl

abbrev pub is_blank : String → Bool
is_blank s = string_eq.beq s ""

unfoldable pub canonical : Store → String → String
canonical s ref = elim s.norm [
  | none ↦ ref
  | some norm ↦ if is_blank (norm ref) then ref else norm ref
]

abbrev pub held : Store → String → Option Reservation
held s device = lookup (canonical s device) s.state

abbrev pub with_entry : Store → String → Reservation → Store
with_entry s key r = record s { state = insert key r s.state }

abbrev pub without_entry : Store → String → Store
without_entry s key = record s { state = erase key s.state }

-- The reservation that `Acquire` writes where the caller already holds the device.
abbrev pub renewed : Reservation → ℕ → ℕ → String → Reservation
renewed r now ttl note = record r {
  expires_at = now + ttl;
  note = if is_blank note then r.note else note;
}

abbrev pub fresh_hold : String → String → ℕ → ℕ → String → Reservation
fresh_hold key owner now ttl note = record {
  device = key;
  owner = owner;
  expires_at = now + ttl;
  note = note;
  created_at = now;
}

-- The rest of `Acquire`, from the live reservation that it found, if any.
unfoldable pub acquire_over :
    Store → String → String → ℕ → String → ℕ → Option Reservation → Store × Result Reservation
acquire_over s key owner ttl note now none =
    let r = fresh_hold key owner now ttl note in (with_entry s key r, ok r)
acquire_over s key owner ttl note now (some existing) =
    let r = fresh_hold key owner now ttl note in
    let r' = renewed existing now ttl note in
    if ltb now existing.expires_at
    then (if string_eq.beq existing.owner owner
        then (with_entry s key r', ok r')
        else (s, err (conflict existing)))
    else (with_entry s key r, ok r)

unfoldable pub acquire : Store → String → String → ℤ → String → ℕ → Store × Result Reservation
unfolding acquire_over
acquire s device owner ttl note now =
    if is_blank owner
    then (s, err owner_required)
    else acquire_over s (canonical s device) owner (effective_ttl ttl) note now (held s device)

unfoldable pub release : Store → String → String → ℕ → Store × Result (Unit {0})
release s device owner now = elim (held s device) [
  | none ↦ (s, ok tt)
  | some existing ↦
      if ltb existing.expires_at now
      then (without_entry s (canonical s device), ok tt)
      else if string_eq.beq existing.owner owner
      then (without_entry s (canonical s device), ok tt)
      else (s, err (conflict existing))
]

-- `Renew` reads the clock twice.
unfoldable pub renew : Store → String → String → ℤ → ℕ → ℕ → Store × Result Reservation
renew s device owner ttl now now' = elim (held s device) [
  | none ↦ (s, err (no_active (canonical s device)))
  | some existing ↦
      let r = record existing { expires_at = now' + effective_ttl ttl } in
      if ltb existing.expires_at now
      then (s, err (no_active (canonical s device)))
      else if string_eq.beq existing.owner owner
      then (with_entry s (canonical s device) r, ok r)
      else (s, err (conflict existing))
]

unfoldable pub authorize : Store → String → String → ℕ → Store × Result (Unit {0})
authorize s device owner now = elim (held s device) [
  | none ↦ (s, ok tt)
  | some existing ↦
      if ltb existing.expires_at now
      then (without_entry s (canonical s device), ok tt)
      else if string_eq.beq existing.owner owner
      then (s, ok tt)
      else (s, err (conflict existing))
]

unfoldable pub get : Store → String → ℕ → Store × Option Reservation
get s device now = elim (held s device) [
  | none ↦ (s, none)
  | some r ↦
      if ltb r.expires_at now then (without_entry s (canonical s device), none) else (s, some r)
]

abbrev pub unexpired : ℕ → Reservation → Bool
unexpired now r = not (ltb r.expires_at now)

abbrev pub reservations : List (String × Reservation) → List Reservation
reservations = map (λ e. e.1)

-- `List`: what has not expired stays and is returned.
unfoldable pub list_active : Store → ℕ → Store × List Reservation
list_active s now =
    let kept = keep (unexpired now) s.state in (record s { state = kept }, reservations kept)

-- `saveLocked`: what is written.
unfoldable pub save : Store → List Reservation
save s = reservations s.state

unfoldable pub load_into :
    ℕ → List Reservation → List (String × Reservation) → List (String × Reservation)
load_into now [] m = m
load_into now (r ∷ rs) m =
    load_into now rs (if ltb now r.expires_at then insert r.device r m else m)

-- `New` over a file that holds these reservations.
unfoldable pub load : Option (String → String) → ℕ → List Reservation → Store
unfolding load_into
load norm now entries = record { norm = norm; state = load_into now entries [] }
