-- ===== src/UsbSpeed.antt =====
-- internal/usbspeed/ceiling.go, and CanonicalID of speed.go: the highest link speed seen per device. A
-- speed is the code that the system reports, an unsigned number. The file is the list of its entries.
pub mod Ratchet
mod Tests
use spyder.Prelude.{
  ℕ, ◌+◌, ◌-◌, Bool, true, false, not, ◌&&◌, Option, none, some, List, [], ◌∷◌, map, select, ltb,
  leb, ◌==◌, if◌then◌else◌, lookup, insert,
}
use spyder.Prelude.Bytes.{Bytes, bytes_eq}

pub record Store : Type 0 where
  pub speeds : List (Bytes × ℕ)

-- `strings.ToUpper` on ASCII letters.
unfoldable pub upper_byte : ℕ → ℕ
upper_byte c = if leb b'a' c && leb c b'z' then c - 32 else c

unfoldable pub canonical_id : Bytes → Bytes
unfolding upper_byte
canonical_id id = map upper_byte (select (λ c. not (c == b'-')) id)

unfoldable pub read_into : List (Bytes × ℕ) → List (Bytes × ℕ) → List (Bytes × ℕ)
unfolding canonical_id
read_into [] m = m
read_into ((k, v) ∷ raw) m = read_into raw (insert (canonical_id k) v m)

-- `Open` over a file that holds these entries; `none` is a file that is missing or cannot be read.
unfoldable pub open_store : Option (List (Bytes × ℕ)) → Store
unfolding read_into
open_store none = record { speeds = [] }
open_store (some raw) = record { speeds = read_into raw [] }

abbrev is_some : Option ℕ → Bool
is_some none = false
is_some (some v) = true

unfoldable pub has : Store → Bytes → Bool
unfolding canonical_id
has s id = is_some (lookup (canonical_id id) s.speeds)

abbrev pub with_speed : Store → Bytes → ℕ → Store
with_speed s key v = record s { speeds = insert key v s.speeds }

unfoldable pub set_ceiling : Store → Bytes → ℕ → Store
unfolding canonical_id
set_ceiling s id speed = elim (lookup (canonical_id id) s.speeds) [
  | none ↦ with_speed s (canonical_id id) speed
  | some prev ↦ if leb speed prev then s else with_speed s (canonical_id id) speed
]

-- The results of `Observe`.
pub record Observed : Type 0 where
  pub ceiling : ℕ
  pub anomaly : Bool
  pub changed : Bool

abbrev pub fresh_ceiling : ℕ → Observed
fresh_ceiling live = record { ceiling = live; anomaly = false; changed = true }

unfoldable pub observe : Store → Bytes → ℕ → Store × Observed
unfolding canonical_id
observe s id live = elim (lookup (canonical_id id) s.speeds) [
  | none ↦ (with_speed s (canonical_id id) live, fresh_ceiling live)
  | some cur ↦
      if ltb cur live
      then (with_speed s (canonical_id id) live, fresh_ceiling live)
      else (s, record { ceiling = cur; anomaly = ltb live cur; changed = false })
]
