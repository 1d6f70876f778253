-- ===== src/Pool/Ledger.antt =====
-- internal/poolstore/poolstore.go: the ledger of the holds on pooled instances, as the rows of its table. The
-- database is not modelled: it stores and deletes rows as the statements say, or fails as a whole.
use spyder.Prelude.{
  ℕ, ◌/◌, Bool, false, ◌&&◌, ◌||◌, not, List, [], ◌∷◌, String, string_eq, if◌then◌else◌, insert,
  erase,
}

-- `acquired_at` is in seconds, as the table keeps it.
pub record Hold : Type 0 where
  pub device_id : String
  pub template : String
  pub platform : String
  pub holder : String
  pub acquired_at : ℕ

abbrev pub seconds_of : ℕ → ℕ
seconds_of t = t / 1_000_000_000

-- Another row has the device, which the table's `UNIQUE` refuses.
unfoldable pub is_taken : String → String → List (String × Hold) → Bool
is_taken id device [] = false
is_taken id device ((k, h) ∷ rows) =
    (string_eq.beq h.device_id device && not (string_eq.beq k id)) || is_taken id device rows

-- A failed `Put` leaves the rows as they are.
unfoldable pub put : Bool → String → Hold → List (String × Hold) → List (String × Hold)
unfolding insert
put works id h rows =
    if works
      && not (string_eq.beq id "")
      && not (string_eq.beq h.device_id "")
      && not (is_taken id h.device_id rows)
    then insert id h rows
    else rows

unfoldable pub delete : Bool → String → List (String × Hold) → List (String × Hold)
unfolding erase
delete works id rows = if works then erase id rows else rows
