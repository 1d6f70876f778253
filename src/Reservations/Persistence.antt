-- ===== src/Reservations/Persistence.antt =====
-- internal/reservations/reservations.go: the file. A store that is saved and opened again holds what has not
-- expired.
use spyder.Prelude.{
  ℕ, ◌≡◌, refl, ◌∙◌, Bool, Option, none, some, List, [], ◌∷◌, String, string_eq, arith, ltb, lookup,
  insert, lookup-insert, beq_self, Bool-cases, inl, inr,
}
use spyder.Prelude.Map.Unique.{Unique, passing}
use spyder.Reservations.{Reservation, Store, held, canonical, save, load, load_into, reservations}
use spyder.Reservations.Touches.{IsBook}

-- Each entry stands under the key of its reservation's device.
abbrev Keyed : List (String × Reservation) → Type 0
Keyed [] = Unit {0}
Keyed ((k, r) ∷ m) = (r.device ≡ k) × Keyed m

-- What a look-up finds after the entries of `m` are loaded over a map: an entry of `m` that is live,
-- or else what was there.
abbrev or_else : Option Reservation → Option Reservation → Option Reservation
or_else none o = o
or_else (some r) o = some r

or_else-none : (o : Option Reservation) → or_else o none ≡ o
or_else-none none = refl
or_else-none (some r) = refl

unfoldable pub live_at : ℕ → Reservation → Bool
live_at now r = ltb now r.expires_at

lookup-load_into :
    (now : ℕ) (key : String) (m acc : List (String × Reservation))
    → Unique m
    → Keyed m
    → lookup key (load_into now (reservations m) acc)
      ≡ or_else (passing (live_at now) (lookup key m)) (lookup key acc)
unfolding load_into lookup live_at
lookup-load_into now key [] acc u k = refl
lookup-load_into now key ((j, r) ∷ m) acc u k = elim (Bool-cases (ltb now r.expires_at)) [
  | inl live ↦
      rw (live, load_into)
        (lookup-load_into now key m (insert r.device r acc) u.1 k.1
          ∙ ground (
            arith,
            lookup-insert r.device key r acc,
            string_eq.beq_iff j key,
            string_eq.beq_iff r.device key,
          ))
  | inr stale ↦
      rw (stale, load_into)
        (lookup-load_into now key m acc u.1 k.1 ∙ ground (arith, string_eq.beq_iff j key))
]

Keyed-of :
    (m : List (String × Reservation))
    → Unique m
    → ((key : String) (r : Reservation) → lookup key m ≡ some r → r.device ≡ key)
    → Keyed m
unfolding lookup
Keyed-of [] u h = tt
Keyed-of ((k, r) ∷ m) u h = (
  h k r (rw (beq_self k)),
  Keyed-of m u.1 (λ key r' found. h key r' (ground (arith, string_eq.beq_iff k key, found))),
)

-- A store that is opened at a time on what was saved of another, under the same normalizer, holds
-- for each device the reservation that was saved, if it has not expired, and none otherwise.
pub load-save :
    (s : Store) (now : ℕ) (device : String)
    → IsBook s
    → held (load s.norm now (save s)) device ≡ passing (live_at now) (held s device)
unfolding load save canonical lookup
load-save s now device b =
    lookup-load_into now (canonical s device) s.state [] b.unique
      (Keyed-of s.state b.unique b.keyed)
    ∙ or_else-none (passing (live_at now) (held s device))
