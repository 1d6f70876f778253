-- ===== src/Reservations/Holds.antt =====
-- internal/reservations/reservations.go: each device under one key, and calls on one device that leave
-- the others alone.
use spyder.Prelude.{
  ℕ, ◌≡◌, refl, ◌≢◌, ◌⊎◌, false, some, String, string_eq, arith, lookup, lookup-insert,
  lookup-erase, inl, inr,
}
use spyder.Prelude.Map.Unique.{lookup-keep, insert-Unique, erase-Unique, keep-Unique}
use spyder.Reservations.{Store, canonical, held, list_active, unexpired}
use spyder.Reservations.Touches.{
  Request, acquires, releases, renews, authorizes, gets, lists, serve, device_of, IsBook, Touches,
  same, writes, removes, serve-Touches,
}

Touches-lookup :
    (s t : Store) (key other : String)
    → Touches s key t
    → string_eq.beq key other ≡ false
    → lookup other t.state ≡ lookup other s.state
Touches-lookup s t key other (same e) n = rw e
Touches-lookup s t key other (writes r k e) n = rw (e, lookup-insert key other r s.state, n)
Touches-lookup s t key other (removes e) n = rw (e, lookup-erase key other s.state, n)

Touches-norm : (s t : Store) (key : String) → Touches s key t → t.norm ≡ s.norm
Touches-norm s t key (same e) = rw e
Touches-norm s t key (writes r k e) = rw e
Touches-norm s t key (removes e) = rw e

Touches-IsBook : (s t : Store) (key : String) → Touches s key t → IsBook s → IsBook t
Touches-IsBook s t key (same e) b = rw e b
Touches-IsBook s t key (writes r k e) b = rw e (record {
  unique = insert-Unique key r s.state b.unique;
  keyed = λ other r' found. ground (
    arith,
    rw (lookup-insert key other r s.state) at found,
    string_eq.beq_iff key other,
    k b,
    b.keyed other r',
  );
})
Touches-IsBook s t key (removes e) b = rw e (record {
  unique = erase-Unique key s.state b.unique;
  keyed = λ other r' found.
      ground (arith, rw (lookup-erase key other s.state) at found, b.keyed other r');
})

list_active-IsBook : (s : Store) (now : ℕ) → IsBook s → IsBook (list_active s now).0
unfolding list_active
list_active-IsBook s now b = record {
  unique = keep-Unique (unexpired now) s.state b.unique;
  keyed = λ key r found.
      ground (arith, rw (lookup-keep (unexpired now) key s.state b.unique) at found, b.keyed key r);
}

pub request-cases : (q : Request) → (q ≡ lists) ⊎ ((device : String) × (device_of q ≡ some device))
request-cases (acquires d owner ttl note) = inr (d, refl)
request-cases (releases d owner) = inr (d, refl)
request-cases (renews d owner ttl) = inr (d, refl)
request-cases (authorizes d owner) = inr (d, refl)
request-cases (gets d) = inr (d, refl)
request-cases lists = inl refl

-- Every call keeps each device under one key of its own, whatever it returns.
pub serve-IsBook : (s : Store) (now now' : ℕ) (q : Request) → IsBook s → IsBook (serve s now now' q)
unfolding serve
serve-IsBook s now now' q b = elim (request-cases q) [
  | inl e ↦ rw (e, serve) (list_active-IsBook s now b)
  | inr (device, e) ↦ Touches-IsBook s _ _ (serve-Touches s now now' q device e) b
]

pub serve-norm : (s : Store) (now now' : ℕ) (q : Request) → (serve s now now' q).norm ≡ s.norm
unfolding serve list_active
serve-norm s now now' q = elim (request-cases q) [
  | inl e ↦ rw (e, serve)
  | inr (device, e) ↦ Touches-norm s _ _ (serve-Touches s now now' q device e)
]

-- A call on one device leaves the reservation of every device with another key as it was.
pub serve-other :
    (s : Store) (now now' : ℕ) (q : Request) (device other : String)
    → device_of q ≡ some device
    → canonical s device ≢ canonical s other
    → held (serve s now now' q) other ≡ held s other
unfolding canonical
serve-other s now now' q device other e n =
    rw (serve-norm s now now' q, canonical)
      (Touches-lookup s _ _ _ (serve-Touches s now now' q device e)
        (ground (arith, string_eq.beq_iff (canonical s device) (canonical s other))))
