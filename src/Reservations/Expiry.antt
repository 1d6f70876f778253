-- ===== src/Reservations/Expiry.antt =====
-- internal/reservations/reservations.go: what `Acquire` grants, and calls around the expiry.
use spyder.Prelude.{
  ℕ, ◌+◌, ◌≤◌, ◌<◌, ◌≡◌, refl, ◌∙◌, true, false, Option, none, some, String, string_eq, arith, ltb,
  ℤ, lookup, lookup-insert, Bool-cases, inl, inr, beq_self,
}
use spyder.Reservations.{
  Reservation, Store, conflict, ok, err, canonical, held, fresh_hold, effective_ttl, acquire,
  acquire_over, renew, authorize, get, is_blank, max_ttl, with_entry,
}
use spyder.Reservations.Touches.{IsBook}

effective_ttl_bounds : (ttl : ℤ) → (0 < effective_ttl ttl) × (effective_ttl ttl ≤ max_ttl)
unfolding effective_ttl
effective_ttl_bounds ttl = ground arith

acquire_over-ok :
    (s : Store) (key owner note : String) (ttl now : ℕ) (r : Reservation) (o : Option Reservation)
    → lookup key s.state ≡ o
    → IsBook s
    → (acquire_over s key owner ttl note now o).1 ≡ ok r
    → ((acquire_over s key owner ttl note now o).0 ≡ with_entry s key r)
      × (r.owner ≡ owner)
      × (r.device ≡ key)
      × (r.expires_at ≡ now + ttl)
unfolding acquire_over
acquire_over-ok s key owner note ttl now r none found b got = ground arith
acquire_over-ok s key owner note ttl now r (some existing) found b got =
    ground (arith, string_eq.beq_iff existing.owner owner, b.keyed key existing found)

acquire-ok :
    (s : Store) (device owner note : String) (ttl : ℤ) (now : ℕ) (r : Reservation)
    → IsBook s
    → (acquire s device owner ttl note now).1 ≡ ok r
    → ((acquire s device owner ttl note now).0 ≡ with_entry s (canonical s device) r)
      × (r.owner ≡ owner)
      × (r.device ≡ canonical s device)
      × (r.expires_at ≡ now + effective_ttl ttl)
unfolding acquire
acquire-ok s device owner note ttl now r b got = elim (Bool-cases (is_blank owner)) [
  | inl blank ↦ absurd (cc (rw (blank, acquire) at got))
  | inr named ↦
      rw (named, acquire)
        (acquire_over-ok s _ owner note _ now r _ refl b (rw (named, acquire) at got))
]

held-with_entry :
    (s : Store) (device : String) (r : Reservation)
    → held (with_entry s (canonical s device) r) device ≡ some r
unfolding canonical
held-with_entry s device r =
    lookup-insert (canonical s device) (canonical s device) r s.state
    ∙ rw (beq_self (canonical s device))

authorize_holder :
    (t : Store) (device owner : String) (later : ℕ) (r : Reservation)
    → held t device ≡ some r
    → r.owner ≡ owner
    → later ≤ r.expires_at
    → (authorize t device owner later).1 ≡ ok tt
unfolding authorize
authorize_holder t device owner later r found mine before =
    let late : ltb r.expires_at later ≡ false = ground arith in
    let match : string_eq.beq r.owner owner ≡ true = (string_eq.beq_iff r.owner owner).1 mine in
    rw (found, authorize) (rw (late, match))

-- A reservation that `Acquire` returns is the caller's, stands under the key of the device, and
-- runs for more than no time and at most 24 hours from now; it is what the store then holds, and
-- the caller is authorized for as long as it runs.
pub acquire_lem :
    (s : Store) (device owner note : String) (ttl : ℤ) (now later : ℕ) (r : Reservation)
    → IsBook s
    → (acquire s device owner ttl note now).1 ≡ ok r
    → later ≤ r.expires_at
    → let t = (acquire s device owner ttl note now).0 in
      (r.owner ≡ owner)
      × (r.device ≡ canonical s device)
      × (now < r.expires_at)
      × (r.expires_at ≤ now + max_ttl)
      × (held t device ≡ some r)
      × ((authorize t device owner later).1 ≡ ok tt)
acquire_lem s device owner note ttl now later r b got before =
    let (stored, mine, keyed, expires) = acquire-ok s device owner note ttl now r b got in
    let found : held (acquire s device owner ttl note now).0 device ≡ some r =
      rw stored (held-with_entry s device r) in
    (
      mine,
      keyed,
      omega (arith, expires, effective_ttl_bounds ttl),
      omega (arith, expires, effective_ttl_bounds ttl),
      found,
      authorize_holder _ device owner later r found mine before,
    )

-- At the very moment at which a reservation expires the calls disagree on it: `Get` still returns
-- it and `Authorize` and `Renew` still refuse others, but `Acquire` hands the device to anybody.
pub boundary :
    (s : Store) (device caller note : String) (ttl : ℤ) (now' : ℕ) (r : Reservation)
    → held s device ≡ some r
    → string_eq.beq r.owner caller ≡ false
    → is_blank caller ≡ false
    → ((get s device r.expires_at).1 ≡ some r)
      × ((authorize s device caller r.expires_at).1 ≡ err (conflict r))
      × ((renew s device caller ttl r.expires_at now').1 ≡ err (conflict r))
      × ((acquire s device caller ttl note r.expires_at).1
          ≡ ok (fresh_hold (canonical s device) caller r.expires_at (effective_ttl ttl) note))
unfolding get authorize renew acquire
boundary s device caller note ttl now' r found other named =
    let late : ltb r.expires_at r.expires_at ≡ false = ground arith in
    (
      rw (found, get) (rw late),
      rw (found, authorize) (rw (late, other)),
      rw (found, renew) (rw (late, other)),
      rw (named, acquire) (rw (found, acquire_over) (rw late)),
    )

-- After a reservation has expired it stands in nobody's way: any caller is authorized, `Get` finds
-- nothing, and any named caller acquires the device.
pub after_expiry :
    (s : Store) (device caller note : String) (ttl : ℤ) (now : ℕ) (r : Reservation)
    → held s device ≡ some r
    → r.expires_at < now
    → is_blank caller ≡ false
    → ((authorize s device caller now).1 ≡ ok tt)
      × ((get s device now).1 ≡ none)
      × ((acquire s device caller ttl note now).1
          ≡ ok (fresh_hold (canonical s device) caller now (effective_ttl ttl) note))
unfolding get authorize acquire
after_expiry s device caller note ttl now r found past named =
    let late : ltb r.expires_at now ≡ true = ground arith in
    let stale : ltb now r.expires_at ≡ false = ground arith in
    (
      rw (found, authorize) (rw late),
      rw (found, get) (rw late),
      rw (named, acquire) (rw (found, acquire_over) (rw stale)),
    )
