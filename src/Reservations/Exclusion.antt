-- ===== src/Reservations/Exclusion.antt =====
-- internal/reservations/reservations.go: a live hold against other callers, and what a holder gets.
use mathlib.Core.Path.{subst}
use spyder.Prelude.{
  ℕ, ◌<◌, ◌≡◌, refl, ◌∙◌, ap, sym, if◌then◌else◌, Bool, true, false, not, some, List, [], ◌∷◌,
  String, string_eq, arith, ltb, ℤ, lookup, Bool-cases, inl, inr, All,
}
use spyder.Prelude.Map.Unique.{lookup-keep}
use spyder.Reservations.{
  Reservation, Store, conflict, owner_required, ok, err, canonical, held, acquire, acquire_over,
  release, renew, authorize, get, list_active, unexpired, is_blank,
}
use spyder.Reservations.Touches.{
  Request, acquires, releases, renews, authorizes, gets, lists, serve, device_of, IsBook,
}
use spyder.Reservations.Expiry.{acquire_lem}
use spyder.Reservations.Holds.{serve-IsBook, serve-other, request-cases}

-- A call made for somebody else than `owner`.
abbrev pub is_outsider : String → Request → Bool
is_outsider owner (acquires device caller ttl note) = not (string_eq.beq owner caller)
is_outsider owner (releases device caller) = not (string_eq.beq owner caller)
is_outsider owner (renews device caller ttl) = not (string_eq.beq owner caller)
is_outsider owner (authorizes device caller) = not (string_eq.beq owner caller)
is_outsider owner (gets device) = true
is_outsider owner lists = true

release_kept :
    (s : Store) (device caller : String) (now : ℕ) (r : Reservation)
    → held s device ≡ some r
    → now < r.expires_at
    → string_eq.beq r.owner caller ≡ false
    → ((release s device caller now).0 ≡ s) × ((authorize s device caller now).0 ≡ s)
unfolding release authorize
release_kept s device caller now r found live other =
    let late : ltb r.expires_at now ≡ false = ground arith in
    (rw (found, release) (rw (late, other)), rw (found, authorize) (rw (late, other)))

acquire_kept :
    (s : Store) (device caller note : String) (ttl : ℤ) (now : ℕ) (r : Reservation)
    → held s device ≡ some r
    → now < r.expires_at
    → string_eq.beq r.owner caller ≡ false
    → (acquire s device caller ttl note now).0 ≡ s
unfolding acquire
acquire_kept s device caller note ttl now r found live other = elim (Bool-cases (is_blank caller)) [
  | inl blank ↦ rw (blank, acquire)
  | inr named ↦
      rw (named, acquire)
        (let early : ltb now r.expires_at ≡ true = ground arith in
          rw (found, acquire_over) (rw (early, other)))
]

renew_kept :
    (s : Store) (device caller : String) (ttl : ℤ) (now now' : ℕ) (r : Reservation)
    → held s device ≡ some r
    → now < r.expires_at
    → string_eq.beq r.owner caller ≡ false
    → (renew s device caller ttl now now').0 ≡ s
unfolding renew
renew_kept s device caller ttl now now' r found live other =
    let late : ltb r.expires_at now ≡ false = ground arith in rw (found, renew) (rw (late, other))

get_kept :
    (s : Store) (device : String) (now : ℕ) (r : Reservation)
    → held s device ≡ some r
    → now < r.expires_at
    → (get s device now).0 ≡ s
unfolding get
get_kept s device now r found live =
    let late : ltb r.expires_at now ≡ false = ground arith in rw (found, get) (rw late)

serve_kept :
    (s : Store) (device : String) (now now' : ℕ) (r : Reservation) (q : Request)
    → device_of q ≡ some device
    → held s device ≡ some r
    → now < r.expires_at
    → is_outsider r.owner q ≡ true
    → serve s now now' q ≡ s
unfolding serve
serve_kept s device now now' r (acquires d caller ttl note) e found live out =
    let same : d ≡ device = cc in
    acquire_kept s d caller note ttl now r (rw same found) live (ground arith)
serve_kept s device now now' r (releases d caller) e found live out =
    let same : d ≡ device = cc in
    (release_kept s d caller now r (rw same found) live (ground arith)).0
serve_kept s device now now' r (renews d caller ttl) e found live out =
    let same : d ≡ device = cc in
    renew_kept s d caller ttl now now' r (rw same found) live (ground arith)
serve_kept s device now now' r (authorizes d caller) e found live out =
    let same : d ≡ device = cc in
    (release_kept s d caller now r (rw same found) live (ground arith)).1
serve_kept s device now now' r (gets d) e found live out =
    let same : d ≡ device = cc in get_kept s d now r (rw same found) live
serve_kept s device now now' r lists e found live out = cc

list_active_kept :
    (s : Store) (device : String) (now : ℕ) (r : Reservation)
    → IsBook s
    → held s device ≡ some r
    → now < r.expires_at
    → held (list_active s now).0 device ≡ some r
unfolding list_active canonical
list_active_kept s device now r b found live =
    lookup-keep (unexpired now) (canonical s device) s.state b.unique
    ∙ rw found (let late : ltb r.expires_at now ≡ false = ground arith in rw late)

serve-held :
    (s : Store) (device : String) (now now' : ℕ) (r : Reservation) (q : Request)
    → IsBook s
    → held s device ≡ some r
    → now < r.expires_at
    → is_outsider r.owner q ≡ true
    → held (serve s now now' q) device ≡ some r
unfolding serve
serve-held s device now now' r q b found live out = elim (request-cases q) [
  | inl e ↦ rw (e, serve) (list_active_kept s device now r b found live)
  | inr (d, e) ↦ elim (Bool-cases (string_eq.beq (canonical s d) (canonical s device))) [
    | inl same ↦
        let key = (string_eq.beq_iff (canonical s d) (canonical s device)).0 same in
        rw (serve_kept s d now now' r q e (ap (λ k. lookup k s.state) key ∙ found) live out) found
    | inr other ↦
        serve-other s now now' q d device e
          (λ key. cc ((string_eq.beq_iff (canonical s d) (canonical s device)).1 key))
        ∙ found
  ]
]

-- A history of calls, each with the two readings of the clock that it may take.
unfoldable pub serve_all : Store → List (ℕ × ℕ × Request) → Store
serve_all s [] = s
serve_all s ((now, now', q) ∷ qs) = serve_all (serve s now now' q) qs

-- The calls are made for others than `owner`, and before `limit`.
abbrev pub AreOutsiders : String → ℕ → List (ℕ × ℕ × Request) → Type 0
AreOutsiders owner limit = All (λ c. (c.0 < limit) × (is_outsider owner c.2 ≡ true))

-- Until a reservation expires, no history of calls made for other owners, on whatever devices,
-- changes it or takes it away.
pub serve_all-held :
    (s : Store) (device : String) (r : Reservation) (qs : List (ℕ × ℕ × Request))
    → IsBook s
    → held s device ≡ some r
    → AreOutsiders r.owner r.expires_at qs
    → held (serve_all s qs) device ≡ some r
unfolding serve_all
serve_all-held s device r [] b found out = found
serve_all-held s device r ((now, now', q) ∷ qs) b found out =
    serve_all-held (serve s now now' q) device r qs (serve-IsBook s now now' q b)
      (serve-held s device now now' r q b found out.0.0 out.0.1) out.1

-- What each call answers to a caller who is not the holder of a live reservation.
refuses :
    (s : Store) (device caller note : String) (ttl : ℤ) (now now' : ℕ) (r : Reservation)
    → held s device ≡ some r
    → now < r.expires_at
    → string_eq.beq r.owner caller ≡ false
    → (acquire s device caller ttl note now
        ≡ (s, err (if is_blank caller then owner_required else conflict r)))
      × (release s device caller now ≡ (s, err (conflict r)))
      × (renew s device caller ttl now now' ≡ (s, err (conflict r)))
      × (authorize s device caller now ≡ (s, err (conflict r)))
unfolding acquire release renew authorize
refuses s device caller note ttl now now' r found live other =
    let early : ltb now r.expires_at ≡ true = ground arith in
    let late : ltb r.expires_at now ≡ false = ground arith in
    (
      elim (Bool-cases (is_blank caller)) [
        | inl blank ↦ rw (blank, acquire) refl
        | inr named ↦ rw (named, acquire) (rw (found, acquire_over) (rw (early, other)))
      ],
      rw (found, release) (rw (late, other)),
      rw (found, renew) (rw (late, other)),
      rw (found, authorize) (rw (late, other)),
    )

-- From the moment at which `Acquire` returns a reservation and until it expires, whatever calls are made for
-- other owners in between, nobody else gets the device: for a caller with another name, or with none,
-- `Acquire`, `Release`, `Renew` and `Authorize` are refused with that reservation, or, `Acquire` without a
-- name, for the missing name, and change nothing.
pub acquire-refuses :
    (s : Store) (device owner note : String) (ttl : ℤ) (start : ℕ) (r : Reservation)
    (qs : List (ℕ × ℕ × Request)) (caller note' : String) (ttl' : ℤ) (now now' : ℕ)
    → IsBook s
    → (acquire s device owner ttl note start).1 ≡ ok r
    → AreOutsiders owner r.expires_at qs
    → now < r.expires_at
    → string_eq.beq owner caller ≡ false
    → let t = serve_all (acquire s device owner ttl note start).0 qs in
      (acquire t device caller ttl' note' now
        ≡ (t, err (if is_blank caller then owner_required else conflict r)))
      × (release t device caller now ≡ (t, err (conflict r)))
      × (renew t device caller ttl' now now' ≡ (t, err (conflict r)))
      × (authorize t device caller now ≡ (t, err (conflict r)))
unfolding serve
acquire-refuses s device owner note ttl start r qs caller note' ttl' now now' b got out live other =
    let (mine, keyed, lasts, most, there, may) =
      acquire_lem s device owner note ttl start 0 r b got (omega arith) in
    let book = serve-IsBook s start start (acquires device owner ttl note) b in
    let kept =
      serve_all-held (acquire s device owner ttl note start).0 device r qs book there
        (subst (λ o. AreOutsiders o r.expires_at qs) (sym mine) out) in
    refuses (serve_all (acquire s device owner ttl note start).0 qs) device caller note' ttl' now
      now' r kept live (ap (λ o. string_eq.beq o caller) mine ∙ other)
