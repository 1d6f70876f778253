-- ===== src/Reservations/Touches.antt =====
-- internal/reservations/reservations.go: the calls as values, and what a call does to the entries.
use mathlib.Core.Path.{subst}
use spyder.Prelude.{
  ℕ, ◌≡◌, refl, Option, none, some, String, string_eq, ltb, ℤ, lookup, Option-cases, Bool-cases,
  inl, inr,
}
use spyder.Prelude.Map.Unique.{Unique}
use spyder.Reservations.{
  Reservation, Store, canonical, held, renewed, fresh_hold, acquire, release, renew, authorize, get,
  list_active, with_entry, without_entry, acquire_over, is_blank,
}

-- The calls of the store as values.
pub data Request : Type 0 where
  acquires : String → String → ℤ → String → Request
  releases : String → String → Request
  renews : String → String → ℤ → Request
  authorizes : String → String → Request
  gets : String → Request
  lists : Request

-- The store after a call at `now`; the second reading of the clock is that of `renew`.
unfoldable pub serve : Store → ℕ → ℕ → Request → Store
unfolding acquire release renew authorize get list_active
serve s now now' (acquires device owner ttl note) = (acquire s device owner ttl note now).0
serve s now now' (releases device owner) = (release s device owner now).0
serve s now now' (renews device owner ttl) = (renew s device owner ttl now now').0
serve s now now' (authorizes device owner) = (authorize s device owner now).0
serve s now now' (gets device) = (get s device now).0
serve s now now' lists = (list_active s now).0

-- Each device is one key, and each reservation stands under the key of its device.
pub record IsBook (s : Store) : Type 0 where
  pub unique : Unique s.state
  pub keyed : (key : String) (r : Reservation) → lookup key s.state ≡ some r → r.device ≡ key

-- What a call on one device does to the store: nothing, a write or a removal under its key.
pub data Touches (s : Store) (key : String) (t : Store) : Type 0 where
  same : t ≡ s → Touches s key t
  writes :
      (r : Reservation) → (IsBook s → r.device ≡ key) → t ≡ with_entry s key r → Touches s key t
  removes : t ≡ without_entry s key → Touches s key t

acquire_over-Touches :
    (s : Store) (key owner note : String) (ttl now : ℕ) (o : Option Reservation)
    → lookup key s.state ≡ o
    → Touches s key (acquire_over s key owner ttl note now o).0
unfolding acquire_over
acquire_over-Touches s key owner note ttl now none found = writes _ (λ b. refl) refl
acquire_over-Touches s key owner note ttl now (some r) found =
    elim (Bool-cases (ltb now r.expires_at)) [
      | inl live ↦ rw live (elim (Bool-cases (string_eq.beq r.owner owner)) [
        | inl mine ↦ rw mine (writes (renewed r now ttl note) (λ b. b.keyed key r found) refl)
        | inr other ↦ rw other (same refl)
      ])
      | inr stale ↦ rw stale (writes (fresh_hold key owner now ttl note) (λ b. refl) refl)
    ]

acquire-Touches :
    (s : Store) (device owner note : String) (ttl : ℤ) (now : ℕ)
    → Touches s (canonical s device) (acquire s device owner ttl note now).0
unfolding acquire
acquire-Touches s device owner note ttl now = elim (Bool-cases (is_blank owner)) [
  | inl e ↦ rw (e, acquire) (same refl)
  | inr e ↦ rw (e, acquire) (acquire_over-Touches s _ owner note _ now _ refl)
]

release-Touches :
    (s : Store) (device owner : String) (now : ℕ)
    → Touches s (canonical s device) (release s device owner now).0
unfolding release
release-Touches s device owner now = elim (Option-cases (held s device)) [
  | inl free ↦ rw (free, release) (same refl)
  | inr (r, found) ↦
      rw (found, release)
        (elim (Bool-cases (ltb r.expires_at now)) [
          | inl stale ↦ rw stale (removes refl)
          | inr live ↦ rw live (elim (Bool-cases (string_eq.beq r.owner owner)) [
            | inl mine ↦ rw mine (removes refl)
            | inr other ↦ rw other (same refl)
          ])
        ])
]

renew-Touches :
    (s : Store) (device owner : String) (ttl : ℤ) (now now' : ℕ)
    → Touches s (canonical s device) (renew s device owner ttl now now').0
unfolding renew
renew-Touches s device owner ttl now now' = elim (Option-cases (held s device)) [
  | inl free ↦ rw (free, renew) (same refl)
  | inr (r, found) ↦
      rw (found, renew)
        (elim (Bool-cases (ltb r.expires_at now)) [
          | inl stale ↦ rw stale (same refl)
          | inr live ↦ rw live (elim (Bool-cases (string_eq.beq r.owner owner)) [
            | inl mine ↦ rw mine (writes _ (λ b. b.keyed _ r found) refl)
            | inr other ↦ rw other (same refl)
          ])
        ])
]

authorize-Touches :
    (s : Store) (device owner : String) (now : ℕ)
    → Touches s (canonical s device) (authorize s device owner now).0
unfolding authorize
authorize-Touches s device owner now = elim (Option-cases (held s device)) [
  | inl free ↦ rw (free, authorize) (same refl)
  | inr (r, found) ↦
      rw (found, authorize)
        (elim (Bool-cases (ltb r.expires_at now)) [
          | inl stale ↦ rw stale (removes refl)
          | inr live ↦ rw live (elim (Bool-cases (string_eq.beq r.owner owner)) [
            | inl mine ↦ rw mine (same refl)
            | inr other ↦ rw other (same refl)
          ])
        ])
]

get-Touches :
    (s : Store) (device : String) (now : ℕ) → Touches s (canonical s device) (get s device now).0
unfolding get
get-Touches s device now = elim (Option-cases (held s device)) [
  | inl free ↦ rw (free, get) (same refl)
  | inr (r, found) ↦
      rw (found, get)
        (elim (Bool-cases (ltb r.expires_at now)) [
          | inl stale ↦ rw stale (removes refl)
          | inr live ↦ rw live (same refl)
        ])
]

-- The device that a call names; `lists` names none.
abbrev pub device_of : Request → Option String
device_of (acquires device owner ttl note) = some device
device_of (releases device owner) = some device
device_of (renews device owner ttl) = some device
device_of (authorizes device owner) = some device
device_of (gets device) = some device
device_of lists = none

pub serve-Touches :
    (s : Store) (now now' : ℕ) (q : Request) (device : String)
    → device_of q ≡ some device
    → Touches s (canonical s device) (serve s now now' q)
unfolding serve
serve-Touches s now now' (acquires d owner ttl note) device e =
    subst (λ x. Touches s (canonical s x) (serve s now now' (acquires d owner ttl note))) (cc)
      (acquire-Touches s d owner note ttl now)
serve-Touches s now now' (releases d owner) device e =
    subst (λ x. Touches s (canonical s x) (serve s now now' (releases d owner))) (cc)
      (release-Touches s d owner now)
serve-Touches s now now' (renews d owner ttl) device e =
    subst (λ x. Touches s (canonical s x) (serve s now now' (renews d owner ttl))) (cc)
      (renew-Touches s d owner ttl now now')
serve-Touches s now now' (authorizes d owner) device e =
    subst (λ x. Touches s (canonical s x) (serve s now now' (authorizes d owner))) (cc)
      (authorize-Touches s d owner now)
serve-Touches s now now' (gets d) device e =
    subst (λ x. Touches s (canonical s x) (serve s now now' (gets d))) (cc) (get-Touches s d now)
serve-Touches s now now' lists device e = cc
