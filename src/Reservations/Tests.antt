-- ===== src/Reservations/Tests.antt =====
-- internal/reservations: the theorems at concrete inputs.
use spyder.Prelude.{
  ℕ, ◌+◌, ◌≤◌, ◌<◌, ◌≡◌, refl, none, some, List, [], ◌∷◌, string_eq, arith, pos, lookup,
  if◌then◌else◌,
}
use spyder.Prelude.Map.Unique.{passing}
use spyder.Reservations.{
  Reservation, Store, conflict, owner_required, is_blank, ok, err, canonical, held, fresh_hold,
  effective_ttl, max_ttl, acquire, release, renew, authorize, get, load, save, acquire_over,
}
use spyder.Reservations.Touches.{Request, acquires, releases, lists, IsBook}
use spyder.Reservations.Exclusion.{acquire-refuses, serve_all, serve_all-held}
use spyder.Reservations.Expiry.{acquire_lem, boundary}
use spyder.Reservations.Persistence.{load-save, live_at}

abbrev ipad_hold : Reservation
ipad_hold = record { device = "iPad"; owner = "ann"; expires_at = 100; note = ""; created_at = 10 }

abbrev book : Store
book = record { norm = none; state = ("iPad", ipad_hold) ∷ [] }

book-held : held book "iPad" ≡ some ipad_hold
unfolding lookup canonical
book-held = refl

book-IsBook : IsBook book
unfolding lookup
book-IsBook = record {
  unique = (refl, tt);
  keyed = λ key r found. ground (arith, string_eq.beq_iff "iPad" key);
}

-- The holder renews by acquiring again; another caller gets the device once the hold is over.
abbrev visits : List (ℕ × ℕ × Request)
visits =
    (20, 20, acquires "iPad" "bob" (pos 5) "")
    ∷ (30, 30, lists)
    ∷ (40, 40, releases "iPad" "bob")
    ∷ []

serve_all-held_example : held (serve_all book visits) "iPad" ≡ some ipad_hold
serve_all-held_example =
    serve_all-held book "iPad" ipad_hold visits book-IsBook book-held
      ((omega arith, refl), ((omega arith, refl), ((omega arith, refl), tt)))

distinct : canonical book "Pixel" ≡ canonical book "iPad" → ⊥
unfolding canonical
distinct e = cc ((string_eq.beq_iff "Pixel" "iPad").1 e)

abbrev pixel_hold : Reservation
pixel_hold = record { device = "Pixel"; owner = "bob"; expires_at = 25; note = ""; created_at = 20 }

pixel_acquired : (acquire book "Pixel" "bob" (pos 5) "" 20).1 ≡ ok pixel_hold
unfolding acquire acquire_over canonical lookup effective_ttl
pixel_acquired = refl

acquire_lem_example :
    let t = (acquire book "Pixel" "bob" (pos 5) "" 20).0 in
    (pixel_hold.owner ≡ "bob")
    × (pixel_hold.device ≡ canonical book "Pixel")
    × (20 < pixel_hold.expires_at)
    × (pixel_hold.expires_at ≤ 20 + max_ttl)
    × (held t "Pixel" ≡ some pixel_hold)
    × ((authorize t "Pixel" "bob" 25).1 ≡ ok tt)
acquire_lem_example =
    acquire_lem book "Pixel" "bob" "" (pos 5) 20 25 pixel_hold book-IsBook pixel_acquired
      (omega arith)

boundary_example :
    ((get book "iPad" 100).1 ≡ some ipad_hold)
    × ((authorize book "iPad" "bob" 100).1 ≡ err (conflict ipad_hold))
    × ((renew book "iPad" "bob" (pos 5) 100 100).1 ≡ err (conflict ipad_hold))
    × ((acquire book "iPad" "bob" (pos 5) "" 100).1
        ≡ ok (fresh_hold (canonical book "iPad") "bob" 100 (effective_ttl (pos 5)) ""))
boundary_example = boundary book "iPad" "bob" "" (pos 5) 100 ipad_hold book-held refl refl

load-save_example : held (load none 50 (save book)) "iPad" ≡ passing (live_at 50) (held book "iPad")
load-save_example = load-save book 50 "iPad" book-IsBook

-- Somebody without a name calls after two calls of others.
acquire-refuses_example :
    let t =
      serve_all
        (acquire book "Pixel" "bob" (pos 5) "" 20).0
        ((21, 21, releases "Pixel" "ann") ∷ (22, 22, lists) ∷ []) in
    (acquire t "Pixel" "" (pos 5) "" 23
      ≡ (t, err (if is_blank "" then owner_required else conflict pixel_hold)))
    × (release t "Pixel" "" 23 ≡ (t, err (conflict pixel_hold)))
    × (renew t "Pixel" "" (pos 5) 23 23 ≡ (t, err (conflict pixel_hold)))
    × (authorize t "Pixel" "" 23 ≡ (t, err (conflict pixel_hold)))
acquire-refuses_example =
    acquire-refuses book "Pixel" "bob" "" (pos 5) 20 pixel_hold
      ((21, 21, releases "Pixel" "ann") ∷ (22, 22, lists) ∷ []) "" "" (pos 5) 23 23 book-IsBook
      pixel_acquired ((omega arith, refl), ((omega arith, refl), tt)) (omega arith) refl
