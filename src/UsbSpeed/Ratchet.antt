-- ===== src/UsbSpeed/Ratchet.antt =====
-- internal/usbspeed/ceiling.go: ceilings only rise.
use spyder.Prelude.{
  ℕ, ◌≡◌, ◌↔◌, refl, ap, ◌∙◌, false, Option, none, some, List, [], ◌∷◌, ltb, if◌then◌else◌, lookup,
  insert, lookup-insert, beq_self, arith,
}
use spyder.Prelude.Bytes.{Bytes, bytes_eq}
use spyder.UsbSpeed.{Store, canonical_id, set_ceiling, observe}

-- The calls that write, as values.
pub data Call : Type 0 where
  sets : Bytes → ℕ → Call
  observes : Bytes → ℕ → Call

unfoldable pub serve : Store → Call → Store
unfolding set_ceiling observe
serve s (sets id speed) = set_ceiling s id speed
serve s (observes id live) = (observe s id live).0

abbrev pub device_of : Call → Bytes
device_of (sets id speed) = id
device_of (observes id live) = id

abbrev pub speed_of : Call → ℕ
speed_of (sets id speed) = speed
speed_of (observes id live) = live

unfoldable pub serve_all : Store → List Call → Store
unfolding serve
serve_all s [] = s
serve_all s (c ∷ cs) = serve_all (serve s c) cs

-- The larger of a ceiling, if there is one, and a speed.
abbrev pub raised : Option ℕ → ℕ → ℕ
raised none v = v
raised (some cur) v = if ltb cur v then v else cur

-- The largest of a ceiling and of the speeds that the calls give for a device.
unfoldable pub highest : Option ℕ → Bytes → List Call → Option ℕ
unfolding canonical_id
highest o id [] = o
highest o id (c ∷ cs) =
    highest
      (if bytes_eq.beq (canonical_id (device_of c)) (canonical_id id)
        then some (raised o (speed_of c))
        else o)
      id cs

ceiling-serve :
    (s : Store) (c : Call) (key : Bytes)
    → lookup key (serve s c).speeds ≡ (
        if bytes_eq.beq (canonical_id (device_of c)) key
        then some (raised (lookup key s.speeds) (speed_of c))
        else lookup key s.speeds)
unfolding serve set_ceiling observe
ceiling-serve s (sets id v) key =
    ground (
      arith,
      bytes_eq.beq_iff (canonical_id id) key,
      lookup-insert (canonical_id id) key v s.speeds,
    )
ceiling-serve s (observes id v) key =
    ground (
      arith,
      bytes_eq.beq_iff (canonical_id id) key,
      lookup-insert (canonical_id id) key v s.speeds,
    )

-- After any calls of SetCeiling and Observe, the ceiling of a device is the largest of the one it had and
-- of the speeds that the calls gave under any spelling of its identifier, with or without dashes and in
-- either case; calls for other devices do not change it.
pub serve_all-highest :
    (s : Store) (cs : List Call) (id : Bytes)
    → lookup (canonical_id id) (serve_all s cs).speeds
      ≡ highest (lookup (canonical_id id) s.speeds) id cs
unfolding serve_all highest
serve_all-highest s [] id = refl
serve_all-highest s (c ∷ cs) id =
    serve_all-highest (serve s c) cs id
    ∙ ap (λ o. highest o id cs) (ceiling-serve s c (canonical_id id))

-- What Observe reports agrees with what it stores: the ceiling is the stored one and not below the live
-- speed, there is an anomaly exactly where it is above, and it has changed exactly where the store did
-- not have that ceiling before.
pub observe_lem :
    (s : Store) (id : Bytes) (live : ℕ)
    → let (t, r) = observe s id live in
      (lookup (canonical_id id) t.speeds ≡ some r.ceiling)
      × (ltb r.ceiling live ≡ false)
      × (r.anomaly ≡ ltb live r.ceiling)
      × ((r.changed ≡ false) ↔ (lookup (canonical_id id) s.speeds ≡ some r.ceiling))
unfolding observe
observe_lem s id live =
    let written : lookup (canonical_id id) (insert (canonical_id id) live s.speeds) ≡ some live =
      lookup-insert (canonical_id id) (canonical_id id) live s.speeds
      ∙ rw (beq_self (canonical_id id)) refl in
    (ground (arith, written), ground arith, ground arith, (λ h. ground arith, λ h. ground arith))
