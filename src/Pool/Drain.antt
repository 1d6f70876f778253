-- ===== src/Pool/Drain.antt =====
-- internal/pool/pool.go: ForceShutdown as a sequence of moves.
use spyder.Prelude.{
  ◌≡◌, ap, ◌∙◌, true, false, none, some, List, [], ◌∷◌, String, string_eq, lookup, lookup-erase,
  arith, Bool-cases, Option-cases, inl, inr, All,
}
use spyder.Prelude.Map.Unique.{Unique}
use spyder.Prelude.Select.{All-map, All-both}
use spyder.Pool.{Instance, World, Pool, reload, find_template, cancel_linger}
use spyder.Pool.Lifecycle.{destroy_instance}
use spyder.Pool.Calls.{drain, force_shutdown}
use spyder.Pool.Sound.{Run, stays, IsSound, Run-IsSound}
use spyder.Pool.Steps.{
  both, reload-Run, cancel_linger-Run, Stands, cancelled, destroyed, destroy_instance-Run,
}

-- The entry of an instance that the map still holds.
abbrev IsThere : Pool → String × Instance → Type 0
IsThere p e = (e.1.id ≡ e.0) × (lookup e.0 p.instances ≡ some e.1)

other_keys :
    (k : String) (m : List (String × Instance))
    → lookup k m ≡ none
    → All (λ e. string_eq.beq k e.0 ≡ false) m
unfolding lookup
other_keys k [] h = tt
other_keys k ((j, v) ∷ m) h =
    let (miss, rest) : (string_eq.beq k j ≡ false) × (lookup k m ≡ none) =
      ground (arith, string_eq.beq_iff j k, string_eq.beq_iff k j) in
    (miss, other_keys k m rest)

All-IsThere :
    (p : Pool) (m : List (String × Instance))
    → Unique m
    → ((k : String) (i : Instance) → lookup k m ≡ some i → IsThere p (k, i))
    → All (IsThere p) m
unfolding lookup
All-IsThere p [] u f = tt
All-IsThere p ((k, v) ∷ m) u f = (
  f k v (ground (arith, string_eq.beq_iff k k)),
  All-IsThere p m u.1 (λ j i h. f j i (ground (arith, string_eq.beq_iff k j))),
)

module _ (F : Instance → Type 0) (w : World) (name : String) where
  one_drained :
      (p : Pool) (i : Instance)
      → IsSound p
      → Stands p i
      → F i
      → Run F p (destroy_instance w (cancel_linger p i.id) i).0
  unfolding cancel_linger
  one_drained p i s here free =
      let first = cancel_linger-Run F p i.id in
      both F p (cancel_linger p i.id) _ first (
        destroy_instance-Run F w (cancel_linger p i.id) i (Run-IsSound F p _ s first) here
          (cancelled p i) (λ held. free))

  still-IsThere :
      (p : Pool) (i : Instance) (m : List (String × Instance))
      → lookup i.id m ≡ none
      → All (IsThere p) m
      → All (IsThere (destroy_instance w (cancel_linger p i.id) i).0) m
  unfolding cancel_linger
  still-IsThere p i m apart there =
      All-map m
        (λ e h. (
          h.0.0,
          ap (lookup e.0) (destroyed w (cancel_linger p i.id) i).0
              ∙ (lookup-erase i.id e.0 p.instances ∙ rw h.1 h.0.1),
        ))
        (All-both (IsThere p) (λ e. string_eq.beq i.id e.0 ≡ false) m there
          (other_keys i.id m apart))

  drain-Run :
      ((i : Instance) → string_eq.beq i.template name ≡ true → F i)
      → (m : List (String × Instance)) (p : Pool) → IsSound p
      → Unique m
      → All (IsThere p) m
      → Run F p (drain w name m p).0
  unfolding drain
  drain-Run free [] p s u there = stays
  drain-Run free ((k, i) ∷ m) p s u there = elim (Bool-cases (string_eq.beq i.template name)) [
    | inr other ↦ rw other (drain-Run free m p s u.1 there.1)
    | inl mine ↦
        let here : Stands p i = ap (λ j. lookup j p.instances) there.0.0 ∙ there.0.1 in
        let p1 = (destroy_instance w (cancel_linger p i.id) i).0 in
        let first = one_drained p i s here (free i mine) in
        rw mine (
          both F p p1 _ first (
            drain-Run free m p1 (Run-IsSound F p p1 s first) u.1
              (still-IsThere p i m (ap (λ j. lookup j m) there.0.0 ∙ u.0) there.1)))
  ]

  pub force_shutdown-Run :
      (p : Pool)
      → IsSound p
      → ((i : Instance) → string_eq.beq i.template name ≡ true → F i)
      → Run F p (force_shutdown w p name).0
  unfolding force_shutdown
  force_shutdown-Run p s free =
      let p1 = reload w p in
      let first = reload-Run F w p in
      let s1 = Run-IsSound F p p1 s first in
      elim (Option-cases (find_template p1 name)) [
        | inl e ↦ rw (e, force_shutdown) first
        | inr (t, e) ↦
            rw (e, force_shutdown)
              (both F p p1 _ first (
                drain-Run free p1.instances p1 s1 s1.unique
                  (All-IsThere p1 p1.instances s1.unique (λ k i h. (s1.keyed k i h, h)))))
      ]
