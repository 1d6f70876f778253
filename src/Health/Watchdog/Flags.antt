-- ===== src/Health/Watchdog/Flags.antt =====
-- internal/health/watchdog.go: what the watchdog flags, over any interleaving of goroutines.
use spyder.Prelude.{
  ℕ, ◌≤◌, ◌≡◌, Bool, true, false, List, [], ◌∷◌, String, ℤ, arith, suc, All, if◌then◌else◌,
  Bool-cases, inl, inr, refl,
}
use spyder.Health.Calls.{Call}
use spyder.Health.Watchdog.{
  Watchdog, Entry, begins, beats, dones, checks, forces, Guarded, Action, enters, drives, calls,
  registers, enter, enter_free, drive, act,
}

-- Calls that neither begin, nor beat, nor end the operation.
abbrev pub is_probe : Entry → Bool
is_probe (checks now) = true
is_probe (forces detail) = true
is_probe _ = false

abbrev pub IsProbing : ℕ × Action → Type 0
IsProbing (i, enters e) = is_probe e ≡ true
IsProbing _ = Unit

module _ (show : ℤ → String) where
  -- Whether an action flags a stall.
  abbrev pub flags_free : Guarded → Entry → List Call → Bool
  flags_free s e [] = (enter show s.watchdog e).2
  flags_free s e (c ∷ cs) = false

  abbrev pub flags : Guarded → ℕ → Action → Bool
  flags s i (enters e) = flags_free s e (s.todo i)
  flags s i _ = false

  -- How many of the actions flag a stall.
  unfoldable pub flagged : Guarded → List (ℕ × Action) → ℕ
  unfolding enter act
  flagged s [] = 0
  flagged s ((i, a) ∷ rest) =
      let later = flagged (act show s i a) rest in if flags s i a then suc later else later

  -- A stall is flagged when none was, and then it is.
  entry-once :
      (w : Watchdog) (e : Entry)
      → is_probe e ≡ true
      → ((enter show w e).2 ≡ true → (enter show w e).0.stalled ≡ true)
        × (w.stalled ≡ true → ((enter show w e).2 ≡ false) × ((enter show w e).0.stalled ≡ true))
  unfolding enter
  entry-once w (begins now) h = cc
  entry-once w (beats now) h = cc
  entry-once w dones h = cc
  entry-once w (checks now) h = ground arith
  entry-once w (forces detail) h = ground arith

  -- What an action flags, and what it leaves flagged.
  abbrev Raises : Guarded → Guarded → Bool → Type 0
  Raises s t fired =
      (fired ≡ true → t.watchdog.stalled ≡ true)
      × (s.watchdog.stalled ≡ true → (fired ≡ false) × (t.watchdog.stalled ≡ true))

  free-Raises :
      (s : Guarded) (i : ℕ) (e : Entry) (cs : List Call)
      → is_probe e ≡ true
      → Raises s (enter_free show s i e cs) (flags_free s e cs)
  free-Raises s i e [] h = entry-once s.watchdog e h
  free-Raises s i e (c ∷ cs) h = ((λ k. cc k), λ k. (refl, k))

  driven-Raises : (s : Guarded) (i t : ℕ) (cs : List Call) → Raises s (drive s i t cs) false
  driven-Raises s i t [] = ((λ k. cc k), λ k. (refl, k))
  driven-Raises s i t (c ∷ cs) = ((λ k. cc k), λ k. (refl, k))

  act-Raises :
      (s : Guarded) (i : ℕ) (a : Action)
      → IsProbing (i, a)
      → Raises s (act show s i a) (flags s i a)
  unfolding act
  act-Raises s i (enters e) h = free-Raises s i e (s.todo i) h
  act-Raises s i (drives t) h = driven-Raises s i t (s.todo i)
  act-Raises s i (calls t id c) h = ((λ k. cc k), λ k. (refl, k))
  act-Raises s i (registers t id kind policy) h = ((λ k. cc k), λ k. (refl, k))

  flagged-stalled :
      (s : Guarded) (actions : List (ℕ × Action))
      → All IsProbing actions
      → s.watchdog.stalled ≡ true
      → flagged s actions ≡ 0
  unfolding flagged
  flagged-stalled s [] h stalled = refl
  flagged-stalled s ((i, a) ∷ rest) h stalled =
      let (silent, still) = (act-Raises s i a h.0).1 stalled in
      rw silent (flagged-stalled (act show s i a) rest h.1 still)

  -- However goroutines interleave their calls of the watchdog and their calls of the model, and whatever others
  -- do to the model: as long as the operation neither begins, nor beats, nor ends, at most one stall is flagged.
  pub flagged-le_one :
      (s : Guarded) (actions : List (ℕ × Action)) → All IsProbing actions → flagged s actions ≤ 1
  unfolding flagged
  flagged-le_one s [] h = omega arith
  flagged-le_one s ((i, a) ∷ rest) h = elim (Bool-cases (flags s i a)) [
    | inl fires ↦
        let zero_later =
          flagged-stalled (act show s i a) rest h.1 ((act-Raises s i a h.0).0 fires) in
        rw (fires, zero_later) (omega arith)
    | inr silent ↦ rw silent (flagged-le_one (act show s i a) rest h.1)
  ]
