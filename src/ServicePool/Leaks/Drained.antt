-- ===== src/ServicePool/Leaks/Drained.antt =====
-- internal/goios/pool.go: what every schedule leaves: no connection is lost, and none outlives Close.
use mathlib.Core.Path.{subst}
use spyder.Prelude.{
  ℕ, ◌≡◌, ◌<◌, ◌⊎◌, refl, ap, sym, ◌∙◌, Bool, true, false, ◌||◌, Option, none, some, List, [], ◌∷◌,
  String, string_eq, lookup, arith, ◌==◌, ℤ, Bool-cases, ltb, ltb→lt, inl, inr,
}
use spyder.ServicePool.{Shared, set_busy}
use spyder.ServicePool.Threads.{
  armed, Pc, idle, taken, leased, Choice, move, System, step, run, initial,
}
use spyder.ServicePool.Cells.{created, used, is_shared, IsGood, Fits}
use spyder.ServicePool.Invariant.Reach.{
  IsSound, step-IsSound, initial-IsSound, reached, step-IsStarted,
}
use spyder.ServicePool.Leaks.{is_settled, is_mapped, keeps, is_at_eq}
use spyder.ServicePool.Leaks.Moves.{move-Accounts}

-- The pool answers for the connection, or a thread does.
abbrev pub IsAccounted : System → ℕ → Type 0
IsAccounted y id = (is_settled y.shared id ≡ true) ⊎ ((i : ℕ) × (keeps (y.pc i) id ≡ true))

abbrev AllAccounted : System → Type 0
AllAccounted y = (id : ℕ) → id < y.shared.size → IsAccounted y id

or_cases : (a b : Bool) → (a || b) ≡ true → (a ≡ true) ⊎ (b ≡ true)
or_cases true b h = inl refl
or_cases false b h = inr h

-- After a step that thread `i` takes: its own connections, and those of another thread.
stepped :
    (y : System) (i : ℕ) (c : Choice) (id : ℕ)
    → IsSound y
    → id < (step y i c).shared.size
    → (id < y.shared.size → (is_settled y.shared id || keeps (y.pc i) id) ≡ true)
    → IsAccounted (step y i c) id
unfolding step
stepped y i c id v small before =
    elim (or_cases (is_settled (move c y.shared (y.pc i)).0 id)
      (keeps (move c y.shared (y.pc i)).1 id)
      (move-Accounts c y.shared (y.pc i) v.good (v.fits i) id small before)) [
        | inl settled ↦ inl settled
        | inr kept ↦ inr (i, ground arith)
      ]

-- A connection of thread `j`, which may be the one that takes the step.
held :
    (y : System) (i : ℕ) (c : Choice) (id j : ℕ)
    → IsSound y
    → id < (step y i c).shared.size
    → keeps (y.pc j) id ≡ true
    → IsAccounted (step y i c) id
unfolding step
held y i c id j v small kept = elim (Bool-cases (i == j)) [
  | inl e ↦ stepped y i c id v small (λ h. ground arith)
  | inr e ↦ inr (j, ground arith)
]

step-AllAccounted :
    (y : System) (i : ℕ) (c : Choice) → IsSound y → AllAccounted y → AllAccounted (step y i c)
step-AllAccounted y i c v all id small = elim (Bool-cases (ltb id y.shared.size)) [
  | inl e ↦ elim (all id (ltb→lt id y.shared.size e)) [
    | inl settled ↦ stepped y i c id v small (λ h. ground arith)
    | inr (j, kept) ↦ held y i c id j v small kept
  ]
  | inr e ↦ stepped y i c id v small (λ h. ground arith)
]

run-AllAccounted :
    (cs : List (ℕ × Choice)) (y : System) → IsSound y → AllAccounted y → AllAccounted (run y cs)
unfolding run
run-AllAccounted [] y v all = all
run-AllAccounted ((i, c) ∷ cs) y v all =
    run-AllAccounted cs (step y i c) (step-IsSound y i c v) (step-AllAccounted y i c v all)

all_accounted : (ttl : ℤ) (cs : List (ℕ × Choice)) → AllAccounted (run (initial ttl) cs)
all_accounted ttl cs = run-AllAccounted cs (initial ttl) (initial-IsSound ttl) (λ j h. ground arith)

-- The connection has been closed, or the map has it for the device that it was opened for.
abbrev pub IsFiled : Shared → ℕ → Type 0
IsFiled s id = ((s.heap id).closes ≡ 1) ⊎ (lookup (s.heap id).device s.entries ≡ some id)

filed :
    (s : Shared) (home : Option String) (id : ℕ)
    → ((d : String) → home ≡ some d → (s.heap id).device ≡ d)
    → is_mapped s home id ≡ true
    → lookup (s.heap id).device s.entries ≡ some id
filed s none id homed h = absurd (ground arith)
filed s (some d) id homed h =
    ap (λ k. lookup k s.entries) (homed d refl) ∙ is_at_eq (lookup d s.entries) id h

settled-IsFiled :
    (s : Shared) (id : ℕ)
    → ((d : String) → (s.heap id).home ≡ some d → (s.heap id).device ≡ d)
    → is_settled s id ≡ true
    → IsFiled s id
settled-IsFiled s id homed h =
    elim (or_cases ((s.heap id).closes == 1) (is_mapped s (s.heap id).home id) h) [
      | inl closed ↦ inl (ground arith)
      | inr there ↦ inr (filed s (s.heap id).home id homed there)
    ]

-- Whatever the schedule, no connection is lost: each that was opened has been closed, or stands in the
-- map under the device it was opened for, or some thread still has it to share or to close.
pub run-accounted :
    (ttl : ℤ) (cs : List (ℕ × Choice)) (id : ℕ)
    → id < (run (initial ttl) cs).shared.size
    → IsFiled (run (initial ttl) cs).shared id
      ⊎ ((i : ℕ) × (keeps ((run (initial ttl) cs).pc i) id ≡ true))
run-accounted ttl cs id small = elim (all_accounted ttl cs id small) [
  | inl h ↦ inl (settled-IsFiled (run (initial ttl) cs).shared id ((reached ttl cs).homed id) h)
  | inr kept ↦ inr kept
]

unmapped :
    (s : Shared) (home : Option String) (id : ℕ) → s.entries ≡ [] → is_mapped s home id ≡ false
unfolding lookup
unmapped s none id h = refl
unmapped s (some udid) id h = cc h

-- What a stopped pool has settled is closed.
settled-closed :
    (s : Shared) (id : ℕ)
    → IsGood s
    → s.stopped ≡ true
    → is_settled s id ≡ true
    → (s.heap id).closes ≡ 1
settled-closed s id g stopped h = ground (arith, unmapped s (s.heap id).home id (g.halted stopped))

-- When the pool has been closed and no call is in progress, every connection that was ever opened has
-- been closed exactly once.
pub run-drained :
    (ttl : ℤ) (cs : List (ℕ × Choice)) (id : ℕ)
    → ((i : ℕ) → (run (initial ttl) cs).pc i ≡ idle)
    → (run (initial ttl) cs).shared.stopped ≡ true
    → id < (run (initial ttl) cs).shared.size
    → ((run (initial ttl) cs).shared.heap id).closes ≡ 1
run-drained ttl cs id quiet stopped small = elim (all_accounted ttl cs id small) [
  | inl h ↦ settled-closed (run (initial ttl) cs).shared id (reached ttl cs).good stopped h
  | inr (i, kept) ↦ ground (arith, quiet i)
]

-- A thread has nothing to share or close of an entry that is shared and not retired.
live_kept :
    (s : Shared) (p : Pc) (id : ℕ)
    → Fits s p
    → is_shared (s.heap id) ≡ true
    → (s.heap id).retired ≡ false
    → keeps p id ≡ false
live_kept s p id f shared live = ground (arith, f.creates id, f.closes id, is_at_eq (created p) id)

taken_stopped :
    (c : Choice) (s : Shared) (udid : String) (id : ℕ)
    → (move c s (taken udid id)).0.stopped ≡ s.stopped
unfolding move set_busy
taken_stopped c s udid id = ground arith

still_stopped :
    (y : System) (i : ℕ) (c : Choice) (udid : String) (id : ℕ)
    → y.pc i ≡ taken udid id
    → (step y i c).shared.stopped ≡ y.shared.stopped
unfolding step
still_stopped y i c udid id before =
    subst (λ p. (move c y.shared p).0.stopped ≡ y.shared.stopped) (sym before)
      (taken_stopped c y.shared udid id)

-- In a stopped pool every entry that is shared and not retired is closed.
stopped-retired :
    (y : System) (id : ℕ)
    → IsSound y
    → IsAccounted y id
    → y.shared.stopped ≡ true
    → is_shared (y.shared.heap id) ≡ true
    → (y.shared.heap id).retired ≡ false
    → (y.shared.heap id).closes ≡ 1
stopped-retired y id v (inl settled) stopped shared live =
    settled-closed y.shared id v.good stopped settled
stopped-retired y id v (inr (j, kept)) stopped shared live =
    ground (arith, live_kept y.shared (y.pc j) id (v.fits j) shared live)

-- Once the pool is closed no further lease starts, also for the threads that were waiting for one.
pub step-stopped :
    (ttl : ℤ) (cs : List (ℕ × Choice)) (i : ℕ) (c : Choice) (udid : String) (id : ℕ)
    → (run (initial ttl) cs).shared.stopped ≡ true
    → (run (initial ttl) cs).pc i ≡ taken udid id
    → ¬ ((step (run (initial ttl) cs) i c).pc i ≡ leased udid id armed)
step-stopped ttl cs i c udid id stopped before after =
    let y = run (initial ttl) cs in
    let v = step-IsSound y i c (reached ttl cs) in
    let (home, live, unclosed, permit) =
      step-IsStarted y i c udid id (reached ttl cs) before after in
    let all = step-AllAccounted y i c (reached ttl cs) (all_accounted ttl cs) in
    ground (
      arith,
      stopped-retired (step y i c) id v (all id ((v.fits i).uses udid id (ap used after)).0)
          (still_stopped y i c udid id before ∙ stopped) (ground arith) live,
    )
