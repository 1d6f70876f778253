-- ===== src/ServicePool/Invariant/Reach.antt =====
-- internal/goios/pool.go: what every schedule of the pool's threads keeps.
use mathlib.Core.Path.{subst}
use spyder.Prelude.{
  ℕ, ◌≡◌, ◌≤◌, refl, sym, ap, ◌∙◌, false, Option, none, some, List, [], ◌∷◌, String, string_eq,
  lookup, arith, ◌==◌, ℤ, Bool-cases, if_cases, inl, inr,
}
use spyder.ServicePool.{Shared, new_pool, set_busy}
use spyder.ServicePool.Threads.{
  armed, Pc, taken, leased, Choice, move, System, put_pc, step, run, initial,
}
use spyder.ServicePool.Cells.{
  created, carried, IsGood, Fits, Apart, idle-Fits, idle-Apart, new_pool-IsGood,
}
use spyder.ServicePool.Labels.{move-Labels, opened_for, asked_for, asked-device, device_of}
use spyder.ServicePool.Invariant.Steps.{move-Kept}

pub record IsSound (y : System) : Type 0 where
  pub good : IsGood y.shared
  pub fits : (i : ℕ) → Fits y.shared (y.pc i)
  pub apart : (i j : ℕ) → ¬ (i ≡ j) → Apart (y.pc i) (y.pc j)
  pub homed :
      (id : ℕ) (d : String) → (y.shared.heap id).home ≡ some d → (y.shared.heap id).device ≡ d
  pub opened :
      (i id : ℕ) (d : String) → opened_for (y.pc i) ≡ some (d, id) → (y.shared.heap id).device ≡ d

swap : (p q : Pc) → Apart p q → Apart q p
swap p q a = record { created = λ id h j. a.created id j h; carried = λ id h j. a.carried id j h }

-- The program counters after a step of thread `i`.
stepped-Apart :
    (pc : ℕ → Pc) (i : ℕ) (p : Pc)
    → ((j : ℕ) → ¬ (i ≡ j) → Apart p (pc j))
    → ((j l : ℕ) → ¬ (j ≡ l) → Apart (pc j) (pc l))
    → (j l : ℕ) → ¬ (j ≡ l)
    → Apart (put_pc pc i p j) (put_pc pc i p l)
stepped-Apart pc i p new old j l different =
    if_cases (λ x. Apart x (put_pc pc i p l)) (i == j) p (pc j)
      (λ e.
        if_cases (Apart p) (i == l) p (pc l) (λ h. absurd (different (ground arith)))
          (λ h. new l (λ same. ground arith)))
      (λ e.
        if_cases (Apart (pc j)) (i == l) p (pc l)
          (λ h. swap p (pc j) (new j (λ same. ground arith))) (λ h. old j l different))

opened-created : (p : Pc) (d : String) (id : ℕ) → opened_for p ≡ some (d, id) → created p ≡ some id
opened-created p d id h = ground arith

-- The device under which an entry stands is that of its connection, also after a step.
step-homed :
    (y : System) (i : ℕ) (c : Choice) (id : ℕ) (d : String)
    → IsSound y
    → ((step y i c).shared.heap id).home ≡ some d
    → ((step y i c).shared.heap id).device ≡ d
unfolding step
step-homed y i c id d v h =
    let (kept, before) = (move-Labels c y.shared (y.pc i)).homes id d h in
    elim before [ inl there ↦ kept ∙ v.homed id d there | inr mine ↦ kept ∙ v.opened i id d mine ]

step-opened :
    (y : System) (i : ℕ) (c : Choice) (j id : ℕ) (d : String)
    → IsSound y
    → opened_for ((step y i c).pc j) ≡ some (d, id)
    → ((step y i c).shared.heap id).device ≡ d
unfolding step
step-opened y i c j id d v h =
    let l = move-Labels c y.shared (y.pc i) in
    elim (Bool-cases (i == j)) [
      | inl same ↦ l.opened id d (ground (arith, h))
      | inr other ↦
          let mine : opened_for (y.pc j) ≡ some (d, id) = ground (arith, h) in
          l.devices id ((v.fits j).creates id (opened-created (y.pc j) d id mine)).0
          ∙ v.opened j id d mine
    ]

pub step-IsSound : (y : System) (i : ℕ) (c : Choice) → IsSound y → IsSound (step y i c)
unfolding step
step-IsSound y i c v =
    let k = move-Kept c y.shared (y.pc i) v.good (v.fits i) in
    let s = (move c y.shared (y.pc i)).0 in
    let p = (move c y.shared (y.pc i)).1 in
    record {
      good = k.good;
      fits = λ j.
          if_cases (Fits s) (i == j) p (y.pc j) (λ h. k.fits)
            (λ h. (k.others (y.pc j) (v.fits j) (v.apart i j (λ same. ground arith))).0);
      apart =
          stepped-Apart y.pc i p (λ j apart. (k.others (y.pc j) (v.fits j) (v.apart i j apart)).1)
            v.apart;
      homed = λ id d h. step-homed y i c id d v h;
      opened = λ j id d h. step-opened y i c j id d v h;
    }

pub run-IsSound : (cs : List (ℕ × Choice)) (y : System) → IsSound y → IsSound (run y cs)
unfolding run
run-IsSound [] y v = v
run-IsSound ((i, c) ∷ cs) y v = run-IsSound cs (step y i c) (step-IsSound y i c v)

pub initial-IsSound : (ttl : ℤ) → IsSound (initial ttl)
initial-IsSound ttl = record {
  good = new_pool-IsGood ttl;
  fits = λ i. idle-Fits (new_pool ttl);
  apart = λ i j different. idle-Apart;
  homed = λ id d h. cc h;
  opened = λ i id d h. cc h;
}

pub reached : (ttl : ℤ) (cs : List (ℕ × Choice)) → IsSound (run (initial ttl) cs)
reached ttl cs = run-IsSound cs (initial ttl) (initial-IsSound ttl)

-- Whatever the schedule, two different threads never have the permit of one connection, and so never
-- hold leases of it, at the same time.
pub run-exclusive :
    (ttl : ℤ) (cs : List (ℕ × Choice)) (i j id : ℕ)
    → ¬ (i ≡ j)
    → carried ((run (initial ttl) cs).pc i) ≡ some id
    → ¬ (carried ((run (initial ttl) cs).pc j) ≡ some id)
run-exclusive ttl cs i j id different = ((reached ttl cs).apart i j different).carried id

-- A connection that the map offers for the device: one opened for it, neither retired nor closed.
abbrev pub IsOffered : Shared → String → Option ℕ → Type 0
IsOffered s udid none = Unit
IsOffered s udid (some id) =
    ((s.heap id).device ≡ udid) × ((s.heap id).retired ≡ false) × ((s.heap id).closes ≡ 0)

offered :
    (s : Shared) (udid : String) (found : Option ℕ)
    → ((id : ℕ) (d : String) → (s.heap id).home ≡ some d → (s.heap id).device ≡ d)
    → IsGood s
    → lookup udid s.entries ≡ found
    → IsOffered s udid found
offered s udid none homed g h = tt
offered s udid (some id) homed g h =
    let (small, home, live) = g.mapped udid id h in
    (homed id udid home, live, ground (arith, g.counted id, g.last id))

-- Whatever the schedule, no connection is closed twice, and what the map holds for a device, if anything, is
-- a connection opened for that device, neither retired nor closed.
pub run-closed_once :
    (ttl : ℤ) (cs : List (ℕ × Choice)) (id : ℕ) (udid : String)
    → let s = (run (initial ttl) cs).shared in
      ((s.heap id).closes ≤ 1) × IsOffered s udid (lookup udid s.entries)
run-closed_once ttl cs id udid =
    let s = (run (initial ttl) cs).shared in
    let v = reached ttl cs in
    (v.good.bounded id, offered s udid (lookup udid s.entries) v.homed v.good refl)

-- What the invariants say of an entry when a lease of it starts.
abbrev pub IsStarted : Shared → String → ℕ → Type 0
IsStarted s udid id =
    ((s.heap id).home ≡ some udid)
    × ((s.heap id).retired ≡ false)
    × ((s.heap id).closes ≡ 0)
    × ((s.heap id).permit ≡ false)

granted-IsStarted :
    (c : Choice) (s : Shared) (udid : String) (id : ℕ)
    → IsGood s
    → Fits s (taken udid id)
    → (move c s (taken udid id)).1 ≡ leased udid id armed
    → IsStarted (move c s (taken udid id)).0 udid id
unfolding move set_busy
granted-IsStarted c s udid id g f = elim (Bool-cases (s.heap id).retired) [
  | inl e ↦ λ h. ground arith
  | inr e ↦ λ h. ground (arith, f.uses udid id refl, f.carries id refl, g.counted id, g.last id)
]

move-IsStarted :
    (c : Choice) (s : Shared) (p : Pc) (udid : String) (id : ℕ)
    → IsGood s
    → Fits s p
    → taken udid id ≡ p
    → (move c s p).1 ≡ leased udid id armed
    → IsStarted (move c s p).0 udid id
move-IsStarted c s p udid id g f e =
    subst (λ q. Fits s q → (move c s q).1 ≡ leased udid id armed → IsStarted (move c s q).0 udid id)
      e (granted-IsStarted c s udid id g) f

pub step-IsStarted :
    (y : System) (i : ℕ) (c : Choice) (udid : String) (id : ℕ)
    → IsSound y
    → y.pc i ≡ taken udid id
    → (step y i c).pc i ≡ leased udid id armed
    → IsStarted (step y i c).shared udid id
unfolding step
step-IsStarted y i c udid id v before after =
    move-IsStarted c y.shared (y.pc i) udid id v.good (v.fits i) (sym before) (ground arith)

-- A connection that was opened for the device, is neither retired nor closed, and whose permit is taken.
abbrev pub IsLeasable : Shared → String → ℕ → Type 0
IsLeasable s udid id =
    ((s.heap id).device ≡ udid)
    × ((s.heap id).retired ≡ false)
    × ((s.heap id).closes ≡ 0)
    × ((s.heap id).permit ≡ false)

-- After every schedule, a step that makes a thread's permit into a lease does so for the device that the
-- thread asked for in its last call, and for a connection that was opened for this device, and is neither
-- retired nor closed at that moment.
pub step-lease :
    (ttl : ℤ) (cs : List (ℕ × Choice)) (i : ℕ) (c : Choice) (udid : String) (id : ℕ)
    → (run (initial ttl) cs).pc i ≡ taken udid id
    → (step (run (initial ttl) cs) i c).pc i ≡ leased udid id armed
    → (asked_for ttl cs i ≡ some udid) × IsLeasable (step (run (initial ttl) cs) i c).shared udid id
step-lease ttl cs i c udid id before after =
    let y = run (initial ttl) cs in
    let v = step-IsSound y i c (reached ttl cs) in
    let (home, live, unclosed, permit) =
      step-IsStarted y i c udid id (reached ttl cs) before after in
    (
      asked-device cs (initial ttl) i none udid (λ d h. cc h) (ap device_of before),
      (v.homed id udid home, live, unclosed, permit),
    )
