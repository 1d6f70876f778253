-- ===== src/ServicePool/Labels.antt =====
-- internal/goios/pool.go: which device a connection was opened for, and which one a thread has asked for.
use spyder.Prelude.{
  ℕ, ◌≡◌, ◌<◌, ◌⊎◌, refl, false, Option, none, some, List, [], ◌∷◌, String, string_eq, lookup,
  arith, ◌==◌, if_cases, inl, inr, if◌then◌else◌, get_elem?, ℤ, Bool-cases,
}
use spyder.ServicePool.{
  Shared, open_conn, close_conn, close_once, install, mark_retired, stop_all, sweep_out, set_permit,
  set_busy, values, stale_ids,
}
use spyder.ServicePool.Threads.{
  armed, shutting, finished, Pc, idle, start, missing, building, built, lost, refused, waiting,
  taken, returning, leased, freeing, freed, closing, Call, acquires, invalidates, retires,
  closes_pool, sweeps, Choice, begin, retire_found, invalidate_found, found_or_missing, offer, move,
  System, step, run, initial, granted,
}

-- The connection that a thread has opened and not offered yet, and the device it will offer it for.
abbrev pub opened_for : Pc → Option (String × ℕ)
opened_for (built udid id) = some (udid, id)
opened_for _ = none

-- The device that the thread acquires.
abbrev pub device_of : Pc → Option String
device_of (start udid) = some udid
device_of (missing udid) = some udid
device_of (building udid generation) = some udid
device_of (built udid id) = some udid
device_of (lost udid id e) = some udid
device_of (waiting udid id) = some udid
device_of (taken udid id) = some udid
device_of (returning udid id) = some udid
device_of (leased udid id cb) = some udid
device_of _ = none

abbrev pub requested : Call → Option String
requested (acquires udid) = some udid
requested _ = none

-- The device that the thread asked for in its last call, after a step at `p`.
abbrev pub asked_next : Pc → Call → Option String → Option String
asked_next idle c o = requested c
asked_next _ c o = o

-- A step changes no connection's device, and puts under a key only what stood there, or what the thread
-- had opened.
pub record Labels (call : Call) (s : Shared) (p : Pc) (r : Shared × Pc) : Type 0 where
  pub devices : (id : ℕ) → id < s.size → (r.0.heap id).device ≡ (s.heap id).device
  pub homes :
      (id : ℕ) (d : String)
      → (r.0.heap id).home ≡ some d
      → ((r.0.heap id).device ≡ (s.heap id).device)
        × (((s.heap id).home ≡ some d) ⊎ (opened_for p ≡ some (d, id)))
  pub opened : (id : ℕ) (d : String) → opened_for r.1 ≡ some (d, id) → (r.0.heap id).device ≡ d
  pub asked :
      (d : String) (o : Option String)
      → device_of r.1 ≡ some d
      → (device_of p ≡ some d → o ≡ some d)
      → asked_next p call o ≡ some d

-- A step of a thread that acquires, releases or closes, and offers nothing.
module _ (call : Call) (s t : Shared) (p p' : Pc)
    (kept : (id : ℕ)
      → ((t.heap id).device ≡ (s.heap id).device) × ((t.heap id).home ≡ (s.heap id).home))
    (nothing : opened_for p' ≡ none)
    (asked : (d : String) (o : Option String)
      → device_of p' ≡ some d
      → (device_of p ≡ some d → o ≡ some d)
      → asked_next p call o ≡ some d) where
  changes : Labels call s p (t, p')
  changes = record {
    devices = λ id h. (kept id).0;
    homes = λ id d h. ((kept id).0, inl (cc (h, (kept id).1)));
    opened = λ id d h. cc (h, nothing);
    asked = asked;
  }

-- The pool is left alone.
stays :
    (call : Call) (s : Shared) (p p' : Pc)
    → opened_for p' ≡ none
    → ((d : String) (o : Option String)
        → device_of p' ≡ some d
        → (device_of p ≡ some d → o ≡ some d)
        → asked_next p call o ≡ some d)
    → Labels call s p (s, p')
stays call s p p' nothing asked = changes call s s p p' (λ id. (refl, refl)) nothing asked

found-Labels :
    (call : Call) (s : Shared) (udid : String) (found : Option ℕ)
    → Labels call s (start udid) (s, found_or_missing udid found)
found-Labels call s udid none = stays call s _ (missing udid) refl (λ d o h before. before h)
found-Labels call s udid (some k) = stays call s _ (waiting udid k) refl (λ d o h before. before h)

offer-Labels :
    (call : Call) (s : Shared) (udid : String) (k : ℕ) (found : Option ℕ)
    → Labels call s (built udid k) (offer s udid k found)
unfolding install
offer-Labels call s udid k none = record {
  devices = λ id h. ground arith;
  homes = λ id d h. (ground arith, offered id d h);
  opened = λ id d h. cc h;
  asked = λ d o h before. before h;
}
  where
    offered :
        (id : ℕ) (d : String)
        → ((install s udid k).heap id).home ≡ some d
        → ((s.heap id).home ≡ some d) ⊎ (opened_for (built udid k) ≡ some (d, id))
    offered id d h = ground (arith, h)
offer-Labels call s udid k (some e) = stays call s _ (lost udid k e) refl (λ d o h before. before h)

open_conn-Labels :
    (call : Call) (s : Shared) (udid : String) (n now : ℕ)
    → Labels call s (building udid n) (open_conn s udid n now, built udid s.size)
unfolding open_conn
open_conn-Labels call s udid n now = record {
  devices = λ id h. ground arith;
  homes = λ id d h. ground arith;
  opened = λ id d h. ground arith;
  asked = λ d o h before. before h;
}

retire_found-Labels :
    (s : Shared) (n : ℕ) (found : Option (String × ℕ))
    → Labels (retires n) s idle (retire_found s found)
unfolding mark_retired
retire_found-Labels s n none = stays (retires n) s idle idle refl (λ d o h before. cc h)
retire_found-Labels s n (some (udid, k)) =
    changes (retires n) s _ idle (closing (k ∷ [])) (λ id. (ground arith, ground arith)) refl
      (λ d o h before. cc h)

invalidate_found-Labels :
    (s : Shared) (udid : String) (found : Option ℕ)
    → Labels (invalidates udid) s idle (invalidate_found s udid found)
unfolding mark_retired
invalidate_found-Labels s udid none =
    stays (invalidates udid) s idle idle refl (λ d o h before. cc h)
invalidate_found-Labels s udid (some k) =
    changes (invalidates udid) s _ idle (closing (k ∷ [])) (λ id. (ground arith, ground arith)) refl
      (λ d o h before. cc h)

begin-Labels : (s : Shared) (call : Call) (now : ℕ) → Labels call s idle (begin s call now)
unfolding begin stop_all sweep_out
begin-Labels s (acquires udid) now = stays _ s idle (start udid) refl (λ d o h before. h)
begin-Labels s (invalidates udid) now = invalidate_found-Labels s udid (lookup udid s.entries)
begin-Labels s (retires n) now = retire_found-Labels s n (get_elem? s.leases n)
begin-Labels s closes_pool now =
    if_cases (Labels closes_pool s idle) s.stopped _ _
      (λ h. stays closes_pool s idle idle refl (λ d o h before. cc h))
      (λ h.
        changes closes_pool s (stop_all s) idle (closing (values s.entries))
          (λ id. (ground arith, ground arith)) refl (λ d o h before. cc h))
begin-Labels s sweeps now =
    if_cases (Labels sweeps s idle) s.stopped _ _
      (λ h. stays sweeps s idle idle refl (λ d o h before. cc h))
      (λ h.
        changes sweeps s (sweep_out s now) idle (closing (stale_ids s now s.entries))
          (λ id. (ground arith, ground arith)) refl (λ d o h before. cc h))

-- A step of a thread that acquires or releases leaves the labels of all connections.
pub move-Labels : (c : Choice) (s : Shared) (p : Pc) → Labels c.call s p (move c s p)
unfolding move close_conn close_once mark_retired set_permit set_busy
move-Labels c s idle = begin-Labels s c.call c.now
move-Labels c s (start udid) =
    if_cases (Labels c.call s (start udid)) c.cancelled _ _
      (λ h. stays c.call s _ idle refl (λ d o h before. cc h))
      (λ h.
        if_cases (Labels c.call s (start udid)) s.stopped _ _
          (λ h. stays c.call s _ idle refl (λ d o h before. cc h))
          (λ h. found-Labels c.call s udid (lookup udid s.entries)))
move-Labels c s (missing udid) =
    changes c.call s _ (missing udid) (building udid _) (λ id. (refl, refl)) refl
      (λ d o h before. before h)
move-Labels c s (building udid n) =
    if_cases (Labels c.call s (building udid n)) c.opened _ _
      (λ h. open_conn-Labels c.call s udid n c.now)
      (λ h. stays c.call s _ idle refl (λ d o h before. cc h))
move-Labels c s (built udid k) =
    if_cases (Labels c.call s (built udid k)) c.cancelled _ _
      (λ h. stays c.call s _ (refused k) refl (λ d o h before. cc h))
      (λ h.
        if_cases (Labels c.call s (built udid k)) s.stopped _ _
          (λ h. stays c.call s _ (refused k) refl (λ d o h before. cc h))
          (λ h. offer-Labels c.call s udid k (lookup udid s.entries)))
move-Labels c s (lost udid k e) =
    changes c.call s _ (lost udid k e) (waiting udid e) (λ id. (ground arith, ground arith)) refl
      (λ d o h before. before h)
move-Labels c s (refused k) =
    changes c.call s _ (refused k) idle (λ id. (ground arith, ground arith)) refl
      (λ d o h before. cc h)
move-Labels c s (waiting udid k) =
    if_cases (Labels c.call s (waiting udid k)) c.cancelled _ _
      (λ h. stays c.call s _ idle refl (λ d o h before. cc h))
      (λ h.
        if_cases (Labels c.call s (waiting udid k)) (s.heap k).permit _ _
          (λ h.
            changes c.call s (set_permit s k false) (waiting udid k) (taken udid k)
              (λ id. (ground arith, ground arith)) refl (λ d o h before. before h))
          (λ h. stays c.call s _ (waiting udid k) refl (λ d o h before. before h)))
move-Labels c s (taken udid k) =
    if_cases (Labels c.call s (taken udid k)) (s.heap k).retired _ _
      (λ h. stays c.call s _ (returning udid k) refl (λ d o h before. before h))
      (λ h.
        changes c.call s (granted s udid k c.now) (taken udid k) (leased udid k armed)
          (λ id. (ground arith, ground arith)) refl (λ d o h before. before h))
move-Labels c s (returning udid k) =
    changes c.call s _ (returning udid k) (start udid) (λ id. (ground arith, ground arith)) refl
      (λ d o h before. before h)
move-Labels c s (leased udid k armed) =
    if_cases (Labels c.call s (leased udid k armed)) c.cancelled _ _
      (λ h.
        changes c.call s (mark_retired s udid k) (leased udid k armed) (leased udid k shutting)
          (λ id. (ground arith, ground arith)) refl (λ d o h before. before h))
      (λ h. stays c.call s _ (freeing k) refl (λ d o h before. cc h))
move-Labels c s (leased udid k shutting) =
    changes c.call s (close_once s k) (leased udid k shutting) (leased udid k finished)
      (λ id. (ground arith, ground arith)) refl (λ d o h before. before h)
move-Labels c s (leased udid k finished) = stays c.call s _ (freeing k) refl (λ d o h before. cc h)
move-Labels c s (freeing k) =
    changes c.call s _ (freeing k) (freed k) (λ id. (ground arith, ground arith)) refl
      (λ d o h before. cc h)
move-Labels c s (freed k) =
    changes c.call s _ (freed k) idle (λ id. (ground arith, ground arith)) refl
      (λ d o h before. cc h)
move-Labels c s (closing []) = stays c.call s _ idle refl (λ d o h before. cc h)
move-Labels c s (closing (k ∷ ks)) =
    changes c.call s (close_once s k) (closing (k ∷ ks)) (closing ks)
      (λ id. (ground arith, ground arith)) refl (λ d o h before. cc h)

-- The device that thread `j` asked for in its last call; `o` is what it had asked for before the schedule.
unfoldable pub asked : System → List (ℕ × Choice) → ℕ → Option String → Option String
unfolding step
asked y [] j o = o
asked y ((i, c) ∷ cs) j o =
    asked (step y i c) cs j (if i == j then asked_next (y.pc i) c.call o else o)

abbrev pub asked_for : ℤ → List (ℕ × Choice) → ℕ → Option String
asked_for ttl cs j = asked (initial ttl) cs j none

next-asked :
    (y : System) (i j : ℕ) (c : Choice) (o : Option String) (d : String)
    → ((d : String) → device_of (y.pc j) ≡ some d → o ≡ some d)
    → device_of ((step y i c).pc j) ≡ some d
    → (if i == j then asked_next (y.pc i) c.call o else o) ≡ some d
unfolding step
next-asked y i j c o d before = elim (Bool-cases (i == j)) [
  | inl same ↦ λ h.
      let e : i ≡ j = ground arith in
      let l = (move-Labels c y.shared (y.pc i)).asked d o in
      rw (same) (l (ground (arith, h)) (λ k. before d (cc (e, k))))
  | inr other ↦ λ h. ground (arith, before d, h)
]

-- A thread acquires the device that it asked for.
pub asked-device :
    (cs : List (ℕ × Choice)) (y : System) (j : ℕ) (o : Option String) (d : String)
    → ((d : String) → device_of (y.pc j) ≡ some d → o ≡ some d)
    → device_of ((run y cs).pc j) ≡ some d
    → asked y cs j o ≡ some d
unfolding asked run
asked-device [] y j o d before h = before d h
asked-device ((i, c) ∷ cs) y j o d before h =
    asked-device cs (step y i c) j _ d (λ d' h'. next-asked y i j c o d' before h') h
