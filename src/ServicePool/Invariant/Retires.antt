-- ===== src/ServicePool/Invariant/Retires.antt =====
-- internal/goios/pool.go: steps that retire entries, and the first step of each call.
use spyder.Prelude.{
  ℕ, ◌≡◌, ◌<◌, refl, sym, ◌∙◌, Bool, true, false, not, Option, none, some, List, [], ◌∷◌, String,
  string_eq, lookup, erase, lookup-erase, beq_self, if◌then◌else◌, get_elem?, arith, ◌==◌, inl, inr,
  ◌&&◌, Bool-cases, if_cases,
}
use spyder.Prelude.Map.Unique.{Unique, erase-Unique, keep, lookup-keep, keep-Unique, passing}
use spyder.ServicePool.{
  Shared, is_listed, is_at, mark_retired, values, stop_all, is_stale, stale_ids, sweep_out,
}
use spyder.ServicePool.Threads.{
  Pc, idle, start, closing, Call, acquires, invalidates, retires, closes_pool, sweeps, retire_found,
  invalidate_found, begin,
}
use spyder.ServicePool.Cells.{is_shared, IsGood, Fits}
use spyder.ServicePool.Keeps.{retiring, retiring-IsGood, retiring-Fits}
use spyder.ServicePool.Invariant.{Kept, Less, Less-Apart, quiet, ends}

-- Every value of a map stands under some key.
values-lookup :
    (m : List (String × ℕ)) (id : ℕ)
    → Unique m
    → is_listed id (values m) ≡ true
    → (udid : String) × (lookup udid m ≡ some id)
unfolding lookup
values-lookup [] id u h = ground arith
values-lookup ((d, j) ∷ m) id u h = elim (Bool-cases (j == id)) [
  | inl e ↦ (d, ground (arith, beq_self d))
  | inr e ↦
      let (k, found) = values-lookup m id u.1 (ground arith) in
      (k, ground (arith, string_eq.beq_iff d k))
]

pub values-lookup_all :
    (m : List (String × ℕ)) (udid : String) (id : ℕ)
    → lookup udid m ≡ some id
    → is_listed id (values m) ≡ true
unfolding lookup
values-lookup_all [] udid id h = ground arith
values-lookup_all ((d, j) ∷ m) udid id h = ground (arith, values-lookup_all m udid id)

-- The entries that a sweep takes are the stale ones of the map.
pub stale-values :
    (s : Shared) (now : ℕ) (m : List (String × ℕ)) (id : ℕ)
    → is_listed id (stale_ids s now m) ≡ (is_listed id (values m) && is_stale s now id)
unfolding stale_ids
stale-values s now [] id = refl
stale-values s now ((d, j) ∷ m) id = ground (arith, stale-values s now m id)

-- What the map and the leases name.
mapped_shared :
    (s : Shared) (id : ℕ)
    → IsGood s
    → is_listed id (values s.entries) ≡ true
    → (id < s.size) × (is_shared (s.heap id) ≡ true)
mapped_shared s id g h =
    let (udid, found) = values-lookup s.entries id g.unique h in
    ground (arith, g.mapped udid id found)

-- Retirement leaves a thread apart from the others when it now has no more than before.
retiring-Kept :
    (s : Shared) (p p' : Pc) (ids : List ℕ) (entries : List (String × ℕ)) (stopped : Bool)
    (listed : (id : ℕ) → is_listed id ids ≡ true → (id < s.size) × (is_shared (s.heap id) ≡ true))
    → IsGood (retiring s ids entries stopped listed)
    → Fits (retiring s ids entries stopped listed) p'
    → Less p p'
    → Kept s p (retiring s ids entries stopped listed, p')
retiring-Kept s p p' ids entries stopped listed good fits l = record {
  good = good;
  fits = fits;
  others = λ q f a. (retiring-Fits s ids entries stopped listed q f, Less-Apart p p' q l a);
}

-- A thread that is to close what it has just retired.
closing-Fits :
    (s : Shared) (ids : List ℕ) (entries : List (String × ℕ)) (stopped : Bool)
    (listed : (id : ℕ) → is_listed id ids ≡ true → (id < s.size) × (is_shared (s.heap id) ≡ true))
    → Fits (retiring s ids entries stopped listed) (closing ids)
closing-Fits s ids entries stopped listed = record {
  creates = λ id h. cc h;
  uses = λ d id h. cc h;
  carries = λ id h. cc h;
  closes = λ id h. ground (arith, listed id h);
}

-- What stands in the map after an entry has been retired.
spared :
    (s : Shared) (udid d : String) (k id : ℕ)
    → IsGood s
    → (s.heap k).home ≡ some udid
    → lookup d (if is_at (lookup udid s.entries) k then erase udid s.entries else s.entries)
      ≡ some id
    → (lookup d s.entries ≡ some id) × (is_listed id (k ∷ []) ≡ false)
spared s udid d k id g home h = elim (Bool-cases (is_at (lookup udid s.entries) k)) [
  | inl e ↦ ground (arith, lookup-erase udid d s.entries, g.mapped d id, string_eq.beq_iff udid d)
  | inr e ↦ ground (arith, g.mapped d id)
]

erased-Unique :
    (b : Bool) (udid : String) (m : List (String × ℕ))
    → Unique m
    → Unique (if b then erase udid m else m)
erased-Unique true udid m u = erase-Unique udid m u
erased-Unique false udid m u = u

erased_empty :
    (b : Bool) (udid : String) (m : List (String × ℕ))
    → m ≡ []
    → (if b then erase udid m else m) ≡ []
unfolding erase
erased_empty true udid m h = cc h
erased_empty false udid m h = h

-- What stands in the map after a sweep.
passes :
    (p : ℕ → Bool) (o : Option ℕ) (id : ℕ) → passing p o ≡ some id → (o ≡ some id) × (p id ≡ true)
passes p none id h = ground arith
passes p (some j) id h = ground arith

unspoiled :
    (s : Shared) (now : ℕ) (d : String) (id : ℕ)
    → IsGood s
    → lookup d (keep (λ j. not (is_stale s now j)) s.entries) ≡ some id
    → (lookup d s.entries ≡ some id) × (is_listed id (stale_ids s now s.entries) ≡ false)
unspoiled s now d id g h =
    let (found, fresh) =
      passes (λ j. not (is_stale s now j)) (lookup d s.entries) id
        (sym (lookup-keep (λ j. not (is_stale s now j)) d s.entries g.unique) ∙ h) in
    (found, ground (arith, stale-values s now s.entries id))

-- `retire`.
pub mark_retired-Kept :
    (s : Shared) (p p' : Pc) (udid : String) (k : ℕ)
    → IsGood s
    → (k < s.size) × ((s.heap k).home ≡ some udid)
    → ((listed : (id : ℕ)
            → is_listed id (k ∷ []) ≡ true
            → (id < s.size) × (is_shared (s.heap id) ≡ true))
          (entries : List (String × ℕ))
        → Fits (retiring s (k ∷ []) entries s.stopped listed) p')
    → Less p p'
    → Kept s p (mark_retired s udid k, p')
unfolding mark_retired
mark_retired-Kept s p p' udid k g known fits l =
    let entries = if is_at (lookup udid s.entries) k then erase udid s.entries else s.entries in
    let listed : (id : ℕ)
        → is_listed id (k ∷ []) ≡ true
        → (id < s.size) × (is_shared (s.heap id) ≡ true) =
      λ id h. ground (arith, known) in
    retiring-Kept s p p' (k ∷ []) entries s.stopped listed
      (retiring-IsGood s (k ∷ []) entries s.stopped listed g
        (erased-Unique (is_at (lookup udid s.entries) k) udid s.entries g.unique)
        (λ d id h. spared s udid d k id g known.1 h)
        (λ h. erased_empty (is_at (lookup udid s.entries) k) udid s.entries (g.halted h)))
      (fits listed entries) l

-- `Close`.
pub stop_all-Kept : (s : Shared) → IsGood s → Kept s idle (stop_all s, closing (values s.entries))
unfolding stop_all lookup
stop_all-Kept s g =
    let listed : (id : ℕ)
        → is_listed id (values s.entries) ≡ true
        → (id < s.size) × (is_shared (s.heap id) ≡ true) =
      λ id h. mapped_shared s id g h in
    retiring-Kept s idle (closing (values s.entries)) (values s.entries) [] true listed
      (retiring-IsGood s (values s.entries) [] true listed g tt (λ d id h. cc h) (λ h. refl))
      (closing-Fits s (values s.entries) [] true listed) (λ id h. h, λ id h. h)

-- A sweep.
pub sweep_out-Kept :
    (s : Shared) (now : ℕ)
    → IsGood s
    → s.stopped ≡ false
    → Kept s idle (sweep_out s now, closing (stale_ids s now s.entries))
unfolding sweep_out
sweep_out-Kept s now g running =
    let ids = stale_ids s now s.entries in
    let fresh = keep (λ id. not (is_stale s now id)) s.entries in
    let listed : (id : ℕ)
        → is_listed id ids ≡ true
        → (id < s.size) × (is_shared (s.heap id) ≡ true) =
      λ id h. ground (arith, mapped_shared s id g, stale-values s now s.entries id) in
    retiring-Kept s idle (closing ids) ids fresh s.stopped listed
      (retiring-IsGood s ids fresh s.stopped listed g (keep-Unique _ s.entries g.unique)
        (λ d id h. unspoiled s now d id g h) (λ h. cc (h, running)))
      (closing-Fits s ids fresh s.stopped listed) (λ id h. h, λ id h. h)

retires-Kept :
    (s : Shared) (udid : String) (k : ℕ)
    → IsGood s
    → (k < s.size) × ((s.heap k).home ≡ some udid)
    → Kept s idle (mark_retired s udid k, closing (k ∷ []))
retires-Kept s udid k g known =
    mark_retired-Kept s idle (closing (k ∷ [])) udid k g known
      (λ listed entries. closing-Fits s (k ∷ []) entries s.stopped listed)
      (λ id h. cc h, λ id h. cc h)

invalidate-Kept :
    (s : Shared) (udid : String) (found : Option ℕ)
    → IsGood s
    → lookup udid s.entries ≡ found
    → Kept s idle (invalidate_found s udid found)
invalidate-Kept s udid none g h = ends s idle g
invalidate-Kept s udid (some k) g h =
    let (small, home, live) = g.mapped udid k h in retires-Kept s udid k g (small, home)

retire-Kept :
    (s : Shared) (n : ℕ) (found : Option (String × ℕ))
    → IsGood s
    → get_elem? s.leases n ≡ found
    → Kept s idle (retire_found s found)
retire-Kept s n none g h = ends s idle g
retire-Kept s n (some (udid, k)) g h = retires-Kept s udid k g (g.lent n udid k h)

-- The first step of a call.
pub begin-Kept : (s : Shared) (c : Call) (now : ℕ) → IsGood s → Kept s idle (begin s c now)
unfolding begin
begin-Kept s (acquires udid) now g =
    quiet s idle (start udid) g
      (record {
        creates = λ id h. cc h;
        uses = λ d id h. cc h;
        carries = λ id h. cc h;
        closes = λ id h. cc h;
      })
      (λ id h. cc h, λ id h. cc h)
begin-Kept s (invalidates udid) now g = invalidate-Kept s udid (lookup udid s.entries) g refl
begin-Kept s (retires n) now g = retire-Kept s n (get_elem? s.leases n) g refl
begin-Kept s closes_pool now g =
    if_cases (Kept s idle) s.stopped _ _ (λ h. ends s idle g) (λ h. stop_all-Kept s g)
begin-Kept s sweeps now g =
    if_cases (Kept s idle) s.stopped _ _ (λ h. ends s idle g) (λ h. sweep_out-Kept s now g h)
