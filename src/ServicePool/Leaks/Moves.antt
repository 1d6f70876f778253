-- ===== src/ServicePool/Leaks/Moves.antt =====
-- internal/goios/pool.go: one step of one thread loses no connection.
use spyder.Prelude.{
  ℕ, ◌≡◌, refl, true, false, Option, none, some, [], ◌∷◌, String, string_eq, lookup, arith,
  get_elem?, if_cases,
}
use spyder.ServicePool.{Shared}
use spyder.ServicePool.Threads.{
  armed, shutting, finished, Pc, idle, start, missing, building, built, lost, refused, waiting,
  taken, returning, leased, freeing, freed, closing, Call, acquires, invalidates, retires,
  closes_pool, sweeps, Choice, retire_found, invalidate_found, begin, found_or_missing, offer, move,
}
use spyder.ServicePool.Cells.{IsGood, Fits}
use spyder.ServicePool.Leaks.{
  Accounts, same_pool, close_conn-Accounts, close_once-Accounts, set_permit-Accounts,
  set_busy-Accounts, open_conn-Accounts, install-Accounts, mark_retired-Accounts, stop_all-Accounts,
  sweep_out-Accounts,
}

invalidate-Accounts :
    (s : Shared) (udid : String) (found : Option ℕ)
    → Accounts s idle (invalidate_found s udid found)
invalidate-Accounts s udid none = same_pool s idle idle (λ id h. h)
invalidate-Accounts s udid (some k) =
    mark_retired-Accounts s idle (closing (k ∷ [])) udid k (ground arith) (λ id h. ground arith)

retire-Accounts :
    (s : Shared) (found : Option (String × ℕ)) → Accounts s idle (retire_found s found)
retire-Accounts s none = same_pool s idle idle (λ id h. h)
retire-Accounts s (some (udid, k)) =
    mark_retired-Accounts s idle (closing (k ∷ [])) udid k (ground arith) (λ id h. ground arith)

begin-Accounts : (s : Shared) (c : Call) (now : ℕ) → IsGood s → Accounts s idle (begin s c now)
unfolding begin
begin-Accounts s (acquires udid) now g = same_pool s idle (start udid) (λ id h. h)
begin-Accounts s (invalidates udid) now g = invalidate-Accounts s udid (lookup udid s.entries)
begin-Accounts s (retires n) now g = retire-Accounts s (get_elem? s.leases n)
begin-Accounts s closes_pool now g =
    if_cases (Accounts s idle) s.stopped _ _ (λ h. same_pool s idle idle (λ id k. k))
      (λ h. stop_all-Accounts s)
begin-Accounts s sweeps now g =
    if_cases (Accounts s idle) s.stopped _ _ (λ h. same_pool s idle idle (λ id k. k))
      (λ h. sweep_out-Accounts s now g)

find-Accounts :
    (s : Shared) (udid : String) (found : Option ℕ)
    → Accounts s (start udid) (s, found_or_missing udid found)
find-Accounts s udid none = same_pool s (start udid) (missing udid) (λ id h. h)
find-Accounts s udid (some k) = same_pool s (start udid) (waiting udid k) (λ id h. h)

offer-Accounts :
    (s : Shared) (udid : String) (k : ℕ) (found : Option ℕ)
    → lookup udid s.entries ≡ found
    → Fits s (built udid k)
    → Accounts s (built udid k) (offer s udid k found)
offer-Accounts s udid k none l f = install-Accounts s udid k f l
offer-Accounts s udid k (some e) l f = same_pool s (built udid k) (lost udid k e) (λ id h. h)

pub move-Accounts :
    (c : Choice) (s : Shared) (p : Pc) → IsGood s → Fits s p → Accounts s p (move c s p)
unfolding move
move-Accounts c s idle g f = begin-Accounts s c.call c.now g
move-Accounts c s (start udid) g f =
    if_cases (Accounts s (start udid)) c.cancelled _ _
      (λ h. same_pool s (start udid) idle (λ id k. k))
      (λ h.
        if_cases (Accounts s (start udid)) s.stopped _ _
          (λ h. same_pool s (start udid) idle (λ id k. k))
          (λ h. find-Accounts s udid (lookup udid s.entries)))
move-Accounts c s (missing udid) g f = λ id small before. before small
move-Accounts c s (building udid n) g f =
    if_cases (Accounts s (building udid n)) c.opened _ _ (λ h. open_conn-Accounts s udid n c.now)
      (λ h. same_pool s (building udid n) idle (λ id k. k))
move-Accounts c s (built udid k) g f =
    let refuse = same_pool s (built udid k) (refused k) (λ id h. h) in
    if_cases (Accounts s (built udid k)) c.cancelled _ _ (λ h. refuse)
      (λ h.
        if_cases (Accounts s (built udid k)) s.stopped _ _ (λ h. refuse)
          (λ h. offer-Accounts s udid k (lookup udid s.entries) refl f))
move-Accounts c s (lost udid k e) g f =
    close_conn-Accounts s (lost udid k e) (waiting udid e) k f refl refl
move-Accounts c s (refused k) g f = close_conn-Accounts s (refused k) idle k f refl refl
move-Accounts c s (waiting udid k) g f =
    if_cases (Accounts s (waiting udid k)) c.cancelled _ _
      (λ h. same_pool s (waiting udid k) idle (λ id j. j))
      (λ h.
        if_cases (Accounts s (waiting udid k)) (s.heap k).permit _ _
          (λ h. set_permit-Accounts s (waiting udid k) (taken udid k) k false (λ id j. j))
          (λ h. same_pool s (waiting udid k) (waiting udid k) (λ id j. j)))
move-Accounts c s (taken udid k) g f =
    if_cases (Accounts s (taken udid k)) (s.heap k).retired _ _
      (λ h. same_pool s (taken udid k) (returning udid k) (λ id j. j))
      (λ h. set_busy-Accounts s (taken udid k) (leased udid k armed) k true c.now (λ id j. j))
move-Accounts c s (returning udid k) g f =
    set_permit-Accounts s (returning udid k) (start udid) k true (λ id j. j)
move-Accounts c s (leased udid k armed) g f =
    if_cases (Accounts s (leased udid k armed)) c.cancelled _ _
      (λ h.
        mark_retired-Accounts s (leased udid k armed) (leased udid k shutting) udid k (ground arith)
          (λ id j. ground arith))
      (λ h. same_pool s (leased udid k armed) (freeing k) (λ id j. j))
move-Accounts c s (leased udid k shutting) g f =
    close_once-Accounts s (leased udid k shutting) (leased udid k finished) k g f (ground arith)
      (λ id h other. ground arith)
move-Accounts c s (leased udid k finished) g f =
    same_pool s (leased udid k finished) (freeing k) (λ id j. j)
move-Accounts c s (freeing k) g f =
    set_busy-Accounts s (freeing k) (freed k) k false c.now (λ id j. j)
move-Accounts c s (freed k) g f = set_permit-Accounts s (freed k) idle k true (λ id j. j)
move-Accounts c s (closing []) g f = same_pool s (closing []) idle (λ id j. j)
move-Accounts c s (closing (k ∷ ks)) g f =
    close_once-Accounts s (closing (k ∷ ks)) (closing ks) k g f (ground arith)
      (λ id h other. ground arith)
