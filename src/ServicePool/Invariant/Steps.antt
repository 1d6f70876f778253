-- ===== src/ServicePool/Invariant/Steps.antt =====
-- internal/goios/pool.go: one step of one thread, for the pool, for that thread and for any other.
use spyder.Prelude.{
  ℕ, ◌+◌, ◌%◌, ◌≡◌, ◌<◌, refl, sym, ◌∙◌, true, false, Option, none, some, List, [], ◌∷◌, String,
  string_eq, lookup, arith, word, if_cases,
}
use spyder.ServicePool.{Shared, is_listed}
use spyder.ServicePool.Threads.{
  armed, shutting, finished, Pc, idle, start, missing, building, built, lost, refused, waiting,
  taken, returning, leased, freeing, freed, closing, Choice, found_or_missing, move,
}
use spyder.ServicePool.Cells.{created, used, carried, to_close, is_shared, IsGood, Fits, idle-Fits}
use spyder.ServicePool.Keeps.{retiring, retiring-Fits}
use spyder.ServicePool.Invariant.{Kept, quiet, ends, close_conn-Kept}
use spyder.ServicePool.Invariant.Entries.{open_conn-Kept, offer-Kept}
use spyder.ServicePool.Invariant.Permits.{
  close_once-Kept, take-Kept, give-Kept, touch-Kept, number-Kept, grant-Kept,
}
use spyder.ServicePool.Invariant.Retires.{mark_retired-Kept, begin-Kept}

find-Kept :
    (s : Shared) (udid : String) (found : Option ℕ)
    → IsGood s
    → lookup udid s.entries ≡ found
    → Kept s (start udid) (s, found_or_missing udid found)
find-Kept s udid none g h =
    quiet s (start udid) (missing udid) g
      (record {
        creates = λ id h. cc h;
        uses = λ d id h. cc h;
        carries = λ id h. cc h;
        closes = λ id h. cc h;
      })
      (λ id h. cc h, λ id h. cc h)
find-Kept s udid (some k) g found =
    quiet s (start udid) (waiting udid k) g
      (record {
        creates = λ id h. cc h;
        uses = λ d id h. ground (arith, g.mapped udid k found);
        carries = λ id h. cc h;
        closes = λ id h. cc h;
      })
      (λ id h. cc h, λ id h. cc h)

-- A thread that goes on with the entry it has, or has no longer.
drops :
    (s : Shared) (p p' : Pc)
    → Fits s p
    → created p' ≡ created p
    → used p' ≡ none
    → carried p' ≡ carried p
    → to_close p' ≡ []
    → Fits s p'
drops s p p' f c1 c2 c3 c4 = record {
  creates = λ id h. f.creates id (sym c1 ∙ h);
  uses = λ d id h. cc (h, c2);
  carries = λ id h. f.carries id (sym c3 ∙ h);
  closes = λ id h. ground arith;
}

shutting-Fits :
    (s : Shared) (udid : String) (k : ℕ)
    → Fits s (leased udid k armed)
    → (listed : (id : ℕ)
        → is_listed id (k ∷ []) ≡ true
        → (id < s.size) × (is_shared (s.heap id) ≡ true))
      (entries : List (String × ℕ))
    → Fits (retiring s (k ∷ []) entries s.stopped listed) (leased udid k shutting)
shutting-Fits s udid k f listed entries =
    let r = retiring-Fits s (k ∷ []) entries s.stopped listed (leased udid k armed) f in
    record {
      creates = r.creates;
      uses = r.uses;
      carries = r.carries;
      closes = λ id h. ground (arith, listed id h);
    }

-- One step of one thread.
pub move-Kept : (c : Choice) (s : Shared) (p : Pc) → IsGood s → Fits s p → Kept s p (move c s p)
unfolding move
move-Kept c s idle g f = begin-Kept s c.call c.now g
move-Kept c s (start udid) g f =
    if_cases (Kept s (start udid)) c.cancelled _ _ (λ h. ends s (start udid) g)
      (λ h.
        if_cases (Kept s (start udid)) s.stopped _ _ (λ h. ends s (start udid) g)
          (λ h. find-Kept s udid (lookup udid s.entries) g refl))
move-Kept c s (missing udid) g f = number-Kept s udid ((s.next_generation + 1) % word) g
move-Kept c s (building udid n) g f =
    if_cases (Kept s (building udid n)) c.opened _ _ (λ h. open_conn-Kept s udid n c.now g)
      (λ h. ends s (building udid n) g)
move-Kept c s (built udid k) g f =
    let refuse =
      quiet s (built udid k) (refused k) g
        (drops s (built udid k) (refused k) f refl refl refl refl) (λ id h. h, λ id h. cc h) in
    if_cases (Kept s (built udid k)) c.cancelled _ _ (λ h. refuse)
      (λ h.
        if_cases (Kept s (built udid k)) s.stopped _ _ (λ h. refuse)
          (λ h. offer-Kept s udid k (lookup udid s.entries) refl g f h))
move-Kept c s (lost udid k e) g f =
    close_conn-Kept s (lost udid k e) (waiting udid e) k g f refl (λ id h. cc h, λ id h. cc h) refl
      refl (λ d id h. f.uses d id h) refl
move-Kept c s (refused k) g f =
    close_conn-Kept s (refused k) idle k g f refl (λ id h. cc h, λ id h. cc h) refl refl
      (λ d id h. cc h) refl
move-Kept c s (waiting udid k) g f =
    if_cases (Kept s (waiting udid k)) c.cancelled _ _ (λ h. ends s (waiting udid k) g)
      (λ h.
        if_cases (Kept s (waiting udid k)) (s.heap k).permit _ _ (λ h. take-Kept s udid k g f h)
          (λ h. quiet s (waiting udid k) (waiting udid k) g f (λ id h. h, λ id h. h)))
move-Kept c s (taken udid k) g f =
    if_cases (Kept s (taken udid k)) (s.heap k).retired _ _
      (λ h.
        quiet s (taken udid k) (returning udid k) g
          (record { creates = f.creates; uses = f.uses; carries = f.carries; closes = f.closes })
          (λ id h. h, λ id h. h))
      (λ h. grant-Kept s udid k c.now g f)
move-Kept c s (returning udid k) g f =
    give-Kept s (returning udid k) (start udid) k g refl
      (drops s idle (start udid) (idle-Fits s) refl refl refl refl) refl refl
move-Kept c s (leased udid k armed) g f =
    if_cases (Kept s (leased udid k armed)) c.cancelled _ _
      (λ h.
        mark_retired-Kept s (leased udid k armed) (leased udid k shutting) udid k g
          (f.uses udid k refl) (shutting-Fits s udid k f) (λ id h. h, λ id h. h))
      (λ h.
        quiet s (leased udid k armed) (freeing k) g
          (drops s (leased udid k armed) (freeing k) f refl refl refl refl) (λ id h. h, λ id h. h))
move-Kept c s (leased udid k shutting) g f =
    close_once-Kept s (leased udid k shutting) (leased udid k finished) k g f
      (record { creates = f.creates; uses = f.uses; carries = f.carries; closes = λ id h. cc h })
      (ground arith) refl (λ id h. h, λ id h. h)
move-Kept c s (leased udid k finished) g f =
    quiet s (leased udid k finished) (freeing k) g
      (drops s (leased udid k finished) (freeing k) f refl refl refl refl) (λ id h. h, λ id h. h)
move-Kept c s (freeing k) g f =
    touch-Kept s (freeing k) (freed k) k false c.now g
      (drops s (freeing k) (freed k) f refl refl refl refl) (λ id h. h, λ id h. h)
move-Kept c s (freed k) g f = give-Kept s (freed k) idle k g refl (idle-Fits s) refl refl
move-Kept c s (closing []) g f = ends s (closing []) g
move-Kept c s (closing (k ∷ ks)) g f =
    close_once-Kept s (closing (k ∷ ks)) (closing ks) k g f
      (record {
        creates = λ id h. cc h;
        uses = λ d id h. cc h;
        carries = λ id h. cc h;
        closes = λ id h. f.closes id (ground arith);
      })
      (ground arith) refl (λ id h. cc h, λ id h. cc h)
