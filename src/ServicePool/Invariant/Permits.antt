-- ===== src/ServicePool/Invariant/Permits.antt =====
-- internal/goios/pool.go: steps that close an entry, or take, lease or return its permit.
use spyder.Prelude.{
  ℕ, zero, suc, ◌≡◌, ◌<◌, refl, Bool, true, false, none, some, List, ◌∷◌, String, string_eq,
  get_elem?, arith, if_cases,
}
use spyder.ServicePool.{Shared, is_listed, close_once, set_permit, set_busy}
use spyder.ServicePool.Threads.{armed, Pc, missing, building, waiting, taken, leased, granted}
use spyder.ServicePool.Cells.{created, carried, to_close, IsGood, Fits}
use spyder.ServicePool.Keeps.{cell-Fits}
use spyder.ServicePool.Invariant.{Kept, Less, Less-Apart, quiet, cell-Kept}

-- `closeOnce` on an entry that the thread has retired.
pub close_once-Kept :
    (s : Shared) (p p' : Pc) (k : ℕ)
    → IsGood s
    → Fits s p
    → Fits s p'
    → is_listed k (to_close p) ≡ true
    → created p' ≡ none
    → Less p p'
    → Kept s p (close_once s k, p')
unfolding close_once
close_once-Kept s p p' k g f fp mine own l =
    let (small, shared, retired) = f.closes k mine in
    if_cases (λ x. Kept s p (x, p')) (s.heap k).once _ _ (λ done. quiet s p p' g fp l)
      (λ live.
        cell-Kept s p p' k _ g refl refl (λ h. ground (arith, g.counted k)) (λ h o. retired)
          (ground (arith, g.counted k))
          (cell-Fits s k _ p' fp refl refl (λ h. cc (h, own)) (λ h. ground (arith, fp.carries k h)))
          (λ q fq a h. ground (arith, fq.creates k h)) (λ q fq a h. ground (arith, fq.carries k h))
          (λ q fq a. Less-Apart p p' q l a))

-- The thread takes a permit that is in its channel.
pub take-Kept :
    (s : Shared) (udid : String) (k : ℕ)
    → IsGood s
    → Fits s (waiting udid k)
    → (s.heap k).permit ≡ true
    → Kept s (waiting udid k) (set_permit s k false, taken udid k)
unfolding set_permit
take-Kept s udid k g f there =
    let (small, home) = f.uses udid k refl in
    cell-Kept s (waiting udid k) (taken udid k) k _ g refl refl (g.counted k) (g.last k)
      (g.bounded k)
      (record {
        creates = λ id h. cc h;
        uses = λ d id h. ground arith;
        carries = λ id h. ground arith;
        closes = λ id h. cc h;
      })
      (λ q fq a h. (refl, refl)) (λ q fq a h. refl)
      (λ q fq a. record {
        created = λ id h. cc h;
        carried = λ id h j. ground (arith, fq.carries id j);
      })

-- The thread puts its permit back.
pub give-Kept :
    (s : Shared) (p p' : Pc) (k : ℕ)
    → IsGood s
    → carried p ≡ some k
    → Fits s p'
    → created p' ≡ none
    → carried p' ≡ none
    → Kept s p (set_permit s k true, p')
unfolding set_permit
give-Kept s p p' k g mine f own none_left =
    cell-Kept s p p' k _ g refl refl (g.counted k) (g.last k) (g.bounded k)
      (cell-Fits s k _ p' f refl refl (λ h. (refl, refl)) (λ h. cc (h, none_left)))
      (λ q fq a h. (refl, refl)) (λ q fq a h. absurd (a.carried k mine h))
      (λ q fq a. record { created = λ id h. cc (h, own); carried = λ id h. cc (h, none_left) })

-- The thread notes the time and whether the entry is busy.
pub touch-Kept :
    (s : Shared) (p p' : Pc) (k : ℕ) (busy : Bool) (now : ℕ)
    → IsGood s
    → Fits s p'
    → Less p p'
    → Kept s p (set_busy s k busy now, p')
unfolding set_busy
touch-Kept s p p' k busy now g f l =
    cell-Kept s p p' k _ g refl refl (g.counted k) (g.last k) (g.bounded k)
      (cell-Fits s k _ p' f refl refl (λ h. (refl, refl)) (λ h. (f.carries k h).1))
      (λ q fq a h. (refl, refl)) (λ q fq a h. (fq.carries k h).1) (λ q fq a. Less-Apart p p' q l a)

-- A change of what the pool keeps beside the map and the entries.
module _ (s : Shared) (leases : List (String × ℕ)) (next_generation : ℕ) where
  abbrev beside : Shared
  beside = record s { leases = leases; next_generation = next_generation }

  beside-Fits : (q : Pc) → Fits s q → Fits beside q
  beside-Fits q f = record {
    creates = f.creates;
    uses = f.uses;
    carries = f.carries;
    closes = f.closes;
  }

  beside-IsGood :
      IsGood s
      → ((n : ℕ) (udid : String) (id : ℕ)
          → get_elem? leases n ≡ some (udid, id)
          → (id < s.size) × ((s.heap id).home ≡ some udid))
      → IsGood beside
  beside-IsGood g lent = record {
    unique = g.unique;
    mapped = g.mapped;
    lent = lent;
    counted = g.counted;
    last = g.last;
    bounded = g.bounded;
    halted = g.halted;
  }

-- The thread draws the number of its attempt.
pub number-Kept :
    (s : Shared) (udid : String) (n : ℕ)
    → IsGood s
    → Kept s (missing udid) (record s { next_generation = n }, building udid n)
number-Kept s udid n g = record {
  good = beside-IsGood s s.leases n g g.lent;
  fits = record {
    creates = λ id h. cc h;
    uses = λ d id h. cc h;
    carries = λ id h. cc h;
    closes = λ id h. cc h;
  };
  others = λ q f a. (
    beside-Fits s s.leases n q f,
    Less-Apart (missing udid) (building udid n) q (λ id h. cc h, λ id h. cc h) a,
  );
}

lend :
    (s : Shared) (udid : String) (k : ℕ)
    → (k < s.size) × ((s.heap k).home ≡ some udid)
    → IsGood s
    → (n : ℕ) (d : String) (id : ℕ) → get_elem? ((udid, k) ∷ s.leases) n ≡ some (d, id)
    → (id < s.size) × ((s.heap id).home ≡ some d)
lend s udid k known g zero d id h = ground (arith, known)
lend s udid k known g (suc n) d id h = g.lent n d id h

lend-Kept :
    (s t : Shared) (p p' : Pc) (udid : String) (k : ℕ)
    → (k < t.size) × ((t.heap k).home ≡ some udid)
    → Kept s p (t, p')
    → Kept s p (record t { leases = (udid, k) ∷ t.leases }, p')
lend-Kept s t p p' udid k known kept =
    let all = (udid, k) ∷ t.leases in
    record {
      good = beside-IsGood t all t.next_generation kept.good (lend t udid k known kept.good);
      fits = beside-Fits t all t.next_generation p' kept.fits;
      others = λ q fq a.
          let (fits, apart) = kept.others q fq a in
          (beside-Fits t all t.next_generation q fits, apart);
    }

-- The thread leases the entry whose permit it has.
pub grant-Kept :
    (s : Shared) (udid : String) (k now : ℕ)
    → IsGood s
    → Fits s (taken udid k)
    → Kept s (taken udid k) (granted s udid k now, leased udid k armed)
unfolding set_busy
grant-Kept s udid k now g f =
    lend-Kept s (set_busy s k true now) (taken udid k) (leased udid k armed) udid k
      (ground (arith, f.uses udid k refl))
      (touch-Kept s (taken udid k) (leased udid k armed) k true now g
        (record { creates = f.creates; uses = f.uses; carries = f.carries; closes = f.closes })
        (λ id h. h, λ id h. h))
