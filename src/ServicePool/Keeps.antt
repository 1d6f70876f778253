-- ===== src/ServicePool/Keeps.antt =====
-- internal/goios/pool.go: changes of one entry, and of the mark that retires entries.
use spyder.Prelude.{
  ℕ, ◌≡◌, ◌≤◌, ◌<◌, Bool, true, false, some, List, [], String, string_eq, lookup, arith,
}
use spyder.Prelude.Map.Unique.{Unique}
use spyder.ServicePool.{PoolEntry, Shared, is_listed, with_cell, mark_all}
use spyder.ServicePool.Threads.{Pc}
use spyder.ServicePool.Cells.{created, carried, is_shared, as_count, IsGood, Fits}

-- A change of entry `k` that leaves its home and its retirement.
module _ (s : Shared) (k : ℕ) (e : PoolEntry) where
  pub cell-IsGood :
      IsGood s
      → e.home ≡ (s.heap k).home
      → e.retired ≡ (s.heap k).retired
      → (is_shared e ≡ true → e.closes ≡ as_count e.once)
      → (is_shared e ≡ true → e.once ≡ true → e.retired ≡ true)
      → e.closes ≤ 1
      → IsGood (with_cell s k e)
  cell-IsGood g home retired counted last bounded = record {
    unique = g.unique;
    mapped = λ udid id h. ground (arith, g.mapped udid id h);
    lent = λ n udid id h. ground (arith, g.lent n udid id h);
    counted = λ id h. ground (arith, g.counted id);
    last = λ id h o. ground (arith, g.last id);
    bounded = λ id. ground (arith, g.bounded id);
    halted = g.halted;
  }

  pub cell-Fits :
      (q : Pc)
      → Fits s q
      → e.home ≡ (s.heap k).home
      → e.retired ≡ (s.heap k).retired
      → (created q ≡ some k → (e.closes ≡ (s.heap k).closes) × (e.once ≡ (s.heap k).once))
      → (carried q ≡ some k → e.permit ≡ false)
      → Fits (with_cell s k e) q
  cell-Fits q f home retired own permit = record {
    creates = λ id h. ground (arith, f.creates id h);
    uses = λ udid id h. ground (arith, f.uses udid id h);
    carries = λ id h. ground (arith, f.carries id h);
    closes = λ id h. ground (arith, f.closes id h);
  }

-- Retirement of the listed entries, which stood in the map or were lent, with a map that has lost them.
module _ (s : Shared) (ids : List ℕ) (entries : List (String × ℕ)) (stopped : Bool)
    (listed : (id : ℕ)
      → is_listed id ids ≡ true
      → (id < s.size) × (is_shared (s.heap id) ≡ true)) where
  abbrev pub retiring : Shared
  retiring = record s { heap = mark_all s ids; entries = entries; stopped = stopped }

  pub retiring-IsGood :
      IsGood s
      → Unique entries
      → ((udid : String) (id : ℕ)
          → lookup udid entries ≡ some id
          → (lookup udid s.entries ≡ some id) × (is_listed id ids ≡ false))
      → (stopped ≡ true → entries ≡ [])
      → IsGood retiring
  retiring-IsGood g unique fewer halted = record {
    unique = unique;
    mapped = λ udid id h.
        let (before, spared) = fewer udid id h in ground (arith, g.mapped udid id before);
    lent = λ n udid id h. ground (arith, g.lent n udid id h);
    counted = λ id h. ground (arith, g.counted id);
    last = λ id h o. ground (arith, g.last id);
    bounded = λ id. ground (arith, g.bounded id);
    halted = halted;
  }

  pub retiring-Fits : (q : Pc) → Fits s q → Fits retiring q
  retiring-Fits q f = record {
    creates = λ id h. ground (arith, f.creates id h, listed id);
    uses = λ udid id h. ground (arith, f.uses udid id h);
    carries = λ id h. ground (arith, f.carries id h);
    closes = λ id h. ground (arith, f.closes id h);
  }
