-- ===== src/ServicePool/Cells.antt =====
-- internal/goios/pool.go: what the pool and one thread keep true of each other, and of other threads.
use spyder.Prelude.{
  ℕ, ◌≡◌, ◌≤◌, ◌<◌, Bool, true, false, Option, none, some, List, [], ◌∷◌, String, string_eq, lookup,
  ℤ, get_elem?, arith,
}
use spyder.Prelude.Map.Unique.{Unique}
use spyder.ServicePool.{PoolEntry, Shared, is_listed, new_pool}
use spyder.ServicePool.Threads.{
  Pc, idle, built, lost, refused, waiting, taken, returning, leased, freeing, freed, closing,
  shutting,
}

-- The connection that only the thread knows.
abbrev pub created : Pc → Option ℕ
created (built udid id) = some id
created (lost udid id e) = some id
created (refused id) = some id
created _ = none

-- The entry that the thread waits for or works with, and its device.
abbrev pub used : Pc → Option (String × ℕ)
used (lost udid id e) = some (udid, e)
used (waiting udid id) = some (udid, id)
used (taken udid id) = some (udid, id)
used (returning udid id) = some (udid, id)
used (leased udid id cb) = some (udid, id)
used _ = none

-- The entry whose permit the thread has.
abbrev pub carried : Pc → Option ℕ
carried (taken udid id) = some id
carried (returning udid id) = some id
carried (leased udid id cb) = some id
carried (freeing id) = some id
carried (freed id) = some id
carried _ = none

-- The entries that the thread has retired and not closed yet.
abbrev pub to_close : Pc → List ℕ
to_close (closing ids) = ids
to_close (leased udid id shutting) = id ∷ []
to_close _ = []

abbrev pub is_shared : PoolEntry → Bool
is_shared e = elim e.home [ none ↦ false | some udid ↦ true ]

abbrev pub as_count : Bool → ℕ
as_count true = 1
as_count false = 0

pub record IsGood (s : Shared) : Type 0 where
  pub unique : Unique s.entries
  pub mapped :
      (udid : String) (id : ℕ)
      → lookup udid s.entries ≡ some id
      → (id < s.size) × ((s.heap id).home ≡ some udid) × ((s.heap id).retired ≡ false)
  pub lent :
      (n : ℕ) (udid : String) (id : ℕ)
      → get_elem? s.leases n ≡ some (udid, id)
      → (id < s.size) × ((s.heap id).home ≡ some udid)
  pub counted :
      (id : ℕ) → is_shared (s.heap id) ≡ true → (s.heap id).closes ≡ as_count (s.heap id).once
  pub last :
      (id : ℕ) → is_shared (s.heap id) ≡ true → (s.heap id).once ≡ true → (s.heap id).retired ≡ true
  pub bounded : (id : ℕ) → (s.heap id).closes ≤ 1
  pub halted : s.stopped ≡ true → s.entries ≡ []

pub record Fits (s : Shared) (p : Pc) : Type 0 where
  pub creates :
      (id : ℕ)
      → created p ≡ some id
      → (id < s.size)
        × ((s.heap id).home ≡ none)
        × ((s.heap id).closes ≡ 0)
        × ((s.heap id).once ≡ false)
        × ((s.heap id).retired ≡ false)
  pub uses :
      (udid : String) (id : ℕ)
      → used p ≡ some (udid, id)
      → (id < s.size) × ((s.heap id).home ≡ some udid)
  pub carries : (id : ℕ) → carried p ≡ some id → (id < s.size) × ((s.heap id).permit ≡ false)
  pub closes :
      (id : ℕ)
      → is_listed id (to_close p) ≡ true
      → (id < s.size) × (is_shared (s.heap id) ≡ true) × ((s.heap id).retired ≡ true)

-- Two threads know no connection alone, and have no permit, in common.
pub record Apart (p q : Pc) : Type 0 where
  pub created : (id : ℕ) → created p ≡ some id → ¬ (created q ≡ some id)
  pub carried : (id : ℕ) → carried p ≡ some id → ¬ (carried q ≡ some id)

pub new_pool-IsGood : (ttl : ℤ) → IsGood (new_pool ttl)
unfolding lookup
new_pool-IsGood ttl = record {
  unique = tt;
  mapped = λ udid id h. cc h;
  lent = λ n udid id h. cc h;
  counted = λ id h. cc h;
  last = λ id h. cc h;
  bounded = λ id. omega arith;
  halted = λ h. cc h;
}

pub idle-Fits : (s : Shared) → Fits s idle
idle-Fits s = record {
  creates = λ id h. cc h;
  uses = λ udid id h. cc h;
  carries = λ id h. cc h;
  closes = λ id h. cc h;
}

pub idle-Apart : Apart idle idle
idle-Apart = record { created = λ id h. cc h; carried = λ id h. cc h }
