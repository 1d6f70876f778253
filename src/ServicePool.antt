-- ===== src/ServicePool.antt =====
-- internal/goios/pool.go: one service connection per device, shared by concurrent callers. Each section
-- under the pool's lock, each operation on a permit's channel, each call of the connection's factory or
-- closer and each question to a context is one step of a thread; a schedule says which thread steps.
pub mod Threads
pub mod Cells
pub mod Keeps
pub mod Labels
pub mod Invariant
pub mod Leaks
mod Tests
use spyder.Prelude.{
  ℕ, suc, ◌+◌, ◌-◌, ◌%◌, Bool, true, false, not, ◌&&◌, ◌||◌, Option, none, some, List, [], ◌∷◌,
  String, string_eq, if◌then◌else◌, leb, ◌==◌, word, lookup, insert, erase, ℤ, pos_part,
  is_positive,
}
use spyder.Prelude.Map.Unique.{keep}

-- A connection and its entry. `permit` says whether the channel holds the permit, `once` whether
-- `closeOnce` has run, and `closes` counts the calls of `closeFn` on the connection. `device` is the device
-- for which the resolver was asked when the connection was opened. `home`, which the code does not keep, is
-- the key under which the entry was put in the map.
pub record PoolEntry : Type 0 where
  pub generation : ℕ
  pub permit : Bool
  pub last_used : ℕ
  pub busy : Bool
  pub retired : Bool
  pub once : Bool
  pub closes : ℕ
  pub device : String
  pub home : Option String

-- The entries stand in a heap; those below `size` are allocated. `leases` are the leases handed out so
-- far, as the device and the entry that each of them names.
pub record Shared : Type 0 where
  pub idle_ttl : ℕ
  pub entries : List (String × ℕ)
  pub heap : ℕ → PoolEntry
  pub size : ℕ
  pub leases : List (String × ℕ)
  pub stopped : Bool
  pub opens : ℕ
  pub next_generation : ℕ

abbrev pub put_cell : (ℕ → PoolEntry) → ℕ → PoolEntry → ℕ → PoolEntry
put_cell heap k e j = if k == j then e else heap j

abbrev pub with_cell : Shared → ℕ → PoolEntry → Shared
with_cell s k e = record s { heap = put_cell s.heap k e }

abbrev pub fresh_entry : String → ℕ → ℕ → PoolEntry
fresh_entry device generation now = record {
  generation = generation;
  permit = true;
  last_used = now;
  busy = false;
  retired = false;
  once = false;
  closes = 0;
  device = device;
  home = none;
}

-- The resolver and `newConn` give a connection of `device`, in an entry that only its caller knows.
unfoldable pub open_conn : Shared → String → ℕ → ℕ → Shared
open_conn s device generation now = record s {
  heap = put_cell s.heap s.size (fresh_entry device generation now);
  size = suc s.size;
}

-- `closeFn` on a connection that was never shared.
unfoldable pub close_conn : Shared → ℕ → Shared
close_conn s id = with_cell s id (record (s.heap id) { closes = (s.heap id).closes + 1 })

-- `closeOnce.Do`.
unfoldable pub close_once : Shared → ℕ → Shared
close_once s id =
    if (s.heap id).once
    then s
    else with_cell s id (record (s.heap id) { once = true; closes = (s.heap id).closes + 1 })

unfoldable pub install : Shared → String → ℕ → Shared
install s udid id = record s {
  heap = put_cell s.heap id (record (s.heap id) { home = some udid });
  entries = insert udid id s.entries;
  opens = s.opens + 1;
}

abbrev pub is_at : Option ℕ → ℕ → Bool
is_at none id = false
is_at (some j) id = j == id

abbrev pub retired_cell : Shared → ℕ → PoolEntry
retired_cell s id = record (s.heap id) { retired = true }

abbrev pub is_listed : ℕ → List ℕ → Bool
is_listed id [] = false
is_listed id (j ∷ ids) = j == id || is_listed id ids

abbrev pub mark_all : Shared → List ℕ → ℕ → PoolEntry
mark_all s ids id = if is_listed id ids then retired_cell s id else s.heap id

-- The locked part of `retire`.
unfoldable pub mark_retired : Shared → String → ℕ → Shared
mark_retired s udid id = record s {
  heap = mark_all s (id ∷ []);
  entries = if is_at (lookup udid s.entries) id then erase udid s.entries else s.entries;
}

abbrev pub values : List (String × ℕ) → List ℕ
values [] = []
values ((udid, id) ∷ m) = id ∷ values m

-- The locked part of `Close`.
unfoldable pub stop_all : Shared → Shared
stop_all s = record s { stopped = true; heap = mark_all s (values s.entries); entries = [] }

-- What the sweeper evicts at `now`.
abbrev pub is_stale : Shared → ℕ → ℕ → Bool
is_stale s now id = not (s.heap id).busy && leb ((s.heap id).last_used + s.idle_ttl) now

unfoldable pub stale_ids : Shared → ℕ → List (String × ℕ) → List ℕ
stale_ids s now [] = []
stale_ids s now ((udid, id) ∷ m) =
    let rest = stale_ids s now m in if is_stale s now id then id ∷ rest else rest

-- The locked part of a sweep.
unfoldable pub sweep_out : Shared → ℕ → Shared
unfolding stale_ids keep
sweep_out s now = record s {
  heap = mark_all s (stale_ids s now s.entries);
  entries = keep (λ id. not (is_stale s now id)) s.entries;
}

unfoldable pub set_permit : Shared → ℕ → Bool → Shared
set_permit s id permit = with_cell s id (record (s.heap id) { permit = permit })

unfoldable pub set_busy : Shared → ℕ → Bool → ℕ → Shared
set_busy s id busy now = with_cell s id (record (s.heap id) { busy = busy; last_used = now })

-- A time to live that is not positive stands for a minute.
abbrev pub new_pool : ℤ → Shared
new_pool ttl = record {
  idle_ttl = if is_positive ttl then pos_part ttl else 60_000_000_000;
  entries = [];
  heap = λ id. fresh_entry "" 0 0;
  size = 0;
  leases = [];
  stopped = false;
  opens = 0;
  next_generation = 0;
}
