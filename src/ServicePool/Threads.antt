-- ===== src/ServicePool/Threads.antt =====
-- internal/goios/pool.go: what a thread in AcquireLease, Invalidate, Close or the sweeper does next.
use spyder.Prelude.{
  ℕ, ◌+◌, ◌%◌, Bool, true, false, Option, none, some, List, [], ◌∷◌, String, string_eq,
  if◌then◌else◌, ◌==◌, word, lookup, get_elem?, ℤ,
}
use spyder.ServicePool.{
  Shared, open_conn, close_conn, close_once, install, mark_retired, values, stop_all, stale_ids,
  sweep_out, set_permit, set_busy, new_pool,
}

-- The callback that closes the connection of a lease whose context is cancelled.
pub data Callback : Type 0 where
  armed shutting finished : Callback

pub data Pc : Type 0 where
  idle : Pc
  start : String → Pc
  missing : String → Pc
  building : String → ℕ → Pc
  built : String → ℕ → Pc
  lost : String → ℕ → ℕ → Pc
  refused : ℕ → Pc
  waiting : String → ℕ → Pc
  taken : String → ℕ → Pc
  returning : String → ℕ → Pc
  leased : String → ℕ → Callback → Pc
  freeing : ℕ → Pc
  freed : ℕ → Pc
  closing : List ℕ → Pc

-- The calls that a thread may make; `retires n` is the Invalidate of the `n`-th lease.
pub data Call : Type 0 where
  acquires : String → Call
  invalidates : String → Call
  retires : ℕ → Call
  closes_pool : Call
  sweeps : Call

-- What a step meets: the call that an idle thread makes, whether its context is cancelled, whether the
-- resolver and the factory give a connection, and the time.
pub record Choice : Type 0 where
  pub call : Call
  pub cancelled : Bool
  pub opened : Bool
  pub now : ℕ

abbrev pub retire_found : Shared → Option (String × ℕ) → Shared × Pc
retire_found s none = (s, idle)
retire_found s (some (udid, id)) = (mark_retired s udid id, closing (id ∷ []))

abbrev pub invalidate_found : Shared → String → Option ℕ → Shared × Pc
invalidate_found s udid none = (s, idle)
invalidate_found s udid (some id) = (mark_retired s udid id, closing (id ∷ []))

unfoldable pub begin : Shared → Call → ℕ → Shared × Pc
unfolding mark_retired stop_all sweep_out
begin s (acquires udid) now = (s, start udid)
begin s (invalidates udid) now = invalidate_found s udid (lookup udid s.entries)
begin s (retires n) now = retire_found s (get_elem? s.leases n)
begin s closes_pool now = if s.stopped then (s, idle) else (stop_all s, closing (values s.entries))
begin s sweeps now =
    if s.stopped then (s, idle) else (sweep_out s now, closing (stale_ids s now s.entries))

abbrev pub found_or_missing : String → Option ℕ → Pc
found_or_missing udid none = missing udid
found_or_missing udid (some id) = waiting udid id

-- The candidate is put in the map, unless another thread was faster.
abbrev pub offer : Shared → String → ℕ → Option ℕ → Shared × Pc
offer s udid id none = (install s udid id, waiting udid id)
offer s udid id (some e) = (s, lost udid id e)

abbrev pub granted : Shared → String → ℕ → ℕ → Shared
granted s udid id now =
    let t = set_busy s id true now in record t { leases = (udid, id) ∷ t.leases }

-- The next step of a thread at `pc`; a thread that has to wait stays where it is.
unfoldable pub move : Choice → Shared → Pc → Shared × Pc
unfolding begin open_conn close_conn close_once install mark_retired set_permit set_busy
move c s idle = begin s c.call c.now
move c s (start udid) =
    if c.cancelled
    then (s, idle)
    else if s.stopped
    then (s, idle)
    else (s, found_or_missing udid (lookup udid s.entries))
move c s (missing udid) =
    let generation = (s.next_generation + 1) % word in
    (record s { next_generation = generation }, building udid generation)
move c s (building udid generation) =
    if c.opened then (open_conn s udid generation c.now, built udid s.size) else (s, idle)
move c s (built udid id) =
    if c.cancelled
    then (s, refused id)
    else if s.stopped
    then (s, refused id)
    else offer s udid id (lookup udid s.entries)
move c s (lost udid id e) = (close_conn s id, waiting udid e)
move c s (refused id) = (close_conn s id, idle)
move c s (waiting udid id) =
    if c.cancelled
    then (s, idle)
    else if (s.heap id).permit
    then (set_permit s id false, taken udid id)
    else (s, waiting udid id)
move c s (taken udid id) =
    if (s.heap id).retired
    then (s, returning udid id)
    else (granted s udid id c.now, leased udid id armed)
move c s (returning udid id) = (set_permit s id true, start udid)
move c s (leased udid id armed) =
    if c.cancelled then (mark_retired s udid id, leased udid id shutting) else (s, freeing id)
move c s (leased udid id shutting) = (close_once s id, leased udid id finished)
move c s (leased udid id finished) = (s, freeing id)
move c s (freeing id) = (set_busy s id false c.now, freed id)
move c s (freed id) = (set_permit s id true, idle)
move c s (closing []) = (s, idle)
move c s (closing (id ∷ ids)) = (close_once s id, closing ids)

-- The pool and its threads.
pub record System : Type 0 where
  pub shared : Shared
  pub pc : ℕ → Pc

abbrev pub put_pc : (ℕ → Pc) → ℕ → Pc → ℕ → Pc
put_pc pc i p j = if i == j then p else pc j

unfoldable pub step : System → ℕ → Choice → System
unfolding move
step s i c =
    let (shared, p) = move c s.shared (s.pc i) in record { shared = shared; pc = put_pc s.pc i p }

unfoldable pub run : System → List (ℕ × Choice) → System
unfolding step
run s [] = s
run s ((i, c) ∷ cs) = run (step s i c) cs

abbrev pub initial : ℤ → System
initial ttl = record { shared = new_pool ttl; pc = λ i. idle }
