-- ===== src/ServicePool/Leaks.antt =====
-- internal/goios/pool.go: no connection is lost: each is in the map, or closed, or some thread's to close.
pub mod Moves
pub mod Drained
use spyder.Prelude.{
  ℕ, suc, ◌+◌, ◌≡◌, ◌≤◌, ◌<◌, ◌⊎◌, refl, ap, sym, ◌∙◌, Bool, true, false, not, ◌&&◌, ◌||◌, Option,
  none, some, List, [], ◌∷◌, String, string_eq, lookup, insert, erase, lookup-insert, lookup-erase,
  beq_self, if◌then◌else◌, get_elem?, arith, ◌==◌, word, Bool-cases, if_cases, inl, inr,
}
use spyder.Prelude.Map.Unique.{Unique, keep, lookup-keep, passing}
use spyder.ServicePool.{
  Shared, is_listed, is_at, open_conn, close_conn, close_once, install, mark_retired, values,
  stop_all, is_stale, stale_ids, sweep_out, set_permit, set_busy,
}
use spyder.ServicePool.Threads.{
  armed, shutting, finished, Pc, idle, start, missing, building, built, lost, refused, waiting,
  taken, returning, leased, freeing, freed, closing, Call, acquires, invalidates, retires,
  closes_pool, sweeps, Choice, retire_found, invalidate_found, begin, found_or_missing, offer,
  granted, move,
}
use spyder.ServicePool.Cells.{created, to_close, is_shared, as_count, IsGood, Fits}
use spyder.ServicePool.Invariant.Retires.{values-lookup_all, stale-values}

abbrev pub is_mapped : Shared → Option String → ℕ → Bool
is_mapped s none id = false
is_mapped s (some udid) id = is_at (lookup udid s.entries) id

-- The pool has closed the connection, or its map names it.
abbrev pub is_settled : Shared → ℕ → Bool
is_settled s id = (s.heap id).closes == 1 || is_mapped s (s.heap id).home id

-- The thread is to share the connection or to close it.
abbrev pub keeps : Pc → ℕ → Bool
keeps p id = is_at (created p) id || is_listed id (to_close p)

abbrev pub Accounts : Shared → Pc → Shared × Pc → Type 0
Accounts s p r =
    (id : ℕ)
    → id < r.0.size
    → (id < s.size → (is_settled s id || keeps p id) ≡ true)
    → (is_settled r.0 id || keeps r.1 id) ≡ true

pub is_at_eq : (o : Option ℕ) (id : ℕ) → is_at o id ≡ true → o ≡ some id
is_at_eq none id h = ground arith
is_at_eq (some j) id h = ground arith

-- A connection that a change of the map leaves there, or hands to a thread.
remap :
    (s t : Shared) (home : Option String) (id : ℕ) (handed : Bool)
    → ((udid : String)
        → lookup udid s.entries ≡ some id
        → (is_at (lookup udid t.entries) id || handed) ≡ true)
    → is_mapped s home id ≡ true
    → (is_mapped t home id || handed) ≡ true
remap s t none id handed change h = ground arith
remap s t (some udid) id handed change h = change udid (is_at_eq (lookup udid s.entries) id h)

-- A thread that leaves the pool, and goes on with what it had to keep.
pub same_pool :
    (s : Shared) (p p' : Pc)
    → ((id : ℕ) → keeps p id ≡ true → keeps p' id ≡ true)
    → Accounts s p (s, p')
same_pool s p p' more id small before = ground (arith, before small, more id)

pub close_conn-Accounts :
    (s : Shared) (p p' : Pc) (k : ℕ)
    → Fits s p
    → created p ≡ some k
    → to_close p ≡ []
    → Accounts s p (close_conn s k, p')
unfolding close_conn
close_conn-Accounts s p p' k f mine rest id small before =
    ground (arith, before small, f.creates k mine)

pub close_once-Accounts :
    (s : Shared) (p p' : Pc) (k : ℕ)
    → IsGood s
    → Fits s p
    → is_listed k (to_close p) ≡ true
    → ((id : ℕ) → keeps p id ≡ true → (k == id) ≡ false → keeps p' id ≡ true)
    → Accounts s p (close_once s k, p')
unfolding close_once
close_once-Accounts s p p' k g f mine more =
    if_cases (λ r. Accounts s p (r, p')) (s.heap k).once _ _
      (λ e id small before. ground (arith, before small, more id, g.counted k, f.closes k mine))
      (λ e id small before. ground (arith, before small, more id, g.counted k, f.closes k mine))

pub set_permit-Accounts :
    (s : Shared) (p p' : Pc) (k : ℕ) (permit : Bool)
    → ((id : ℕ) → keeps p id ≡ true → keeps p' id ≡ true)
    → Accounts s p (set_permit s k permit, p')
unfolding set_permit
set_permit-Accounts s p p' k permit more id small before = ground (arith, before small, more id)

pub set_busy-Accounts :
    (s : Shared) (p p' : Pc) (k : ℕ) (busy : Bool) (now : ℕ)
    → ((id : ℕ) → keeps p id ≡ true → keeps p' id ≡ true)
    → Accounts s p (set_busy s k busy now, p')
unfolding set_busy
set_busy-Accounts s p p' k busy now more id small before = ground (arith, before small, more id)

pub open_conn-Accounts :
    (s : Shared) (udid : String) (n now : ℕ)
    → Accounts s (building udid n) (open_conn s udid n now, built udid s.size)
unfolding open_conn
open_conn-Accounts s udid n now id small before = ground (arith, before)

pub install-Accounts :
    (s : Shared) (udid : String) (k : ℕ)
    → Fits s (built udid k)
    → lookup udid s.entries ≡ none
    → Accounts s (built udid k) (install s udid k, waiting udid k)
unfolding install
install-Accounts s udid k f free id small before = ground (
  arith,
  before small,
  lookup-insert udid udid k s.entries,
  beq_self udid,
  remap s (install s udid k) (s.heap id).home id (k == id)
      (λ d h. ground (arith, lookup-insert udid d k s.entries, string_eq.beq_iff udid d)),
)

pub mark_retired-Accounts :
    (s : Shared) (p p' : Pc) (udid : String) (k : ℕ)
    → keeps p' k ≡ true
    → ((id : ℕ) → keeps p id ≡ true → keeps p' id ≡ true)
    → Accounts s p (mark_retired s udid k, p')
unfolding mark_retired
mark_retired-Accounts s p p' udid k mine more id small before = ground (
  arith,
  before small,
  more id,
  remap s (mark_retired s udid k) (s.heap id).home id (k == id) (λ d h. ground (
    arith,
    lookup-erase udid d s.entries,
    is_at_eq (lookup udid s.entries) k,
    string_eq.beq_iff udid d,
  )),
)

pub stop_all-Accounts : (s : Shared) → Accounts s idle (stop_all s, closing (values s.entries))
unfolding stop_all lookup
stop_all-Accounts s id small before = ground (
  arith,
  before small,
  remap s (stop_all s) (s.heap id).home id (is_listed id (values s.entries))
      (λ d h. values-lookup_all s.entries d id h),
)

pub sweep_out-Accounts :
    (s : Shared) (now : ℕ)
    → IsGood s
    → Accounts s idle (sweep_out s now, closing (stale_ids s now s.entries))
unfolding sweep_out
sweep_out-Accounts s now g id small before = ground (
  arith,
  before small,
  remap s (sweep_out s now) (s.heap id).home id (is_listed id (stale_ids s now s.entries)) (λ d h.
      ground (
        arith,
        lookup-keep (λ j. not (is_stale s now j)) d s.entries g.unique,
        values-lookup_all s.entries d id h,
        stale-values s now s.entries id,
      )),
)
