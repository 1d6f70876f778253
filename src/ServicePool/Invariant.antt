-- ===== src/ServicePool/Invariant.antt =====
-- internal/goios/pool.go: every step of every thread keeps what the pool and the threads promise.
pub mod Entries
pub mod Permits
pub mod Retires
pub mod Steps
pub mod Reach
use mathlib.Core.Path.{subst}
use spyder.Prelude.{
  ℕ, suc, ◌+◌, ◌≡◌, ◌≤◌, ◌<◌, ◌⊎◌, refl, ap, sym, ◌∙◌, Bool, true, false, ◌||◌, Option, none, some,
  List, [], ◌∷◌, String, string_eq, lookup, insert, erase, lookup-insert, lookup-erase, beq_self,
  if◌then◌else◌, get_elem?, arith, ◌==◌, word, not, Option-cases, Bool-cases, inl, inr,
}
use spyder.Prelude.Map.Unique.{Unique, insert-Unique, erase-Unique, keep, lookup-keep, keep-Unique}
use spyder.ServicePool.{
  PoolEntry, Shared, is_listed, is_at, put_cell, with_cell, mark_all, retired_cell, open_conn,
  close_conn, close_once, install, mark_retired, values, stop_all, is_stale, stale_ids, sweep_out,
  set_permit, set_busy, fresh_entry,
}
use spyder.ServicePool.Threads.{
  Callback, armed, shutting, finished, Pc, idle, start, missing, building, built, lost, refused,
  waiting, taken, returning, leased, freeing, freed, closing, Call, acquires, invalidates, retires,
  closes_pool, sweeps, Choice, retire_found, invalidate_found, begin, found_or_missing, offer,
  granted, move,
}
use spyder.ServicePool.Cells.{
  created, used, carried, to_close, is_shared, as_count, IsGood, Fits, Apart, idle-Fits,
}
use spyder.ServicePool.Keeps.{cell-IsGood, cell-Fits, retiring-IsGood, retiring-Fits}

-- What a step of a thread at `p` does: for the pool, for the thread, and for any other thread.
pub record Kept (s : Shared) (p : Pc) (r : Shared × Pc) : Type 0 where
  pub good : IsGood r.0
  pub fits : Fits r.0 r.1
  pub others : (q : Pc) → Fits s q → Apart p q → Fits r.0 q × Apart r.1 q

-- A thread that goes on with no more than it had.
abbrev pub Less : Pc → Pc → Type 0
Less p p' =
    ((id : ℕ) → created p' ≡ some id → created p ≡ some id)
    × ((id : ℕ) → carried p' ≡ some id → carried p ≡ some id)

pub Less-Apart : (p p' q : Pc) → Less p p' → Apart p q → Apart p' q
Less-Apart p p' q l a = record {
  created = λ id h. a.created id (l.0 id h);
  carried = λ id h. a.carried id (l.1 id h);
}

pub quiet : (s : Shared) (p p' : Pc) → IsGood s → Fits s p' → Less p p' → Kept s p (s, p')
quiet s p p' g f l = record { good = g; fits = f; others = λ q fq a. (fq, Less-Apart p p' q l a) }

pub ends : (s : Shared) (p : Pc) → IsGood s → Kept s p (s, idle)
ends s p g = quiet s p idle g (idle-Fits s) (λ id h. cc h, λ id h. cc h)

-- A change of the entry `k`.
module _ (s : Shared) (p p' : Pc) (k : ℕ) (e : PoolEntry) (g : IsGood s)
    (home : e.home ≡ (s.heap k).home) (retired : e.retired ≡ (s.heap k).retired) where
  pub cell-Kept :
      (is_shared e ≡ true → e.closes ≡ as_count e.once)
      → (is_shared e ≡ true → e.once ≡ true → e.retired ≡ true)
      → e.closes ≤ 1
      → Fits (with_cell s k e) p'
      → ((q : Pc)
          → Fits s q
          → Apart p q
          → (created q ≡ some k → (e.closes ≡ (s.heap k).closes) × (e.once ≡ (s.heap k).once)))
      → ((q : Pc) → Fits s q → Apart p q → carried q ≡ some k → e.permit ≡ false)
      → ((q : Pc) → Fits s q → Apart p q → Apart p' q)
      → Kept s p (with_cell s k e, p')
  cell-Kept counted last bounded fits own permit apart = record {
    good = cell-IsGood s k e g home retired counted last bounded;
    fits = fits;
    others =
        λ q fq a. (cell-Fits s k e q fq home retired (own q fq a) (permit q fq a), apart q fq a);
  }

-- The thread closes the connection that it alone knows.
pub close_conn-Kept :
    (s : Shared) (p p' : Pc) (k : ℕ)
    → IsGood s
    → Fits s p
    → created p ≡ some k
    → Less p p'
    → created p' ≡ none
    → carried p' ≡ none
    → ((udid : String) (id : ℕ)
        → used p' ≡ some (udid, id)
        → (id < s.size) × ((s.heap id).home ≡ some udid))
    → to_close p' ≡ []
    → Kept s p (close_conn s k, p')
unfolding close_conn
close_conn-Kept s p p' k g f mine l c1 c2 c3 c4 =
    let (small, home, closes, once, kept) = f.creates k mine in
    cell-Kept s p p' k _ g refl refl (λ h. ground arith) (λ h o. ground arith) (ground arith)
      (record {
        creates = λ id h. cc (h, c1);
        uses = λ udid id h. ground (arith, c3 udid id h);
        carries = λ id h. cc (h, c2);
        closes = λ id h. ground arith;
      })
      (λ q fq a h. absurd (a.created k mine h)) (λ q fq a h. ground (arith, fq.carries k h))
      (λ q fq a. Less-Apart p p' q l a)
