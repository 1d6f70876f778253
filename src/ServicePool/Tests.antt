-- ===== src/ServicePool/Tests.antt =====
-- internal/goios/pool.go: schedules of two callers of one device, and the theorems at them.
use spyder.Prelude.{
  ℕ, ◌≤◌, ◌≡◌, ◌⊎◌, refl, true, false, some, List, [], ◌∷◌, ◌++◌, pos, string_eq, lookup, insert,
  erase, arith,
}
use spyder.ServicePool.{
  open_conn, close_conn, close_once, install, mark_retired, stop_all, stale_ids, sweep_out,
  set_permit, set_busy,
}
use spyder.ServicePool.Threads.{
  Call, acquires, closes_pool, sweeps, Choice, begin, move, step, run, initial, idle, taken, leased,
  armed,
}
use spyder.ServicePool.Cells.{carried}
use spyder.ServicePool.Invariant.Reach.{
  run-exclusive, run-closed_once, step-lease, IsLeasable, IsOffered,
}
use spyder.ServicePool.Leaks.Drained.{run-accounted, run-drained, step-stopped, IsFiled}
use spyder.ServicePool.Leaks.{keeps}
use spyder.ServicePool.Labels.{asked_for}

abbrev calling : Call → Choice
calling call = record { call = call; cancelled = false; opened = true; now = 10 }

abbrev going : Choice
going = calling sweeps

abbrev leaving : Choice
leaving = record { call = sweeps; cancelled = true; opened = true; now = 20 }

-- Caller 0 opens a connection and takes its permit; caller 1 finds the connection and waits.
abbrev two_callers : List (ℕ × Choice)
two_callers =
    (0, calling (acquires "ipad"))
    ∷ (0, going)
    ∷ (0, going)
    ∷ (0, going)
    ∷ (0, going)
    ∷ (1, calling (acquires "ipad"))
    ∷ (1, going)
    ∷ (0, going)
    ∷ (1, going)
    ∷ []

-- The lease is granted, released, and the waiting caller has the connection next.
abbrev handover : List (ℕ × Choice)
handover = two_callers ++ ((0, going) ∷ (0, going) ∷ (0, going) ∷ (0, going) ∷ (1, going) ∷ [])

two_callers-carried : carried ((run (initial (pos 0)) two_callers).pc 0) ≡ some 0
unfolding run step move begin open_conn close_conn close_once install mark_retired stop_all
    stale_ids sweep_out set_permit set_busy lookup insert erase
two_callers-carried = refl

two_callers-taken : (run (initial (pos 0)) two_callers).pc 0 ≡ taken "ipad" 0
unfolding run step move begin open_conn close_conn close_once install mark_retired stop_all
    stale_ids sweep_out set_permit set_busy lookup insert erase
two_callers-taken = refl

two_callers-leased : (step (run (initial (pos 0)) two_callers) 0 going).pc 0 ≡ leased "ipad" 0 armed
unfolding run step move begin open_conn close_conn close_once install mark_retired stop_all
    stale_ids sweep_out set_permit set_busy lookup insert erase
two_callers-leased = refl

handover-taken : (run (initial (pos 0)) handover).pc 1 ≡ taken "ipad" 0
unfolding run step move begin open_conn close_conn close_once install mark_retired stop_all
    stale_ids sweep_out set_permit set_busy lookup insert erase
handover-taken = refl

two_callers-mapped : lookup "ipad" (run (initial (pos 0)) two_callers).shared.entries ≡ some 0
unfolding run step move begin open_conn close_conn close_once install mark_retired stop_all
    stale_ids sweep_out set_permit set_busy lookup insert erase
two_callers-mapped = refl

-- Caller 0 has a lease; then a third thread closes the pool, and both callers give up.
abbrev shutdown : List (ℕ × Choice)
shutdown =
    two_callers
    ++ ((2, calling closes_pool)
        ∷ (2, going)
        ∷ (2, going)
        ∷ (1, leaving)
        ∷ (0, going)
        ∷ (0, going)
        ∷ (0, going)
        ∷ [])

abbrev closed_early : List (ℕ × Choice)
closed_early = two_callers ++ ((2, calling closes_pool) ∷ [])

closed_early-taken :
    ((run (initial (pos 0)) closed_early).shared.stopped ≡ true)
    × ((run (initial (pos 0)) closed_early).pc 0 ≡ taken "ipad" 0)
unfolding run step move begin open_conn close_conn close_once install mark_retired stop_all
    stale_ids sweep_out set_permit set_busy lookup insert erase
closed_early-taken = (refl, refl)

shutdown-quiet : (i : ℕ) → (run (initial (pos 0)) shutdown).pc i ≡ idle
unfolding run step move begin open_conn close_conn close_once install mark_retired stop_all
    stale_ids sweep_out set_permit set_busy lookup insert erase
shutdown-quiet i = ground arith

shutdown-stopped :
    ((run (initial (pos 0)) shutdown).shared.stopped ≡ true)
    × ((run (initial (pos 0)) shutdown).shared.size ≡ 1)
unfolding run step move begin open_conn close_conn close_once install mark_retired stop_all
    stale_ids sweep_out set_permit set_busy lookup insert erase
shutdown-stopped = (refl, refl)

run-exclusive_example : ¬ (carried ((run (initial (pos 0)) two_callers).pc 1) ≡ some 0)
run-exclusive_example =
    run-exclusive (pos 0) two_callers 0 1 0 (λ h. omega arith) two_callers-carried

run-closed_once_example :
    (((run (initial (pos 0)) two_callers).shared.heap 0).closes ≤ 1)
    × IsOffered
        (run (initial (pos 0)) two_callers).shared
        "ipad"
        (lookup "ipad" (run (initial (pos 0)) two_callers).shared.entries)
run-closed_once_example = run-closed_once (pos 0) two_callers 0 "ipad"

step-lease_example :
    (asked_for (pos 0) two_callers 0 ≡ some "ipad")
    × IsLeasable (step (run (initial (pos 0)) two_callers) 0 going).shared "ipad" 0
step-lease_example =
    step-lease (pos 0) two_callers 0 going "ipad" 0 two_callers-taken two_callers-leased

run-accounted_example :
    IsFiled (run (initial (pos 0)) shutdown).shared 0
    ⊎ ((i : ℕ) × (keeps ((run (initial (pos 0)) shutdown).pc i) 0 ≡ true))
unfolding run step move begin open_conn close_conn close_once install mark_retired stop_all
    stale_ids sweep_out set_permit set_busy lookup insert erase
run-accounted_example = run-accounted (pos 0) shutdown 0 (omega arith)

run-drained_example : ((run (initial (pos 0)) shutdown).shared.heap 0).closes ≡ 1
unfolding run step move begin open_conn close_conn close_once install mark_retired stop_all
    stale_ids sweep_out set_permit set_busy lookup insert erase
run-drained_example = run-drained (pos 0) shutdown 0 shutdown-quiet shutdown-stopped.0 (omega arith)

step-stopped_example :
    ¬ ((step (run (initial (pos 0)) closed_early) 0 going).pc 0 ≡ leased "ipad" 0 armed)
step-stopped_example =
    step-stopped (pos 0) closed_early 0 going "ipad" 0 closed_early-taken.0 closed_early-taken.1
