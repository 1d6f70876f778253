-- ===== src/Health/Tests.antt =====
-- internal/health: the theorems at concrete inputs.
use spyder.Prelude.{
  ℕ, suc, ◌*◌, ◌≡◌, ◌≤◌, insert, refl, true, false, some, none, List, [], ◌∷◌, String, arith, ℤ,
  pos, lookup,
}
use spyder.Health.Entity.{EntityId, Policy, daemon, device, healthy, needs_attention, fresh, id_eq}
use spyder.Health.Model.{Model, backoff, register, observe, recovery_started, ensure_entity}
use spyder.Health.Calls.{Call, observes, starts, fails, step, step_entity, run_entity}
use spyder.Health.Escalation.{episode-fails}
use spyder.Health.Backoff.{backoff_vanishes}
use spyder.Health.Watchdog.{
  new_watchdog, begin, check, force_stall, begins, checks, forces, Guarded, Action, enters, drives,
  calls, enter, act,
}
use spyder.Health.Watchdog.Flags.{flagged, flagged-le_one}
use spyder.Health.Supervise.{Attempt, start_with_recovery, gave_up}
use spyder.Health.Supervise.Launch.{Ends, registered, launch-exhausts}

abbrev phone : EntityId
phone = record { kind = device; name = "phone"; layer = "tunnel" }

abbrev tablet : EntityId
tablet = record { kind = device; name = "tablet"; layer = "" }

abbrev two_attempts : Policy
two_attempts = record { max_attempts = pos 2; base_backoff = pos 2_000_000_000 }

abbrev history : List (ℕ × Call)
history = (1, observes false "gone") ∷ (2, starts) ∷ (3, fails "refused") ∷ []

-- The second failure of a phone that is allowed two attempts.
exhausted_phone :
    (step_entity phone 4
      (fails "refused")
      (run_entity phone history (fresh phone two_attempts))).0.state
    ≡ needs_attention
unfolding step_entity run_entity fresh
exhausted_phone = refl

episode-fails_example :
    (step_entity phone 4
      (fails "refused")
      (run_entity phone history (fresh phone two_attempts))).0.state
    ≡ needs_attention
unfolding fresh
episode-fails_example =
    episode-fails phone 4 1 "refused" history (fresh phone two_attempts) (refl, (refl, (refl, tt)))
      refl

abbrev one_phone : Model
one_phone = record {
  entities =
      (
        phone,
        record {
          kind = device;
          state = healthy;
          policy = two_attempts;
          attempts = 0;
          last_probe = 0;
          evidence = [];
        },
      )
      ∷ [];
}

-- A base of two seconds, at the 64th attempt.
backoff_vanishes_example : backoff (pos (4 * 500_000_000)) (suc 63) ≡ pos 0
backoff_vanishes_example = backoff_vanishes 500_000_000 63 (omega arith) (omega arith)

abbrev no_show : ℤ → String
no_show d = "long"

abbrev empty_model : Model
empty_model = record { entities = [] }

abbrev self : EntityId
self = record { kind = daemon; name = "spyder"; layer = "" }

-- A goroutine has begun an operation at 10 on a new watchdog with a timeout of 30.
abbrev begun : Guarded
begun =
    let (w, m) = new_watchdog empty_model 0 "spyder" (pos 30) in
    act no_show (record { watchdog = w; model = m; todo = λ i. [] }) 2 (enters (begins 10))

-- Two goroutines check, a tick of the daemon comes in between, and a third forces a stall.
abbrev probes : List (ℕ × Action)
probes =
    (0, enters (checks 100))
    ∷ (1, enters (checks 100))
    ∷ (0, drives 100)
    ∷ (3, calls 101 self (observes true "tick"))
    ∷ (0, drives 102)
    ∷ (2, enters (forces "late"))
    ∷ []

probes-flagged : flagged no_show begun probes ≡ 1
unfolding flagged new_watchdog register act enter begin check force_stall step observe
    recovery_started ensure_entity fresh lookup insert
probes-flagged = refl

flagged-le_one_example : flagged no_show begun probes ≤ 1
flagged-le_one_example =
    flagged-le_one no_show begun probes (refl, (refl, (tt, (tt, (tt, (refl, tt))))))

abbrev refused : Attempt
refused = record { error = some "no such file"; at = 1; next_at = 2; slept = true }

abbrev launched : Attempt
launched = record { error = none; at = 3; next_at = 3; slept = true }

launch-exhausts_example :
    Ends
      (start_with_recovery
        (registered empty_model 0 phone two_attempts)
        1
        phone
        (refused ∷ refused ∷ launched ∷ []))
      phone
      gave_up
      needs_attention
      2
launch-exhausts_example =
    launch-exhausts empty_model 0 1 phone two_attempts 1 (refused ∷ refused ∷ []) (launched ∷ [])
      refl ((_, refl, refl), ((_, refl, refl), tt)) refl
