-- ===== src/Health/Supervise.antt =====
-- internal/health/supervise.go: the supervisor of a subprocess. What the process, the timer and the
-- clock do is a list of attempts; the list ends where the supervisor is still waiting for them.
pub mod Launch
use spyder.Prelude.{ℕ, Bool, true, false, Option, none, some, List, [], ◌∷◌, String, if◌then◌else◌}
use spyder.Health.Entity.{EntityId, Policy, Entity, subprocess, needs_attention, is_needs_attention}
use spyder.Health.Model.{
  Model, get, register, observe, recovery_started, recovery_failed, recovery_succeeded,
}

-- One round of `startWithRecovery`: the result of `proc.Start` (`none` is success) and the model's
-- time after it, the model's time at the next `RecoveryStarted`, and whether the sleep ran out.
pub record Attempt : Type 0 where
  pub error : Option String
  pub at : ℕ
  pub next_at : ℕ
  pub slept : Bool

pub data Outcome : Type 0 where
  started gave_up cancelled waiting : Outcome

-- `snap, ok := s.model.Get(id); ok && snap.State == NeedsAttention`.
abbrev pub attention_given : Option Entity → Bool
attention_given none = false
attention_given (some e) = is_needs_attention e.state

unfoldable pub recover : Model → EntityId → List Attempt → Model × Outcome
recover m id [] = (m, waiting)
recover m id (a ∷ rest) = elim a.error [
  | none ↦ ((recovery_succeeded m a.at id).0, started)
  | some text ↦
      let failed = (recovery_failed m a.at id text).0 in
      let retried = (recovery_started failed a.next_at id).0 in
      elim (attention_given (get failed id)) [
        | true ↦ (failed, gave_up)
        | false ↦ elim a.slept [ false ↦ (retried, cancelled) | true ↦ recover retried id rest ]
      ]
]

unfoldable pub start_with_recovery : Model → ℕ → EntityId → List Attempt → Model × Outcome
start_with_recovery m now id = recover (recovery_started m now id).0 id

-- A tick of the supervisor: whether the process was alive, the model's times of the observation
-- and of the `RecoveryStarted` after it, and the attempts that a dead process takes.
pub record Tick : Type 0 where
  pub alive : Bool
  pub at : ℕ
  pub start_at : ℕ
  pub attempts : List Attempt

unfoldable pub tick : Model → EntityId → Tick → Model
tick m id k =
    if k.alive
    then (observe m k.at id true "alive").0
    else (start_with_recovery (observe m k.at id false "process exited").0 k.start_at id
        k.attempts).0

unfoldable pub ticks : Model → EntityId → List Tick → Model
ticks m id [] = m
ticks m id (k ∷ ks) = ticks (tick m id k) id ks

-- `Supervise` up to the cancellation of its context: the initial launch, then the ticks.
unfoldable pub supervise : Model → ℕ → ℕ → String → Policy → List Attempt → List Tick → Model
supervise m t t' name policy launch ks =
    let id : EntityId = record { kind = subprocess; name = name; layer = "" } in
    let registered = (register m t id subprocess policy).0 in
    ticks (start_with_recovery registered t' id launch).0 id ks
