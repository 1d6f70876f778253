-- ===== src/Health/Calls.antt =====
-- The operations of the model as values, so that a theorem can range over all of them and over
-- their sequences.
use spyder.Prelude.{ℕ, ◌≡◌, refl, Bool, Option, List, [], ◌∷◌, ◌++◌, String, false, suc}
use spyder.Health.Entity.{
  EntityId, Entity, Observation, Transition, observe_entity, start_entity, fail_entity,
  succeed_entity, absent_entity, attention_entity,
}
use spyder.Health.Model.{
  Model, commit, ensure_entity, observe, recovery_started, recovery_failed, recovery_succeeded,
  mark_absent, mark_needs_attention,
}

pub data Call : Type 0 where
  observes : Bool → String → Call
  starts : Call
  fails : String → Call
  succeeds : Call
  vanishes : Bool → String → Call
  alarms : String → Call

unfoldable pub step_entity : EntityId → ℕ → Call → Entity → Entity × Option Transition
unfolding observe_entity start_entity fail_entity succeed_entity absent_entity attention_entity
step_entity id now (observes ok detail) e = observe_entity id now ok detail e
step_entity id now starts e = start_entity id now e
step_entity id now (fails detail) e = fail_entity id now detail e
step_entity id now succeeds e = succeed_entity id now e
step_entity id now (vanishes expected detail) e = absent_entity id now expected detail e
step_entity id now (alarms detail) e = attention_entity id now detail e

unfoldable pub step : Model → ℕ → EntityId → Call → Model × Option Transition
unfolding observe recovery_started recovery_failed recovery_succeeded mark_absent
    mark_needs_attention
step m now id (observes ok detail) = observe m now id ok detail
step m now id starts = recovery_started m now id
step m now id (fails detail) = recovery_failed m now id detail
step m now id succeeds = recovery_succeeded m now id
step m now id (vanishes expected detail) = mark_absent m now id expected detail
step m now id (alarms detail) = mark_needs_attention m now id detail

-- Each operation of the model is its operation on the entity, stored under the identity.
pub step-commit :
    (m : Model) (now : ℕ) (id : EntityId) (c : Call)
    → step m now id c ≡ commit m id (step_entity id now c (ensure_entity m id))
unfolding step step_entity
step-commit m now id (observes ok detail) = refl
step-commit m now id starts = refl
step-commit m now id (fails detail) = refl
step-commit m now id succeeds = refl
step-commit m now id (vanishes expected detail) = refl
step-commit m now id (alarms detail) = refl

unfoldable pub run_entity : EntityId → List (ℕ × Call) → Entity → Entity
run_entity id [] e = e
run_entity id ((now, c) ∷ cs) e = run_entity id cs (step_entity id now c e).0

-- What a call adds to the evidence.
abbrev pub recorded : ℕ → Call → List Observation
recorded now (observes ok detail) = record { at = now; ok = ok; detail = detail } ∷ []
recorded now starts = []
recorded now (fails detail) = record { at = now; ok = false; detail = detail } ∷ []
recorded now succeeds = []
recorded now (vanishes expected detail) = record { at = now; ok = false; detail = detail } ∷ []
recorded now (alarms detail) = record { at = now; ok = false; detail = detail } ∷ []

abbrev pub observations : List (ℕ × Call) → List Observation
observations [] = []
observations ((now, c) ∷ cs) = recorded now c ++ observations cs

abbrev pub failures : List (ℕ × Call) → ℕ
failures [] = 0
failures ((now, fails detail) ∷ cs) = suc (failures cs)
failures ((now, c) ∷ cs) = failures cs
