-- ===== src/Health/Model.antt =====
-- internal/health/model.go: the model, a map from identities to entities. Each operation takes the
-- clock's reading and returns the new model with the transition that it fires.
use spyder.Prelude.{
  ℕ, zero, suc, ◌*◌, ◌%◌, ◌^◌, Bool, Option, none, some, List, String, lookup, insert,
  if◌then◌else◌, ℤ, pos, is_zero, to_word, of_word, word, min,
}
use spyder.Health.Entity.{
  Kind, EntityId, Policy, Entity, Transition, healthy, zero_policy, id_eq, fresh, observe_entity,
  start_entity, fail_entity, succeed_entity, absent_entity, attention_entity,
}

pub record Model : Type 0 where
  pub entities : List (EntityId × Entity)

abbrev pub get : Model → EntityId → Option Entity
get m id = lookup id m.entities

-- `m.entities[id] = e`.
abbrev pub put : Model → EntityId → Entity → Model
put m id e = record { entities = insert id e m.entities }

-- The entity under `id`, or a new one with the zero policy. What follows stores it in every case.
unfoldable pub ensure_entity : Model → EntityId → Entity
unfolding fresh
ensure_entity m id = elim (get m id) [ none ↦ fresh id zero_policy | some e ↦ e ]

abbrev pub commit : Model → EntityId → Entity × Option Transition → Model × Option Transition
commit m id (e, t) = (put m id e, t)

unfoldable pub register : Model → ℕ → EntityId → Kind → Policy → Model × Transition
unfolding fresh
register m now id kind policy = elim (get m id) [
  | none ↦ (
    put m id (record (fresh id policy) { kind = kind }),
    record { id = id; from = none; to = healthy; at = now },
  )
  | some e ↦ (
    put m id (record e { policy = policy; attempts = 0 }),
    record { id = id; from = some e.state; to = e.state; at = now },
  )
]

unfoldable pub observe : Model → ℕ → EntityId → Bool → String → Model × Option Transition
observe m now id ok detail = commit m id (observe_entity id now ok detail (ensure_entity m id))

unfoldable pub recovery_started : Model → ℕ → EntityId → Model × Option Transition
recovery_started m now id = commit m id (start_entity id now (ensure_entity m id))

unfoldable pub recovery_failed : Model → ℕ → EntityId → String → Model × Option Transition
recovery_failed m now id detail = commit m id (fail_entity id now detail (ensure_entity m id))

unfoldable pub recovery_succeeded : Model → ℕ → EntityId → Model × Option Transition
recovery_succeeded m now id = commit m id (succeed_entity id now (ensure_entity m id))

unfoldable pub mark_absent : Model → ℕ → EntityId → Bool → String → Model × Option Transition
mark_absent m now id expected detail =
    commit m id (absent_entity id now expected detail (ensure_entity m id))

unfoldable pub mark_needs_attention : Model → ℕ → EntityId → String → Model × Option Transition
mark_needs_attention m now id detail =
    commit m id (attention_entity id now detail (ensure_entity m id))

-- `base * (1 << uint(shift))` in `int64`, which wraps.
unfoldable pub scaled : ℤ → ℕ → ℤ
scaled base shift = of_word (to_word base * 2 ^ shift % word)

-- The delay for a base and a count of attempts; the shift stops at 62.
unfoldable pub backoff : ℤ → ℕ → ℤ
unfolding scaled
backoff base zero = base
backoff base (suc n) = scaled base (min n 62)

unfoldable pub next_backoff : Model → EntityId → ℤ
next_backoff m id = elim (get m id) [
  | none ↦ pos 0
  | some e ↦
      if is_zero e.policy.base_backoff then pos 0 else backoff e.policy.base_backoff e.attempts
]
