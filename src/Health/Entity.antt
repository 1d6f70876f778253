-- ===== src/Health/Entity.antt =====
-- internal/health/model.go: kinds, states, identities, observations, policies and entities, and the
-- part of each operation of the model that changes one entity. A state change comes back as the
-- transition that the model fires, or `none`. The clock's reading is the argument `now`.
use spyder.Prelude.{
  ℕ, ◌+◌, ◌-◌, ◌≡◌, ◌↔◌, Bool, true, false, ◌&&◌, Option, none, some, List, [], ◌∷◌, ◌++◌, String,
  Eq, string_eq, arith, ltb, leb, if◌then◌else◌, length, drop, ℤ, pos, pos_part, is_positive,
}

pub data Kind : Type 0 where
  daemon subprocess device host : Kind

pub data State : Type 0 where
  healthy degraded recovering needs_attention absent_expected absent_unexpected : State

abbrev pub max_evidence : ℕ
max_evidence = 10

pub record EntityId : Type 0 where
  pub kind : Kind
  pub name : String
  pub layer : String

pub record Observation : Type 0 where
  pub at : ℕ
  pub ok : Bool
  pub detail : String

-- `max_attempts` and `base_backoff` are a Go `int` and a `time.Duration` in nanoseconds.
pub record Policy : Type 0 where
  pub max_attempts : ℤ
  pub base_backoff : ℤ

abbrev pub zero_policy : Policy
zero_policy = record { max_attempts = pos 0; base_backoff = pos 0 }

-- The field `id` of the source is the key under which the model holds the entity.
pub record Entity : Type 0 where
  pub kind : Kind
  pub state : State
  pub policy : Policy
  pub attempts : ℕ
  pub last_probe : ℕ
  pub evidence : List Observation

-- `from` is `none` for the empty state of a first registration.
pub record Transition : Type 0 where
  pub id : EntityId
  pub from : Option State
  pub to : State
  pub at : ℕ

abbrev kind_beq : Kind → Kind → Bool
kind_beq daemon daemon = true
kind_beq subprocess subprocess = true
kind_beq device device = true
kind_beq host host = true
kind_beq _ _ = false

abbrev id_beq : EntityId → EntityId → Bool
id_beq a b = kind_beq a.kind b.kind && string_eq.beq a.name b.name && string_eq.beq a.layer b.layer

pub id_beq_iff : (a b : EntityId) → (id_beq a b ≡ true) ↔ (a ≡ b)
id_beq_iff a b = (
  ground (arith, string_eq.beq_iff a.name b.name, string_eq.beq_iff a.layer b.layer),
  ground (arith, string_eq.beq_iff a.name b.name, string_eq.beq_iff a.layer b.layer),
)

instance abbrev pub id_eq : Eq EntityId
id_eq = record { beq = id_beq; beq_iff = id_beq_iff }

-- `e.evidence = append(e.evidence, obs)`, cut to the most recent `max_evidence`.
unfoldable pub append_evidence : Entity → Observation → Entity
append_evidence e obs =
    let evidence = e.evidence ++ obs ∷ [] in
    record e {
      evidence =
          if ltb max_evidence (length evidence)
          then drop (length evidence - max_evidence) evidence
          else evidence;
    }

unfoldable pub fresh : EntityId → Policy → Entity
fresh id policy = record {
  kind = id.kind;
  state = healthy;
  policy = policy;
  attempts = 0;
  last_probe = 0;
  evidence = [];
}

-- A failing probe degrades an entity from these states only.
abbrev degradable : State → Bool
degradable healthy = true
degradable absent_expected = true
degradable absent_unexpected = true
degradable _ = false

abbrev pub is_healthy : State → Bool
is_healthy healthy = true
is_healthy _ = false

abbrev pub is_recovering : State → Bool
is_recovering recovering = true
is_recovering _ = false

abbrev pub is_needs_attention : State → Bool
is_needs_attention needs_attention = true
is_needs_attention _ = false

abbrev change : EntityId → Entity → State → ℕ → Option Transition
change id e next now = some (record { id = id; from = some e.state; to = next; at = now })

unfoldable pub observe_entity : EntityId → ℕ → Bool → String → Entity → Entity × Option Transition
unfolding append_evidence
observe_entity id now ok detail e0 =
    let e1 = append_evidence e0 (record { at = now; ok = ok; detail = detail }) in
    let e = record e1 { last_probe = now } in
    if ok
    then (if is_healthy e.state
        then (e, none)
        else (record e { state = healthy; attempts = 0 }, change id e healthy now))
    else (if degradable e.state
        then (record e { state = degraded }, change id e degraded now)
        else (e, none))

unfoldable pub start_entity : EntityId → ℕ → Entity → Entity × Option Transition
start_entity id now e =
    if is_healthy e.state
    then (e, none)
    else if is_recovering e.state
    then (e, none)
    else (record e { state = recovering }, change id e recovering now)

-- Where `RecoveryFailed` goes, from the policy and the attempts counted so far.
unfoldable pub after_failure : Policy → ℕ → State
after_failure policy attempts =
    if is_positive policy.max_attempts && leb (pos_part policy.max_attempts) attempts
    then needs_attention
    else if is_positive policy.max_attempts
    then degraded
    else recovering

unfoldable pub fail_entity : EntityId → ℕ → String → Entity → Entity × Option Transition
unfolding append_evidence after_failure
fail_entity id now detail e0 =
    let e1 = record e0 { attempts = e0.attempts + 1 } in
    let e = append_evidence e1 (record { at = now; ok = false; detail = detail }) in
    let next = after_failure e.policy e.attempts in
    (record e { state = next }, change id e next now)

unfoldable pub succeed_entity : EntityId → ℕ → Entity → Entity × Option Transition
succeed_entity id now e = (record e { state = healthy; attempts = 0 }, change id e healthy now)

unfoldable pub absent_entity : EntityId → ℕ → Bool → String → Entity → Entity × Option Transition
unfolding append_evidence
absent_entity id now expected detail e0 =
    let e1 = append_evidence e0 (record { at = now; ok = false; detail = detail }) in
    let e = record e1 { last_probe = now; attempts = 0 } in
    let next = if expected then absent_expected else absent_unexpected in
    (record e { state = next }, change id e next now)

unfoldable pub attention_entity : EntityId → ℕ → String → Entity → Entity × Option Transition
unfolding append_evidence
attention_entity id now detail e0 =
    let e1 = append_evidence e0 (record { at = now; ok = false; detail = detail }) in
    let e = record e1 { last_probe = now } in
    (
      record e { state = needs_attention },
      if is_needs_attention e.state then none else change id e needs_attention now,
    )
