-- ===== src/Health/Frame.antt =====
-- internal/health/model.go: what an operation does to the map of entities.
use spyder.Prelude.{
  ℕ, ◌≡◌, Option, none, some, if◌then◌else◌, lookup-insert, beq_self, ◌∙◌, Option-cases, inl, inr,
}
use spyder.Health.Entity.{Kind, EntityId, Policy, Entity, id_eq, fresh}
use spyder.Health.Model.{Model, get, ensure_entity, register}
use spyder.Health.Calls.{Call, step_entity, step, step-commit}

-- An operation changes the entity that it names, registering it with the zero policy if it is
-- new, and leaves every other entity as it was.
pub get-step :
    (m : Model) (now : ℕ) (id j : EntityId) (c : Call)
    → get (step m now id c).0 j
      ≡ (if id_eq.beq id j then some (step_entity id now c (ensure_entity m id)).0 else get m j)
get-step m now id j c =
    rw (step-commit m now id c)
      (lookup-insert id j (step_entity id now c (ensure_entity m id)).0 m.entities)

abbrev pub entity_or_new : Kind → Policy → EntityId → Option Entity → Entity
entity_or_new kind policy id none = record (fresh id policy) { kind = kind }
entity_or_new kind policy id (some e) = e

-- What a registration makes of the entity that it finds, or does not find.
abbrev pub registered_entity : Kind → Policy → EntityId → Option Entity → Entity
registered_entity kind policy id found = record (entity_or_new kind policy id found) {
  policy = policy;
  attempts = 0;
}

-- A registration keeps a known entity's state and evidence under the new policy with no attempts
-- counted, creates an unknown one healthy, and leaves every other entity as it was.
pub get-register :
    (m : Model) (now : ℕ) (id j : EntityId) (kind : Kind) (policy : Policy)
    → get (register m now id kind policy).0 j
      ≡ (if id_eq.beq id j then some (registered_entity kind policy id (get m id)) else get m j)
unfolding register fresh
get-register m now id j kind policy = elim (Option-cases (get m id)) [
  | inl e ↦
      rw (e, register) (lookup-insert id j (record (fresh id policy) { kind = kind }) m.entities)
  | inr (found, e) ↦
      rw (e, register)
        (lookup-insert id j (record found { policy = policy; attempts = 0 }) m.entities)
]

-- The entity that an operation leaves, where it finds one.
pub get-step_of_get :
    (m : Model) (now : ℕ) (id : EntityId) (c : Call) (e : Entity)
    → get m id ≡ some e
    → get (step m now id c).0 id ≡ some (step_entity id now c e).0
unfolding ensure_entity
get-step_of_get m now id c e h = rw (get-step m now id id c, beq_self id, h, ensure_entity)

pub get-register_self :
    (m : Model) (now : ℕ) (id : EntityId) (kind : Kind) (policy : Policy)
    → get (register m now id kind policy).0 id ≡ some (registered_entity kind policy id (get m id))
get-register_self m now id kind policy = get-register m now id id kind policy ∙ rw (beq_self id)
