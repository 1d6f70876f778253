-- ===== src/Health/Evidence.antt =====
-- internal/health/model.go, `appendEvidence`: the ring of recent observations.
use mathlib.Core.List.{append-nil, append_assoc}
use spyder.Prelude.{
  ℕ, ◌≡◌, refl, ap, ◌∙◌, sym, List, [], ◌∷◌, ◌++◌, false, arith, last_n, last_n-append,
}
use spyder.Health.Entity.{
  EntityId, Entity, Observation, Policy, max_evidence, append_evidence, fresh,
}
use spyder.Health.Calls.{
  Call, observes, starts, fails, succeeds, vanishes, alarms, step_entity, run_entity, recorded,
  observations,
}

append_evidence-last_n :
    (e : Entity) (o : Observation)
    → (append_evidence e o).evidence ≡ last_n max_evidence (e.evidence ++ o ∷ [])
unfolding append_evidence
append_evidence-last_n e o = ground (arith)

abbrev IsRing : List Observation → Type 0
IsRing xs = last_n max_evidence xs ≡ xs

step_entity-evidence :
    (id : EntityId) (now : ℕ) (c : Call) (e : Entity)
    → IsRing e.evidence
    → (step_entity id now c e).0.evidence ≡ last_n max_evidence (e.evidence ++ recorded now c)
unfolding step_entity
step_entity-evidence id now (observes ok detail) e h =
    ground (arith, append_evidence-last_n e (record { at = now; ok = ok; detail = detail }))
step_entity-evidence id now starts e h = ground (arith, append-nil e.evidence)
step_entity-evidence id now (fails detail) e h =
    append_evidence-last_n e (record { at = now; ok = false; detail = detail })
step_entity-evidence id now succeeds e h = rw append-nil (sym h)
step_entity-evidence id now (vanishes expected detail) e h =
    append_evidence-last_n e (record { at = now; ok = false; detail = detail })
step_entity-evidence id now (alarms detail) e h =
    append_evidence-last_n e (record { at = now; ok = false; detail = detail })

last_n-IsRing : (xs : List Observation) → IsRing (last_n max_evidence xs)
last_n-IsRing xs = rw append-nil at (rw append-nil at (last_n-append max_evidence xs []))

run_entity-evidence_from :
    (id : EntityId) (cs : List (ℕ × Call)) (e : Entity)
    → IsRing e.evidence
    → (run_entity id cs e).evidence ≡ last_n max_evidence (e.evidence ++ observations cs)
unfolding run_entity
run_entity-evidence_from id [] e h = rw append-nil (sym h)
run_entity-evidence_from id ((now, c) ∷ cs) e h =
    let stepped = step_entity-evidence id now c e h in
    run_entity-evidence_from id cs (step_entity id now c e).0
      (rw stepped (last_n-IsRing (e.evidence ++ recorded now c)))
    ∙ rw stepped (
        last_n-append max_evidence (e.evidence ++ recorded now c) (observations cs)
        ∙ ap (last_n max_evidence) (append_assoc e.evidence (recorded now c) (observations cs)))

-- Whatever operations an entity goes through after its registration, its evidence is the most
-- recent ten of all the observations that they recorded, oldest first.
pub run_entity-evidence :
    (id : EntityId) (policy : Policy) (cs : List (ℕ × Call))
    → (run_entity id cs (fresh id policy)).evidence ≡ last_n max_evidence (observations cs)
unfolding fresh
run_entity-evidence id policy cs = run_entity-evidence_from id cs (fresh id policy) refl
