-- ===== src/Health/Escalation.antt =====
-- internal/health/model.go: which operations reach which states, and the count of attempts.
use spyder.Prelude.{
  ℕ, ◌+◌, ◌≤◌, ◌≡◌, refl, ◌≢◌, Bool, true, false, none, some, List, [], ◌∷◌, String, arith, leb,
  if◌then◌else◌, pos, pos_part, is_positive, suc, not, All, ◌∙◌,
}
use spyder.Health.Entity.{
  EntityId, Entity, Policy, Transition, healthy, degraded, fresh, needs_attention, after_failure,
}
use spyder.Health.Calls.{
  Call, observes, starts, fails, succeeds, vanishes, alarms, step_entity, run_entity, failures,
}

-- The transition that an operation fires goes from the state before it to the state after it, at
-- the clock's reading and under the entity's identity; where it fires none, the state is unchanged.
pub step_entity-transition :
    (id : EntityId) (now : ℕ) (c : Call) (e : Entity)
    → let (e', fired) = step_entity id now c e in
      ((t : Transition)
        → fired ≡ some t
        → t ≡ record { id = id; from = some e.state; to = e'.state; at = now })
      × (fired ≡ none → e'.state ≡ e.state)
unfolding step_entity
step_entity-transition id now (observes ok detail) e = (λ t h. ground arith, λ h. ground arith)
step_entity-transition id now starts e = (λ t h. ground arith, λ h. ground arith)
step_entity-transition id now (fails detail) e = (λ t h. ground arith, λ h. ground arith)
step_entity-transition id now succeeds e = (λ t h. ground arith, λ h. ground arith)
step_entity-transition id now (vanishes expected detail) e =
    (λ t h. ground arith, λ h. ground arith)
step_entity-transition id now (alarms detail) e = (λ t h. ground arith, λ h. ground arith)

-- What it takes to need attention.
pub data Escalates (e : Entity) : Call → Type 0 where
  alarmed : (detail : String) → Escalates e (alarms detail)
  exhausted :
      (detail : String)
      → is_positive e.policy.max_attempts ≡ true
      → pos_part e.policy.max_attempts ≤ e.attempts + 1
      → Escalates e (fails detail)

-- An entity comes to need attention only by an explicit alarm, or by the failed recovery that
-- uses up a positive limit of attempts.
pub needs_attention_only :
    (id : EntityId) (now : ℕ) (c : Call) (e : Entity)
    → e.state ≢ needs_attention
    → (step_entity id now c e).0.state ≡ needs_attention
    → Escalates e c
unfolding step_entity
needs_attention_only id now (observes ok detail) e n h = absurd (ground arith)
needs_attention_only id now starts e n h = absurd (ground arith)
needs_attention_only id now (fails detail) e n h = exhausted detail (ground arith) (ground arith)
needs_attention_only id now succeeds e n h = cc
needs_attention_only id now (vanishes expected detail) e n h = absurd (ground arith)
needs_attention_only id now (alarms detail) e n h = alarmed detail

abbrev pub IsRested : Entity → Type 0
IsRested e = e.state ≡ healthy → e.attempts ≡ 0

step_entity-IsRested :
    (id : EntityId) (now : ℕ) (c : Call) (e : Entity)
    → IsRested e
    → IsRested (step_entity id now c e).0
unfolding step_entity
step_entity-IsRested id now (observes ok detail) e h = ground arith
step_entity-IsRested id now starts e h = ground arith
step_entity-IsRested id now (fails detail) e h = ground arith
step_entity-IsRested id now succeeds e h = ground arith
step_entity-IsRested id now (vanishes expected detail) e h = ground arith
step_entity-IsRested id now (alarms detail) e h = ground arith

run_entity-IsRested_from :
    (id : EntityId) (cs : List (ℕ × Call)) (e : Entity) → IsRested e → IsRested (run_entity id cs e)
unfolding run_entity
run_entity-IsRested_from id [] e h = h
run_entity-IsRested_from id ((now, c) ∷ cs) e h =
    run_entity-IsRested_from id cs (step_entity id now c e).0 (step_entity-IsRested id now c e h)

-- After any operations on a registered entity, a healthy entity has no failed attempts counted.
pub run_entity-IsRested :
    (id : EntityId) (policy : Policy) (cs : List (ℕ × Call))
    → IsRested (run_entity id cs (fresh id policy))
unfolding fresh
run_entity-IsRested id policy cs = run_entity-IsRested_from id cs (fresh id policy) (λ h. refl)

-- A recovery episode: probes that fail, recoveries that start and recoveries that fail.
abbrev pub is_episode : Call → Bool
is_episode (observes ok detail) = not ok
is_episode starts = true
is_episode (fails detail) = true
is_episode _ = false

abbrev pub IsEpisode : List (ℕ × Call) → Type 0
IsEpisode = All (λ c. is_episode c.1 ≡ true)

step_entity-attempts :
    (id : EntityId) (now : ℕ) (c : Call) (e : Entity)
    → is_episode c ≡ true
    → ((step_entity id now c e).0.attempts ≡ e.attempts + failures ((now, c) ∷ []))
      × ((step_entity id now c e).0.policy ≡ e.policy)
unfolding step_entity
step_entity-attempts id now (observes ok detail) e h = ground arith
step_entity-attempts id now starts e h = ground arith
step_entity-attempts id now (fails detail) e h = ground arith
step_entity-attempts id now succeeds e h = cc
step_entity-attempts id now (vanishes expected detail) e h = cc
step_entity-attempts id now (alarms detail) e h = cc

failures-cons :
    (now : ℕ) (c : Call) (cs : List (ℕ × Call))
    → failures ((now, c) ∷ cs) ≡ failures ((now, c) ∷ []) + failures cs
failures-cons now (observes ok detail) cs = omega arith
failures-cons now (fails detail) cs = omega arith
failures-cons now _ cs = omega arith

run_entity-attempts :
    (id : EntityId) (cs : List (ℕ × Call)) (e : Entity)
    → IsEpisode cs
    → ((run_entity id cs e).attempts ≡ e.attempts + failures cs)
      × ((run_entity id cs e).policy ≡ e.policy)
unfolding run_entity
run_entity-attempts id [] e h = (omega arith, refl)
run_entity-attempts id ((now, c) ∷ cs) e h =
    let (counted, kept) = step_entity-attempts id now c e h.0 in
    let (counted', kept') = run_entity-attempts id cs (step_entity id now c e).0 h.1 in
    (omega (arith, failures-cons now c cs, counted, counted'), kept' ∙ kept)

-- In a recovery episode under a limit of `k + 1` attempts, the failure of an attempt leaves the
-- entity in need of attention exactly when the failures of the episode, with those counted before
-- it, reach the limit; short of the limit it is degraded. Failed probes in between count nothing.
pub episode-fails :
    (id : EntityId) (now k : ℕ) (detail : String) (cs : List (ℕ × Call)) (e : Entity)
    → IsEpisode cs
    → e.policy.max_attempts ≡ pos (suc k)
    → (step_entity id now (fails detail) (run_entity id cs e)).0.state
      ≡ (if leb (suc k) (e.attempts + failures cs + 1) then needs_attention else degraded)
unfolding step_entity
episode-fails id now k detail cs e h limit =
    let (counted, kept) = run_entity-attempts id cs e h in
    rw (counted, kept, limit, after_failure) (ground arith)
