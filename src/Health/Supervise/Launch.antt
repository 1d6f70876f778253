-- ===== src/Health/Supervise/Launch.antt =====
-- internal/health/supervise.go: how the recovery of a subprocess ends.
use mathlib.Core.Path.{subst}
use spyder.Prelude.{
  ℕ, suc, ◌+◌, ◌<◌, ◌≡◌, refl, ◌∙◌, true, false, none, some, List, [], ◌∷◌, ◌++◌, String, arith,
  length, All, leb, if◌then◌else◌, pos,
}
use spyder.Health.Entity.{
  EntityId, id_eq, Entity, Policy, State, healthy, degraded, needs_attention, is_needs_attention,
  subprocess,
}
use spyder.Health.Model.{
  Model, get, register, recovery_started, recovery_failed, recovery_succeeded,
}
use spyder.Health.Calls.{step, step_entity, starts, fails, succeeds}
use spyder.Health.Frame.{get-step_of_get, get-register_self}
use spyder.Health.Supervise.{
  Attempt, Outcome, started, gave_up, attention_given, recover, start_with_recovery,
}

-- An attempt whose launch fails and whose sleep runs out.
abbrev pub Fails : Attempt → Type 0
Fails a = (text : String) × (a.error ≡ some text) × (a.slept ≡ true)

-- What is known of the entity of the process: its limit and how many attempts it has counted.
record Counted (m : Model) (id : EntityId) (limit n : ℕ) : Type 0 where
  entity : Entity
  found : get m id ≡ some entity
  limited : entity.policy.max_attempts ≡ pos limit
  counted : entity.attempts ≡ n

-- The result of the recovery: its outcome, the state of the entity and the attempts counted.
abbrev pub Ends : Model × Outcome → EntityId → Outcome → State → ℕ → Type 0
Ends (m, o) id outcome state n =
    (o ≡ outcome) × ((e : Entity) × (get m id ≡ some e) × (e.state ≡ state) × (e.attempts ≡ n))

started-Counted :
    (m : Model) (now : ℕ) (id : EntityId) (limit n : ℕ)
    → Counted m id limit n
    → Counted (recovery_started m now id).0 id limit n
unfolding step step_entity
started-Counted m now id limit n c = record {
  entity = (step_entity id now starts c.entity).0;
  found = get-step_of_get m now id starts c.entity c.found;
  limited = ground (arith, c.limited);
  counted = ground (arith, c.counted);
}

failed-Counted :
    (m : Model) (now : ℕ) (id : EntityId) (text : String) (k n : ℕ)
    → Counted m id (suc k) n
    → Counted (recovery_failed m now id text).0 id (suc k) (suc n)
      × ((e : Entity) × (get (recovery_failed m now id text).0 id ≡ some e)
          × (e.state ≡ (if leb (suc k) (suc n) then needs_attention else degraded))
          × (e.attempts ≡ suc n))
unfolding step step_entity
failed-Counted m now id text k n c =
    let found = get-step_of_get m now id (fails text) c.entity c.found in
    let count : c.entity.attempts + 1 ≡ suc n = omega (arith, c.counted) in
    (
      record { entity = _; found = found; limited = c.limited; counted = count },
      (_, found, ground (arith, c.limited, count), count),
    )

recover-give_up :
    (m : Model) (id : EntityId) (a : Attempt) (rest : List Attempt) (text : String)
    → a.error ≡ some text
    → attention_given (get (recovery_failed m a.at id text).0 id) ≡ true
    → recover m id (a ∷ rest) ≡ ((recovery_failed m a.at id text).0, gave_up)
unfolding recover
recover-give_up m id a rest text failed attention = rw (failed, recover) (rw attention)

recover-go_on :
    (m : Model) (id : EntityId) (a : Attempt) (rest : List Attempt) (text : String)
    → a.error ≡ some text
    → a.slept ≡ true
    → attention_given (get (recovery_failed m a.at id text).0 id) ≡ false
    → recover m id (a ∷ rest)
      ≡ recover (recovery_started (recovery_failed m a.at id text).0 a.next_at id).0 id rest
unfolding recover
recover-go_on m id a rest text failed slept attention = rw (failed, recover) (rw (attention, slept))

recover-started :
    (m : Model) (id : EntityId) (a : Attempt) (rest : List Attempt)
    → a.error ≡ none
    → recover m id (a ∷ rest) ≡ ((recovery_succeeded m a.at id).0, started)
unfolding recover
recover-started m id a rest success = rw (success, recover)

attention_of_state :
    (m : Model) (id : EntityId) (e : Entity) (s : State)
    → get m id ≡ some e
    → e.state ≡ s
    → attention_given (get m id) ≡ is_needs_attention s
attention_of_state m id e s found state = rw (found, state)

-- The first of the failing attempts short of the limit leaves the rest to be made.
first_failure :
    (m : Model) (id : EntityId) (k n : ℕ) (a : Attempt) (rest : List Attempt)
    → Fails a
    → suc n < suc k
    → Counted m id (suc k) n
    → (m' : Model) × Counted m' id (suc k) (suc n) × (recover m id (a ∷ rest) ≡ recover m' id rest)
first_failure m id k n a rest (text, failed, slept) room c =
    let (counted, (e, found, state, attempts)) = failed-Counted m a.at id text k n c in
    (
      _,
      started-Counted _ a.next_at id (suc k) (suc n) counted,
      recover-go_on m id a rest text failed slept
          (attention_of_state _ id e degraded found (state ∙ ground arith)),
    )

last_failure :
    (m : Model) (id : EntityId) (k : ℕ) (a : Attempt) (rest : List Attempt)
    → Fails a
    → Counted m id (suc k) k
    → Ends (recover m id (a ∷ rest)) id gave_up needs_attention (suc k)
last_failure m id k a rest (text, failed, slept) c =
    let (counted, (e, found, state, attempts)) = failed-Counted m a.at id text k k c in
    let attention : e.state ≡ needs_attention = state ∙ ground arith in
    rw
      (recover-give_up m id a rest text failed
        (attention_of_state _ id e needs_attention found attention))
      (refl, (e, found, attention, attempts))

recover-exhausts :
    (m : Model) (id : EntityId) (k n : ℕ) (fs rest : List Attempt)
    → All Fails fs
    → n + length fs ≡ suc k
    → n < suc k
    → Counted m id (suc k) n
    → Ends (recover m id (fs ++ rest)) id gave_up needs_attention (suc k)
recover-exhausts m id k n [] rest h len room c = absurd (omega arith)
recover-exhausts m id k n (a ∷ []) rest h len room c =
    let last : n ≡ k = omega arith in
    last_failure m id k a rest h.0 (subst (Counted m id (suc k)) last c)
recover-exhausts m id k n (a ∷ b ∷ fs) rest h len room c =
    let (m', counted, on) = first_failure m id k n a ((b ∷ fs) ++ rest) h.0 (omega arith) c in
    rw on (recover-exhausts m' id k (suc n) (b ∷ fs) rest h.1 (omega arith) (omega arith) counted)

recover-starts :
    (m : Model) (id : EntityId) (k n : ℕ) (fs rest : List Attempt) (a : Attempt)
    → All Fails fs
    → a.error ≡ none
    → n + length fs < suc k
    → Counted m id (suc k) n
    → Ends (recover m id (fs ++ a ∷ rest)) id started healthy 0
unfolding step step_entity
recover-starts m id k n [] rest a h success len c =
    rw (recover-started m id a rest success)
      (refl, (_, get-step_of_get m a.at id succeeds c.entity c.found, refl, refl))
recover-starts m id k n (b ∷ fs) rest a h success len c =
    let (m', counted, on) = first_failure m id k n b (fs ++ a ∷ rest) h.0 (omega arith) c in
    rw on (recover-starts m' id k (suc n) fs rest a h.1 success (omega arith) counted)

-- The model in which `Supervise` makes the first launch of a process.
abbrev pub registered : Model → ℕ → EntityId → Policy → Model
registered m t id policy = (register m t id subprocess policy).0

registered-Counted :
    (m : Model) (t t' : ℕ) (id : EntityId) (policy : Policy) (limit : ℕ)
    → policy.max_attempts ≡ pos limit
    → Counted (recovery_started (registered m t id policy) t' id).0 id limit 0
registered-Counted m t t' id policy limit h = started-Counted _ t' id limit 0 (record {
  entity = _;
  found = get-register_self m t id subprocess policy;
  limited = h;
  counted = refl;
})

-- Under a limit of `k + 1` attempts, a process that was just registered and fails to start `k + 1`
-- times is given up after exactly those attempts, whatever would come later, and needs attention.
pub launch-exhausts :
    (m : Model) (t t' : ℕ) (id : EntityId) (policy : Policy) (k : ℕ) (fs rest : List Attempt)
    → policy.max_attempts ≡ pos (suc k)
    → All Fails fs
    → length fs ≡ suc k
    → Ends
        (start_with_recovery (registered m t id policy) t' id (fs ++ rest))
        id
        gave_up
        needs_attention
        (suc k)
unfolding start_with_recovery
launch-exhausts m t t' id policy k fs rest limit h len =
    recover-exhausts _ id k 0 fs rest h (omega arith) (omega arith)
      (registered-Counted m t t' id policy (suc k) limit)

-- A process that starts before its limit of failures is reached is running and healthy, with no
-- failed attempts left counted.
pub launch-starts :
    (m : Model) (t t' : ℕ) (id : EntityId) (policy : Policy) (k : ℕ) (fs rest : List Attempt)
    (a : Attempt)
    → policy.max_attempts ≡ pos (suc k)
    → All Fails fs
    → a.error ≡ none
    → length fs < suc k
    → Ends
        (start_with_recovery (registered m t id policy) t' id (fs ++ a ∷ rest))
        id
        started
        healthy
        0
unfolding start_with_recovery
launch-starts m t t' id policy k fs rest a limit h success len =
    recover-starts _ id k 0 fs rest a h success (omega arith)
      (registered-Counted m t t' id policy (suc k) limit)
