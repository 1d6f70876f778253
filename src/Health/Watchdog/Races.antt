-- ===== src/Health/Watchdog/Races.antt =====
-- internal/health/watchdog.go: an operation that ends while its stall is still being reported.
use spyder.Prelude.{ℕ, Option, none, some, List, [], ◌∷◌}
use spyder.Health.Entity.{EntityId, Entity, State}
use spyder.Health.Model.{Model}
use spyder.Health.Calls.{Call, step}
use spyder.Health.Watchdog.{Watchdog, dones, checks, Action, enters, drives}

abbrev pub state_of : Option Entity → Option State
state_of none = none
state_of (some e) = some e.state

abbrev run_calls : Model → EntityId → List (ℕ × Call) → Model
run_calls m id [] = m
run_calls m id ((t, c) ∷ cs) = run_calls (step m t id c).0 id cs

-- Goroutine `i` checks at `now`, goroutine `j` ends the operation and tells the model, and then `i` makes
-- the calls of its check.
abbrev pub racing : ℕ → ℕ → ℕ → ℕ → ℕ → ℕ → ℕ → List (ℕ × Action)
racing i j now u t t' t'' =
    (i, enters (checks now))
    ∷ (j, enters dones)
    ∷ (j, drives u)
    ∷ (i, drives t)
    ∷ (i, drives t')
    ∷ (i, drives t'')
    ∷ []
