-- ===== src/Health/Watchdog.antt =====
-- internal/health/watchdog.go: the progress watchdog of one long operation. The watchdog's clock
-- and the model's clock are read separately. A call changes the watchdog under its lock, and makes its calls
-- on the model one by one after the unlock, so other goroutines come in between.
pub mod Flags
pub mod Races
use spyder.Prelude.{
  ℕ, ◌+◌, Bool, true, false, ◌||◌, not, List, [], ◌∷◌, ◌==◌, String, if◌then◌else◌, leb, ℤ, pos,
  pos_part, neg_part, is_zero, sub_ℕ, str_append,
}
use spyder.Health.Entity.{Kind, EntityId, daemon, Policy}
use spyder.Health.Model.{Model, register}
use spyder.Health.Calls.{Call, observes, starts, fails, succeeds, step}

pub record Watchdog : Type 0 where
  pub id : EntityId
  pub timeout : ℤ
  pub outstanding : Bool
  pub last_progress : ℕ
  pub stalled : Bool

abbrev pub watchdog_policy : Policy
watchdog_policy = record { max_attempts = pos 1; base_backoff = pos 0 }

-- `lastProgress` starts at the zero time, and the entity is registered at the model's time `t`.
unfoldable pub new_watchdog : Model → ℕ → String → ℤ → Watchdog × Model
new_watchdog m t name timeout =
    let id : EntityId = record { kind = daemon; name = name; layer = "" } in
    (
      record {
        id = id;
        timeout = timeout;
        outstanding = false;
        last_progress = 0;
        stalled = false;
      },
      (register m t id daemon watchdog_policy).0,
    )

unfoldable pub begin : Watchdog → ℕ → Watchdog
begin w now = record w { outstanding = true; last_progress = now; stalled = false }

unfoldable pub beat : Watchdog → ℕ → Watchdog
beat w now = record w { last_progress = now; stalled = false }

-- The operation ends; an entity whose stall was flagged is to recover.
unfoldable pub done : Watchdog → Watchdog × List Call
done w =
    (record w { outstanding = false; stalled = false }, if w.stalled then succeeds ∷ [] else [])

-- `now.Sub(lastProgress) <= timeout`.
abbrev pub in_time : Watchdog → ℕ → Bool
in_time w now = leb (now + neg_part w.timeout) (w.last_progress + pos_part w.timeout)

-- The three calls that drive the model to attention.
abbrev pub escalation : String → String → List Call
escalation seen failed = observes false seen ∷ starts ∷ fails failed ∷ []

abbrev pub stall_message : String → String
stall_message elapsed = str_append "no progress for " (str_append elapsed ": wedged-but-alive")

-- `show` prints the elapsed time, a `time.Duration` rounded to milliseconds.
unfoldable pub check : (ℤ → String) → Watchdog → ℕ → Watchdog × List Call × Bool
check show w now =
    if not w.outstanding || w.stalled || in_time w now
    then (w, [], false)
    else (let message = stall_message (show (sub_ℕ now w.last_progress)) in
        (
          record w { stalled = true },
          escalation message (str_append "wedged-but-alive: " message),
          true,
        ))

abbrev default_detail : String → String
default_detail String.[] = "wedged-but-alive: forced after dispatch deadline"
default_detail (String.◌∷◌ c s) = String.◌∷◌ c s

-- On a watchdog that is not nil.
unfoldable pub force_stall : Watchdog → String → Watchdog × List Call × Bool
force_stall w detail0 =
    if not w.outstanding || w.stalled
    then (w, [], false)
    else (let detail = default_detail detail0 in
        (record w { stalled = true }, escalation detail detail, true))

-- The calls of the watchdog, and those that a goroutine makes on it.
pub data Entry : Type 0 where
  begins : ℕ → Entry
  beats : ℕ → Entry
  dones : Entry
  checks : ℕ → Entry
  forces : String → Entry

-- The watchdog, the model, and what each goroutine still has to call on the model.
pub record Guarded : Type 0 where
  pub watchdog : Watchdog
  pub model : Model
  pub todo : ℕ → List Call

abbrev pub put_todo : (ℕ → List Call) → ℕ → List Call → ℕ → List Call
put_todo todo i cs j = if i == j then cs else todo j

-- A goroutine enters a call of the watchdog, up to the unlock; or it makes the next of its calls on the model;
-- or anybody else calls the model or registers an entity.
pub data Action : Type 0 where
  enters : Entry → Action
  drives : ℕ → Action
  calls : ℕ → EntityId → Call → Action
  registers : ℕ → EntityId → Kind → Policy → Action

-- The part of a call under the watchdog's lock; the Boolean says that it flags a stall.
unfoldable pub enter : (ℤ → String) → Watchdog → Entry → Watchdog × List Call × Bool
unfolding begin beat done check force_stall
enter show w (begins now) = (begin w now, [], false)
enter show w (beats now) = (beat w now, [], false)
enter show w dones = let (w', cs) = done w in (w', cs, false)
enter show w (checks now) = check show w now
enter show w (forces detail) = force_stall w detail

abbrev pub entered : Guarded → ℕ → Watchdog × List Call × Bool → Guarded
entered s i (w, cs, fired) = record s { watchdog = w; todo = put_todo s.todo i cs }

-- A goroutine that has calls left does not enter another.
abbrev pub enter_free : (ℤ → String) → Guarded → ℕ → Entry → List Call → Guarded
enter_free show s i e [] = entered s i (enter show s.watchdog e)
enter_free show s i e (c ∷ cs) = s

abbrev pub drive : Guarded → ℕ → ℕ → List Call → Guarded
drive s i t [] = s
drive s i t (c ∷ cs) = record s {
  model = (step s.model t s.watchdog.id c).0;
  todo = put_todo s.todo i cs;
}

unfoldable pub act : (ℤ → String) → Guarded → ℕ → Action → Guarded
unfolding enter step register
act show s i (enters e) = enter_free show s i e (s.todo i)
act show s i (drives t) = drive s i t (s.todo i)
act show s i (calls t id c) = record s { model = (step s.model t id c).0 }
act show s i (registers t id kind policy) = record s {
  model = (register s.model t id kind policy).0;
}

unfoldable pub act_all : (ℤ → String) → Guarded → List (ℕ × Action) → Guarded
unfolding act
act_all show s [] = s
act_all show s ((i, a) ∷ rest) = act_all show (act show s i a) rest
