-- ===== src/Health/SelfRestart.antt =====
-- internal/health/self_restart.go: the limit on how often the daemon exits for a relaunch.
pub mod Rate
mod Tests
use spyder.Prelude.{
  ℕ, ◌+◌, ◌≤◌, ◌<◌, Bool, true, false, List, [], ◌∷◌, ◌++◌, if◌then◌else◌, ltb, leb, length, select,
  ℤ, pos_part, is_positive, suc,
}

-- `attempts` are the times of the exits that count, oldest first. Dumping and exiting are the effects
-- of a granted request.
pub record Limiter : Type 0 where
  pub window : ℕ
  pub max : ℕ
  pub attempts : List ℕ
  pub snapshots : ℕ

abbrev pub hour : ℕ
hour = 3_600_000_000_000

unfoldable pub new_limiter : ℤ → ℤ → Limiter
new_limiter max window = record {
  window = if is_positive window then pos_part window else hour;
  max = if is_positive max then pos_part max else 3;
  attempts = [];
  snapshots = 0;
}

-- `t.After(now.Add(-window))`.
abbrev pub recent : ℕ → ℕ → ℕ → Bool
recent window now t = ltb now (t + window)

-- The Boolean says that the daemon exits.
unfoldable pub request : Limiter → ℕ → Limiter × Bool
request l now =
    let kept = select (recent l.window now) l.attempts in
    if leb l.max (length kept)
    then (record l { attempts = kept }, false)
    else (record l { attempts = kept ++ now ∷ []; snapshots = l.snapshots + 1 }, true)

-- The times of the requests that were granted, oldest first.
unfoldable pub granted : Limiter → List ℕ → List ℕ
granted l [] = []
granted l (now ∷ nows) =
    let (l', exits) = request l now in
    let later = granted l' nows in if exits then now ∷ later else later
