-- ===== src/Health/SelfRestart/Tests.antt =====
-- internal/health/self_restart.go: four requests for an exit.
use spyder.Prelude.{◌≤◌, ◌≡◌, refl, [], ◌∷◌, arith, length, select, pos}
use spyder.Health.Entity.{id_eq}
use spyder.Health.SelfRestart.{new_limiter, request, granted, recent}
use spyder.Health.SelfRestart.Rate.{granted-rate_le}

granted-rate_le_example :
    length (
      select
        (recent (new_limiter (pos 2) (pos 100)).window 40)
        (granted (new_limiter (pos 2) (pos 100)) (10 ∷ 20 ∷ 30 ∷ [])))
    ≤ (new_limiter (pos 2) (pos 100)).max
granted-rate_le_example = granted-rate_le (pos 2) (pos 100) 0 (10 ∷ 20 ∷ 30 ∷ []) 40 (omega arith)

-- The third request within the window is refused.
third_refused :
    granted (new_limiter (pos 2) (pos 100)) (10 ∷ 20 ∷ 30 ∷ 120 ∷ []) ≡ 10 ∷ 20 ∷ 120 ∷ []
unfolding granted request new_limiter
third_refused = refl
