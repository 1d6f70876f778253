-- ===== src/Health/SelfRestart/Rate.antt =====
-- internal/health/self_restart.go: the rate of restarts.
use mathlib.Core.List.{append-nil, append_assoc}
use spyder.Prelude.{
  ℕ, ◌+◌, ◌≤◌, ◌<◌, ◌≡◌, refl, ◌∙◌, sym, ap, Bool, List, [], ◌∷◌, ◌++◌, arith, leb, length,
  length-append, select, length-select-le, ℤ, Bool-cases, inl, inr,
}
use spyder.Health.SelfRestart.{Limiter, new_limiter, recent, request, granted}

select-append {ℓ} :
    {A : Type ℓ} (p : A → Bool) (xs ys : List A) → select p (xs ++ ys) ≡ select p xs ++ select p ys
select-append p [] ys = refl
select-append p (x ∷ xs) ys = ground (arith, select-append p xs ys)

-- What an earlier prune drops, a later one would drop too.
select-recent :
    (window now later : ℕ) (xs : List ℕ)
    → now ≤ later
    → select (recent window later) (select (recent window now) xs) ≡ select (recent window later) xs
select-recent window now later [] h = refl
select-recent window now later (x ∷ xs) h = ground (arith, select-recent window now later xs)

-- Request times that do not fall, from `last` up to `now`.
abbrev pub Rising : ℕ → List ℕ → ℕ → Type 0
Rising last [] now = last ≤ now
Rising last (t ∷ ts) now = (last ≤ t) × Rising t ts now

Rising-le : (last : ℕ) (ts : List ℕ) (now : ℕ) → Rising last ts now → last ≤ now
Rising-le last [] now h = h
Rising-le last (t ∷ ts) now h = omega (arith, Rising-le t ts now h.1)

-- The attempts that the limiter keeps are, for every later time, the recent part of the history.
record Tracks (window max last : ℕ) (attempts history : List ℕ) : Type 0 where
  same :
      (now : ℕ)
      → last ≤ now
      → select (recent window now) attempts ≡ select (recent window now) history
  few : length attempts ≤ max

refused-Tracks :
    {window max last : ℕ} {attempts history : List ℕ} (now : ℕ)
    → last ≤ now
    → Tracks window max last attempts history
    → Tracks window max now (select (recent window now) attempts) history
refused-Tracks {window} {max} {last} {attempts} {history} now h t = record {
  same = λ later k. select-recent window now later attempts k ∙ t.same later (omega arith);
  few = omega (arith, length-select-le (recent window now) attempts, t.few);
}

granted-Tracks :
    {window max last : ℕ} {attempts history : List ℕ} (now : ℕ)
    → last ≤ now
    → length (select (recent window now) attempts) < max
    → Tracks window max last attempts history
    → Tracks window max now (select (recent window now) attempts ++ now ∷ []) (history ++ now ∷ [])
granted-Tracks {window} {max} {last} {attempts} {history} now h room t =
    let kept = select (recent window now) attempts in
    record {
      same = λ later k.
          select-append (recent window later) kept (now ∷ [])
          ∙ ap (λ xs. xs ++ select (recent window later) (now ∷ []))
              (select-recent window now later attempts k ∙ t.same later (omega arith))
          ∙ sym (select-append (recent window later) history (now ∷ []));
      few = omega (arith, length-append kept (now ∷ []));
    }

recent-le :
    {window max last : ℕ} {attempts history : List ℕ} (now : ℕ)
    → last ≤ now
    → Tracks window max last attempts history
    → length (select (recent window now) history) ≤ max
recent-le {window} {max} {last} {attempts} {history} now h t =
    omega (arith, ap length (t.same now h), length-select-le (recent window now) attempts, t.few)

granted-rate :
    (l : Limiter) (last : ℕ) (history ts : List ℕ) (now : ℕ)
    → Rising last ts now
    → Tracks l.window l.max last l.attempts history
    → length (select (recent l.window now) (history ++ granted l ts)) ≤ l.max
unfolding granted request
granted-rate l last history [] now h t = rw append-nil (recent-le now h t)
granted-rate l last history (at ∷ ts) now h t =
    let kept = select (recent l.window at) l.attempts in
    elim (Bool-cases (leb l.max (length kept))) [
      | inl full ↦ rw full (
          granted-rate (record l { attempts = kept }) at history ts now h.1
            (refused-Tracks at h.0 t))
      | inr room ↦
          rw
            (
              room,
              ← append_assoc history (at ∷ []) (
                  granted (record l { attempts = kept ++ at ∷ []; snapshots = l.snapshots + 1 })
                    ts),
            )
            (granted-rate (record l { attempts = kept ++ at ∷ []; snapshots = l.snapshots + 1 }) at
              (history ++ at ∷ []) ts now h.1 (granted-Tracks at h.0 (ground arith) t))
    ]

-- Under a clock that does not go back, however often restarts are requested of a new limiter, the
-- restarts granted within one window before any moment are never more than its limit.
pub granted-rate_le :
    (max window : ℤ) (last : ℕ) (ts : List ℕ) (now : ℕ)
    → Rising last ts now
    → length
        (select (recent (new_limiter max window).window now) (granted (new_limiter max window) ts))
      ≤ (new_limiter max window).max
unfolding new_limiter
granted-rate_le max window last ts now h =
    granted-rate (new_limiter max window) last [] ts now h
      (record { same = λ later k. refl; few = omega arith })
