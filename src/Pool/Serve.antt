-- ===== src/Pool/Serve.antt =====
-- internal/pool/pool.go: the pool's calls as values, and histories of them.
use spyder.Prelude.{
  ℕ, ◌≡◌, ap, ◌∙◌, Bool, true, false, some, List, [], ◌∷◌, String, string_eq, lookup, Bool-cases,
  Option-cases, inl, inr,
}
use spyder.Pool.{Instance, World, Pool, is_blank, reload, find_template, reserved}
use spyder.Pool.Calls.{acquire, release, on_linger_expired, force_shutdown, warm}
use spyder.Pool.Sound.{Run, stays, IsSound, Run-IsSound}
use spyder.Pool.Held.{Run-held}
use spyder.Pool.Steps.{both, reload-Run, reload_same}
use spyder.Pool.Acquire.{acquire_from-Run}
use spyder.Pool.Retire.{release-Run, on_linger_expired-Run}
use spyder.Pool.Drain.{force_shutdown-Run}
use spyder.Pool.Warmth.{AreNew, warm-Run}

pub data Call : Type 0 where
  acquires : String → String → Call
  releases : String → Call
  lingers : String → Call
  drains : String → Call
  warms : String → ℕ → Call

-- The pool after a call; `lingers` is the firing of a linger timer.
unfoldable pub serve : World → Pool → Call → Pool
unfolding acquire release on_linger_expired force_shutdown warm
serve w p (acquires name holder) = (acquire w p name holder).0
serve w p (releases id) = (release w p id).0
serve w p (lingers id) = on_linger_expired w p id
serve w p (drains name) = (force_shutdown w p name).0
serve w p (warms name n) = (warm w p name n).0

-- The identifiers that a call may mint are new to the pool.
abbrev pub IsServable : World → Pool → Call → Type 0
IsServable w p (acquires name holder) = AreNew w 0 1 p.instances
IsServable w p (releases id) = Unit
IsServable w p (lingers id) = Unit
IsServable w p (drains name) = Unit
IsServable w p (warms name n) = AreNew w 0 n p.instances

-- The reserved instances that a call takes from their holders: the one that is released, and those of
-- the template that is drained.
abbrev pub frees : Call → Instance → Bool
frees (releases id) i = string_eq.beq i.id id
frees (drains name) i = string_eq.beq i.template name
frees _ i = false

abbrev pub Freed : Call → Instance → Type 0
Freed c i = frees c i ≡ true

acquire-Run :
    (F : Instance → Type 0) (w : World) (p : Pool) (name holder : String)
    → IsSound p
    → AreNew w 0 1 p.instances
    → Run F p (acquire w p name holder).0
unfolding acquire
acquire-Run F w p name holder s new = elim (Bool-cases (is_blank holder)) [
  | inl blank ↦ rw (blank, acquire) stays
  | inr named ↦
      let p1 = reload w p in
      let first = reload-Run F w p in
      elim (Option-cases (find_template p1 name)) [
        | inl e ↦ rw (named, acquire) (rw e first)
        | inr (t, e) ↦
            rw (named, acquire)
              (rw e (
                both F p p1 _ first (
                  acquire_from-Run F w holder p1 t (Run-IsSound F p p1 s first)
                    (ap (lookup (w.uuid 0)) (reload_same w p).0 ∙ new.0) named)))
      ]
]

pub serve-Run :
    (w : World) (p : Pool) (c : Call) → IsSound p → IsServable w p c → Run (Freed c) p (serve w p c)
unfolding serve
serve-Run w p (acquires name holder) s new =
    acquire-Run (Freed (acquires name holder)) w p name holder s new
serve-Run w p (releases id) s new =
    release-Run (Freed (releases id)) w p id s
      (λ i h. (string_eq.beq_iff i.id id).1 (s.keyed id i h))
serve-Run w p (lingers id) s new = on_linger_expired-Run (Freed (lingers id)) w p id s
serve-Run w p (drains name) s new = force_shutdown-Run (Freed (drains name)) w name p s (λ i h. h)
serve-Run w p (warms name n) s new = warm-Run (Freed (warms name n)) w p name n s new

-- A history of calls, each with what it meets outside the pool.
unfoldable pub serve_all : Pool → List (World × Call) → Pool
unfolding serve
serve_all p [] = p
serve_all p ((w, c) ∷ cs) = serve_all (serve w p c) cs

unfoldable pub AreServable : Pool → List (World × Call) → Type 0
unfolding serve
AreServable p [] = Unit
AreServable p ((w, c) ∷ cs) = IsServable w p c × AreServable (serve w p c) cs

-- No call of the history frees the instance.
abbrev pub AreKind : Instance → List (World × Call) → Type 0
AreKind i [] = Unit
AreKind i ((w, c) ∷ cs) = (frees c i ≡ false) × AreKind i cs

-- Through every history of calls, timers included, in which minted identifiers are new, each instance
-- stands once under its own identifier, exactly the reserved instances have a holder, and linger
-- timers are pending for running instances only.
pub serve_all-IsSound :
    (p : Pool) (cs : List (World × Call)) → IsSound p → AreServable p cs → IsSound (serve_all p cs)
unfolding serve_all AreServable
serve_all-IsSound p [] s new = s
serve_all-IsSound p ((w, c) ∷ cs) s new =
    serve_all-IsSound (serve w p c) cs
      (Run-IsSound (Freed c) p (serve w p c) s (serve-Run w p c s new.0)) new.1

-- A reserved instance stays with its holder, unchanged, through every history of calls that neither
-- releases it nor drains its template: no acquisition, linger timer, eviction or warming takes it.
pub serve_all-reserved :
    (p : Pool) (cs : List (World × Call)) (id : String) (i : Instance)
    → IsSound p
    → AreServable p cs
    → lookup id p.instances ≡ some i
    → i.tier ≡ reserved
    → AreKind i cs
    → lookup id (serve_all p cs).instances ≡ some i
unfolding serve_all AreServable
serve_all-reserved p [] id i s new found held kind = found
serve_all-reserved p ((w, c) ∷ cs) id i s new found held kind =
    let run = serve-Run w p c s new.0 in
    serve_all-reserved (serve w p c) cs id i (Run-IsSound (Freed c) p (serve w p c) s run) new.1
      (Run-held (Freed c) p (serve w p c) id i run found held (λ free. cc (free, kind.0))) held
      kind.1
