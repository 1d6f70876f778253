-- ===== src/Health/Notify/Spacing.antt =====
-- internal/health/notify.go: the cooldown between two notifications of one entity.
use mathlib.Core.Path.{subst}
use spyder.Prelude.{
  ℕ, ◌+◌, ◌≤◌, get_elem?, ◌≡◌, refl, sym, ap, ◌∙◌, Bool, true, false, Option, none, some, List, [],
  ◌∷◌, arith, lookup, lookup-insert, beq_self, if_cases, pos,
}
use spyder.Health.Entity.{EntityId, id_eq, Entity, Transition, is_needs_attention}
use spyder.Health.Model.{Model, get}
use spyder.Health.Notify.{
  Signal, notifies, clears, Notifier, is_active, is_early, post, handle_needs_attention,
  handle_cleared, came_from_attention, on_transition, Watched, Event, operates, handles, handled,
  on_handled, is_about, Moment, watch, message_for,
}
use spyder.Health.Notify.Shown.{watch-Keeps}
use spyder.Health.Notify.Signals.{note, deliveries}

-- A time that is at least `c` after the last one.
abbrev pub Since : ℕ → Option ℕ → ℕ → Type 0
Since c none now = Unit
Since c (some last) now = last + c ≤ now

-- Each notification comes at least `c` after the one before it, the first of them after `last`.
abbrev pub Spaced : ℕ → Option ℕ → List (Moment × Signal) → Type 0
Spaced c last [] = Unit
Spaced c last ((t, notifies key title message) ∷ ss) =
    Since c last t.now × Spaced c (some t.after) ss
Spaced c last ((t, clears key) ∷ ss) = Spaced c last ss

-- What one step does to the time that is kept for the entity.
abbrev Clocked : ℕ → Option ℕ → Option ℕ → ℕ → ℕ → Option Signal → Type 0
Clocked c before last now after none = last ≡ before
Clocked c before last now after (some (notifies key title message)) =
    Since c before now × (last ≡ some after)
Clocked c before last now after (some (clears key)) = last ≡ before

abbrev Clocks : ℕ → Notifier → EntityId → ℕ → ℕ → Notifier × Option Signal → Type 0
Clocks c a id now after r =
    (r.0.cooldown ≡ a.cooldown)
    × Clocked c (lookup id a.last_fired) (lookup id r.0.last_fired) now after r.1

late-Since : (c now : ℕ) (last : Option ℕ) → is_early (pos c) now last ≡ false → Since c last now
late-Since c now none h = tt
late-Since c now (some l) h = ground arith

post-Clocks :
    (c now after : ℕ) (a : Notifier) (id : EntityId) (found : Option Entity)
    → Since c (lookup id a.last_fired) now
    → Clocks c a id now after (post a id after found)
unfolding message_for
post-Clocks c now after a id none h = (refl, refl)
post-Clocks c now after a id (some e) h =
    (refl, (h, rw (lookup-insert id id after a.last_fired, beq_self id)))

transition-Clocks :
    (c : ℕ) (m : Model) (now after : ℕ) (a : Notifier) (t : Transition)
    → a.cooldown ≡ pos c
    → Clocks c a t.id now after (on_transition m now after a t)
unfolding on_transition handle_needs_attention handle_cleared
transition-Clocks c m now after a t set =
    let P = Clocks c a t.id now after in
    if_cases P (is_needs_attention t.to) _ _
      (λ h.
        if_cases P (is_active a t.id) _ _ (λ h. (refl, refl))
          (λ idle.
            if_cases P (is_early a.cooldown now (lookup t.id a.last_fired)) _ _ (λ h. (refl, refl))
              (λ h. post-Clocks c now after a t.id (get m t.id) (
                late-Since c now (lookup t.id a.last_fired)
                  (sym (ap (λ d. is_early d now (lookup t.id a.last_fired)) set) ∙ h)))))
      (λ h.
        if_cases P (came_from_attention t.from) _ _
          (λ k. if_cases P (is_active a t.id) _ _ (λ h. (refl, refl)) (λ h. (refl, refl)))
          (λ k. (refl, refl)))

handled-Clocks :
    (c : ℕ) (m : Model) (t : Moment) (a : Notifier) (id : EntityId) (tr : Option Transition)
    → a.cooldown ≡ pos c
    → is_about id tr ≡ true
    → Clocks c a id t.now t.after (on_handled m t a tr)
handled-Clocks c m t a id none set h = absurd (cc h)
handled-Clocks c m t a id (some tr) set h =
    subst (λ i. Clocks c a i t.now t.after (on_transition m t.now t.after a tr))
      ((id_eq.beq_iff tr.id id).0 h) (transition-Clocks c m t.now t.after a tr set)

watch-Clocks :
    (c : ℕ) (w : Watched) (t : Moment) (e : Event) (id : EntityId)
    → w.notifier.cooldown ≡ pos c
    → is_about id (handled w e) ≡ true
    → Clocks c w.notifier id t.now t.after ((watch w t e).0.notifier, (watch w t e).1)
unfolding watch
watch-Clocks c w t (operates o) id set h = absurd (cc h)
watch-Clocks c w t (handles n) id set h =
    handled-Clocks c w.model t w.notifier id (get_elem? w.pending n) set h

handled-cooldown :
    (c : ℕ) (m : Model) (t : Moment) (a : Notifier) (tr : Option Transition)
    → a.cooldown ≡ pos c
    → (on_handled m t a tr).0.cooldown ≡ a.cooldown
handled-cooldown c m t a none set = refl
handled-cooldown c m t a (some tr) set = (transition-Clocks c m t.now t.after a tr set).0

watch-cooldown :
    (c : ℕ) (w : Watched) (t : Moment) (e : Event)
    → w.notifier.cooldown ≡ pos c
    → (watch w t e).0.notifier.cooldown ≡ w.notifier.cooldown
unfolding watch
watch-cooldown c w t (operates o) set = refl
watch-cooldown c w t (handles n) set =
    handled-cooldown c w.model t w.notifier (get_elem? w.pending n) set

noted-Spaced :
    (c : ℕ) (mine : Bool) (before last : Option ℕ) (t : Moment) (s : Option Signal)
    (rest : List (Moment × Signal))
    → (mine ≡ true → Clocked c before last t.now t.after s)
    → (mine ≡ false → last ≡ before)
    → Spaced c last rest
    → Spaced c before (note mine t s rest)
noted-Spaced c true before last t none rest f g h = subst (λ l. Spaced c l rest) (f refl) h
noted-Spaced c true before last t (some (notifies key title message)) rest f g h =
    let (since, now) = f refl in (since, subst (λ l. Spaced c l rest) now h)
noted-Spaced c true before last t (some (clears key)) rest f g h =
    subst (λ l. Spaced c l rest) (f refl) h
noted-Spaced c false before last t s rest f g h = subst (λ l. Spaced c l rest) (g refl) h

-- Whatever happens to the model, and in whatever order its transitions are handled, a notification of an
-- entity comes at least the cooldown after the notification of it before, whatever was cleared in between.
pub deliveries-Spaced :
    (c : ℕ) (id : EntityId) (w : Watched) (es : List (Moment × Event))
    → w.notifier.cooldown ≡ pos c
    → Spaced c (lookup id w.notifier.last_fired) (deliveries id w es)
unfolding deliveries
deliveries-Spaced c id w [] set = tt
deliveries-Spaced c id w ((t, e) ∷ es) set =
    let next = (watch w t e).0 in
    noted-Spaced c (is_about id (handled w e)) (lookup id w.notifier.last_fired)
      (lookup id next.notifier.last_fired) t (watch w t e).1 _
      (λ h. (watch-Clocks c w t e id set h).1) (λ h. (watch-Keeps w t e id h).1)
      (deliveries-Spaced c id next es (watch-cooldown c w t e set ∙ set))
