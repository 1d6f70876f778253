-- ===== src/Health/Notify/Signals.antt =====
-- internal/health/notify.go: the deliveries for one entity over a history of the model.
use mathlib.Core.Path.{subst}
use spyder.Prelude.{◌≡◌, refl, Bool, true, false, Option, none, some, List, [], ◌∷◌, ℤ}
use spyder.Health.Entity.{EntityId}
use spyder.Health.Notify.{
  Signal, notifies, clears, new_notifier, is_active, Watched, Event, handled, is_about, Moment,
  watch,
}
use spyder.Health.Notify.Fired.{Shows}
use spyder.Health.Notify.Shown.{watch-Shows, watch-Keeps}

unfoldable pub run_watched : Watched → List (Moment × Event) → Watched
run_watched w [] = w
run_watched w ((t, e) ∷ es) = run_watched (watch w t e).0 es

abbrev pub empty_watched : ℤ → Watched
empty_watched cooldown = record {
  model = record { entities = [] };
  notifier = new_notifier cooldown;
  pending = [];
}

abbrev pub note : Bool → Moment → Option Signal → List (Moment × Signal) → List (Moment × Signal)
note true t (some s) rest = (t, s) ∷ rest
note _ t _ rest = rest

-- What is delivered for one entity, and when.
unfoldable pub deliveries : EntityId → Watched → List (Moment × Event) → List (Moment × Signal)
unfolding watch
deliveries id w [] = []
deliveries id w ((t, e) ∷ es) =
    note (is_about id (handled w e)) t (watch w t e).1 (deliveries id (watch w t e).0 es)

-- Notifications and clears in turn, where the argument says whether a notification is on screen.
abbrev pub Alternates : Bool → List (Moment × Signal) → Type 0
Alternates on [] = Unit
Alternates on ((t, notifies key title message) ∷ ss) = (on ≡ false) × Alternates true ss
Alternates on ((t, clears key) ∷ ss) = (on ≡ true) × Alternates false ss

noted-Alternates :
    (mine : Bool) (before after : Bool) (t : Moment) (s : Option Signal)
    (rest : List (Moment × Signal))
    → (mine ≡ true → Shows before after s)
    → (mine ≡ false → after ≡ before)
    → Alternates after rest
    → Alternates before (note mine t s rest)
noted-Alternates true before after t none rest f g h = subst (λ b. Alternates b rest) (f refl) h
noted-Alternates true before after t (some (notifies key title message)) rest f g h =
    let (idle, on) = f refl in (idle, subst (λ b. Alternates b rest) on h)
noted-Alternates true before after t (some (clears key)) rest f g h =
    let (on, idle) = f refl in (on, subst (λ b. Alternates b rest) idle h)
noted-Alternates false before after t s rest f g h = subst (λ b. Alternates b rest) (g refl) h

-- Whatever happens to the model, and in whatever order its transitions are handled, what is delivered for
-- an entity is in turn a notification and its clear.
pub deliveries-Alternates :
    (id : EntityId) (w : Watched) (es : List (Moment × Event))
    → Alternates (is_active w.notifier id) (deliveries id w es)
unfolding deliveries
deliveries-Alternates id w [] = tt
deliveries-Alternates id w ((t, e) ∷ es) =
    noted-Alternates (is_about id (handled w e)) (is_active w.notifier id)
      (is_active (watch w t e).0.notifier id) t (watch w t e).1 _ (watch-Shows w t e id)
      (λ h. (watch-Keeps w t e id h).0) (deliveries-Alternates id (watch w t e).0 es)
