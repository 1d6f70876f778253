-- ===== src/DevPolicy/Sessions/Orderly.antt =====
-- internal/devpolicy/session.go: what the overrides satisfy after every history of calls.
use mathlib.Core.Path.{subst}
use spyder.Prelude.{
  ℕ, ◌≤◌, ◌≡◌, refl, sym, ◌∙◌, Bool, true, not, Option, none, some, List, [], ◌∷◌, arith, leb,
  lookup, insert, erase, lookup-insert, lookup-erase, length, if_cases, pos_part,
}
use spyder.Prelude.Map.Unique.{
  Unique, insert-Unique, erase-Unique, lookup-keep, keep-Unique, passing,
}
use spyder.Prelude.Map.Size.{length-insert, length-erase, length-keep}
use spyder.DevPolicy.Sessions.{
  SessionOverride, SessionKey, key_eq, key_of, Sessions, Outcome, done, fails, too_many, other_run,
  refused, Authorizer, is_valid, is_live, is_lease, prune_sessions, are_session_flags, is_same_run,
  is_allowed, leased, set_over, clear_over, authorized, set_session, clear_session,
  session_overrides, max_session_overrides, Call, sets, clears, lists, serve, serve_all,
}

-- An override that stands under its own key.
abbrev pub IsKeyed : SessionKey → SessionOverride → Type 0
IsKeyed k s = (key_of s ≡ k) × (is_valid s ≡ true) × (are_session_flags s.flags ≡ true)

pub record IsOrderly (m : Sessions) : Type 0 where
  pub unique : Unique m
  pub bounded : length m ≤ max_session_overrides
  pub keyed : (k : SessionKey) (s : SessionOverride) → lookup k m ≡ some s → IsKeyed k s

some_injective : {A : Type 0} (a b : A) → some a ≡ some b → a ≡ b
some_injective a b h = cc h

pub empty-IsOrderly : IsOrderly []
unfolding lookup
empty-IsOrderly = record { unique = tt; bounded = omega arith; keyed = λ k s h. cc h }

pub passes :
    {A : Type 0} (p : A → Bool) (o : Option A) (v : A)
    → passing p o ≡ some v
    → (o ≡ some v) × (p v ≡ true)
passes p none v h = ground arith
passes p (some w) v h = ground arith

-- What stands after a pruning stood there before, and is live.
pub pruned :
    (now : ℕ) (m : Sessions) (k : SessionKey) (s : SessionOverride)
    → Unique m
    → lookup k (prune_sessions now m) ≡ some s
    → (lookup k m ≡ some s) × (is_live now s ≡ true)
unfolding prune_sessions
pruned now m k s u h =
    passes (is_live now) (lookup k m) s (sym (lookup-keep (is_live now) k m u) ∙ h)

prune-IsOrderly : (now : ℕ) (m : Sessions) → IsOrderly m → IsOrderly (prune_sessions now m)
unfolding prune_sessions
prune-IsOrderly now m o = record {
  unique = keep-Unique (is_live now) m o.unique;
  bounded = omega (arith, o.bounded, length-keep (is_live now) m);
  keyed = λ k s h. o.keyed k s (pruned now m k s o.unique h).0;
}

insert-IsOrderly :
    (m : Sessions) (s : SessionOverride) (now lease : ℕ)
    → IsOrderly m
    → is_valid s ≡ true
    → are_session_flags s.flags ≡ true
    → length (insert (key_of s) (leased s now lease) m) ≤ max_session_overrides
    → IsOrderly (insert (key_of s) (leased s now lease) m)
unfolding is_valid
insert-IsOrderly m s now lease o valid flags room = record {
  unique = insert-Unique (key_of s) (leased s now lease) m o.unique;
  bounded = room;
  keyed = λ k r h.
      if_cases (λ found. found ≡ some r → IsKeyed k r) (key_eq.beq (key_of s) k)
        (some (leased s now lease)) (lookup k m)
        (λ e g.
          subst (IsKeyed k) (some_injective (leased s now lease) r g)
            ((key_eq.beq_iff (key_of s) k).0 e, valid, flags))
        (λ e g. o.keyed k r g) (sym (lookup-insert (key_of s) k (leased s now lease) m) ∙ h);
}

erase-IsOrderly : (k : SessionKey) (m : Sessions) → IsOrderly m → IsOrderly (erase k m)
erase-IsOrderly k m o = record {
  unique = erase-Unique k m o.unique;
  bounded = omega (arith, o.bounded, length-erase k m);
  keyed = λ j s h.
      if_cases (λ found. found ≡ some s → IsKeyed j s) (key_eq.beq k j) none (lookup j m)
        (λ e g. cc g) (λ e g. o.keyed j s g) (sym (lookup-erase k j m) ∙ h);
}

-- Where a call leaves the overrides.
abbrev Leaves : Sessions × Outcome → Type 0
Leaves r = IsOrderly r.0

set_over-IsOrderly :
    (m : Sessions) (s : SessionOverride) (now lease : ℕ) (found : Option SessionOverride)
    → lookup (key_of s) m ≡ found
    → IsOrderly m
    → is_valid s ≡ true
    → are_session_flags s.flags ≡ true
    → IsOrderly (set_over m s now lease found).0
set_over-IsOrderly m s now lease none h o valid flags =
    if_cases Leaves (leb max_session_overrides (length m)) (m, fails too_many)
      (insert (key_of s) (leased s now lease) m, done) (λ e. o)
      (λ e.
        insert-IsOrderly m s now lease o valid flags
          (ground (arith, length-insert (key_of s) (leased s now lease) m)))
set_over-IsOrderly m s now lease (some previous) h o valid flags =
    if_cases Leaves (is_same_run previous s) (insert (key_of s) (leased s now lease) m, done)
      (m, fails other_run)
      (λ e.
        insert-IsOrderly m s now lease o valid flags
          (ground (arith, o.bounded, length-insert (key_of s) (leased s now lease) m)))
      (λ e. o)

clear_over-IsOrderly :
    (m : Sessions) (s : SessionOverride) (found : Option SessionOverride)
    → IsOrderly m
    → IsOrderly (clear_over m s found).0
clear_over-IsOrderly m s none o = erase-IsOrderly (key_of s) m o
clear_over-IsOrderly m s (some previous) o =
    if_cases Leaves (is_same_run previous s) (erase (key_of s) m, done) (m, fails other_run)
      (λ e. erase-IsOrderly (key_of s) m o) (λ e. o)

authorized-IsOrderly :
    (authorize : Authorizer) (s : SessionOverride) (m : Sessions) (r : Sessions × Outcome)
    → IsOrderly m
    → IsOrderly r.0
    → IsOrderly (authorized authorize s m r).0
authorized-IsOrderly none s m r o h = o
authorized-IsOrderly (some authorize) s m r o h =
    if_cases Leaves (is_allowed authorize s) r (m, fails refused) (λ e. h) (λ e. o)

pub serve-IsOrderly :
    (authorize : Authorizer) (now : ℕ) (c : Call) (m : Sessions)
    → IsOrderly m
    → IsOrderly (serve authorize now c m)
unfolding serve set_session clear_session session_overrides
serve-IsOrderly authorize now (sets s lease) m o =
    let live = prune_sessions now m in
    let p = prune-IsOrderly now m o in
    if_cases Leaves (not (is_valid s)) _ _ (λ e. o)
      (λ valid.
        if_cases Leaves (not (is_lease lease)) _ _ (λ e. o)
          (λ e.
            if_cases Leaves (not (are_session_flags s.flags)) _ _ (λ e. o)
              (λ flags. authorized-IsOrderly authorize s m _ o (
                set_over-IsOrderly live s now (pos_part lease) (lookup (key_of s) live) refl p
                  (ground (arith, valid)) (ground (arith, flags))))))
serve-IsOrderly authorize now (clears s) m o =
    let live = prune_sessions now m in
    if_cases Leaves (not (is_valid s)) _ _ (λ e. o)
      (λ valid.
        authorized-IsOrderly authorize s m _ o
          (clear_over-IsOrderly live s (lookup (key_of s) live) (prune-IsOrderly now m o)))
serve-IsOrderly authorize now lists m o = prune-IsOrderly now m o

-- After every history of calls there are at most 512 overrides, one per device and app, each under its
-- own device and app, with identities that pass the checks and flags that set `ads` and nothing else.
pub serve_all-IsOrderly :
    (cs : List (Authorizer × ℕ × Call)) (m : Sessions) → IsOrderly m → IsOrderly (serve_all cs m)
unfolding serve_all
serve_all-IsOrderly [] m o = o
serve_all-IsOrderly ((authorize, now, c) ∷ cs) m o =
    serve_all-IsOrderly cs (serve authorize now c m) (serve-IsOrderly authorize now c m o)
