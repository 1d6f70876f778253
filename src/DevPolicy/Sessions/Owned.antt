-- ===== src/DevPolicy/Sessions/Owned.antt =====
-- internal/devpolicy/session.go: an override belongs to the run that set it for as long as it is live.
use spyder.Prelude.{
  ℕ, ◌<◌, ◌≡◌, refl, sym, ap, ◌∙◌, Bool, true, false, not, ◌&&◌, Option, none, some, List, [], ◌∷◌,
  arith, leb, lookup, insert, erase, lookup-insert, lookup-erase, length, Bool-cases, inl, inr,
  if_cases, pos_part, All,
}
use spyder.Prelude.Map.Unique.{Unique, lookup-keep, passing}
use spyder.DevPolicy.Sessions.{
  SessionOverride, SessionKey, key_eq, key_of, Sessions, Outcome, fails, refused, Authorizer,
  is_valid, is_live, is_lease, prune_sessions, are_session_flags, is_same_run, is_allowed, leased,
  set_over, clear_over, authorized, set_session, clear_session, session_overrides,
  max_session_overrides, Call, sets, clears, lists, serve, serve_all,
}
use spyder.DevPolicy.Sessions.Orderly.{IsOrderly, serve-IsOrderly}

-- The call is not one by which the run that set `r` sets or clears it.
abbrev pub is_foreign : SessionOverride → Call → Bool
is_foreign r (sets s lease) = not (key_eq.beq (key_of s) (key_of r) && is_same_run r s)
is_foreign r (clears s) = not (key_eq.beq (key_of s) (key_of r) && is_same_run r s)
is_foreign r lists = true

-- What the run that set `r` relies on.
abbrev Keeps : SessionOverride → Sessions → Type 0
Keeps r m = lookup (key_of r) m ≡ some r

abbrev Leaves : SessionOverride → Sessions × Outcome → Type 0
Leaves r x = Keeps r x.0

prune-Keeps :
    (now : ℕ) (m : Sessions) (r : SessionOverride)
    → Unique m
    → now < r.expires_at
    → Keeps r m
    → Keeps r (prune_sessions now m)
unfolding prune_sessions
prune-Keeps now m r u live h =
    lookup-keep (is_live now) (key_of r) m u ∙ ap (passing (is_live now)) h ∙ ground arith

authorized-Keeps :
    (authorize : Authorizer) (s r : SessionOverride) (m : Sessions) (x : Sessions × Outcome)
    → Keeps r m
    → Leaves r x
    → Leaves r (authorized authorize s m x)
authorized-Keeps none s r m x o h = o
authorized-Keeps (some authorize) s r m x o h =
    if_cases (Leaves r) (is_allowed authorize s) x (m, fails refused) (λ e. h) (λ e. o)

insert-Keeps :
    (k : SessionKey) (v r : SessionOverride) (m : Sessions)
    → key_eq.beq k (key_of r) ≡ false
    → Keeps r m
    → Keeps r (insert k v m)
insert-Keeps k v r m apart h = rw (lookup-insert k (key_of r) v m, apart) h

erase-Keeps :
    (k : SessionKey) (r : SessionOverride) (m : Sessions)
    → key_eq.beq k (key_of r) ≡ false
    → Keeps r m
    → Keeps r (erase k m)
erase-Keeps k r m apart h = rw (lookup-erase k (key_of r) m, apart) h

-- A foreign call that does not meet another run's override is about another key.
apart_none :
    (m : Sessions) (s r : SessionOverride)
    → lookup (key_of s) m ≡ none
    → Keeps r m
    → key_eq.beq (key_of s) (key_of r) ≡ false
apart_none m s r h kept = elim (Bool-cases (key_eq.beq (key_of s) (key_of r))) [
  | inl e ↦ absurd (cc (h, ap (λ k. lookup k m) ((key_eq.beq_iff (key_of s) (key_of r)).0 e), kept))
  | inr e ↦ e
]

apart_some :
    (m : Sessions) (s r previous : SessionOverride)
    → lookup (key_of s) m ≡ some previous
    → not (key_eq.beq (key_of s) (key_of r) && is_same_run r s) ≡ true
    → is_same_run previous s ≡ true
    → Keeps r m
    → key_eq.beq (key_of s) (key_of r) ≡ false
apart_some m s r previous h foreign mine kept =
    elim (Bool-cases (key_eq.beq (key_of s) (key_of r))) [
      | inl e ↦
          let same : previous ≡ r =
            cc (h, ap (λ k. lookup k m) ((key_eq.beq_iff (key_of s) (key_of r)).0 e), kept) in
          let run : is_same_run r s ≡ true = ap (λ p. is_same_run p s) (sym same) ∙ mine in
          absurd (cc (foreign, e, run))
      | inr e ↦ e
    ]

set_over-Keeps :
    (m : Sessions) (s r : SessionOverride) (now lease : ℕ) (found : Option SessionOverride)
    → lookup (key_of s) m ≡ found
    → not (key_eq.beq (key_of s) (key_of r) && is_same_run r s) ≡ true
    → Keeps r m
    → Leaves r (set_over m s now lease found)
set_over-Keeps m s r now lease none h foreign kept =
    if_cases (Leaves r) (leb max_session_overrides (length m)) _ _ (λ e. kept)
      (λ e. insert-Keeps (key_of s) (leased s now lease) r m (apart_none m s r h kept) kept)
set_over-Keeps m s r now lease (some previous) h foreign kept =
    if_cases (Leaves r) (is_same_run previous s) _ _
      (λ e.
        insert-Keeps (key_of s) (leased s now lease) r m
          (apart_some m s r previous h foreign e kept) kept)
      (λ e. kept)

clear_over-Keeps :
    (m : Sessions) (s r : SessionOverride) (found : Option SessionOverride)
    → lookup (key_of s) m ≡ found
    → not (key_eq.beq (key_of s) (key_of r) && is_same_run r s) ≡ true
    → Keeps r m
    → Leaves r (clear_over m s found)
clear_over-Keeps m s r none h foreign kept =
    erase-Keeps (key_of s) r m (apart_none m s r h kept) kept
clear_over-Keeps m s r (some previous) h foreign kept =
    if_cases (Leaves r) (is_same_run previous s) _ _
      (λ e. erase-Keeps (key_of s) r m (apart_some m s r previous h foreign e kept) kept)
      (λ e. kept)

serve-Keeps :
    (authorize : Authorizer) (now : ℕ) (c : Call) (m : Sessions) (r : SessionOverride)
    → Unique m
    → now < r.expires_at
    → is_foreign r c ≡ true
    → Keeps r m
    → Keeps r (serve authorize now c m)
unfolding serve set_session clear_session session_overrides
serve-Keeps authorize now (sets s lease) m r u live foreign kept =
    let fresh = prune_sessions now m in
    let there = prune-Keeps now m r u live kept in
    if_cases (Leaves r) (not (is_valid s)) _ _ (λ e. kept)
      (λ e.
        if_cases (Leaves r) (not (is_lease lease)) _ _ (λ e. kept)
          (λ e.
            if_cases (Leaves r) (not (are_session_flags s.flags)) _ _ (λ e. kept)
              (λ e. authorized-Keeps authorize s r m _ kept (
                set_over-Keeps fresh s r now (pos_part lease) (lookup (key_of s) fresh) refl foreign
                  there))))
serve-Keeps authorize now (clears s) m r u live foreign kept =
    let fresh = prune_sessions now m in
    if_cases (Leaves r) (not (is_valid s)) _ _ (λ e. kept)
      (λ e. authorized-Keeps authorize s r m _ kept (
        clear_over-Keeps fresh s r (lookup (key_of s) fresh) refl foreign
          (prune-Keeps now m r u live kept)))
serve-Keeps authorize now lists m r u live foreign kept = prune-Keeps now m r u live kept

-- A call before the override ends, and not by its run.
abbrev pub IsForeign : SessionOverride → Authorizer × ℕ × Call → Type 0
IsForeign r (authorize, now, c) = (now < r.expires_at) × (is_foreign r c ≡ true)

-- Until an override expires, no calls of other runs, whatever the authorizer lets them do, change or
-- remove it.
pub serve_all-owned :
    (cs : List (Authorizer × ℕ × Call)) (m : Sessions) (r : SessionOverride)
    → IsOrderly m
    → lookup (key_of r) m ≡ some r
    → All (IsForeign r) cs
    → lookup (key_of r) (serve_all cs m) ≡ some r
unfolding serve_all
serve_all-owned [] m r o kept all = kept
serve_all-owned ((authorize, now, c) ∷ cs) m r o kept all =
    let (live, foreign) = all.0 in
    serve_all-owned cs (serve authorize now c m) r (serve-IsOrderly authorize now c m o)
      (serve-Keeps authorize now c m r o.unique live foreign kept) all.1
