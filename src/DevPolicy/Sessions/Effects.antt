-- ===== src/DevPolicy/Sessions/Effects.antt =====
-- internal/devpolicy/session.go: what a call that succeeds has done.
use spyder.Prelude.{
  ℕ, ◌<◌, ◌≤◌, ◌≡◌, true, not, Option, none, some, arith, leb, lookup, insert, erase, lookup-insert,
  lookup-erase, beq_self, length, if_cases, ℤ, pos_part,
}
use spyder.DevPolicy.Sessions.{
  SessionOverride, SessionKey, key_eq, key_of, Sessions, Outcome, Failure, done, fails, other_run,
  too_many, refused, Authorizer, is_valid, is_lease, prune_sessions, are_session_flags, is_same_run,
  is_allowed, leased, set_over, clear_over, authorized, set_session, clear_session,
  max_session_overrides, max_session_lease,
}

-- The authorizer is there and lets the owner use the device.
abbrev pub IsAllowed : Authorizer → SessionOverride → Type 0
IsAllowed none s = ⊥
IsAllowed (some authorize) s = authorize s.device_id s.owner ≡ true

-- A result that, if it is one of success, has a property.
abbrev Done : (Sessions → Type 0) → Sessions × Outcome → Type 0
Done P x = x.1 ≡ done → P x.0

abbrev Stores : SessionOverride → ℕ → ℕ → Sessions → Type 0
Stores s now lease m = lookup (key_of s) m ≡ some (leased s now lease)

abbrev Lacks : SessionKey → Sessions → Type 0
Lacks k m = lookup k m ≡ none

failed : (P : Sessions → Type 0) (m : Sessions) (f : Failure) → Done P (m, fails f)
failed P m f h = absurd (cc h)

authorized-done :
    (P : Sessions → Type 0) (a : Authorizer) (s : SessionOverride) (m : Sessions)
    (x : Sessions × Outcome)
    → Done P x
    → (authorized a s m x).1 ≡ done
    → P (authorized a s m x).0 × IsAllowed a s
authorized-done P none s m x f = λ h. absurd (cc h)
authorized-done P (some authorize) s m x f =
    if_cases (λ (y : Sessions × Outcome). y.1 ≡ done → P y.0 × (is_allowed authorize s ≡ true))
      (is_allowed authorize s) x (m, fails refused) (λ e h. (f h, e)) (λ e h. absurd (cc h))

stored :
    (m : Sessions) (s : SessionOverride) (now lease : ℕ)
    → Stores s now lease (insert (key_of s) (leased s now lease) m)
stored m s now lease =
    rw (lookup-insert (key_of s) (key_of s) (leased s now lease) m, beq_self (key_of s))

set_over-done :
    (m : Sessions) (s : SessionOverride) (now lease : ℕ) (found : Option SessionOverride)
    → Done (Stores s now lease) (set_over m s now lease found)
set_over-done m s now lease none =
    if_cases (Done (Stores s now lease)) (leb max_session_overrides (length m)) _ _
      (λ e. failed (Stores s now lease) m too_many) (λ e h. stored m s now lease)
set_over-done m s now lease (some previous) =
    if_cases (Done (Stores s now lease)) (is_same_run previous s) _ _ (λ e h. stored m s now lease)
      (λ e. failed (Stores s now lease) m other_run)

cleared : (m : Sessions) (s : SessionOverride) → Lacks (key_of s) (erase (key_of s) m)
cleared m s = rw (lookup-erase (key_of s) (key_of s) m, beq_self (key_of s))

clear_over-done :
    (m : Sessions) (s : SessionOverride) (found : Option SessionOverride)
    → Done (Lacks (key_of s)) (clear_over m s found)
clear_over-done m s none = λ h. cleared m s
clear_over-done m s (some previous) =
    if_cases (Done (Lacks (key_of s))) (is_same_run previous s) _ _ (λ e h. cleared m s)
      (λ e. failed (Lacks (key_of s)) m other_run)

-- A `SetSession` that succeeds was authorized and leaves the caller's override, which ends after the lease,
-- in more than no time and at most 30 seconds from now.
pub set_session-done :
    (a : Authorizer) (now : ℕ) (s : SessionOverride) (lease : ℤ) (m : Sessions)
    → (set_session a now s lease m).1 ≡ done
    → (lookup (key_of s) (set_session a now s lease m).0 ≡ some (leased s now (pos_part lease)))
      × IsAllowed a s
      × (0 < pos_part lease)
      × (pos_part lease ≤ max_session_lease)
unfolding set_session
set_session-done a now s lease m =
    let P : Sessions × Outcome → Type 0 = λ x.
      x.1 ≡ done
      → Stores s now (pos_part lease) x.0
        × IsAllowed a s
        × (0 < pos_part lease)
        × (pos_part lease ≤ max_session_lease) in
    let live = prune_sessions now m in
    if_cases P (not (is_valid s)) _ _ (λ e h. absurd (cc h))
      (λ e.
        if_cases P (not (is_lease lease)) _ _ (λ e h. absurd (cc h))
          (λ short.
            if_cases P (not (are_session_flags s.flags)) _ _ (λ e h. absurd (cc h))
              (λ e h.
                let (kept, allowed) =
                  authorized-done (Stores s now (pos_part lease)) a s m _
                    (set_over-done live s now (pos_part lease) (lookup (key_of s) live)) h in
                (kept, allowed, ground (arith, short), ground (arith, short)))))

-- A `ClearSession` that succeeds was authorized and leaves no override of the app on the device.
pub clear_session-done :
    (a : Authorizer) (now : ℕ) (s : SessionOverride) (m : Sessions)
    → (clear_session a now s m).1 ≡ done
    → (lookup (key_of s) (clear_session a now s m).0 ≡ none) × IsAllowed a s
unfolding clear_session
clear_session-done a now s m =
    let P : Sessions × Outcome → Type 0 = λ x. x.1 ≡ done → Lacks (key_of s) x.0 × IsAllowed a s in
    let live = prune_sessions now m in
    if_cases P (not (is_valid s)) _ _ (λ e h. absurd (cc h))
      (λ e h.
        authorized-done (Lacks (key_of s)) a s m _ (clear_over-done live s (lookup (key_of s) live))
          h)
