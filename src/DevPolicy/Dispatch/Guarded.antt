-- ===== src/DevPolicy/Dispatch/Guarded.antt =====
-- internal/devpolicy/controller.go: when flags are sent, and when they are taken back.
use mathlib.Core.Path.{subst}
use spyder.Prelude.{
  ℕ, ◌+◌, ◌≤◌, ◌≡◌, refl, sym, ap, ◌∙◌, Bool, true, false, not, ◌&&◌, Option, none, some, [], ◌∷◌,
  if◌then◌else◌, arith, Bool-cases, inl, inr,
}
use spyder.DevPolicy.{Flags}
use spyder.DevPolicy.Sessions.{SessionOverride}
use spyder.DevPolicy.Dispatch.{
  Snapshot, Moment, Push, Status, Reason, Wish, wish, last_wish, supported, revoke_if, drop_if,
  is_overridden, is_absent, is_refused, authorizer_of, owner_of, is_empty, is_due, bound_by, push,
  max_lease,
}

-- Everything that the worker asks for before it sends flags.
abbrev pub is_permitted : Snapshot → Moment → Bool
is_permitted w t =
    not w.is_config_bad
    && not w.is_proof_bad
    && w.is_on_usb
    && not (is_overridden w.override && is_absent (authorizer_of w t))
    && not (is_refused (authorizer_of w t) w.peer.device_id (owner_of w))
    && not t.is_stale
    && not t.is_cancelled

-- The checks one after the other, and all at once.
chained :
    (a b c d e f g : Bool) (r1 r2 r4 r5 r6 r7 : Reason) (w : Wish)
    → (revoke_if g r7 (
        revoke_if f r6 (
          revoke_if e r5 (
            revoke_if d r4
              (drop_if (not (c && not b)) (revoke_if b r2 (revoke_if a r1 w))))))).desired
      ≡ (if not a && not b && c && not d && not e && not f && not g then w.desired else [])
chained a b c d e f g r1 r2 r4 r5 r6 r7 w = ground arith

-- What is desired in the end.
pub last_wish-desired :
    (w : Snapshot) (t : Moment)
    → (last_wish w t).desired ≡ (if is_permitted w t then supported w else [])
unfolding last_wish wish
last_wish-desired w t =
    chained w.is_config_bad w.is_proof_bad w.is_on_usb
      (is_overridden w.override && is_absent (authorizer_of w t))
      (is_refused (authorizer_of w t) w.peer.device_id (owner_of w)) t.is_stale t.is_cancelled _ _ _
      _ _ _ (record { desired = supported w; error = none })

-- A lease that ends with the override, or before it.
abbrev pub IsWithin : Option SessionOverride → ℕ → Type 0
IsWithin none end = Unit
IsWithin (some s) end = end ≤ s.expires_at

-- What a lease is bounded by.
bound_by-le :
    (o : Option SessionOverride) (clock : ℕ) (desired : Flags)
    → is_empty (bound_by o clock desired).flags ≡ false
    → ((bound_by o clock desired).flags ≡ desired)
      × ((bound_by o clock desired).lease ≤ max_lease)
      × IsWithin o (clock + (bound_by o clock desired).lease)
bound_by-le none clock desired h = (refl, omega arith, tt)
bound_by-le (some s) clock [] h = absurd (cc h)
bound_by-le (some s) clock (x ∷ xs) h = ground arith

permitted-desired :
    (w : Snapshot) (t : Moment)
    → is_empty (last_wish w t).desired ≡ false
    → (is_permitted w t ≡ true) × ((last_wish w t).desired ≡ supported w)
permitted-desired w t full =
    let all = last_wish-desired w t in
    elim (Bool-cases (is_permitted w t)) [
      | inl e ↦ (e, all ∙ rw e)
      | inr e ↦
          let none_left : (last_wish w t).desired ≡ [] = all ∙ rw e in
          absurd (cc (full, ap is_empty none_left))
    ]

pushed :
    (capable due : Bool) (q p : Push)
    → (if not capable then none else if due then some q else none) ≡ some p
    → (capable ≡ true) × (q ≡ p)
pushed true true q p h = (refl, cc h)
pushed true false q p h = absurd (cc h)
pushed false due q p h = absurd (cc h)

-- Flags that are sent are those of the peer's resolution that it supports; they are sent to a capable peer
-- only, under a configuration that was read, with a fresh proof that the device is on USB, for an owner
-- whom the authorizer in charge accepts, and for at most 10 seconds and never beyond the override.
pub push-guarded :
    (w : Snapshot) (t : Moment) (p : Push)
    → push w t ≡ some p
    → is_empty p.flags ≡ false
    → (w.peer.is_capable ≡ true)
      × (is_permitted w t ≡ true)
      × (p.flags ≡ supported w)
      × (p.lease ≤ max_lease)
      × IsWithin w.override (t.clock + p.lease)
unfolding push
push-guarded w t p h full =
    let desired = (last_wish w t).desired in
    let (capable, same) = pushed w.peer.is_capable (is_due w.previous desired) _ p h in
    let (flags, short, inside) =
      bound_by-le w.override t.clock desired (ap (λ q. is_empty q.flags) same ∙ full) in
    let (permitted, all) =
      permitted-desired w t (sym (ap is_empty flags) ∙ ap (λ q. is_empty q.flags) same ∙ full) in
    (
      capable,
      permitted,
      sym (ap (λ q. q.flags) same) ∙ flags ∙ all,
      subst (λ q. q.lease ≤ max_lease) same short,
      subst (λ q. IsWithin w.override (t.clock + q.lease)) same inside,
    )

revoking :
    (o : Option SessionOverride) (clock : ℕ)
    → some (bound_by o clock []) ≡ some (record { flags = []; lease = max_lease })
revoking none clock = refl
revoking (some s) clock = refl

-- A capable peer to which flags were applied is sent an empty set of flags as soon as anything that the
-- worker asks for is missing.
pub push-revokes :
    (w : Snapshot) (t : Moment) (s : Status)
    → w.peer.is_capable ≡ true
    → w.previous ≡ some s
    → is_empty s.applied ≡ false
    → is_permitted w t ≡ false
    → push w t ≡ some (record { flags = []; lease = max_lease })
unfolding push
push-revokes w t s capable before applied missing =
    let none_left : (last_wish w t).desired ≡ [] = last_wish-desired w t ∙ rw missing in
    rw (capable, none_left, before, push) (rw applied (revoking w.override t.clock))
