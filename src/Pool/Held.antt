-- ===== src/Pool/Held.antt =====
-- internal/pool/pool.go: an instance in the hands of its holder, under the moves of other calls.
use mathlib.Core.Path.{subst}
use spyder.Prelude.{
  ◌≡◌, ap, ◌∙◌, some, String, string_eq, lookup, lookup-insert, lookup-erase, arith, Bool-cases,
  inl, inr,
}
use spyder.Pool.{reserved, Instance, Pool}
use spyder.Pool.Sound.{
  Change, boots, hands, returns, parks, Move, quiet, disarms, arms, mints, changes, removes, Run,
  stays, goes,
}

kept_of_change : (F : Instance → Type 0) (i j : Instance) → Change F i j → i.tier ≡ reserved → F i
kept_of_change F i j (boots a b c) held = cc (a, held)
kept_of_change F i j (hands a b c) held = cc (a, held)
kept_of_change F i j (returns f a b c) held = f
kept_of_change F i j (parks a b c) held = cc (a, held)

-- A reserved instance that is not to be freed stays as it is.
pub Move-held :
    (F : Instance → Type 0) (p q : Pool) (id : String) (i : Instance)
    → Move F p q
    → lookup id p.instances ≡ some i
    → i.tier ≡ reserved
    → ¬ F i
    → lookup id q.instances ≡ some i
Move-held F p q id i (quiet ei et) found held kept = rw ei found
Move-held F p q id i (disarms k ei et) found held kept = rw ei found
Move-held F p q id i (arms k d a b ei et) found held kept = rw ei found
Move-held F p q id i (mints j gone a b ei et) found held kept =
    ground (arith, string_eq.beq_iff j.id id, lookup-insert j.id id j p.instances)
Move-held F p q id i (changes k j there same unarmed c ei et) found held kept =
    elim (Bool-cases (string_eq.beq j.id id)) [
      | inl hit ↦
          let e : k ≡ i = ground (arith, string_eq.beq_iff j.id id) in
          elim (kept (subst F e (kept_of_change F k j c (ap (λ x. x.tier) e ∙ held)))) [ ]
      | inr miss ↦ rw ei (lookup-insert j.id id j p.instances ∙ rw miss found)
    ]
Move-held F p q id i (removes k there unarmed free ei et) found held kept =
    elim (Bool-cases (string_eq.beq k.id id)) [
      | inl hit ↦
          let e : k ≡ i = ground (arith, string_eq.beq_iff k.id id) in
          elim (kept (subst F e (free (ap (λ x. x.tier) e ∙ held)))) [ ]
      | inr miss ↦ rw ei (lookup-erase k.id id p.instances ∙ rw miss found)
    ]

pub Run-held :
    (F : Instance → Type 0) (p q : Pool) (id : String) (i : Instance)
    → Run F p q
    → lookup id p.instances ≡ some i
    → i.tier ≡ reserved
    → ¬ F i
    → lookup id q.instances ≡ some i
Run-held F p _ id i stays found held kept = found
Run-held F p _ id i (goes r q m n) found held kept =
    Move-held F r q id i n (Run-held F p r id i m found held kept) held kept
