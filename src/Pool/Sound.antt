-- ===== src/Pool/Sound.antt =====
-- internal/pool/pool.go: the moves that the pool's calls are made of, as a relation between the pool before
-- and after, and what every move keeps.
use spyder.Prelude.{
  ◌≡◌, sym, ap, ◌∙◌, true, false, not, none, some, String, string_eq, ℤ, lookup, insert, erase,
  lookup-insert, lookup-erase, arith, Bool-cases, Option-cases, inl, inr,
}
use spyder.Prelude.Map.Unique.{Unique, insert-Unique, erase-Unique}
use spyder.Pool.{available, running, reserved, Instance, Pool, is_reserved, is_blank}

-- What may become of an instance that stays in the map. `Freed` holds for the reserved instances that
-- the call may take from their holders.
pub data Change (Freed : Instance → Type 0) (i j : Instance) : Type 0 where
  boots : i.tier ≡ available → j.tier ≡ running → j.holder ≡ i.holder → Change Freed i j
  hands : i.tier ≡ running → j.tier ≡ reserved → is_blank j.holder ≡ false → Change Freed i j
  returns :
      Freed i → i.tier ≡ reserved → j.tier ≡ running → is_blank j.holder ≡ true → Change Freed i j
  parks : i.tier ≡ running → j.tier ≡ available → j.holder ≡ i.holder → Change Freed i j

pub data Move (Freed : Instance → Type 0) (p q : Pool) : Type 0 where
  quiet : q.instances ≡ p.instances → q.linger_timers ≡ p.linger_timers → Move Freed p q
  disarms :
      (id : String)
      → q.instances ≡ p.instances
      → q.linger_timers ≡ erase id p.linger_timers
      → Move Freed p q
  arms :
      (i : Instance) (d : ℤ)
      → lookup i.id p.instances ≡ some i
      → i.tier ≡ running
      → q.instances ≡ p.instances
      → q.linger_timers ≡ insert i.id d p.linger_timers
      → Move Freed p q
  mints :
      (i : Instance)
      → lookup i.id p.instances ≡ none
      → i.tier ≡ available
      → is_blank i.holder ≡ true
      → q.instances ≡ insert i.id i p.instances
      → q.linger_timers ≡ p.linger_timers
      → Move Freed p q
  changes :
      (i j : Instance)
      → lookup i.id p.instances ≡ some i
      → j.id ≡ i.id
      → lookup i.id p.linger_timers ≡ none
      → Change Freed i j
      → q.instances ≡ insert j.id j p.instances
      → q.linger_timers ≡ p.linger_timers
      → Move Freed p q
  removes :
      (i : Instance)
      → lookup i.id p.instances ≡ some i
      → lookup i.id p.linger_timers ≡ none
      → (i.tier ≡ reserved → Freed i)
      → q.instances ≡ erase i.id p.instances
      → q.linger_timers ≡ p.linger_timers
      → Move Freed p q

-- A sequence of moves.
pub data Run (Freed : Instance → Type 0) (p : Pool) : Pool → Type 0 where
  stays : Run Freed p p
  goes : (r q : Pool) → Run Freed p r → Move Freed r q → Run Freed p q

-- Each instance stands once, under its own identifier; the reserved ones are those that have a holder;
-- and a linger timer is pending for running instances only.
pub record IsSound (p : Pool) : Type 0 where
  pub unique : Unique p.instances
  pub keyed : (key : String) (i : Instance) → lookup key p.instances ≡ some i → i.id ≡ key
  pub holders :
      (key : String) (i : Instance)
      → lookup key p.instances ≡ some i
      → is_blank i.holder ≡ not (is_reserved i.tier)
  pub timers :
      (key : String) (d : ℤ)
      → lookup key p.linger_timers ≡ some d
      → (i : Instance) × (lookup key p.instances ≡ some i) × (i.tier ≡ running)

Change-holder :
    (F : Instance → Type 0) (i j : Instance)
    → Change F i j
    → is_blank i.holder ≡ not (is_reserved i.tier)
    → is_blank j.holder ≡ not (is_reserved j.tier)
Change-holder F i j (boots a b c) h = rw (b, c) (h ∙ rw a)
Change-holder F i j (hands a b c) h = rw b c
Change-holder F i j (returns f a b c) h = rw b c
Change-holder F i j (parks a b c) h = rw (b, c) (h ∙ rw a)

insert-IsSound :
    (p q : Pool) (j : Instance)
    → IsSound p
    → lookup j.id p.linger_timers ≡ none
    → is_blank j.holder ≡ not (is_reserved j.tier)
    → q.instances ≡ insert j.id j p.instances
    → q.linger_timers ≡ p.linger_timers
    → IsSound q
insert-IsSound p q j s unarmed fits ei et = record {
  unique = rw ei (insert-Unique j.id j p.instances s.unique);
  keyed = λ key i h.
      ground
        (arith, string_eq.beq_iff j.id key, lookup-insert j.id key j p.instances, s.keyed key i);
  holders = λ key i h.
      ground
        (arith, string_eq.beq_iff j.id key, lookup-insert j.id key j p.instances, s.holders key i);
  timers = λ key d h. elim (Bool-cases (string_eq.beq j.id key)) [
    | inl same ↦ let e = (string_eq.beq_iff j.id key).0 same in cc (unarmed, e, h, et)
    | inr other ↦
        let (i, found, runs) = s.timers key d (rw (← et) h) in
        (i, rw ei (lookup-insert j.id key j p.instances ∙ rw other found), runs)
  ];
}

erase-IsSound :
    (p q : Pool) (id : String)
    → IsSound p
    → lookup id p.linger_timers ≡ none
    → q.instances ≡ erase id p.instances
    → q.linger_timers ≡ p.linger_timers
    → IsSound q
erase-IsSound p q id s unarmed ei et = record {
  unique = rw ei (erase-Unique id p.instances s.unique);
  keyed = λ key i h.
      ground (arith, string_eq.beq_iff id key, lookup-erase id key p.instances, s.keyed key i);
  holders = λ key i h.
      ground (arith, string_eq.beq_iff id key, lookup-erase id key p.instances, s.holders key i);
  timers = λ key d h. elim (Bool-cases (string_eq.beq id key)) [
    | inl same ↦ let e = (string_eq.beq_iff id key).0 same in cc (unarmed, e, h, et)
    | inr other ↦
        let (i, found, runs) = s.timers key d (rw (← et) h) in
        (i, rw ei (lookup-erase id key p.instances ∙ rw other found), runs)
  ];
}

disarm-IsSound :
    (p q : Pool) (id : String)
    → IsSound p
    → q.instances ≡ p.instances
    → q.linger_timers ≡ erase id p.linger_timers
    → IsSound q
disarm-IsSound p q id s ei et = record {
  unique = rw ei s.unique;
  keyed = λ key i h. s.keyed key i (rw (← ei) h);
  holders = λ key i h. s.holders key i (rw (← ei) h);
  timers = λ key d h. rw ei (s.timers key d (ground (arith, lookup-erase id key p.linger_timers)));
}

arm-IsSound :
    (p q : Pool) (i : Instance) (d : ℤ)
    → IsSound p
    → lookup i.id p.instances ≡ some i
    → i.tier ≡ running
    → q.instances ≡ p.instances
    → q.linger_timers ≡ insert i.id d p.linger_timers
    → IsSound q
arm-IsSound p q i d s found runs ei et = record {
  unique = rw ei s.unique;
  keyed = λ key i h. s.keyed key i (rw (← ei) h);
  holders = λ key i h. s.holders key i (rw (← ei) h);
  timers = λ key t h. elim (Bool-cases (string_eq.beq i.id key)) [
    | inl same ↦ (
      i,
      rw ei (ap (λ k. lookup k p.instances) (sym ((string_eq.beq_iff i.id key).0 same)) ∙ found),
      runs,
    )
    | inr other ↦ rw ei (s.timers key t (ground (arith, lookup-insert i.id key d p.linger_timers)))
  ];
}

absent_unarmed :
    (p : Pool) (id : String)
    → IsSound p
    → lookup id p.instances ≡ none
    → lookup id p.linger_timers ≡ none
absent_unarmed p id s gone = elim (Option-cases (lookup id p.linger_timers)) [
  | inl e ↦ e
  | inr (d, e) ↦ let (i, found, runs) = s.timers id d e in cc (found, gone)
]

pub Move-IsSound : (F : Instance → Type 0) (p q : Pool) → IsSound p → Move F p q → IsSound q
Move-IsSound F p q s (quiet ei et) = record {
  unique = rw ei s.unique;
  keyed = λ key i h. s.keyed key i (rw (← ei) h);
  holders = λ key i h. s.holders key i (rw (← ei) h);
  timers = λ key d h. rw ei (s.timers key d (rw (← et) h));
}
Move-IsSound F p q s (disarms id ei et) = disarm-IsSound p q id s ei et
Move-IsSound F p q s (arms i d found runs ei et) = arm-IsSound p q i d s found runs ei et
Move-IsSound F p q s (mints i gone a b ei et) =
    insert-IsSound p q i s (absent_unarmed p i.id s gone) (b ∙ rw a) ei et
Move-IsSound F p q s (changes i j found same unarmed c ei et) =
    insert-IsSound p q j s (rw same unarmed) (Change-holder F i j c (s.holders i.id i found)) ei et
Move-IsSound F p q s (removes i found unarmed free ei et) = erase-IsSound p q i.id s unarmed ei et

pub Run-IsSound : (F : Instance → Type 0) (p q : Pool) → IsSound p → Run F p q → IsSound q
Run-IsSound F p _ s stays = s
Run-IsSound F p _ s (goes r q m n) = Move-IsSound F r q (Run-IsSound F p r s m) n
