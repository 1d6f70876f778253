-- ===== src/Pool/Cap.antt =====
-- internal/pool/pool.go: the cap on the available instances, and which of them is evicted.
use spyder.Prelude.{
  ◌≤◌, suc, ◌≡◌, refl, ap, sym, ◌∙◌, Bool, true, false, ◌&&◌, Option, none, some, List, [], ◌∷◌,
  String, string_eq, pos_part, is_positive, lookup, insert, erase, lookup-erase, beq_self, arith,
  Bool-cases, Option-cases, inl, inr, All,
}
use spyder.Pool.{
  running, Instance, TemplateConfig, World, Pool, is_available, is_running, is_older, last_touch,
  oldest_from, pick_oldest_available, count_available, reload, template_in, find_template,
  cancel_linger,
}
use mathlib.Core.Path.{subst}
use spyder.Pool.Lifecycle.{shut, shutdown_instance, destroy_instance}
use spyder.Pool.Calls.{is_full, make_room, park, on_linger_expired}
use spyder.Pool.Sound.{IsSound, Run-IsSound}
use spyder.Pool.Steps.{
  Stands, IsUnarmed, shut-parks, destroyed, reload-Run, reload_same, both, cancel_linger-Run,
}
use spyder.Pool.Steps.Look.{pick_oldest_available-found, running_of}
use spyder.Pool.Retire.{make_room-cases, evict-Run, some_inj}

-- An available instance of the template.
abbrev pub is_idle : String → Instance → Bool
is_idle name i = string_eq.beq i.template name && is_available i.tier

oldest_from_le :
    (name : String) (o : Option Instance) (m : List (String × Instance)) (v : Instance)
    → oldest_from name o m ≡ some v
    → ((x : Instance) → o ≡ some x → last_touch v ≤ last_touch x)
      × All (λ e. is_idle name e.1 ≡ true → last_touch v ≤ last_touch e.1) m
unfolding oldest_from last_touch
oldest_from_le name o [] v e = (λ x h. ground arith, tt)
oldest_from_le name o ((k, i) ∷ m) v e =
    elim (Bool-cases (string_eq.beq i.template name && is_available i.tier && is_older i o)) [
      | inl hit ↦
          let (le, rest) = oldest_from_le name (some i) m v (rw hit at e) in
          let first = le i refl in ((λ x h. ground arith), ((λ idle. first), rest))
      | inr miss ↦
          let (le, rest) = oldest_from_le name o m v (rw miss at e) in
          (
            le,
            (
              (λ idle. elim (Option-cases o) [
                | inl e ↦ cc (e, idle, miss)
                | inr (x, e) ↦ let l = le x e in ground arith
              ]),
              rest,
            ),
          )
    ]

count-erase_le :
    (name id : String) (m : List (String × Instance))
    → count_available name (erase id m) ≤ count_available name m
unfolding lookup erase count_available
count-erase_le name id [] = ground arith
count-erase_le name id ((k, v) ∷ m) = ground (arith, count-erase_le name id m)

count-insert :
    (name id : String) (i j : Instance) (m : List (String × Instance))
    → lookup id m ≡ some i
    → is_idle name i ≡ false
    → count_available name (insert id j m) ≤ suc (count_available name m)
unfolding lookup insert count_available
count-insert name id i j [] here idle = cc
count-insert name id i j ((k, v) ∷ m) here idle = ground (arith, count-insert name id i j m)

count-erase :
    (name id : String) (i : Instance) (m : List (String × Instance))
    → lookup id m ≡ some i
    → is_idle name i ≡ true
    → suc (count_available name (erase id m)) ≤ count_available name m
unfolding lookup erase count_available
count-erase name id i [] here idle = cc
count-erase name id i ((k, v) ∷ m) here idle =
    ground (arith, string_eq.beq_iff k id, count-erase_le name id m, count-erase name id i m)

-- An available instance of the template, which none of them was touched before.
pub record IsOldest (p : Pool) (name : String) (v : Instance) : Type 0 where
  pub here : Stands p v
  pub idle : is_idle name v ≡ true
  pub least : All (λ e. is_idle name e.1 ≡ true → last_touch v ≤ last_touch e.1) p.instances

pick_oldest_available-IsOldest :
    (p : Pool) (name : String) (v : Instance)
    → IsSound p
    → pick_oldest_available p name ≡ some v
    → IsOldest p name v
unfolding pick_oldest_available
pick_oldest_available-IsOldest p name v s e =
    let (here, fits, idle) = pick_oldest_available-found p name v s e in
    record {
      here = here;
      idle = rw (fits, idle) refl;
      least = (oldest_from_le name none p.instances v e).1;
    }

-- Where another available instance would exceed the cap, room is made by the removal of one instance,
-- an available one of the template that was last touched no later than any other of them.
pub make_room-IsOldest :
    (w : World) (p q : Pool) (t : TemplateConfig) (name : String)
    → IsSound p
    → is_full p t name ≡ true
    → make_room w p t name ≡ some q
    → (v : Instance) × IsOldest p name v × (q.instances ≡ erase v.id p.instances)
make_room-IsOldest w p q t name s full e = elim (make_room-cases w p t name) [
  | inl (roomy, same) ↦ cc (roomy, full)
  | inr (inl (again, nobody, bad)) ↦ cc (bad, e)
  | inr (inr (v, again, found, evicted)) ↦ (
    v,
    pick_oldest_available-IsOldest p name v s found,
    ap (λ x. x.instances) (some_inj (sym e ∙ evicted)) ∙ (destroyed w p v).0,
  )
]

count-shutdown :
    (w : World) (p : Pool) (i : Instance) (name : String)
    → Stands p i
    → i.tier ≡ running
    → count_available name (shutdown_instance w p i).0.instances
      ≤ suc (count_available name p.instances)
unfolding shutdown_instance
count-shutdown w p i name here runs = elim (Option-cases (shut w i)) [
  | inl e ↦ rw (e, shutdown_instance) (omega arith)
  | inr (j, e) ↦
      rw (e, shutdown_instance)
        (subst
          (λ k.
            count_available name (insert k j p.instances) ≤ suc (count_available name p.instances))
          (sym (shut-parks w i j e).0)
          (count-insert name i.id i j p.instances here (rw runs (ground arith))))
]

module _ (w : World) (p : Pool) (i : Instance) (t : TemplateConfig) (s : IsSound p)
    (here : Stands p i) (runs : i.tier ≡ running) (unarmed : IsUnarmed p i)
    (capped : is_positive t.available_max ≡ true)
    (within : count_available i.template p.instances ≤ pos_part t.available_max) where
  park_within :
      count_available i.template (park w p i (some t)).instances ≤ pos_part t.available_max
  unfolding park is_full
  park_within = elim (make_room-cases w p t i.template) [
    | inl (roomy, e) ↦ rw (e, park) (ground (arith, count-shutdown w p i i.template here runs))
    | inr (inl (full, nobody, e)) ↦
        rw (e, park, (destroyed w p i).0)
          (ground (arith, count-erase_le i.template i.id p.instances))
    | inr (inr (v, full, found, e)) ↦
        let q = (destroy_instance w p v).0 in
        let oldest = pick_oldest_available-IsOldest p i.template v s found in
        let (run, here1, unarmed1) =
          evict-Run (λ x. Unit) w p i v i.template s here runs unarmed found in
        let fewer : suc (count_available i.template q.instances)
            ≤ count_available i.template p.instances =
          rw ((destroyed w p v).0)
            (count-erase i.template v.id v p.instances oldest.here oldest.idle) in
        rw (e, park) (ground (arith, count-shutdown w q i i.template here1 runs))
  ]

reload_cfg :
    (w : World) (p : Pool) (id : String) → (reload w (cancel_linger p id)).cfg ≡ (reload w p).cfg
unfolding reload cancel_linger
reload_cfg w p id = ground arith

-- The firing of a linger timer keeps the cap: where the template has a cap and no more available
-- instances than that, it has no more afterwards, whatever the executor answers.
pub on_linger_expired-le :
    (w : World) (p : Pool) (id : String) (i : Instance) (t : TemplateConfig)
    → IsSound p
    → lookup id p.instances ≡ some i
    → find_template (reload w p) i.template ≡ some t
    → is_positive t.available_max ≡ true
    → count_available i.template p.instances ≤ pos_part t.available_max
    → count_available i.template (on_linger_expired w p id).instances ≤ pos_part t.available_max
unfolding on_linger_expired find_template cancel_linger
on_linger_expired-le w p id i t s found known capped within =
    elim (Bool-cases (is_running i.tier)) [
      | inr idle ↦ rw (found, on_linger_expired) (rw idle within)
      | inl runs ↦
          let p1 = cancel_linger p id in
          let (ei, et) = reload_same w p1 in
          let same = s.keyed id i found in
          let here : Stands p i = ap (λ k. lookup k p.instances) same ∙ found in
          let first =
            both (λ x. Unit) p p1 (reload w p1) (cancel_linger-Run (λ x. Unit) p id)
              (reload-Run (λ x. Unit) w p1) in
          let known1 : find_template (reload w p1) i.template ≡ some t =
            ap (template_in i.template) (reload_cfg w p id) ∙ known in
          rw (found, on_linger_expired)
            (rw (runs, known1)
              (park_within w (reload w p1) i t (Run-IsSound (λ x. Unit) p _ s first)
                (ap (lookup i.id) ei ∙ here) (running_of i.tier runs)
                (ap (lookup i.id) et
                  ∙ (ap (λ k. lookup k p1.linger_timers) same
                      ∙ (lookup-erase id id p.linger_timers ∙ rw (beq_self id) refl)))
                capped (rw ei within)))
    ]
