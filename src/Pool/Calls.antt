-- ===== src/Pool/Calls.antt =====
-- internal/pool/pool.go: the calls of the pool.
use spyder.Prelude.{
  ℕ, zero, suc, ◌+◌, Bool, true, false, ◌&&◌, Option, none, some, List, [], ◌∷◌, String, string_eq,
  if◌then◌else◌, ltb, pos_part, is_positive, lookup, insert, erase,
}
use spyder.Pool.{
  Tier, running, Instance, TemplateConfig, World, Pool, is_running, is_reserved, is_blank, reload,
  find_template, pick_running, pick_available, count_available, pick_oldest_available,
  linger_duration, cancel_linger,
}
use spyder.Pool.Lifecycle.{
  with_instance, mint_instance, boot_instance, shutdown_instance, destroy_instance, mark_reserved,
  with_store,
}
use spyder.Pool.Ledger.{delete}

pub data Failure : Type 0 where
  holder_required : Failure
  unknown_template : String → Failure
  unknown_instance : String → Failure
  not_reserved : String → Tier → Failure
  boot_failed : Failure
  mint_failed : Failure
  destroy_failed : Failure
  some_failed : ℕ → Failure

pub data Result {ℓ} (A : Type ℓ) : Type ℓ where
  ok : A → Result A
  err : Failure → Result A

abbrev pub after_boot : World → ℕ → String → Pool × Option Instance → Pool × Result Instance
after_boot w n holder (p, none) = (p, err boot_failed)
after_boot w n holder (p, some i) = let (p1, j) = mark_reserved w (w.now n) p i holder in (p1, ok j)

-- Booting an instance and handing it to the holder, at the reading `n` of the clock.
unfoldable pub boot_for : World → ℕ → String → Pool → Instance → Pool × Result Instance
unfolding boot_instance mark_reserved
boot_for w n holder p i = after_boot w n holder (boot_instance w p i)

abbrev pub after_mint : World → String → Pool × Option Instance → Pool × Result Instance
after_mint w holder (p, none) = (p, err mint_failed)
after_mint w holder (p, some i) = boot_for w 1 holder p i

-- The call mints at its first reading of the clock and reserves at the second.
unfoldable pub mint_for : World → String → Pool → TemplateConfig → Pool × Result Instance
unfolding mint_instance boot_for
mint_for w holder p t = after_mint w holder (mint_instance w 0 p t)

unfoldable pub acquire_from : World → String → Pool → TemplateConfig → Pool × Result Instance
unfolding pick_running pick_available cancel_linger mark_reserved boot_for mint_for
acquire_from w holder p t = elim (pick_running p t.name) [
  | some i ↦ let (p1, j) = mark_reserved w (w.now 0) (cancel_linger p i.id) i holder in (p1, ok j)
  | none ↦ elim (pick_available p t.name) [
    | some i ↦ boot_for w 0 holder p i
    | none ↦ mint_for w holder p t
  ]
]

unfoldable pub acquire : World → Pool → String → String → Pool × Result Instance
unfolding reload find_template acquire_from
acquire w p name holder =
    if is_blank holder then (p, err holder_required) else elim (find_template (reload w p) name) [
      | none ↦ (reload w p, err (unknown_template name))
      | some t ↦ acquire_from w holder (reload w p) t
    ]

abbrev pub returned : Instance → ℕ → Instance
returned i now = record i { tier = running; holder = ""; acquired_at = 0; last_release_at = now }

-- The pool once the instance is back, before the linger timer is set.
unfoldable pub give_back : World → Pool → Instance → Pool
unfolding delete
give_back w p i = with_store (with_instance p (returned i (w.now 0))) (delete w.ledger_works i.id)

-- The end of `Release`: the linger timer is set, or the instance goes if its template is gone.
unfoldable pub settle :
    World → Pool → Instance → String → Option TemplateConfig → Pool × Result (Unit {0})
unfolding linger_duration destroy_instance
settle w p i id none =
    let (p1, deleted) = destroy_instance w p i in
    (p1, if deleted then ok tt else err destroy_failed)
settle w p i id (some t) =
    (record p { linger_timers = insert id (linger_duration w t) p.linger_timers }, ok tt)

unfoldable pub release : World → Pool → String → Pool × Result (Unit {0})
unfolding give_back reload find_template settle
release w p id = elim (lookup id p.instances) [
  | none ↦ (p, err (unknown_instance id))
  | some i ↦
      let p1 = reload w (give_back w p i) in
      if is_reserved i.tier
      then settle w p1 (returned i (w.now 0)) id (find_template p1 i.template)
      else (p, err (not_reserved id i.tier))
]

-- Another available instance would exceed the cap of the template.
unfoldable pub is_full : Pool → TemplateConfig → String → Bool
unfolding count_available
is_full p t name =
    is_positive t.available_max
    && ltb (pos_part t.available_max) (count_available name p.instances + 1)

-- Room for one more available instance, by the eviction of the oldest where the cap is reached; `none`
-- where there is none to evict.
unfoldable pub make_room : World → Pool → TemplateConfig → String → Option Pool
unfolding is_full pick_oldest_available destroy_instance
make_room w p t name =
    if is_full p t name
    then elim (pick_oldest_available p name) [
      | none ↦ none
      | some victim ↦ some (destroy_instance w p victim).0
    ]
    else some p

-- A shutdown that fails leaves the instance running.
unfoldable pub park : World → Pool → Instance → Option TemplateConfig → Pool
unfolding make_room shutdown_instance destroy_instance
park w p i none = (destroy_instance w p i).0
park w p i (some t) = elim (make_room w p t i.template) [
  | none ↦ (destroy_instance w p i).0
  | some p1 ↦ (shutdown_instance w p1 i).0
]

unfoldable pub on_linger_expired : World → Pool → String → Pool
unfolding reload find_template park
on_linger_expired w p id = elim (lookup id p.instances) [
  | none ↦ p
  | some i ↦
      let p1 = reload w (record p { linger_timers = erase id p.linger_timers }) in
      if is_running i.tier then park w p1 i (find_template p1 i.template) else p
]

-- The loop of `ForceShutdown` over the instances of the map as it was, with the number of its errors.
unfoldable pub drain : World → String → List (String × Instance) → Pool → Pool × ℕ
unfolding cancel_linger destroy_instance
drain w name [] p = (p, 0)
drain w name ((k, i) ∷ m) p =
    let step = destroy_instance w (cancel_linger p i.id) i in
    let p1 = if string_eq.beq i.template name then step.0 else p in
    let rest = drain w name m p1 in
    if string_eq.beq i.template name
    then (rest.0, (if step.1 then rest.1 else suc rest.1))
    else rest

unfoldable pub force_shutdown : World → Pool → String → Pool × Result (Unit {0})
unfolding reload find_template drain
force_shutdown w p name =
    let p1 = reload w p in
    elim (find_template p1 name) [
      | none ↦ (p1, err (unknown_template name))
      | some t ↦
          let (p2, failures) = drain w name p1.instances p1 in
          (p2, if ltb 0 failures then err (some_failed failures) else ok tt)
    ]

-- The errors of a boot: one or none.
abbrev pub boot_errors : Option Instance → ℕ
boot_errors none = 1
boot_errors (some i) = 0

abbrev pub booted_in_turn : Pool × Option Instance → Pool × ℕ × Bool
booted_in_turn (p, o) = (p, boot_errors o, true)

abbrev pub minted_in_turn : World → Pool × Option Instance → Pool × ℕ × Bool
minted_in_turn w (p, none) = (p, 1, false)
minted_in_turn w (p, some i) = booted_in_turn (boot_instance w p i)

-- One turn of the loop of `Warm`: the pool, the errors, and whether the loop goes on.
unfoldable pub warm_one : World → ℕ → TemplateConfig → Pool → Pool × ℕ × Bool
unfolding pick_available boot_instance mint_instance
warm_one w n t p = elim (pick_available p t.name) [
  | some i ↦ booted_in_turn (boot_instance w p i)
  | none ↦ minted_in_turn w (mint_instance w n p t)
]

-- The loop, with `k` turns to go from turn `n` on.
unfoldable pub warm_from : World → ℕ → ℕ → TemplateConfig → Pool → Pool × ℕ
unfolding warm_one
warm_from w n zero t p = (p, 0)
warm_from w n (suc k) t p =
    let (p1, failures, goes_on) = warm_one w n t p in
    let rest = warm_from w (suc n) k t p1 in
    if goes_on then (rest.0, failures + rest.1) else (p1, failures)

unfoldable pub warm : World → Pool → String → ℕ → Pool × Result (Unit {0})
unfolding reload find_template warm_from
warm w p name n = elim (find_template (reload w p) name) [
  | none ↦ (reload w p, err (unknown_template name))
  | some t ↦
      let (p1, failures) = warm_from w 0 n t (reload w p) in
      (p1, if ltb 0 failures then err (some_failed failures) else ok tt)
]
