-- ===== src/Pool/Served.antt =====
-- internal/pool/pool.go: Acquire where the executor does what it is asked.
use mathlib.Core.Path.{subst}
use Prim.Native.String.{slice}
use spyder.Prelude.{
  str_append, string_eq, ℕ, ◌≡◌, refl, sym, ◌||◌, true, false, none, some, String, lookup, arith,
  Bool-cases, Option-cases, inl, inr,
}
use spyder.Pool.{
  Instance, TemplateConfig, World, Pool, is_blank, is_ios, is_android, reload, find_template,
  pick_running, pick_available,
}
use spyder.Pool.Lifecycle.{
  minted, mint_device, mint_instance, booted, booted_as, boot_instance, mark_reserved,
  with_instance, handed_to,
}
use spyder.Pool.Calls.{Result, ok, after_mint, boot_for, mint_for, acquire_from, acquire}
use spyder.Pool.Sound.{IsSound}
use spyder.Pool.Handed.{IsHanded, acquire-IsHanded}

-- Simulators and emulators are made and booted without an error.
pub record IsWorking (w : World) : Type 0 where
  pub creates :
      (name device image : String) → (s : String) × (w.sim_create name device image ≡ some s)
  pub boots : (id : String) → w.sim_boot id ≡ true
  pub clones : (image name : String) → w.avd_clone image name ≡ true
  pub avd_boots : (name : String) → (s : String) × (w.avd_boot name ≡ some s)

abbrev IsOk : Result Instance → Type 0
IsOk r = (j : Instance) × (r ≡ ok j)

module _ (w : World) (works : IsWorking w) where
  booted-some : (i : Instance) → (j : Instance) × (booted w i ≡ some j)
  unfolding booted
  booted-some i = elim (Bool-cases (is_ios i.platform)) [
    | inl ios ↦ (booted_as i i.serial, rw (ios, works.boots i.device_id) refl)
    | inr other ↦ elim (Bool-cases (is_android i.platform)) [
      | inl android ↦
          let (s, e) = works.avd_boots i.device_id in
          (booted_as i s, rw (other, android) (rw e refl))
      | inr neither ↦ (booted_as i i.serial, rw (other, neither) refl)
    ]
  ]

  mint_device-some :
      (t : TemplateConfig) (id : String)
      → (is_ios t.platform || is_android t.platform) ≡ true
      → (d : String) × (mint_device w t id ≡ some d)
  unfolding mint_device
  mint_device-some t id known =
      let clone = str_append "spyder-pool-" (slice id 0 8) in
      elim (Bool-cases (is_ios t.platform)) [
        | inl ios ↦
            let (s, e) = works.creates clone t.device_type t.runtime_or_system_image in
            (s, rw (ios, e) refl)
        | inr other ↦
            let android : is_android t.platform ≡ true = ground arith in
            (clone, rw (other, android, works.clones t.device_type clone) refl)
      ]

  boot_for-IsOk :
      (n : ℕ) (holder : String) (p : Pool) (i : Instance) → IsOk (boot_for w n holder p i).1
  unfolding boot_for boot_instance mark_reserved
  boot_for-IsOk n holder p i =
      let (j, e) = booted-some i in (handed_to j holder (w.now n), rw (e, boot_for) refl)

  mint_for-IsOk :
      (holder : String) (p : Pool) (t : TemplateConfig)
      → (is_ios t.platform || is_android t.platform) ≡ true
      → IsOk (mint_for w holder p t).1
  unfolding mint_for mint_instance
  mint_for-IsOk holder p t known =
      let (d, e) = mint_device-some t (w.uuid 0) known in
      let i = minted t (w.uuid 0) d (w.now 0) in
      let (j, ready) = boot_for-IsOk 1 holder (with_instance p i) i in
      let made : mint_instance w 0 p t ≡ (with_instance p i, some i) = rw (e, mint_instance) refl in
      (j, subst (λ x. (after_mint w holder x).1 ≡ ok j) (sym made) ready)

  acquire_from-IsOk :
      (holder : String) (p : Pool) (t : TemplateConfig)
      → (is_ios t.platform || is_android t.platform) ≡ true
      → IsOk (acquire_from w holder p t).1
  unfolding acquire_from mark_reserved
  acquire_from-IsOk holder p t known = elim (Option-cases (pick_running p t.name)) [
    | inr (i, e) ↦ (handed_to i holder (w.now 0), rw (e, acquire_from) refl)
    | inl none_running ↦ elim (Option-cases (pick_available p t.name)) [
      | inr (i, e) ↦
          let (j, ready) = boot_for-IsOk 0 holder p i in
          (j, rw (none_running, e, acquire_from) ready)
      | inl none_idle ↦
          let (j, ready) = mint_for-IsOk holder p t known in
          (j, rw (none_running, none_idle, acquire_from) ready)
    ]
  ]

-- While the executor works, a caller with a name that asks for a configured iOS or Android template is
-- served: Acquire returns an instance of the template that it records as reserved for the caller and
-- that nobody held before. The identifier that the call may mint is new to the pool.
pub acquire-served :
    (w : World) (p : Pool) (name holder : String) (t : TemplateConfig)
    → IsWorking w
    → IsSound p
    → lookup (w.uuid 0) p.instances ≡ none
    → is_blank holder ≡ false
    → find_template (reload w p) name ≡ some t
    → (is_ios t.platform || is_android t.platform) ≡ true
    → (j : Instance) × ((acquire w p name holder).1 ≡ ok j)
      × IsHanded p (acquire w p name holder).0 name holder j
unfolding acquire
acquire-served w p name holder t works s free named known platform =
    let (j, ready) = acquire_from-IsOk w works holder (reload w p) t platform in
    let served : (acquire w p name holder).1 ≡ ok j = rw (named, acquire) (rw known ready) in
    (j, served, acquire-IsHanded w p name holder j s free served)
