-- ===== src/Pool/Lifecycle.antt =====
-- internal/pool/pool.go: what happens to one instance: it is made, booted, handed out, shut down and
-- destroyed. The instance that a function changes is the one in the map, which is written back.
use Prim.Native.String.{slice}
use spyder.Prelude.{
  ℕ, Bool, true, false, Option, none, some, List, String, str_append, if◌then◌else◌, insert, erase,
  string_eq,
}
use spyder.Pool.{
  available, running, reserved, Instance, TemplateConfig, World, Pool, is_available, is_blank,
  is_ios, is_android,
}
use spyder.Pool.Ledger.{Hold, seconds_of, put, delete}

abbrev pub with_instance : Pool → Instance → Pool
with_instance p i = record p { instances = insert i.id i p.instances }

-- `none` where the device could not be made.
unfoldable pub mint_device : World → TemplateConfig → String → Option String
mint_device w t id =
    let clone = str_append "spyder-pool-" (slice id 0 8) in
    if is_ios t.platform
    then w.sim_create clone t.device_type t.runtime_or_system_image
    else if is_android t.platform
    then (if w.avd_clone t.device_type clone then some clone else none)
    else none

abbrev pub minted : TemplateConfig → String → String → ℕ → Instance
minted t id device now = record {
  id = id;
  template = t.name;
  platform = t.platform;
  tier = available;
  device_id = device;
  serial = "";
  holder = "";
  created_at = now;
  acquired_at = 0;
  last_release_at = 0;
}

-- The `n`-th instance that the call mints.
unfoldable pub mint_instance : World → ℕ → Pool → TemplateConfig → Pool × Option Instance
mint_instance w n p t = elim (mint_device w t (w.uuid n)) [
  | none ↦ (p, none)
  | some device ↦ let i = minted t (w.uuid n) device (w.now n) in (with_instance p i, some i)
]

abbrev pub booted_as : Instance → String → Instance
booted_as i serial = record i { serial = serial; tier = running }

-- The booted instance, or `none` for an error.
unfoldable pub booted : World → Instance → Option Instance
booted w i =
    if is_ios i.platform
    then (if w.sim_boot i.device_id then some (booted_as i i.serial) else none)
    else if is_android i.platform
    then elim (w.avd_boot i.device_id) [ none ↦ none | some serial ↦ some (booted_as i serial) ]
    else some (booted_as i i.serial)

abbrev pub replaced : Pool → Option Instance → Pool
replaced p none = p
replaced p (some i) = with_instance p i

unfoldable pub boot_instance : World → Pool → Instance → Pool × Option Instance
boot_instance w p i = (replaced p (booted w i), booted w i)

unfoldable pub shut : World → Instance → Option Instance
shut w i =
    if is_ios i.platform
    then (if w.sim_shutdown i.device_id then some (record i { tier = available }) else none)
    else if is_android i.platform
    then (if is_blank i.serial
        then some (record i { tier = available })
        else if w.avd_shutdown i.serial
        then some (record i { tier = available; serial = "" })
        else none)
    else some (record i { tier = available })

-- The Boolean says that there was no error.
unfoldable pub shutdown_instance : World → Pool → Instance → Pool × Bool
shutdown_instance w p i = elim (shut w i) [ none ↦ (p, false) | some j ↦ (with_instance p j, true) ]

abbrev pub with_store : Pool → (List (String × Hold) → List (String × Hold)) → Pool
with_store p f = record p { store = elim p.store [ none ↦ none | some rows ↦ some (f rows) ] }

abbrev deleted : World → Instance → Bool
deleted w i =
    if is_ios i.platform
    then w.sim_delete i.device_id
    else if is_android i.platform
    then w.avd_delete i.device_id
    else true

-- The instance leaves the map also when its device is not deleted.
unfoldable pub destroy_instance : World → Pool → Instance → Pool × Bool
unfolding shutdown_instance delete
destroy_instance w p i =
    let p1 = if is_available i.tier then p else (shutdown_instance w p i).0 in
    let p2 = record p1 { instances = erase i.id p1.instances } in
    (with_store p2 (delete w.ledger_works i.id), deleted w i)

abbrev pub handed_to : Instance → String → ℕ → Instance
handed_to i holder now = record i { tier = reserved; holder = holder; acquired_at = now }

abbrev pub hold_of : Instance → Hold
hold_of i = record {
  device_id = i.device_id;
  template = i.template;
  platform = i.platform;
  holder = i.holder;
  acquired_at = seconds_of i.acquired_at;
}

unfoldable pub mark_reserved : World → ℕ → Pool → Instance → String → Pool × Instance
unfolding put
mark_reserved w now p i holder =
    let j = handed_to i holder now in
    (with_store (with_instance p j) (put w.ledger_works j.id (hold_of j)), j)
