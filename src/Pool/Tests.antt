-- ===== src/Pool/Tests.antt =====
-- A pool of one template with a cap of one, and calls on it.
use spyder.Prelude.{
  ℕ, ◌≡◌, ◌≤◌, refl, true, none, some, List, [], ◌∷◌, String, string_eq, pos, lookup, arith,
}
use spyder.Pool.{
  Tier, running, reserved, Instance, TemplateConfig, World, Pool, count_available, find_template,
  reload,
}
use spyder.Pool.Served.{IsWorking, acquire-served}
use spyder.Pool.Calls.{ok, on_linger_expired, acquire}
use spyder.Pool.Lifecycle.{mint_device, booted, shut}
use spyder.Pool.Sound.{IsSound}
use spyder.Pool.Serve.{
  Call, acquires, releases, lingers, drains, warms, serve, AreServable, serve_all,
  serve_all-IsSound, serve_all-reserved,
}
use spyder.Pool.Handed.{IsHanded, acquire-IsHanded}
use spyder.Pool.Cap.{on_linger_expired-le}

abbrev phone : TemplateConfig
phone = record {
  name = "phone";
  platform = "ios";
  device_type = "iPhone-16";
  runtime_or_system_image = "iOS-18-3";
  tags = [];
  available_max = pos 1;
  linger_seconds = pos 0;
}

abbrev outside : String → String → ℕ → World
outside first second t = record {
  sim_create = λ name device image. some name;
  sim_boot = λ udid. true;
  sim_shutdown = λ udid. true;
  sim_delete = λ udid. true;
  avd_clone = λ image name. true;
  avd_boot = λ name. some "emulator-5554";
  avd_shutdown = λ serial. true;
  avd_delete = λ name. true;
  uuid = λ n. elim n [ ℕ.zero ↦ first | ℕ.suc m ↦ second ];
  now = λ n. t;
  reloaded = none;
  linger_env = none;
  ledger_works = true;
}

abbrev instance_at : String → Tier → String → ℕ → Instance
instance_at id tier holder t = record {
  id = id;
  template = "phone";
  platform = "ios";
  tier = tier;
  device_id = id;
  serial = "";
  holder = holder;
  created_at = t;
  acquired_at = 0;
  last_release_at = 0;
}

abbrev empty : Pool
empty = record { cfg = phone ∷ []; store = some []; instances = []; linger_timers = [] }

empty-IsSound : IsSound empty
unfolding lookup
empty-IsSound = record {
  unique = tt;
  keyed = λ key i h. cc h;
  holders = λ key i h. cc h;
  timers = λ key d h. cc h;
}

-- Two callers, a timer, and a drain.
abbrev calls : List (World × Call)
calls =
    (outside "aaaaaaaa-1" "" 10, acquires "phone" "ann")
    ∷ (outside "bbbbbbbb-2" "cccccccc-3" 20, warms "phone" 2)
    ∷ (outside "dddddddd-4" "" 30, acquires "phone" "bob")
    ∷ (outside "" "" 40, releases "aaaaaaaa-1")
    ∷ (outside "" "" 50, lingers "aaaaaaaa-1")
    ∷ []

calls-AreServable : AreServable empty calls
unfolding lookup AreServable serve mint_device booted
calls-AreServable =
    ((refl, tt, tt), ((refl, (refl, tt), (refl, tt, tt)), ((refl, tt, tt), (tt, (tt, tt)))))

serve_all-IsSound_example : IsSound (serve_all empty calls)
serve_all-IsSound_example = serve_all-IsSound empty calls empty-IsSound calls-AreServable

-- Two running instances, of which one was then shut down.
abbrev warming : List (World × Call)
warming =
    (outside "aaaaaaaa-1" "bbbbbbbb-2" 20, warms "phone" 2)
    ∷ (outside "" "" 50, lingers "aaaaaaaa-1")
    ∷ []

abbrev warmed : Pool
unfolding serve_all
warmed = serve_all empty warming

warmed-IsSound : IsSound warmed
unfolding lookup AreServable serve warmed serve_all
warmed-IsSound =
    serve_all-IsSound empty warming empty-IsSound ((refl, (refl, tt), (refl, tt, tt)), (tt, tt))

acquire-IsHanded_example :
    IsHanded warmed
      (acquire (outside "eeeeeeee-5" "" 60) warmed "phone" "bob").0
      "phone"
      "bob"
      (record (instance_at "bbbbbbbb-2" reserved "bob" 20) {
        device_id = "spyder-pool-bbbbbbbb";
        acquired_at = 60;
      })
unfolding acquire lookup warmed serve_all mint_device booted shut
acquire-IsHanded_example =
    acquire-IsHanded (outside "eeeeeeee-5" "" 60) warmed "phone" "bob"
      (record (instance_at "bbbbbbbb-2" reserved "bob" 20) {
        device_id = "spyder-pool-bbbbbbbb";
        acquired_at = 60;
      })
      warmed-IsSound refl refl

on_linger_expired-le_example :
    count_available "phone" (on_linger_expired (outside "" "" 70) warmed "bbbbbbbb-2").instances ≤ 1
unfolding lookup warmed serve_all find_template count_available mint_device booted shut
on_linger_expired-le_example =
    on_linger_expired-le (outside "" "" 70) warmed "bbbbbbbb-2"
      (record (instance_at "bbbbbbbb-2" running "" 20) { device_id = "spyder-pool-bbbbbbbb" }) phone
      warmed-IsSound refl refl refl (omega arith)

-- Ann's instance, while others acquire, warm and let timers fire.
abbrev anns : Pool
unfolding serve_all
anns = serve_all empty ((outside "aaaaaaaa-1" "" 10, acquires "phone" "ann") ∷ [])

abbrev others : List (World × Call)
others =
    (outside "bbbbbbbb-2" "" 20, warms "phone" 1)
    ∷ (outside "dddddddd-4" "" 30, acquires "phone" "bob")
    ∷ (outside "" "" 40, releases "bbbbbbbb-2")
    ∷ (outside "" "" 50, lingers "aaaaaaaa-1")
    ∷ (outside "" "" 60, lingers "bbbbbbbb-2")
    ∷ (outside "" "" 70, drains "tablet")
    ∷ []

anns-IsSound : IsSound anns
unfolding lookup AreServable serve anns serve_all
anns-IsSound =
    serve_all-IsSound empty ((outside "aaaaaaaa-1" "" 10, acquires "phone" "ann") ∷ [])
      empty-IsSound ((refl, tt, tt), tt)

serve_all-reserved_example :
    lookup "aaaaaaaa-1" (serve_all anns others).instances
    ≡ some (record (instance_at "aaaaaaaa-1" reserved "ann" 10) {
      device_id = "spyder-pool-aaaaaaaa";
      acquired_at = 10;
    })
unfolding lookup AreServable serve anns serve_all mint_device booted shut
serve_all-reserved_example =
    serve_all-reserved anns others "aaaaaaaa-1"
      (record (instance_at "aaaaaaaa-1" reserved "ann" 10) {
        device_id = "spyder-pool-aaaaaaaa";
        acquired_at = 10;
      })
      anns-IsSound ((refl, tt, tt), ((refl, tt, tt), (tt, (tt, (tt, (tt, tt)))))) refl refl
      (refl, (refl, (refl, (refl, (refl, (refl, tt))))))

outside-IsWorking : (first second : String) (t : ℕ) → IsWorking (outside first second t)
outside-IsWorking first second t = record {
  creates = λ name device image. (name, refl);
  boots = λ id. refl;
  clones = λ image name. refl;
  avd_boots = λ name. ("emulator-5554", refl);
}

acquire-served_example :
    (j : Instance) × ((acquire (outside "aaaaaaaa-1" "" 10) empty "phone" "ann").1 ≡ ok j)
    × IsHanded empty (acquire (outside "aaaaaaaa-1" "" 10) empty "phone" "ann").0 "phone" "ann" j
unfolding lookup reload find_template
acquire-served_example =
    acquire-served (outside "aaaaaaaa-1" "" 10) empty "phone" "ann" phone
      (outside-IsWorking "aaaaaaaa-1" "" 10) empty-IsSound refl refl refl refl
