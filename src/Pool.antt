-- ===== src/Pool.antt =====
-- internal/pool/pool.go and internal/pool/config.go: the pool of simulators and emulators, its state and
-- how it looks instances up. A Go map is an association list, so that a loop over it meets the entries in
-- the list's order, where Go leaves the order open.
pub mod Ledger
pub mod Lifecycle
pub mod Calls
pub mod Sound
pub mod Steps
pub mod Acquire
pub mod Retire
pub mod Drain
pub mod Warmth
pub mod Serve
pub mod Handed
pub mod Served
pub mod Held
pub mod Cap
mod Tests
use spyder.Prelude.{
  ℕ, ◌+◌, ◌*◌, ◌%◌, suc, Bool, true, false, not, ◌&&◌, ◌||◌, Option, none, some, List, [], ◌∷◌,
  String, string_eq, if◌then◌else◌, ltb, ℤ, is_positive, to_word, of_word, word, lookup, erase,
}
use spyder.Pool.Ledger.{Hold}

pub data Tier : Type 0 where
  available : Tier
  running : Tier
  reserved : Tier

pub record Instance : Type 0 where
  pub id : String
  pub template : String
  pub platform : String
  pub tier : Tier
  pub device_id : String
  pub serial : String
  pub holder : String
  pub created_at : ℕ
  pub acquired_at : ℕ
  pub last_release_at : ℕ

pub record TemplateConfig : Type 0 where
  pub name : String
  pub platform : String
  pub device_type : String
  pub runtime_or_system_image : String
  pub tags : List String
  pub available_max : ℤ
  pub linger_seconds : ℤ

-- What one call meets outside the pool: the executor's answers, where `none` and `false` are errors, the
-- `i`-th identifier that `uuid` makes and the `i`-th reading of the clock, the templates of a
-- configuration file that has changed and is valid, the number in `SPYDER_POOL_LINGER_SECONDS`, and
-- whether the database of the ledger works.
pub record World : Type 0 where
  pub sim_create : String → String → String → Option String
  pub sim_boot : String → Bool
  pub sim_shutdown : String → Bool
  pub sim_delete : String → Bool
  pub avd_clone : String → String → Bool
  pub avd_boot : String → Option String
  pub avd_shutdown : String → Bool
  pub avd_delete : String → Bool
  pub uuid : ℕ → String
  pub now : ℕ → ℕ
  pub reloaded : Option (List TemplateConfig)
  pub linger_env : Option ℤ
  pub ledger_works : Bool

-- `linger_timers` holds the duration of each pending timer, and `store` is `none` for a nil ledger.
pub record Pool : Type 0 where
  pub cfg : List TemplateConfig
  pub store : Option (List (String × Hold))
  pub instances : List (String × Instance)
  pub linger_timers : List (String × ℤ)

abbrev pub is_available : Tier → Bool
is_available available = true
is_available _ = false

abbrev pub is_running : Tier → Bool
is_running running = true
is_running _ = false

abbrev pub is_reserved : Tier → Bool
is_reserved reserved = true
is_reserved _ = false

abbrev pub is_blank : String → Bool
is_blank s = string_eq.beq s ""

abbrev pub is_ios : String → Bool
is_ios platform = string_eq.beq platform "ios"

abbrev pub is_android : String → Bool
is_android platform = string_eq.beq platform "android"

unfoldable pub reload : World → Pool → Pool
reload w p = elim w.reloaded [ none ↦ p | some cfg ↦ record p { cfg = cfg } ]

unfoldable pub template_in : String → List TemplateConfig → Option TemplateConfig
template_in name [] = none
template_in name (t ∷ ts) =
    let rest = template_in name ts in if string_eq.beq t.name name then some t else rest

-- `findTemplate` once the configuration is reloaded.
unfoldable pub find_template : Pool → String → Option TemplateConfig
unfolding template_in
find_template p name = template_in name p.cfg

-- The first instance of a template in a tier.
unfoldable pub pick : (Tier → Bool) → String → List (String × Instance) → Option Instance
pick tier name [] = none
pick tier name ((k, i) ∷ m) =
    let rest = pick tier name m in
    if string_eq.beq i.template name && tier i.tier then some i else rest

unfoldable pub pick_running : Pool → String → Option Instance
unfolding pick
pick_running p name = pick is_running name p.instances

unfoldable pub pick_available : Pool → String → Option Instance
unfolding pick
pick_available p name = pick is_available name p.instances

-- The available instances of a template, the second result of `countAvailableByTemplate`.
unfoldable pub count_available : String → List (String × Instance) → ℕ
count_available name [] = 0
count_available name ((k, i) ∷ m) =
    let rest = count_available name m in
    if string_eq.beq i.template name && is_available i.tier then suc rest else rest

unfoldable pub last_touch : Instance → ℕ
last_touch i = if ltb 0 i.last_release_at then i.last_release_at else i.created_at

abbrev pub is_older : Instance → Option Instance → Bool
is_older i none = true
is_older i (some oldest) = ltb (last_touch i) (last_touch oldest)

-- The loop of `pickOldestAvailable`, from the oldest instance met so far.
unfoldable pub oldest_from : String → Option Instance → List (String × Instance) → Option Instance
unfolding last_touch
oldest_from name oldest [] = oldest
oldest_from name oldest ((k, i) ∷ m) =
    oldest_from name
      (if string_eq.beq i.template name && is_available i.tier && is_older i oldest
        then some i
        else oldest)
      m

unfoldable pub pick_oldest_available : Pool → String → Option Instance
unfolding oldest_from
pick_oldest_available p name = oldest_from name none p.instances

-- `time.Duration(n) * time.Second`, which wraps.
abbrev pub seconds : ℤ → ℤ
seconds n = of_word (to_word n * 1_000_000_000 % word)

abbrev pub from_env : Option ℤ → ℤ
from_env none = seconds (ℤ.pos 120)
from_env (some n) = if is_positive n then seconds n else seconds (ℤ.pos 120)

unfoldable pub linger_duration : World → TemplateConfig → ℤ
unfolding to_word of_word
linger_duration w t =
    if is_positive t.linger_seconds then seconds t.linger_seconds else from_env w.linger_env

unfoldable pub cancel_linger : Pool → String → Pool
cancel_linger p id = record p { linger_timers = erase id p.linger_timers }
