-- ===== src/DevPolicy/Validate/Tests.antt =====
-- A configuration with a group, which passes.
use spyder.Prelude.{◌≡◌, refl, true, [], ◌∷◌, All}
use spyder.Prelude.Bytes.{bytes, trim_space, trim_start, trim_end}
use spyder.DevPolicy.{Group, Config, resolve}
use spyder.DevPolicy.Validate.{validate, check_flags, check_groups, check_apps, is_space_only}
use spyder.DevPolicy.Validate.Resolved.{IsFlag, validate-resolve}

abbrev games : Group
games = record {
  name = bytes "games";
  bundle_ids = bytes "org.chess" ∷ [];
  bundle_prefixes = bytes "com.games." ∷ [];
  flags = (bytes "verbose", bytes "2") ∷ [];
}

abbrev config : Config
config = record {
  version = 1;
  owner = bytes "ann";
  global = (bytes "trace", bytes "on") ∷ [];
  groups = games ∷ [];
  apps = (bytes "org.go", []) ∷ [];
}

valid : validate config ≡ true
unfolding validate check_groups check_apps check_flags is_space_only trim_space trim_start trim_end
valid = refl

valid_override : check_flags ((bytes "ads", bytes "normal") ∷ []) ≡ true
unfolding check_flags is_space_only trim_space trim_start trim_end
valid_override = refl

validate-resolve_example :
    All IsFlag (resolve config (bytes "org.chess") ((bytes "ads", bytes "normal") ∷ [])).flags
validate-resolve_example =
    validate-resolve config (bytes "org.chess") ((bytes "ads", bytes "normal") ∷ []) valid
      valid_override
