-- ===== src/DevPolicy/Tests.antt =====
-- A flag that is set globally, by a group, and for a session.
use spyder.Prelude.{◌≡◌, refl, some, [], ◌∷◌, lookup}
use spyder.Prelude.Bytes.{Bytes, bytes, bytes_eq, has_prefix}
use spyder.DevPolicy.{Group, Config, resolve, is_member, app_flags}
use spyder.DevPolicy.Layers.{
  layers, group_layers, strongest, value_of, source_of, resolve-strongest,
}

abbrev verbose : Bytes
verbose = bytes "verbose"

abbrev games : Group
games = record {
  name = bytes "games";
  bundle_ids = [];
  bundle_prefixes = bytes "com.games." ∷ [];
  flags = (verbose, bytes "2") ∷ [];
}

abbrev config : Config
config = record {
  version = 1;
  owner = [];
  global = (verbose, bytes "1") ∷ (bytes "trace", bytes "on") ∷ [];
  groups = games ∷ [];
  apps = [];
}

resolve-strongest_example :
    (lookup verbose (resolve config (bytes "com.games.chess") []).flags
      ≡ value_of (strongest verbose (layers config (bytes "com.games.chess") [])))
    × (lookup verbose (resolve config (bytes "com.games.chess") []).provenance
        ≡ source_of (strongest verbose (layers config (bytes "com.games.chess") [])))
unfolding lookup layers group_layers is_member has_prefix app_flags
resolve-strongest_example =
    resolve-strongest config (bytes "com.games.chess") [] verbose
      ((refl, (refl, tt)), ((refl, tt), (tt, (tt, tt))))

-- The group wins over the global layer.
from_group :
    strongest verbose (layers config (bytes "com.games.chess") [])
    ≡ some (bytes "group:games", bytes "2")
unfolding strongest lookup layers group_layers is_member has_prefix app_flags
from_group = refl
