-- ===== src/DevPolicy/Dispatch/Tests.antt =====
-- A peer with an override that suppresses its advertisements.
use spyder.Prelude.{◌+◌, ◌≤◌, ◌≡◌, refl, true, false, none, some, [], ◌∷◌, lookup, insert, erase}
use spyder.Prelude.Map.Unique.{keep}
use spyder.Prelude.Bytes.{bytes, bytes_eq, trim_space, trim_start, trim_end, contains_any}
use spyder.DevPolicy.{Config, resolve, merge, merge_groups, app_flags}
use spyder.DevPolicy.Sessions.{
  SessionOverride, Sessions, key_of, key_eq, done, clear_session, prune_sessions, is_identity,
  is_valid,
}
use spyder.DevPolicy.Dispatch.{
  Peer, Status, Snapshot, Moment, Push, supported, is_empty, push, dispatch, wish, last_wish,
  take_override, max_lease,
}
use spyder.DevPolicy.Dispatch.Guarded.{is_permitted, IsWithin, push-guarded, push-revokes}

abbrev tablet : Peer
tablet = record {
  id = bytes "p";
  device_id = bytes "ipad";
  bundle_id = bytes "com.game";
  is_capable = true;
  is_ads_capable = true;
}

abbrev no_config : Config
no_config = record { version = 1; owner = []; global = []; groups = []; apps = [] }

abbrev quiet : SessionOverride
quiet = record {
  owner = bytes "ann";
  run_token = bytes "r1";
  device_id = bytes "ipad";
  bundle_id = bytes "com.game";
  flags = (bytes "ads", bytes "suppressed") ∷ [];
  expires_at = 9_000_000_000;
}

abbrev in_force : Sessions
in_force = (key_of quiet, quiet) ∷ []

abbrev seen : Snapshot
seen = record {
  peer = tablet;
  config = no_config;
  is_config_bad = false;
  is_on_usb = true;
  is_proof_bad = false;
  previous = none;
  override = some quiet;
  now = 1_000;
}

abbrev ready : Moment
ready = record {
  authorize = none;
  authorize_session = some (λ device owner. true);
  is_stale = false;
  is_cancelled = false;
  clock = 2_000_000_000;
  accepts = λ flags lease. true;
}

abbrev sent : Push
sent = record { flags = quiet.flags; lease = 7_000_000_000 }

seen-sent : push seen ready ≡ some sent
unfolding push last_wish wish supported resolve merge merge_groups app_flags lookup insert erase
seen-sent = refl

seen-full : is_empty (supported seen) ≡ false
unfolding supported resolve merge merge_groups app_flags lookup insert erase
seen-full = refl

push-guarded_example :
    (tablet.is_capable ≡ true)
    × (is_permitted seen ready ≡ true)
    × (sent.flags ≡ supported seen)
    × (sent.lease ≤ max_lease)
    × IsWithin (some quiet) (ready.clock + sent.lease)
push-guarded_example = push-guarded seen ready sent seen-sent refl

-- The peer has the flags, and its cable is pulled.
abbrev applied : Status
applied = dispatch seen ready

applied-full : is_empty applied.applied ≡ false
unfolding dispatch push last_wish wish supported resolve merge merge_groups app_flags lookup insert
    erase
applied-full = refl

abbrev unplugged : Snapshot
unplugged = record seen { is_on_usb = false; previous = some applied }

push-revokes_example : push unplugged ready ≡ some (record { flags = []; lease = max_lease })
push-revokes_example = push-revokes unplugged ready applied refl refl applied-full refl

taken : take_override seen.now tablet in_force ≡ some quiet
unfolding take_override prune_sessions keep lookup
taken = refl

clear-done : (clear_session (some (λ device owner. true)) 5_000 quiet in_force).1 ≡ done
unfolding clear_session is_identity is_valid prune_sessions keep lookup erase trim_space trim_start
    trim_end contains_any
clear-done = refl
