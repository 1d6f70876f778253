-- ===== src/DevPolicy/Sessions/Tests.antt =====
-- Two runs that want one app on one device.
use spyder.Prelude.{ℕ, ◌≡◌, refl, true, some, List, [], ◌∷◌, arith, lookup, insert, pos}
use spyder.Prelude.Map.Unique.{keep}
use spyder.Prelude.Bytes.{Bytes, bytes, bytes_eq, trim_space, trim_start, trim_end, contains_any}
use spyder.DevPolicy.Sessions.{
  SessionOverride, key_of, key_eq, Call, sets, clears, lists, Authorizer, serve, serve_all,
  set_session, is_identity, is_valid, are_session_flags, prune_sessions, leased,
}
use spyder.DevPolicy.Sessions.Orderly.{IsOrderly, empty-IsOrderly, serve_all-IsOrderly}
use spyder.DevPolicy.Sessions.Owned.{serve_all-owned}

abbrev wish_of : Bytes → SessionOverride
wish_of owner = record {
  owner = owner;
  run_token = bytes "r1";
  device_id = bytes "ipad";
  bundle_id = bytes "com.game";
  flags = (bytes "ads", bytes "suppressed") ∷ [];
  expires_at = 0;
}

abbrev anybody : Authorizer
anybody = some (λ device owner. true)

abbrev first_set : List (Authorizer × ℕ × Call)
first_set = (anybody, 100, sets (wish_of (bytes "ann")) (pos 1_000)) ∷ []

abbrev theirs : SessionOverride
theirs = leased (wish_of (bytes "ann")) 100 1_000

abbrev rivals : List (Authorizer × ℕ × Call)
rivals =
    (anybody, 200, sets (wish_of (bytes "bob")) (pos 1_000))
    ∷ (anybody, 300, clears (wish_of (bytes "bob")))
    ∷ (anybody, 400, lists)
    ∷ []

first_set-stored : serve_all first_set [] ≡ (key_of theirs, theirs) ∷ []
unfolding serve_all serve set_session is_identity is_valid are_session_flags prune_sessions keep
    lookup insert trim_space trim_start trim_end contains_any
first_set-stored = refl

first_set-held : lookup (key_of theirs) (serve_all first_set []) ≡ some theirs
unfolding serve_all serve set_session is_identity is_valid are_session_flags prune_sessions keep
    lookup insert trim_space trim_start trim_end contains_any
first_set-held = refl

serve_all-IsOrderly_example : IsOrderly (serve_all first_set [])
serve_all-IsOrderly_example = serve_all-IsOrderly first_set [] empty-IsOrderly

serve_all-owned_example :
    lookup (key_of theirs) (serve_all rivals (serve_all first_set [])) ≡ some theirs
serve_all-owned_example =
    serve_all-owned rivals (serve_all first_set []) theirs
      (serve_all-IsOrderly first_set [] empty-IsOrderly) first_set-held
      ((omega arith, refl), ((omega arith, refl), ((omega arith, refl), tt)))
