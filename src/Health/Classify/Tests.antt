-- ===== src/Health/Classify/Tests.antt =====
-- internal/health/classify.go: the theorems on a reserved device that was unplugged.
use spyder.Prelude.{◌≡◌, true, false, not, ◌&&◌, List, [], ◌∷◌}
use spyder.Health.Entity.{id_eq}
use spyder.Health.Classify.{LayerState, Evidence, classify, urgent_class, is_detached}
use spyder.Health.Classify.Verdicts.{classify-urgent}

abbrev tunnel_down : List LayerState
tunnel_down =
    record { layer = "usbmux"; ok = true; observed = true }
    ∷ record { layer = "pairing"; ok = false; observed = false }
    ∷ record { layer = "tunnel"; ok = false; observed = true }
    ∷ []

abbrev pinned : Evidence
pinned = record {
  udid = "u";
  layers = tunnel_down;
  oracles = [];
  last_detach = 7;
  last_attach = 3;
  now = 9;
  reserved = true;
  expected_present = true;
}

classify-urgent_example :
    (classify pinned).urgent
    ≡ (pinned.reserved && urgent_class (classify pinned).class && not (is_detached pinned))
classify-urgent_example = classify-urgent pinned
