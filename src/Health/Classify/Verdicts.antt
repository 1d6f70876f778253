-- ===== src/Health/Classify/Verdicts.antt =====
-- internal/health/classify.go: what each verdict of the classifier means.
use spyder.Prelude.{
  ◌≡◌, refl, ◌↔◌, Bool, true, false, not, ◌&&◌, Option, none, some, List, [], ◌∷◌, arith,
  if◌then◌else◌, string_eq,
}
use spyder.Health.Entity.{needs_attention}
use spyder.Health.Classify.{
  LayerState, Evidence, healthy_class, physical_removal, faulted_from, first_faulted_layer,
  parent_ok, urgent_class, is_reenumeration, is_detached, classify_detached, classify_layer,
  classify_oracles, classify, any_present, any_gone, observed_readings,
}

-- The first layer that was probed and found down.
abbrev pub first_down : List LayerState → Option LayerState
first_down [] = none
first_down (l ∷ ls) = let rest = first_down ls in if l.observed && not l.ok then some l else rest

abbrev pub fault_of : Option (LayerState × Option LayerState) → Option LayerState
fault_of none = none
fault_of (some (l, p)) = some l

faulted_from-first_down :
    (prev : Option LayerState) (ls : List LayerState)
    → parent_ok prev ≡ true
    → fault_of (faulted_from prev ls) ≡ first_down ls
unfolding faulted_from
faulted_from-first_down prev [] h = refl
faulted_from-first_down prev (l ∷ ls) h =
    ground (arith, faulted_from-first_down prev ls, faulted_from-first_down (some l) ls)

-- The walk that looks for a layer down under a parent that is up finds the first layer that was
-- probed and found down, whatever its parent: the test of the parent never decides.
pub first_faulted_layer-first_down :
    (ls : List LayerState) → fault_of (first_faulted_layer ls) ≡ first_down ls
unfolding first_faulted_layer
first_faulted_layer-first_down ls = faulted_from-first_down none ls refl

-- Human attention is suggested exactly for the physical removal of a pinned device.
pub classify-attention :
    (e : Evidence)
    → ((classify e).suggested_state ≡ needs_attention)
      ↔ (((classify e).class ≡ physical_removal) × (e.expected_present ≡ true))
unfolding classify classify_detached classify_layer classify_oracles
classify-attention e = (λ h. ground arith, λ h. ground arith)

-- A verdict is urgent exactly for a reserved device with a recoverable tunnel or an inconsistent
-- stack, where no detach is standing: an inconsistency that follows a detach is never urgent.
pub classify-urgent :
    (e : Evidence)
    → (classify e).urgent ≡ (e.reserved && urgent_class (classify e).class && not (is_detached e))
unfolding classify classify_detached classify_layer classify_oracles
classify-urgent e = ground arith

-- A device is called healthy exactly when no re-enumeration is under way, no detach stands, no
-- probed layer is down, and the observed oracles do not contradict each other.
pub classify-healthy :
    (e : Evidence)
    → ((classify e).class ≡ healthy_class) ↔ (
        (is_reenumeration e ≡ false)
        × (is_detached e ≡ false)
        × (first_down e.layers ≡ none)
        × ((any_present (observed_readings e.oracles) && any_gone (observed_readings e.oracles))
            ≡ false))
unfolding classify classify_detached classify_layer classify_oracles
classify-healthy e = (
  λ h. ground (arith, first_faulted_layer-first_down e.layers),
  λ h. ground (arith, first_faulted_layer-first_down e.layers),
)

abbrev pub is_usbmux : Option LayerState → Bool
is_usbmux none = false
is_usbmux (some l) = string_eq.beq l.layer "usbmux"

-- A device is called physically removed exactly when no re-enumeration is under way and, with a
-- detach standing, the observed oracles do not contradict each other, or without one, the first
-- layer found down is usbmux.
pub classify-removal :
    (e : Evidence)
    → ((classify e).class ≡ physical_removal) ↔ (
        (is_reenumeration e ≡ false)
        × ((if is_detached e
              then not (
                  any_present (observed_readings e.oracles)
                  && any_gone (observed_readings e.oracles))
              else is_usbmux (first_down e.layers))
            ≡ true))
unfolding classify classify_detached classify_layer classify_oracles any_present any_gone
classify-removal e = (
  λ h. ground (arith, first_faulted_layer-first_down e.layers),
  λ h. ground (arith, first_faulted_layer-first_down e.layers),
)
