-- ===== src/Health/Classify.antt =====
-- internal/health/classify.go: a fault class from the evidence about a device.
pub mod Verdicts
mod Tests
use spyder.Prelude.{
  ℕ, ◌+◌, ◌-◌, Bool, true, false, not, ◌&&◌, ◌||◌, Option, none, some, List, [], ◌∷◌, ◌++◌, String,
  if◌then◌else◌, ltb, leb, ◌==◌, string_eq, select, ℤ, sub_ℕ,
}
use spyder.Health.Entity.{State, healthy, degraded, recovering, needs_attention, absent_unexpected}

-- `reenumWindow`, in nanoseconds.
abbrev pub reenum_window : ℕ
reenum_window = 5_000_000_000

pub record LayerState : Type 0 where
  pub layer : String
  pub ok : Bool
  pub observed : Bool

pub record OracleReading : Type 0 where
  pub source : String
  pub present : Bool
  pub observed : Bool

-- Times are nanoseconds, and 0 is Go's zero time.
pub record Evidence : Type 0 where
  pub udid : String
  pub layers : List LayerState
  pub oracles : List OracleReading
  pub last_detach : ℕ
  pub last_attach : ℕ
  pub now : ℕ
  pub reserved : Bool
  pub expected_present : Bool

pub data FaultClass : Type 0 where
  healthy_class reenumerating recoverable_tunnel physical_removal stack_inconsistency : FaultClass

pub data Confidence : Type 0 where
  low medium high : Confidence

-- The lines of evidence, before they are printed.
pub data Line : Type 0 where
  reenumeration : ℤ → Line
  detach_disputed detached pinned_absent usbmux_down : Line
  layer_down : String → Line
  oracles_disagree all_up escalating : Line

pub record Assessment : Type 0 where
  pub class : FaultClass
  pub confidence : Confidence
  pub suggested_state : State
  pub urgent : Bool
  pub evidence : List Line

unfoldable pub observed_readings : List OracleReading → List OracleReading
observed_readings = select (λ o. o.observed)

unfoldable pub any_present : List OracleReading → Bool
any_present [] = false
any_present (o ∷ os) = o.present || any_present os

unfoldable pub any_gone : List OracleReading → Bool
any_gone [] = false
any_gone (o ∷ os) = not o.present || any_gone os

abbrev parent_ok : Option LayerState → Bool
parent_ok none = true
parent_ok (some p) = p.ok

-- The loop of `firstFaultedLayer`, with the most recent observed layer.
unfoldable pub faulted_from :
    Option LayerState → List LayerState → Option (LayerState × Option LayerState)
faulted_from prev [] = none
faulted_from prev (l ∷ ls) =
    let skipped = faulted_from prev ls in
    let passed = faulted_from (some l) ls in
    if not l.observed
    then skipped
    else if not l.ok && parent_ok prev
    then some (l, prev)
    else passed

unfoldable pub first_faulted_layer : List LayerState → Option (LayerState × Option LayerState)
unfolding faulted_from
first_faulted_layer = faulted_from none

abbrev pub urgent_class : FaultClass → Bool
urgent_class recoverable_tunnel = true
urgent_class stack_inconsistency = true
urgent_class _ = false

unfoldable pub apply_urgency : Assessment → Evidence → Assessment
apply_urgency a e =
    if e.reserved && urgent_class a.class
    then record a { urgent = true; evidence = a.evidence ++ escalating ∷ [] }
    else a

-- Rule 1: a detach and a later attach close together, or an attach just now.
unfoldable pub is_reenumeration : Evidence → Bool
is_reenumeration e =
    ltb 0 e.last_detach
    && ltb 0 e.last_attach
    && ltb e.last_detach e.last_attach
    && (leb e.now (e.last_attach + reenum_window)
        || leb e.last_attach (e.last_detach + reenum_window))

-- The test of rule 2: a detach with no newer attach.
unfoldable pub is_detached : Evidence → Bool
is_detached e = ltb 0 e.last_detach && (e.last_attach == 0 || ltb e.last_attach e.last_detach)

abbrev removal_state : Evidence → State
removal_state e = if e.expected_present then needs_attention else absent_unexpected

abbrev is_empty {ℓ} : {A : Type ℓ} → List A → Bool
is_empty [] = true
is_empty (x ∷ xs) = false

unfoldable pub classify_detached : Evidence → Assessment
unfolding apply_urgency
classify_detached e =
    let observed = observed_readings e.oracles in
    let present = any_present observed in
    if not (is_empty observed) && present && any_gone observed
    then record {
      class = stack_inconsistency;
      confidence = low;
      suggested_state = degraded;
      urgent = false;
      evidence = detach_disputed ∷ [];
    }
    else apply_urgency
        (record {
          class = physical_removal;
          confidence = if not (is_empty observed) && not present then high else medium;
          suggested_state = removal_state e;
          urgent = false;
          evidence = if e.expected_present then detached ∷ pinned_absent ∷ [] else detached ∷ [];
        })
        e

unfoldable pub classify_layer : Evidence → LayerState → Assessment
unfolding apply_urgency
classify_layer e fault =
    if string_eq.beq fault.layer "usbmux"
    then apply_urgency
        (record {
          class = physical_removal;
          confidence = medium;
          suggested_state = removal_state e;
          urgent = false;
          evidence = usbmux_down ∷ [];
        })
        e
    else apply_urgency
        (record {
          class = recoverable_tunnel;
          confidence = high;
          suggested_state = degraded;
          urgent = false;
          evidence = layer_down fault.layer ∷ [];
        })
        e

-- Rules 4 and 5.
unfoldable pub classify_oracles : Evidence → Assessment
unfolding apply_urgency
classify_oracles e =
    let observed = observed_readings e.oracles in
    if any_present observed && any_gone observed
    then apply_urgency
        (record {
          class = stack_inconsistency;
          confidence = low;
          suggested_state = degraded;
          urgent = false;
          evidence = oracles_disagree ∷ [];
        })
        e
    else record {
      class = healthy_class;
      confidence = high;
      suggested_state = healthy;
      urgent = false;
      evidence = all_up ∷ [];
    }

unfoldable pub classify : Evidence → Assessment
unfolding is_reenumeration is_detached
classify e =
    if is_reenumeration e
    then record {
      class = reenumerating;
      confidence = high;
      suggested_state = recovering;
      urgent = false;
      evidence = reenumeration (sub_ℕ e.now e.last_attach) ∷ [];
    }
    else if is_detached e
    then classify_detached e
    else elim (first_faulted_layer e.layers) [
      | none ↦ classify_oracles e
      | some (fault, parent) ↦ classify_layer e fault
    ]
