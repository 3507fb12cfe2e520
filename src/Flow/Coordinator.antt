-- ===== src/Flow/Coordinator.antt =====
-- Which flow a state of the machine belongs to (src/atc/flows/flow_coordinator.cpp).
use xp_welly_llm_atc.Base.{String, true, ◌&&◌, ◌==◌, ◌≡◌, arith, if◌then◌else◌}
use xp_welly_llm_atc.State.{AtcState, DepartureType, departure_type_eq, atc_state_eq}
use xp_welly_llm_atc.Machine.{AtcMachineState}
use xp_welly_llm_atc.Flow.Pattern
use xp_welly_llm_atc.Flow.CrossCountry

pub data ActiveFlow : Type 0 where
  ground_ops pattern cross_country : ActiveFlow

unfoldable pub active_flow_name : ActiveFlow → String
active_flow_name ActiveFlow.ground_ops = "GroundOps"
active_flow_name ActiveFlow.pattern = "Pattern"
active_flow_name ActiveFlow.cross_country = "CrossCountry"

unfoldable pub flow_of : AtcState → DepartureType → ActiveFlow
flow_of AtcState.departure_cleared DepartureType.cross_country = ActiveFlow.cross_country
flow_of AtcState.departure_cleared DepartureType.pattern = ActiveFlow.pattern
flow_of AtcState.pattern_entry _ = ActiveFlow.pattern
flow_of AtcState.landing_cleared _ = ActiveFlow.pattern
flow_of AtcState.touch_and_go_cleared _ = ActiveFlow.pattern
flow_of _ _ = ActiveFlow.ground_ops

unfoldable pub active : AtcMachineState → ActiveFlow
unfolding flow_of
active g = flow_of g.state g.departure_type

flow_of_lem :
    (s : AtcState) (t : DepartureType)
    → (flow_of s t ≡ (
        if s == AtcState.departure_cleared && t == DepartureType.cross_country
        then ActiveFlow.cross_country
        else if Pattern.is_pattern_state s
        then ActiveFlow.pattern
        else ActiveFlow.ground_ops))
      × (CrossCountry.is_xc_state s ≡ true → flow_of s t ≡ ActiveFlow.ground_ops)
unfolding flow_of Pattern.is_pattern_state CrossCountry.is_xc_state
flow_of_lem AtcState.departure_cleared DepartureType.cross_country = ground arith
flow_of_lem AtcState.departure_cleared DepartureType.pattern = ground arith
flow_of_lem AtcState.pattern_entry t = ground arith
flow_of_lem _ t = ground arith

-- The flow of the machine is the cross-country one exactly in a departure with a cross-country flag,
-- the pattern in every other pattern state, and the ground elsewhere, the cross-country states of
-- their own included.
pub active-is_pattern_state :
    (g : AtcMachineState)
    → (active g ≡ (
        if g.state == AtcState.departure_cleared && g.departure_type == DepartureType.cross_country
        then ActiveFlow.cross_country
        else if Pattern.is_pattern_state g.state
        then ActiveFlow.pattern
        else ActiveFlow.ground_ops))
      × (CrossCountry.is_xc_state g.state ≡ true → active g ≡ ActiveFlow.ground_ops)
unfolding active
active-is_pattern_state g = flow_of_lem g.state g.departure_type
