-- ===== src/Process/Lookup.antt =====
-- The key of the template lookup (src/atc/flows/ground_operations.cpp, `effective_state_for_template`).
use xp_welly_llm_atc.Base.{String, Bool, not, ◌&&◌, ◌||◌, ◌==◌, string_eq, empty, if◌then◌else◌}
use xp_welly_llm_atc.State.{AtcState, atc_state_eq}
use xp_welly_llm_atc.Intent.{PilotIntent, PilotMessage, pilot_intent_eq}
use xp_welly_llm_atc.Context.{FrequencyType, frequency_type_eq}
use xp_welly_llm_atc.Ground.{GroundContext, Session}
use xp_welly_llm_atc.Ground.Reply.{machine, current_name}

abbrev departs : PilotMessage → Bool
departs msg =
    msg.intent == PilotIntent.ready_for_departure
    || msg.intent == PilotIntent.ready_for_departure_vfr

unfoldable pub effective_state_for_template : PilotMessage → GroundContext → Session → String
effective_state_for_template msg ctx s =
    let state = (machine s).state in
    let has_ifr_squawk = not (empty (machine s).ifr_squawk) in
    let on_approach = ctx.base.frequency_type == FrequencyType.approach in
    if not has_ifr_squawk
      && not (empty ctx.ifr_destination)
      && (state == AtcState.idle || state == AtcState.ground_contact)
      && msg.intent == PilotIntent.request_taxi
    then "IFR/GROUND_NO_CLEARANCE"
    else if state == AtcState.idle
        && has_ifr_squawk
        && (msg.intent == PilotIntent.initial_call_approach
            || msg.intent == PilotIntent.initial_call_center)
    then "IFR/ENROUTE_CRUISE"
    else if state == AtcState.ifr_approach_contact
        && msg.intent == PilotIntent.initial_call_approach
        && not on_approach
    then "IFR/APPROACH_CONTACT_READBACK"
    else if state == AtcState.ifr_approach_tower && on_approach
    then "IFR/APPROACH_TOWER_READBACK"
    else if state == AtcState.tower_contact
        && has_ifr_squawk
        && (departs msg || msg.intent == PilotIntent.report_holding_short)
    then "IFR/TOWER_CONTACT"
    else if state == AtcState.ifr_line_up_and_wait && departs msg
    then "IFR/LINE_UP_AND_WAIT_READY"
    else current_name s
