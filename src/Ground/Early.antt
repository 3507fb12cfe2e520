-- ===== src/Ground/Early.antt =====
-- The first handlers of a call: corrections, repeats, reverts and the uncontrolled field.
use xp_welly_llm_atc.Base.{
  String, Bool, false, not, ◌&&◌, ◌||◌, List, [], ◌∷◌, Option, none, some, contains, ◌==◌,
  string_eq, empty, ◌+s◌, if◌then◌else◌,
}
use xp_welly_llm_atc.State.{AtcState, DepartureType, atc_state_eq}
use xp_welly_llm_atc.State.Names.{state_from_name}
use xp_welly_llm_atc.Intent.{PilotIntent, PilotMessage, pilot_intent_eq}
use xp_welly_llm_atc.Intent.Names.{intent_template_key}
use xp_welly_llm_atc.Context.{FrequencyType, frequency_type_eq}
use xp_welly_llm_atc.Machine.{AtcMachineState, transition_to, set_departure_type}
use xp_welly_llm_atc.Templates.{lookup, fill}
use xp_welly_llm_atc.Ground.{GroundContext, Session, Services, StateRevert}
use xp_welly_llm_atc.Ground.Text.{full_callsign}
use xp_welly_llm_atc.Ground.Vars.{build_vars}
use xp_welly_llm_atc.Ground.Reply.{
  Outcome, pass, machine, current_name, is_ifr_name, on_machine, move_to, answer, same_state,
}

unfoldable pub revert_target : AtcState → AtcState
revert_target AtcState.departure_cleared = AtcState.tower_contact
revert_target AtcState.taxi_cleared = AtcState.ground_contact
revert_target AtcState.landing_cleared = AtcState.pattern_entry
revert_target AtcState.touch_and_go_cleared = AtcState.pattern_entry
revert_target AtcState.pattern_entry = AtcState.tower_contact
revert_target AtcState.approach_contact = AtcState.en_route
revert_target AtcState.ground_contact = AtcState.idle
revert_target AtcState.tower_contact = AtcState.idle
revert_target s = s

-- The state machine goes one step back.
unfoldable pub revert_state : AtcMachineState → AtcMachineState
unfolding revert_target
revert_state g =
    let t = transition_to (revert_target g.state) "negative_correction" g in
    if g.state == AtcState.departure_cleared then set_departure_type DepartureType.pattern t else t

module _ (sv : Services) where
  unfoldable pub handle_negative_correction : PilotMessage → GroundContext → Session → Outcome
  unfolding revert_state
  handle_negative_correction msg ctx s =
      let (s', vars) = build_vars sv msg ctx s in
      let back = on_machine sv revert_state s' in
      let g = machine s' in
      if not (msg.intent == PilotIntent.negative_correction)
      then pass s
      else if not (revert_target g.state == g.state)
      then (
        back,
        some (record {
          text = fill "{callsign}, roger, correction noted, say intentions." vars;
          next_state = (machine back).state;
          requires_readback = false;
        }),
      )
      else answer sv msg ctx "{callsign}, roger, say intentions." (same_state sv) s

  -- The branch of `process` on a request to repeat.
  unfoldable pub handle_repeat : PilotMessage → Session → Outcome
  handle_repeat msg s =
      let g = machine s in
      let cs = full_callsign sv.settings.pilot_callsign msg g in
      if not (msg.intent == PilotIntent.request_repeat) then pass s else (
        s,
        some (record {
          text =
              if not (empty g.last_tower_response_text)
              then g.last_tower_response_text
              else cs +s ", no previous clearance to repeat.";
          next_state = g.state;
          requires_readback = g.readback_pending;
        }),
      )

  abbrev pub revert_applies : String → String → StateRevert → Bool
  revert_applies name key r = r.in_state == name && contains r.on_intent_in key

  abbrev pub apply_revert : StateRevert → AtcMachineState → AtcMachineState
  apply_revert r g =
      let t = transition_to (state_from_name r.revert_to) "state_revert" g in
      if r.reset_departure_type then set_departure_type DepartureType.pattern t else t

  -- The loop: the first revert that applies.
  unfoldable pub first_revert : String → String → List StateRevert → Option StateRevert
  first_revert name key [] = none
  first_revert name key (r ∷ rs) =
      if revert_applies name key r then some r else first_revert name key rs

  unfoldable pub apply_state_reverts : PilotMessage → Session → Session
  unfolding first_revert
  apply_state_reverts msg s =
      elim (first_revert (current_name s) (intent_template_key msg.intent) sv.rules.state_reverts) [
        | none ↦ s
        | some r ↦ on_machine sv (apply_revert r) s
      ]

  abbrev pub is_unicom : GroundContext → Bool
  is_unicom ctx =
      not ctx.base.is_towered_airport
      || ctx.base.frequency_type == FrequencyType.unicom
      || ctx.base.frequency_type == FrequencyType.ctaf

  unfoldable pub handle_unicom_flow : PilotMessage → GroundContext → Session → Outcome
  handle_unicom_flow msg ctx s =
      let tmpl = lookup sv.templates false "IDLE" (intent_template_key msg.intent) false in
      let (s', resp) = answer sv msg ctx tmpl.response_template (λ _. AtcState.idle) s in
      if is_ifr_name (current_name s) || not (is_unicom ctx)
      then pass s
      else (move_to sv AtcState.idle "unicom_flow_idle" s', resp)
