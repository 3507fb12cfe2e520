-- ===== src/Process.antt =====
-- One call of the pilot (src/atc/atc_state_machine.cpp, `process`): the handlers in the order of the
-- source, then the template lookup, the landing sequence and the hooks.
pub mod Lookup
pub mod Keeps
pub mod Handlers
pub mod Chain
pub mod Sound
pub mod Frame
pub mod Phase
pub mod Code
pub mod Refusals
use xp_welly_llm_atc.Base.{
  ℤ, String, Bool, true, false, not, ◌&&◌, ◌||◌, Option, none, some, ◌==◌, string_eq, empty,
  if◌then◌else◌,
}
use xp_welly_llm_atc.State.{AtcState, AtcResponse, atc_state_eq}
use xp_welly_llm_atc.State.Names.{state_from_name}
use xp_welly_llm_atc.Intent.{PilotIntent, PilotMessage, pilot_intent_eq}
use xp_welly_llm_atc.Intent.Names.{intent_template_key}
use xp_welly_llm_atc.Machine.{set_was_airborne}
use xp_welly_llm_atc.World.{World, check_airport_change}
use xp_welly_llm_atc.Readback.{Verifier}
use xp_welly_llm_atc.Hooks.{apply_post_transition_hooks}
use xp_welly_llm_atc.Templates.{TemplateEntry, lookup, fill}
use xp_welly_llm_atc.Vars.{Vars}
use xp_welly_llm_atc.Flow.Pattern.{is_pattern_state}
use xp_welly_llm_atc.Flow.Overlay.{apply_landing_sequence}
use xp_welly_llm_atc.Ground.{GroundContext, Session, Services}
use xp_welly_llm_atc.Ground.Vars.{build_vars}
use xp_welly_llm_atc.Ground.Reply.{Outcome, ◌>>?◌, machine, on_machine}
use xp_welly_llm_atc.Ground.Early.{
  handle_negative_correction, handle_repeat, apply_state_reverts, handle_unicom_flow,
}
use xp_welly_llm_atc.Ground.Afis.{handle_afis_ground_flow}
use xp_welly_llm_atc.Ground.Frequency.{
  handle_frequency_hint, apply_state_frequency_validity, apply_frequency_auto_corrections,
  handle_idle_redirects, check_handoff_reissue,
}
use xp_welly_llm_atc.Ground.Guards.{
  check_phase_precondition, check_freq_precondition, check_no_flight_plan, check_atis_confirmation,
  check_sid_visibility, check_runway_at_holding_point, check_squawk_at_holding_point,
}
use xp_welly_llm_atc.Process.Lookup.{effective_state_for_template}

-- Outside Europe the IFR intents are not understood.
unfoldable pub gate_ifr : String → PilotMessage → PilotMessage
gate_ifr atc_profile msg =
    if not (atc_profile == "EU")
      && (msg.intent == PilotIntent.request_ifr_clearance
          || msg.intent == PilotIntent.report_holding_short)
    then record msg { intent = PilotIntent.unknown }
    else msg

abbrev pub starts_on_ground : PilotMessage → Bool
starts_on_ground msg =
    msg.intent == PilotIntent.request_taxi
    || msg.intent == PilotIntent.initial_call_ground
    || msg.intent == PilotIntent.initial_call_tower
    || msg.intent == PilotIntent.initial_call

module _ (sv : Services) where
  -- The handlers; none of them takes the call where the outcome has no answer.
  unfoldable pub handle_early : PilotMessage → GroundContext → Session → Outcome
  handle_early msg ctx s =
      handle_negative_correction sv msg ctx s >>? handle_repeat sv msg >>? λ s1.
      handle_unicom_flow sv msg ctx (apply_state_reverts sv msg s1)

  unfoldable pub handle_frequency : PilotMessage → GroundContext → Session → Outcome
  handle_frequency msg ctx s =
      handle_afis_ground_flow sv msg ctx s >>? handle_frequency_hint sv msg ctx >>? λ s1.
      handle_idle_redirects sv msg ctx
        (apply_frequency_auto_corrections sv ctx (apply_state_frequency_validity sv ctx s1))
      >>? check_handoff_reissue sv msg ctx

  unfoldable pub handle_guards : PilotMessage → GroundContext → Session → Outcome
  handle_guards msg ctx s =
      check_phase_precondition sv msg ctx s
      >>? check_freq_precondition sv msg ctx
      >>? check_no_flight_plan sv msg ctx
      >>? check_atis_confirmation sv msg ctx
      >>? check_sid_visibility sv msg ctx
      >>? check_runway_at_holding_point sv msg ctx
      >>? check_squawk_at_holding_point sv msg ctx

  unfoldable pub handle : PilotMessage → GroundContext → Session → Outcome
  handle msg ctx s = handle_early msg ctx s >>? handle_frequency msg ctx >>? handle_guards msg ctx

  -- The answer of the template, with the landing sequence laid over it.
  unfoldable pub template_response : PilotMessage → GroundContext → Vars → Session → AtcResponse
  template_response msg ctx vars s =
      let key = effective_state_for_template msg ctx s in
      let tmpl =
        lookup sv.templates true key (intent_template_key msg.intent) ctx.base.tower_only in
      let resp : AtcResponse = record {
        text = fill tmpl.response_template vars;
        next_state = state_from_name tmpl.next_state;
        requires_readback = tmpl.requires_readback;
      } in
      if is_pattern_state resp.next_state
      then apply_landing_sequence sv.templates sv.geometry sv.decimal sv.get_pattern_direction
          ctx.base sv.traffic vars resp
      else resp

  -- A call on the ground begins a new flight.
  unfoldable pub reset_airborne : PilotMessage → GroundContext → Session → Session
  reset_airborne msg ctx s =
      if ctx.base.on_ground && starts_on_ground msg
      then on_machine sv (set_was_airborne false) s
      else s

  unfoldable pub start_call : GroundContext → ℤ → Session → Session
  start_call ctx now_secs s = record s { world = check_airport_change ctx.base now_secs s.world }

module _ (v : Verifier) (sv : Services) where
  unfoldable pub run_hooks :
      PilotMessage → GroundContext → AtcResponse → Session → Session × AtcResponse
  run_hooks msg ctx resp s =
      let (w, resp') = apply_post_transition_hooks v sv.rules.flight msg ctx.base resp s.world in
      (record s { world = w }, resp')

  -- What follows where no handler has answered.
  unfoldable pub respond : PilotMessage → GroundContext → Session → Session × AtcResponse
  unfolding template_response reset_airborne run_hooks
  respond msg ctx s =
      let (s', vars) = build_vars sv msg ctx s in
      run_hooks msg ctx (template_response sv msg ctx vars s') (reset_airborne sv msg ctx s')

  unfoldable pub finish_call : PilotMessage → GroundContext → Outcome → Session × AtcResponse
  unfolding respond
  finish_call msg ctx (s, some resp) = (s, resp)
  finish_call msg ctx (s, none) = respond msg ctx s

  unfoldable pub process : PilotMessage → GroundContext → ℤ → Session → Session × AtcResponse
  process msg_in ctx now_secs s =
      let msg = gate_ifr sv.atc_profile msg_in in
      finish_call msg ctx (handle sv msg ctx (start_call sv ctx now_secs s))
