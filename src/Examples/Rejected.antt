-- ===== src/Examples/Rejected.antt =====
-- The theorem on a call that the flight phase does not allow, at a parked aircraft.
use xp_welly_llm_atc.Base.{pos, false, none, ◌≡◌, refl, string_eq, arith, empty, nat_eq}
use xp_welly_llm_atc.State.{AtcState}
use xp_welly_llm_atc.Intent.{PilotIntent, PilotMessage, pilot_intent_eq}
use xp_welly_llm_atc.Intent.Names.{intent_template_key, intent_name}
use xp_welly_llm_atc.Phase.{FlightPhase}
use xp_welly_llm_atc.Phase.Guard.{check_precondition}
use xp_welly_llm_atc.Templates.{fill}
use xp_welly_llm_atc.Ground.{Session}
use xp_welly_llm_atc.Ground.Vars.{touch_vars, vars_of}
use xp_welly_llm_atc.Ground.Reply.{machine}
use xp_welly_llm_atc.Ground.Early.{
  handle_negative_correction, handle_repeat, apply_state_reverts, handle_unicom_flow,
}
use xp_welly_llm_atc.Ground.Afis.{handle_afis_ground_flow}
use xp_welly_llm_atc.Ground.Frequency.{
  handle_frequency_hint, apply_state_frequency_validity, apply_frequency_auto_corrections,
  handle_idle_redirects, check_handoff_reissue,
}
use xp_welly_llm_atc.World.{check_airport_change}
use xp_welly_llm_atc.Process.{gate_ifr, handle_early, handle_frequency, start_call, process}
use xp_welly_llm_atc.Process.Frame.{SameDialog}
use xp_welly_llm_atc.Process.Phase.{process-phase_rejected}
use xp_welly_llm_atc.Examples.{parked, verifier}
use xp_welly_llm_atc.Examples.Ground.{field, services, session_of, ground_rules, says}

abbrev landing : PilotMessage
landing = says PilotIntent.request_landing

landing_key : intent_template_key PilotIntent.request_landing ≡ "REQUEST_LANDING"
unfolding intent_template_key intent_name
landing_key = refl

abbrev gated : PilotMessage
gated = gate_ifr services.atc_profile landing

gated-landing : gated ≡ landing
unfolding gate_ifr string_eq
gated-landing = refl

abbrev begun : Session
begun = start_call services field (pos 5000) (session_of parked)

negative_passes : handle_negative_correction services landing field begun ≡ (begun, none)
unfolding handle_negative_correction
negative_passes = ground arith

repeat_passes : handle_repeat services landing begun ≡ (begun, none)
unfolding handle_repeat
repeat_passes = ground arith

unicom_passes : handle_unicom_flow services landing field begun ≡ (begun, none)
unfolding handle_unicom_flow
unicom_passes = ground arith

early_passes : handle_early services landing field begun ≡ (begun, none)
unfolding handle_early apply_state_reverts
early_passes = rw (negative_passes, repeat_passes, unicom_passes) refl

afis_passes : handle_afis_ground_flow services landing field begun ≡ (begun, none)
unfolding handle_afis_ground_flow string_eq
afis_passes = ground arith

hint_passes : handle_frequency_hint services landing field begun ≡ (begun, none)
unfolding handle_frequency_hint
hint_passes = ground arith

redirect_passes : handle_idle_redirects services landing field begun ≡ (begun, none)
unfolding handle_idle_redirects
redirect_passes = ground arith

begun_state : (machine begun).state ≡ AtcState.idle
unfolding start_call check_airport_change
begun_state = ground arith

engine_begun : begun.engine.pending_handoff_freq ≡ 0
unfolding start_call
engine_begun = refl

reissue_passes : check_handoff_reissue services landing field begun ≡ (begun, none)
unfolding check_handoff_reissue
reissue_passes = rw (begun_state, engine_begun) (ground arith)

validity_keeps : apply_state_frequency_validity services field begun ≡ begun
unfolding apply_state_frequency_validity
validity_keeps = ground arith

corrections_keep : apply_frequency_auto_corrections services field begun ≡ begun
unfolding apply_frequency_auto_corrections
corrections_keep = refl

frequency_passes : handle_frequency services landing field begun ≡ (begun, none)
unfolding handle_frequency
frequency_passes =
    rw (afis_passes, hint_passes, validity_keeps, corrections_keep, redirect_passes, reissue_passes)
      refl

landing_passes :
    let early = handle_early services gated field begun in
    (early.1 ≡ none) × ((handle_frequency services gated field early.0).1 ≡ none)
landing_passes =
    (rw (gated-landing, early_passes) refl, rw (gated-landing, early_passes, frequency_passes) refl)

process-phase_rejected_example :
    let s = session_of parked in
    let early = handle_early services gated field begun in
    let frequency = handle_frequency services gated field early.0 in
    let rejection =
      check_precondition ground_rules.preconditions
        (intent_template_key gated.intent)
        FlightPhase.parked in
    let s' = touch_vars services gated field frequency.0 in
    (process verifier services landing field (pos 5000) s ≡ (
      s',
      record {
        text = fill rejection (vars_of services gated field (machine s'));
        next_state = (machine s').state;
        requires_readback = false;
      },
    ))
    × (empty rejection ≡ false)
    × ((machine s').state ≡ (machine frequency.0).state)
    × SameDialog gated (machine frequency.0) (machine s')
process-phase_rejected_example =
    process-phase_rejected verifier services landing field (pos 5000) (session_of parked)
      landing_passes.0 landing_passes.1 (rw (gated-landing, landing_key) (ground arith))
