-- ===== src/Process/Handlers.antt =====
-- Each handler keeps a predicate that its steps keep.
use xp_welly_llm_atc.Base.{
  String, false, Option, none, some, inl, inr, arith, Option-cases, string_eq, find_key, ◌+s◌,
}
use xp_welly_llm_atc.State.{AtcState, DepartureType, atc_state_eq}
use xp_welly_llm_atc.State.Names.{state_from_name}
use xp_welly_llm_atc.Intent.{PilotIntent, PilotMessage, pilot_intent_eq}
use xp_welly_llm_atc.Intent.Names.{intent_template_key}
use xp_welly_llm_atc.Machine.{AtcMachineState, transition_to}
use xp_welly_llm_atc.Ground.{GroundContext, Session, Services, FrequencyAutoCorrection}
use xp_welly_llm_atc.Ground.Text.{get_runway}
use xp_welly_llm_atc.Ground.Vars.{build_vars, touch_vars}
use xp_welly_llm_atc.Ground.Reply.{pass, machine, answer, same_state, current_name}
use xp_welly_llm_atc.Ground.Early.{
  revert_state, revert_target, handle_negative_correction, handle_repeat, apply_state_reverts,
  first_revert, handle_unicom_flow,
}
use xp_welly_llm_atc.Ground.Afis.{
  handle_afis_ground_flow, speak_info, info_text, info_service, move_if, speak_free, free_text,
}
use xp_welly_llm_atc.Ground.Frequency.{
  handle_frequency_hint, apply_state_frequency_validity, apply_frequency_auto_corrections,
  handle_idle_redirects, check_handoff_reissue, reissue_handoff, first_redirect, correct_by,
  first_correction,
}
use xp_welly_llm_atc.Templates.{lookup}
use xp_welly_llm_atc.Process.Keeps.{IsKept, touch_vars-P, answer-P, if-P}

module _ (sv : Services) (msg : PilotMessage) (ctx : GroundContext) (P : AtcMachineState → Type 0)
    (kept : IsKept P msg) where
  open kept use {moved, typed, squawked}

  revert_state-P : (g : AtcMachineState) → P g → P (revert_state g)
  unfolding revert_state
  revert_state-P g p =
      let t = transition_to (revert_target g.state) "negative_correction" g in
      let q = moved (revert_target g.state) "negative_correction" g p in
      ground (arith, q, typed DepartureType.pattern t q)

  pub handle_negative_correction-P :
      (s : Session) → P (machine s) → P (machine (handle_negative_correction sv msg ctx s).0)
  unfolding handle_negative_correction build_vars
  handle_negative_correction-P s p =
      let q = touch_vars-P sv msg ctx P kept s p in
      ground (
        arith,
        q,
        revert_state-P (machine (touch_vars sv msg ctx s)) q,
        answer-P sv msg ctx P kept "{callsign}, roger, say intentions." (same_state sv) s p,
      )

  pub handle_repeat-P : (s : Session) → P (machine s) → P (machine (handle_repeat sv msg s).0)
  unfolding handle_repeat
  handle_repeat-P s p = ground arith

  pub apply_state_reverts-P :
      (s : Session) → P (machine s) → P (machine (apply_state_reverts sv msg s))
  unfolding apply_state_reverts
  apply_state_reverts-P s p =
      elim (Option-cases (
        first_revert sv (current_name s) (intent_template_key msg.intent) sv.rules.state_reverts)) [
          | inl e ↦ rw (e, apply_state_reverts) p
          | inr (r, e) ↦
              let q = moved (state_from_name r.revert_to) "state_revert" (machine s) p in
              rw (e, apply_state_reverts)
                (ground (
                  arith,
                  q,
                  typed DepartureType.pattern
                      (transition_to (state_from_name r.revert_to) "state_revert" (machine s)) q,
                ))
        ]

  pub handle_unicom_flow-P :
      (s : Session) → P (machine s) → P (machine (handle_unicom_flow sv msg ctx s).0)
  unfolding handle_unicom_flow
  handle_unicom_flow-P s p =
      let tmpl = lookup sv.templates false "IDLE" (intent_template_key msg.intent) false in
      let o = answer sv msg ctx tmpl.response_template (λ _. AtcState.idle) s in
      let q = answer-P sv msg ctx P kept tmpl.response_template (λ _. AtcState.idle) s p in
      ground (arith, q, moved AtcState.idle "unicom_flow_idle" (machine o.0) q)

  reissue_handoff-P : (s : Session) → P (machine s) → P (machine (reissue_handoff sv msg ctx s).0)
  unfolding reissue_handoff
  reissue_handoff-P s p = if-P sv msg ctx P _ (pass s) _ p (answer-P sv msg ctx P kept _ _ s p)

  pub check_handoff_reissue-P :
      (s : Session) → P (machine s) → P (machine (check_handoff_reissue sv msg ctx s).0)
  unfolding check_handoff_reissue
  check_handoff_reissue-P s p =
      let r = reissue_handoff-P s p in
      if-P sv msg ctx P _ _ _
        (if-P sv msg ctx P _ (pass s) _ p
          (if-P sv msg ctx P _ _ _ (answer-P sv msg ctx P kept _ _ s p) r))
        r

  pub handle_frequency_hint-P :
      (s : Session) → P (machine s) → P (machine (handle_frequency_hint sv msg ctx s).0)
  unfolding handle_frequency_hint
  handle_frequency_hint-P s p = elim (Option-cases sv.rules.frequency_hint) [
    | inl e ↦ rw (e, handle_frequency_hint) (if-P sv msg ctx P _ (pass s) (pass s) p p)
    | inr (fh, e) ↦
        rw (e, handle_frequency_hint)
          (if-P sv msg ctx P _ (pass s) _ p
            (if-P sv msg ctx P _ (pass s) _ p (answer-P sv msg ctx P kept _ _ s p)))
  ]

  pub apply_state_frequency_validity-P :
      (s : Session) → P (machine s) → P (machine (apply_state_frequency_validity sv ctx s))
  unfolding apply_state_frequency_validity
  apply_state_frequency_validity-P s p =
      ground (arith, moved AtcState.idle "freq_validity_reset" (machine s) p)

  correct_by-P :
      (o : Option (String × FrequencyAutoCorrection)) (s : Session)
      → P (machine s)
      → P (machine (correct_by sv o s))
  correct_by-P none s p = p
  correct_by-P (some (cond_name, rule)) s p = moved _ _ (machine s) p

  pub apply_frequency_auto_corrections-P :
      (s : Session) → P (machine s) → P (machine (apply_frequency_auto_corrections sv ctx s))
  unfolding apply_frequency_auto_corrections
  apply_frequency_auto_corrections-P s p =
      elim (Option-cases (find_key (current_name s) sv.rules.frequency_auto_corrections)) [
        | inl e ↦ rw (e, apply_frequency_auto_corrections) p
        | inr (fc, e) ↦
            rw (e, apply_frequency_auto_corrections)
              (correct_by-P (first_correction sv ctx.base.frequency_type fc) s p)
      ]

  pub handle_idle_redirects-P :
      (s : Session) → P (machine s) → P (machine (handle_idle_redirects sv msg ctx s).0)
  unfolding handle_idle_redirects
  handle_idle_redirects-P s p =
      elim (Option-cases
        (first_redirect sv ctx (intent_template_key msg.intent) sv.rules.idle_redirects)) [
          | inl e ↦ rw (e, handle_idle_redirects) (if-P sv msg ctx P _ (pass s) (pass s) p p)
          | inr (r, e) ↦
              rw (e, handle_idle_redirects)
                (if-P sv msg ctx P _ (pass s) _ p
                  (moved _ _ _ (answer-P sv msg ctx P kept _ _ s p)))
        ]

  move_if-P :
      (intent : PilotIntent) (next : Option AtcState) (s : Session)
      → P (machine s)
      → P (machine (move_if sv intent next s))
  move_if-P intent none s p = p
  move_if-P intent (some next) s p = moved next _ (machine s) p

  speak_free-P :
      (info_name : String) (s : Session)
      → P (machine s)
      → P (machine (speak_free sv msg ctx info_name s).0)
  unfolding speak_free
  speak_free-P info_name s p = ground (
    arith,
    answer-P sv msg ctx P kept (free_text sv info_name (get_runway msg ctx (machine s)))
        (same_state sv) s p,
    answer-P sv msg ctx P kept "" (same_state sv) s p,
    answer-P sv msg ctx P kept ("{callsign}, " +s info_name +s ", say again.") (same_state sv) s p,
  )

  speak_info-P :
      (info_name : String) (s : Session)
      → P (machine s)
      → P (machine (speak_info sv msg ctx info_name s).0)
  unfolding speak_info
  speak_info-P info_name s p =
      elim (Option-cases (info_text sv msg.intent (get_runway msg ctx (machine s)))) [
        | inl e ↦ rw (e, speak_info) (speak_free-P info_name s p)
        | inr ((text, next), e) ↦
            rw (e, speak_info) (move_if-P msg.intent next _ (answer-P sv msg ctx P kept _ _ s p))
      ]

  pub handle_afis_ground_flow-P :
      (s : Session) → P (machine s) → P (machine (handle_afis_ground_flow sv msg ctx s).0)
  unfolding handle_afis_ground_flow
  handle_afis_ground_flow-P s p = elim (Option-cases (info_service sv ctx)) [
    | inl e ↦ rw (e, handle_afis_ground_flow) p
    | inr ((info_name, info_freq), e) ↦
        rw (e, handle_afis_ground_flow)
          (if-P sv msg ctx P _ (pass s) _ p (speak_info-P info_name s p))
  ]
