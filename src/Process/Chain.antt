-- ===== src/Process/Chain.antt =====
-- The guards, and the whole chain of handlers: each keeps a predicate that its steps keep, but for the
-- way to the stand after a landing.
use xp_welly_llm_atc.Base.{
  true, false, refl, inl, inr, Bool-cases, Option-cases, ◌==◌, if◌then◌else◌,
}
use xp_welly_llm_atc.Intent.{PilotIntent, PilotMessage, pilot_intent_eq}
use xp_welly_llm_atc.Machine.{AtcMachineState}
use xp_welly_llm_atc.Ground.{GroundContext, Session, Services}
use xp_welly_llm_atc.Ground.Vars.{build_vars, near}
use xp_welly_llm_atc.Ground.Afis.{active_mhz}
use xp_welly_llm_atc.Ground.Reply.{Outcome, ◌>>?◌, pass, machine, answer, same_state}
use xp_welly_llm_atc.Ground.Guards.{
  taxis_in, wrong_unit, redirect_text, contact_text, await_unit, exempt, check_phase_precondition,
  check_frequency_table, check_frequency, clearance_unit, check_freq_precondition,
  check_no_flight_plan, check_atis_confirmation, check_sid_visibility,
  check_runway_at_holding_point, check_squawk_at_holding_point, redirect_to_ground, set_check,
}
use xp_welly_llm_atc.Ground.Early.{
  handle_negative_correction, handle_repeat, apply_state_reverts, handle_unicom_flow,
}
use xp_welly_llm_atc.Ground.Frequency.{
  apply_state_frequency_validity, apply_frequency_auto_corrections, handle_idle_redirects,
  check_handoff_reissue, handle_frequency_hint,
}
use xp_welly_llm_atc.Ground.Afis.{handle_afis_ground_flow}
use xp_welly_llm_atc.Process.{handle_early, handle_frequency, handle_guards, handle}
use xp_welly_llm_atc.Process.Keeps.{
  IsKept, Kept, Keeps, keeps, and_then, touch_vars-P, answer-P, if-P, if-Kept,
}
use xp_welly_llm_atc.Process.Handlers.{
  handle_negative_correction-P, handle_repeat-P, apply_state_reverts-P, handle_unicom_flow-P,
  check_handoff_reissue-P, handle_frequency_hint-P, apply_state_frequency_validity-P,
  apply_frequency_auto_corrections-P, handle_idle_redirects-P, handle_afis_ground_flow-P,
}

module _ (sv : Services) (msg : PilotMessage) (ctx : GroundContext) (P : AtcMachineState → Type 0)
    (kept : IsKept P msg) where
  open kept use {moved}

  check_phase_precondition-P :
      (s : Session) → P (machine s) → P (machine (check_phase_precondition sv msg ctx s).0)
  unfolding check_phase_precondition
  check_phase_precondition-P s p =
      if-P sv msg ctx P _ (pass s) _ p (answer-P sv msg ctx P kept _ _ s p)

  check_frequency_table-P :
      (s : Session) → P (machine s) → P (machine (check_frequency_table sv msg ctx s).0)
  unfolding check_frequency_table
  check_frequency_table-P s p = if-P sv msg ctx P _ (pass s) _ p (
      if-P sv msg ctx P _ _ _ (moved _ _ _ (answer-P sv msg ctx P kept _ _ s p))
        (answer-P sv msg ctx P kept _ _ s p))

  check_frequency-Kept :
      (s : Session) → P (machine s) → Kept sv msg ctx P (check_frequency sv msg ctx s)
  unfolding check_frequency
  check_frequency-Kept s p = elim (Bool-cases (wrong_unit sv msg ctx)) [
    | inl wrong ↦
        rw (wrong, check_frequency)
          (inl (answer-P sv msg ctx P kept (redirect_text sv ctx) (same_state sv) s p))
    | inr right ↦ elim (Bool-cases (exempt sv ctx s)) [
      | inl e ↦ rw (right, e, check_frequency) (inl p)
      | inr e ↦ elim (Bool-cases (taxis_in sv msg ctx s)) [
        | inl t ↦ rw (right, e, t, check_frequency) (inr (s, p, t, refl))
        | inr t ↦ rw (right, e, t, check_frequency) (inl (check_frequency_table-P s p))
      ]
    ]
  ]

  check_freq_precondition-Kept :
      (s : Session) → P (machine s) → Kept sv msg ctx P (check_freq_precondition sv msg ctx s)
  unfolding check_freq_precondition
  check_freq_precondition-Kept s p = elim (Option-cases (clearance_unit sv msg ctx)) [
    | inl e ↦ rw (e, check_freq_precondition) (check_frequency-Kept s p)
    | inr ((acc_n, acc_f), e) ↦
        rw (e, check_freq_precondition)
          (if-Kept sv msg ctx P (near sv 20 (active_mhz ctx) acc_f) (pass s)
            (if msg.intent == PilotIntent.request_ifr_clearance
              then (
                await_unit sv acc_n acc_f
                    (answer sv msg ctx (contact_text sv acc_n acc_f) (same_state sv) s).0,
                (answer sv msg ctx (contact_text sv acc_n acc_f) (same_state sv) s).1,
              )
              else check_frequency sv msg ctx s)
            (inl p)
            (if-Kept sv msg ctx P (msg.intent == PilotIntent.request_ifr_clearance) _
              (check_frequency sv msg ctx s)
              (inl (answer-P sv msg ctx P kept (contact_text sv acc_n acc_f) (same_state sv) s p))
              (check_frequency-Kept s p)))
  ]

  check_no_flight_plan-P :
      (s : Session) → P (machine s) → P (machine (check_no_flight_plan sv msg ctx s).0)
  unfolding check_no_flight_plan
  check_no_flight_plan-P s p = if-P sv msg ctx P _ (pass s) _ p (answer-P sv msg ctx P kept _ _ s p)

  check_atis_confirmation-P :
      (s : Session) → P (machine s) → P (machine (check_atis_confirmation sv msg ctx s).0)
  unfolding check_atis_confirmation
  check_atis_confirmation-P s p =
      if-P sv msg ctx P _ (pass s) _ p (answer-P sv msg ctx P kept _ _ s p)

  check_sid_visibility-P :
      (s : Session) → P (machine s) → P (machine (check_sid_visibility sv msg ctx s).0)
  unfolding check_sid_visibility
  check_sid_visibility-P s p = if-P sv msg ctx P _ (pass s) _ p (answer-P sv msg ctx P kept _ _ s p)

  check_runway_at_holding_point-P :
      (s : Session) → P (machine s) → P (machine (check_runway_at_holding_point sv msg ctx s).0)
  unfolding check_runway_at_holding_point
  check_runway_at_holding_point-P s p =
      if-P sv msg ctx P _ (pass s) _ p (answer-P sv msg ctx P kept _ _ s p)

  redirect_to_ground-P :
      (s : Session) → P (machine s) → P (machine (redirect_to_ground sv msg ctx s).0)
  unfolding redirect_to_ground build_vars
  redirect_to_ground-P s p = if-P sv msg ctx P _ (pass s) _ p (touch_vars-P sv msg ctx P kept s p)

  check_squawk_at_holding_point-P :
      (s : Session) → P (machine s) → P (machine (check_squawk_at_holding_point sv msg ctx s).0)
  unfolding check_squawk_at_holding_point
  check_squawk_at_holding_point-P s p = if-P sv msg ctx P _ (pass s) _ p (
      if-P sv msg ctx P _ _ _ (redirect_to_ground-P (set_check sv false s) p) (
        if-P sv msg ctx P _ (pass (set_check sv false s)) _ p
          (answer-P sv msg ctx P kept _ _ (set_check sv true s) p)))

  abbrev K : (Session → Outcome) → Type 0
  K h = Keeps sv msg ctx P h

  abbrev by : (h : Session → Outcome) → ((s : Session) → P (machine s) → P (machine (h s).0)) → K h
  by h f = keeps sv msg ctx P h f

  abbrev and : {h k : Session → Outcome} → K h → K k → K (λ s. h s >>? k)
  and {h} {k} f g = and_then sv msg ctx P f g

  handle_early-Keeps : K (handle_early sv msg ctx)
  unfolding handle_early
  handle_early-Keeps =
      and
        (and
          (by (handle_negative_correction sv msg ctx)
            (handle_negative_correction-P sv msg ctx P kept))
          (by (handle_repeat sv msg) (handle_repeat-P sv msg ctx P kept)))
        (by (λ s. handle_unicom_flow sv msg ctx (apply_state_reverts sv msg s))
          (λ s p.
            handle_unicom_flow-P sv msg ctx P kept (apply_state_reverts sv msg s)
              (apply_state_reverts-P sv msg ctx P kept s p)))

  handle_redirects-Keeps : K (λ s.
      handle_idle_redirects sv msg ctx
        (apply_frequency_auto_corrections sv ctx (apply_state_frequency_validity sv ctx s)))
  handle_redirects-Keeps = by _ (λ s p.
      let s1 = apply_state_frequency_validity sv ctx s in
      let p1 = apply_state_frequency_validity-P sv msg ctx P kept s p in
      handle_idle_redirects-P sv msg ctx P kept (apply_frequency_auto_corrections sv ctx s1)
        (apply_frequency_auto_corrections-P sv msg ctx P kept s1 p1))

  handle_frequency-Keeps : K (handle_frequency sv msg ctx)
  unfolding handle_frequency
  handle_frequency-Keeps =
      and
        (and (by (handle_afis_ground_flow sv msg ctx) (handle_afis_ground_flow-P sv msg ctx P kept))
          (by (handle_frequency_hint sv msg ctx) (handle_frequency_hint-P sv msg ctx P kept)))
        (and handle_redirects-Keeps
          (by (check_handoff_reissue sv msg ctx) (check_handoff_reissue-P sv msg ctx P kept)))

  handle_guards-Keeps : K (handle_guards sv msg ctx)
  unfolding handle_guards
  handle_guards-Keeps =
      and
        (and
          (and
            (and
              (and
                (and (by (check_phase_precondition sv msg ctx) check_phase_precondition-P)
                  (record { apply = check_freq_precondition-Kept }))
                (by (check_no_flight_plan sv msg ctx) check_no_flight_plan-P))
              (by (check_atis_confirmation sv msg ctx) check_atis_confirmation-P))
            (by (check_sid_visibility sv msg ctx) check_sid_visibility-P))
          (by (check_runway_at_holding_point sv msg ctx) check_runway_at_holding_point-P))
        (by (check_squawk_at_holding_point sv msg ctx) check_squawk_at_holding_point-P)

  handle-Keeps : K (handle sv msg ctx)
  unfolding handle
  handle-Keeps = and (and handle_early-Keeps handle_frequency-Keeps) handle_guards-Keeps

  -- What the steps of a handler keep holds behind the chain, or the aircraft was sent to its stand.
  pub handle-Kept : (s : Session) → P (machine s) → Kept sv msg ctx P (handle sv msg ctx s)
  handle-Kept = handle-Keeps.apply
