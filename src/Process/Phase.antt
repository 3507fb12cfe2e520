-- ===== src/Process/Phase.antt =====
-- A call whose intent the flight phase does not allow.
use xp_welly_llm_atc.Base.{
  ℤ, false, none, some, ◌≡◌, refl, ap, ◌∙◌, arith, empty, string_eq, find_key,
}
use xp_welly_llm_atc.Intent.{PilotMessage}
use xp_welly_llm_atc.Intent.Names.{intent_template_key}
use xp_welly_llm_atc.Phase.Guard.{check_precondition}
use xp_welly_llm_atc.Phase.Rejection.{phase_allowed}
use xp_welly_llm_atc.Readback.{Verifier}
use xp_welly_llm_atc.Templates.{fill}
use xp_welly_llm_atc.Ground.{GroundContext, Session, Services}
use xp_welly_llm_atc.Ground.Vars.{touch_vars, vars_of}
use xp_welly_llm_atc.Ground.Reply.{Outcome, ◌>>?◌, machine}
use xp_welly_llm_atc.Process.{
  gate_ifr, handle_early, handle_frequency, handle_guards, handle, finish_call, start_call, process,
}
use xp_welly_llm_atc.Process.Frame.{SameDialog, handle_guards-phase_rejected}

>>?-none : (o : Outcome) (k : Session → Outcome) → o.1 ≡ none → (o >>? k) ≡ k o.0
>>?-none (s, none) k e = refl
>>?-none (s, some r) k e = absurd (ground (arith, e))

module _ (v : Verifier) (sv : Services) (msg_in : PilotMessage) (ctx : GroundContext) (now_secs : ℤ)
    (s : Session) where
  -- A call that no handler before the guards has answered, and whose intent the phase does not allow, is
  -- answered by the rejection of the table, whatever the guards behind say: in the state that those
  -- handlers left, with no read-back asked for, and with the read-back, the queue and the locks as they
  -- left them.
  pub process-phase_rejected :
      let msg = gate_ifr sv.atc_profile msg_in in
      let early = handle_early sv msg ctx (start_call sv ctx now_secs s) in
      let frequency = handle_frequency sv msg ctx early.0 in
      early.1 ≡ none
      → frequency.1 ≡ none
      → phase_allowed sv.phase (find_key (intent_template_key msg.intent) sv.rules.preconditions)
        ≡ false
      → let rejection =
          check_precondition sv.rules.preconditions (intent_template_key msg.intent) sv.phase in
        let s' = touch_vars sv msg ctx frequency.0 in
        (process v sv msg_in ctx now_secs s ≡ (
          s',
          record {
            text = fill rejection (vars_of sv msg ctx (machine s'));
            next_state = (machine s').state;
            requires_readback = false;
          },
        ))
        × (empty rejection ≡ false)
        × ((machine s').state ≡ (machine frequency.0).state)
        × SameDialog msg (machine frequency.0) (machine s')
  unfolding process finish_call handle
  process-phase_rejected passed passed' refused =
      let msg = gate_ifr sv.atc_profile msg_in in
      let early = handle_early sv msg ctx (start_call sv ctx now_secs s) in
      let frequency = handle_frequency sv msg ctx early.0 in
      let (answered, spoken, state, dialog) =
        handle_guards-phase_rejected sv msg ctx frequency.0 refused in
      (
        ap (finish_call v sv msg ctx) (
            ap (λ o. o >>? handle_guards sv msg ctx)
              (>>?-none early (handle_frequency sv msg ctx) passed)
            ∙ >>?-none frequency (handle_guards sv msg ctx) passed'
            ∙ answered),
        spoken,
        state,
        dialog,
      )
