-- ===== src/Process/Frame.antt =====
-- What the handlers leave to the hooks: the read-back, the locks and the replay memory.
use xp_welly_llm_atc.Base.{
  String, false, some, ◌≡◌, refl, ap, Bool-cases, ◌≢◌, ◌⊎◌, inl, inr, arith, ◌==◌, string_eq, empty,
  find_key, ◌∙◌,
}
use xp_welly_llm_atc.State.{AtcState}
use xp_welly_llm_atc.Intent.{PilotIntent, PilotMessage, pilot_intent_eq}
use xp_welly_llm_atc.Intent.Names.{intent_template_key}
use xp_welly_llm_atc.Machine.{AtcMachineState, transition_to, set_departure_type, set_ifr_squawk}
use xp_welly_llm_atc.Phase.Guard.{check_precondition}
use xp_welly_llm_atc.Phase.Rejection.{phase_allowed, check_precondition-allowed}
use xp_welly_llm_atc.Templates.{fill}
use xp_welly_llm_atc.Ground.{GroundContext, Session, Services}
use xp_welly_llm_atc.Ground.Vars.{
  build_vars, touch_vars, vars_of, assign_squawk, cache_departure, remember_crossing,
}
use xp_welly_llm_atc.Ground.Reply.{machine, answer}
use xp_welly_llm_atc.Ground.Guards.{check_phase_precondition}
use xp_welly_llm_atc.Process.{handle_guards, handle}
use xp_welly_llm_atc.Process.Keeps.{IsKept, SentToStand, touch_vars-P}
use xp_welly_llm_atc.Process.Chain.{handle-Kept}

-- `h` has the read-back, the locks, the replay memory and the flight of `g`, and its code too unless a
-- clearance is asked for.
pub record SameDialog (msg : PilotMessage) (g h : AtcMachineState) : Type 0 where
  pub pending : h.readback_pending ≡ g.readback_pending
  pub queue : h.pending_clearances ≡ g.pending_clearances
  pub text : h.last_clearance_text ≡ g.last_clearance_text
  pub ok_fields : h.readback_ok_fields ≡ g.readback_ok_fields
  pub reminded : h.readback_reminder_count ≡ g.readback_reminder_count
  pub response : h.last_tower_response_text ≡ g.last_tower_response_text
  pub runway : h.assigned_runway ≡ g.assigned_runway
  pub callsign : h.session_callsign ≡ g.session_callsign
  pub airborne : h.was_airborne ≡ g.was_airborne
  pub code : msg.intent ≢ PilotIntent.request_ifr_clearance → h.ifr_squawk ≡ g.ifr_squawk

SameDialog-refl : (msg : PilotMessage) (g : AtcMachineState) → SameDialog msg g g
SameDialog-refl msg g = record {
  pending = refl;
  queue = refl;
  text = refl;
  ok_fields = refl;
  reminded = refl;
  response = refl;
  runway = refl;
  callsign = refl;
  airborne = refl;
  code = λ n. refl;
}

transition_to-SameDialog :
    (msg : PilotMessage) (g h : AtcMachineState) (next : AtcState) (reason : String)
    → SameDialog msg g h
    → SameDialog msg g (transition_to next reason h)
unfolding transition_to
transition_to-SameDialog msg g h next reason d = record {
  pending = ground (arith, d.pending);
  queue = ground (arith, d.queue);
  text = ground (arith, d.text);
  ok_fields = ground (arith, d.ok_fields);
  reminded = ground (arith, d.reminded);
  response = ground (arith, d.response);
  runway = ground (arith, d.runway);
  callsign = ground (arith, d.callsign);
  airborne = ground (arith, d.airborne);
  code = λ n. ground (arith, d.code n);
}

SameDialog-IsKept : (msg : PilotMessage) (g : AtcMachineState) → IsKept (SameDialog msg g) msg
unfolding set_departure_type set_ifr_squawk
SameDialog-IsKept msg g = record {
  moved = λ next reason h d. transition_to-SameDialog msg g h next reason d;
  typed = λ t h d. record {
    pending = d.pending;
    queue = d.queue;
    text = d.text;
    ok_fields = d.ok_fields;
    reminded = d.reminded;
    response = d.response;
    runway = d.runway;
    callsign = d.callsign;
    airborne = d.airborne;
    code = d.code;
  };
  squawked = λ sq h asks d. record {
    pending = d.pending;
    queue = d.queue;
    text = d.text;
    ok_fields = d.ok_fields;
    reminded = d.reminded;
    response = d.response;
    runway = d.runway;
    callsign = d.callsign;
    airborne = d.airborne;
    code = λ n. absurd (n asks);
  };
}

pub remember_crossing-world :
    (sv : Services) (msg : PilotMessage) (ctx : GroundContext) (s : Session)
    → (remember_crossing sv msg ctx s).world ≡ s.world
unfolding remember_crossing
remember_crossing-world sv msg ctx s = ground arith

pub cache_departure-world :
    (sv : Services) (ctx : GroundContext) (s : Session) → (cache_departure sv ctx s).world ≡ s.world
unfolding cache_departure
cache_departure-world sv ctx s = ground arith

assign_squawk-state :
    (sv : Services) (msg : PilotMessage) (s : Session)
    → (machine (assign_squawk sv msg s)).state ≡ (machine s).state
unfolding assign_squawk set_ifr_squawk
assign_squawk-state sv msg s = elim (Bool-cases (msg.intent == PilotIntent.request_ifr_clearance)) [
  | inl e ↦ rw (e, assign_squawk) refl
  | inr e ↦ rw (e, assign_squawk) refl
]

module _ (sv : Services) (msg : PilotMessage) (ctx : GroundContext) (s : Session) where
  -- No handler touches the read-back, its queue, the locks, the replay memory or the flag of the
  -- flight, nor the code of the flight unless a clearance is asked for; the way to the stand alone
  -- does, which an aircraft that has landed is sent on Ground's frequency.
  pub handle-SameDialog :
      SameDialog msg (machine s) (machine (handle sv msg ctx s).0)
      ⊎ SentToStand sv msg ctx (SameDialog msg (machine s)) (handle sv msg ctx s)
  handle-SameDialog =
      handle-Kept sv msg ctx (SameDialog msg (machine s)) (SameDialog-IsKept msg (machine s)) s
        (SameDialog-refl msg (machine s))

  touch_vars-state : (machine (touch_vars sv msg ctx s)).state ≡ (machine s).state
  unfolding touch_vars
  touch_vars-state =
      let s1 = assign_squawk sv msg s in
      ap (λ w. w.g.state) (remember_crossing-world sv msg ctx (cache_departure sv ctx s1))
      ∙ ap (λ w. w.g.state) (cache_departure-world sv ctx s1)
      ∙ assign_squawk-state sv msg s

  -- The first guard answers an intent that the phase does not allow, whatever the guards behind say.
  pub handle_guards-phase_rejected :
      phase_allowed sv.phase (find_key (intent_template_key msg.intent) sv.rules.preconditions)
        ≡ false
      → let rejection =
          check_precondition sv.rules.preconditions (intent_template_key msg.intent) sv.phase in
        let s' = touch_vars sv msg ctx s in
        (handle_guards sv msg ctx s ≡ (
          s',
          some (record {
            text = fill rejection (vars_of sv msg ctx (machine s'));
            next_state = (machine s').state;
            requires_readback = false;
          }),
        ))
        × (empty rejection ≡ false)
        × ((machine s').state ≡ (machine s).state)
        × SameDialog msg (machine s) (machine s')
  unfolding handle_guards check_phase_precondition answer build_vars
  handle_guards-phase_rejected refused =
      let rejection =
        check_precondition sv.rules.preconditions (intent_template_key msg.intent) sv.phase in
      let ne =
        check_precondition-allowed sv.rules.preconditions (intent_template_key msg.intent) sv.phase
        ∙ refused in
      (
        rw ne refl,
        ne,
        touch_vars-state,
        touch_vars-P sv msg ctx (SameDialog msg (machine s)) (SameDialog-IsKept msg (machine s)) s
            (SameDialog-refl msg (machine s)),
      )
