-- ===== src/Hooks/Session.antt =====
-- What the hooks do to the session: the state, the runway lock and the callsign lock.
use xp_welly_llm_atc.Base.{
  String, false, Option, none, some, ◌≡◌, refl, ◌≢◌, arith, ◌==◌, ◌&&◌, not, string_eq, empty, ◌+s◌,
  ◌∙◌, find_key, if◌then◌else◌,
}
use xp_welly_llm_atc.State.{AtcState, AtcState-discrete, AtcResponse, atc_state_eq}
use xp_welly_llm_atc.State.Names.{state_name}
use xp_welly_llm_atc.Intent.{PilotMessage}
use xp_welly_llm_atc.Intent.Names.{intent_template_key}
use xp_welly_llm_atc.Context.{XPlaneContext}
use xp_welly_llm_atc.Machine.{AtcMachineState, transition_to, release_runway, release_callsign}
use xp_welly_llm_atc.Machine.Transition.{transition_to-state}
use xp_welly_llm_atc.Readback.{rb_clear}
use xp_welly_llm_atc.Callsign.{locked_callsign}
use xp_welly_llm_atc.Correction.{FlightRules}
use xp_welly_llm_atc.Hooks.{
  drop_stale, lock_runway, lock_callsign, clearance_runway, track_departure, advance, moves,
  end_session, advance_to, tower_only_advance, tower_only_target, keep_response, settle,
}

-- The three fields that make a session.
abbrev pub SameSession : AtcMachineState → AtcMachineState → Type 0
SameSession g h =
    (h.state ≡ g.state)
    × (h.assigned_runway ≡ g.assigned_runway)
    × (h.session_callsign ≡ g.session_callsign)
    × (h.reference_callsign ≡ g.reference_callsign)

-- The runway that stays locked: the one held, else that of the clearance.
abbrev pub held_runway : PilotMessage → XPlaneContext → AtcMachineState → String
held_runway msg ctx g =
    if empty g.assigned_runway then clearance_runway msg ctx else g.assigned_runway

-- The callsign that stays locked: the one held, else the one heard, as the lock admits it.
abbrev pub held_callsign : PilotMessage → AtcMachineState → String
held_callsign msg g =
    if empty g.session_callsign && not (empty msg.callsign)
    then locked_callsign g.reference_callsign msg.callsign
    else g.session_callsign

drop_stale-session : (next : AtcState) (g : AtcMachineState) → SameSession g (drop_stale next g)
unfolding drop_stale rb_clear
drop_stale-session next g = ground arith

default_runway_ne : empty "28" ≡ false
unfolding string_eq
default_runway_ne = refl

clearance_runway_ne :
    (msg : PilotMessage) (ctx : XPlaneContext) → empty (clearance_runway msg ctx) ≡ false
clearance_runway_ne msg ctx = ground (arith, default_runway_ne)

lock_runway-session :
    (msg : PilotMessage) (ctx : XPlaneContext) (next : AtcState) (g : AtcMachineState)
    → ((lock_runway msg ctx next g).state ≡ g.state)
      × ((lock_runway msg ctx next g).session_callsign ≡ g.session_callsign)
      × ((lock_runway msg ctx next g).reference_callsign ≡ g.reference_callsign)
      × (next ≢ AtcState.idle
          → (lock_runway msg ctx next g).assigned_runway ≡ held_runway msg ctx g)
unfolding lock_runway
lock_runway-session msg ctx next g = ground (arith, clearance_runway_ne msg ctx)

lock_callsign-session :
    (msg : PilotMessage) (next : AtcState) (g : AtcMachineState)
    → ((lock_callsign msg next g).state ≡ g.state)
      × ((lock_callsign msg next g).assigned_runway ≡ g.assigned_runway)
      × (next ≢ AtcState.idle → (lock_callsign msg next g).session_callsign ≡ held_callsign msg g)
unfolding lock_callsign
lock_callsign-session msg next g = ground arith

track_departure-session :
    (msg : PilotMessage) (prev next : AtcState) (g : AtcMachineState)
    → SameSession g (track_departure msg prev next g)
unfolding track_departure
track_departure-session msg prev next g = ground arith

moves-false :
    (resp : AtcResponse) (g : AtcMachineState) → moves resp g ≡ false → resp.next_state ≡ g.state
unfolding moves
moves-false resp g = ground arith

advance-session :
    (msg : PilotMessage) (resp : AtcResponse) (g : AtcMachineState)
    → ((advance msg resp g).state ≡ resp.next_state)
      × ((advance msg resp g).assigned_runway ≡ g.assigned_runway)
      × ((advance msg resp g).session_callsign ≡ g.session_callsign)
unfolding advance
advance-session msg resp g = ground (
  arith,
  moves-false resp g,
  track_departure-session msg g.state resp.next_state
      (transition_to resp.next_state ("process:" +s intent_template_key msg.intent) g),
  transition_to-state resp.next_state ("process:" +s intent_template_key msg.intent) g,
)

end_session-session :
    (next : AtcState) (g : AtcMachineState)
    → ((end_session next g).state ≡ g.state)
      × (next ≡ AtcState.idle
          → ((end_session next g).assigned_runway ≡ "")
            × ((end_session next g).session_callsign ≡ ""))
      × (next ≢ AtcState.idle → end_session next g ≡ g)
unfolding end_session release_runway release_callsign
end_session-session next g = ground arith

advance_to-session :
    (target : Option AtcState) (resp : AtcResponse) (g : AtcMachineState)
    → g.state ≡ resp.next_state
    → ((advance_to target resp g).0.state ≡ (advance_to target resp g).1.next_state)
      × ((advance_to target resp g).0.assigned_runway ≡ g.assigned_runway)
      × ((advance_to target resp g).0.session_callsign ≡ g.session_callsign)
unfolding advance_to
advance_to-session none resp g e = (e, refl, refl)
advance_to-session (some s) resp g e =
    ground (arith, transition_to-state s "tower_only_auto_advance" g)

keep_response-session :
    (resp : AtcResponse) (g : AtcMachineState)
    → ((keep_response resp g).state ≡ g.state)
      × ((keep_response resp g).assigned_runway ≡ g.assigned_runway)
      × ((keep_response resp g).session_callsign ≡ g.session_callsign)
unfolding keep_response
keep_response-session resp g = ground arith

module _ (rules : FlightRules) (msg : PilotMessage) (ctx : XPlaneContext) (resp : AtcResponse)
    (g : AtcMachineState) where
  -- Once the read-back is settled the machine is in the state that the answer names; an answer that
  -- leads to IDLE releases runway and callsign, and any other one locks the runway of the clearance
  -- and the first callsign heard, as the lock admits it, unless one is held already.
  pub settle_session :
      let (h, answer) = settle rules msg ctx resp g in
      (h.state ≡ answer.next_state)
      × (h.assigned_runway
          ≡ (if resp.next_state == AtcState.idle then "" else held_runway msg ctx g))
      × (h.session_callsign
          ≡ (if resp.next_state == AtcState.idle then "" else held_callsign msg g))
  unfolding settle tower_only_advance
  settle_session =
      let next = resp.next_state in
      let g1 = drop_stale next g in
      let g2 = lock_runway msg ctx next g1 in
      let g3 = lock_callsign msg next g2 in
      let g4 = advance msg resp g3 in
      let g5 = end_session next g4 in
      let key = state_name g5.state g5.departure_type in
      let target =
        if ctx.tower_only
        then tower_only_target (find_key key rules.tower_only_auto_advance)
        else none in
      let d = drop_stale-session next g in
      let r = lock_runway-session msg ctx next g1 in
      let c = lock_callsign-session msg next g2 in
      let a = advance-session msg resp g3 in
      let e = end_session-session next g4 in
      let t = advance_to-session target resp g5 (e.0 ∙ a.0) in
      let k = keep_response-session (advance_to target resp g5).1 (advance_to target resp g5).0 in
      elim (AtcState-discrete next AtcState.idle) [
        | yes idle ↦ ground (arith, d, r, c, a, e, t, k)
        | no busy ↦ ground (arith, d, r, c, a, e, t, k)
      ]
