-- ===== src/Reachable/Cuts.antt =====
-- The calls that merge nothing leave the queue of clearances as it was, or empty it.
use xp_welly_llm_atc.Base.{
  ℤ, nat_eq, bool_eq, String, Bool, List, [], Option, none, some, ◌≡◌, refl, ◌∙◌, ◌⊎◌, inl, inr,
  arith, Bool-cases, ◌+s◌, find_key,
}
use xp_welly_llm_atc.State.{AtcState, AtcResponse}
use xp_welly_llm_atc.State.Names.{state_name}
use xp_welly_llm_atc.Intent.{PilotMessage, pilot_intent_eq}
use xp_welly_llm_atc.Intent.Names.{intent_template_key}
use xp_welly_llm_atc.Context.{XPlaneContext, Geometry}
use xp_welly_llm_atc.Phase.{FlightPhase, is_airborne}
use xp_welly_llm_atc.Machine.{
  AtcMachineState, transition_to, set_was_airborne, set_last_tower_response, set_state,
  release_runway, release_callsign, set_readback_pending, clear_assigned_runway, set_departure_type,
  set_last_now_secs,
}
use xp_welly_llm_atc.Readback.{rb_clear, cancel_readback}
use xp_welly_llm_atc.World.{
  World, Settings, disregard, disregard_on_ground, disregard_airborne, near_airport,
  check_airport_change, leave_airport,
}
use xp_welly_llm_atc.Reminder.{consume_readback_reminder, readback_timeout, readback_tick}
use xp_welly_llm_atc.Correction.{
  AutoCorrection, FlightRules, correct, run_timer, count_down, apply_match, apply_rules,
  first_match, check_auto_correction,
}
use xp_welly_llm_atc.Hooks.{
  drop_stale, lock_runway, lock_callsign, track_departure, advance, end_session, advance_to,
  tower_only_advance, keep_response, settle,
}

-- The queue is as before, or empty.
abbrev pub Cut : AtcMachineState → AtcMachineState → Type 0
Cut g h = (h.pending_clearances ≡ g.pending_clearances) ⊎ (h.pending_clearances ≡ [])

transition_to-Cut :
    (s : AtcState) (reason : String) (g : AtcMachineState)
    → (transition_to s reason g).pending_clearances ≡ g.pending_clearances
unfolding transition_to
transition_to-Cut s reason g = ground arith

pub set_state-Cut :
    (s : AtcState) (g : AtcMachineState) → (set_state s g).pending_clearances ≡ g.pending_clearances
unfolding set_state release_runway release_callsign
set_state-Cut s g = ground (arith, transition_to-Cut s "external_set_state" g)

pub set_was_airborne-Cut :
    (b : Bool) (g : AtcMachineState)
    → (set_was_airborne b g).pending_clearances ≡ g.pending_clearances
unfolding set_was_airborne
set_was_airborne-Cut b g = ground arith

pub set_last_tower_response-Cut :
    (text : String) (g : AtcMachineState)
    → (set_last_tower_response text g).pending_clearances ≡ g.pending_clearances
unfolding set_last_tower_response
set_last_tower_response-Cut text g = ground arith

pub rb_clear-Cut : (g : AtcMachineState) → (rb_clear g).pending_clearances ≡ []
unfolding rb_clear
rb_clear-Cut g = refl

pub cancel_readback-Cut : (g : AtcMachineState) → Cut g (cancel_readback g)
unfolding cancel_readback
cancel_readback-Cut g = ground (arith, rb_clear-Cut g)

pub disregard-Cut :
    (geo : Geometry) (ctx : XPlaneContext) (phase : FlightPhase) (now : ℤ) (w : World)
    → (disregard geo ctx phase now w).g.pending_clearances ≡ []
unfolding disregard disregard_on_ground disregard_airborne transition_to
disregard-Cut geo ctx phase now w = elim (Bool-cases (is_airborne phase)) [
  | inr ground_phase ↦ ground arith
  | inl air ↦ elim (Bool-cases (near_airport geo ctx)) [
    | inl near ↦ ground arith
    | inr far ↦ ground arith
  ]
]

leave_airport-Cut : (g : AtcMachineState) → (leave_airport g).pending_clearances ≡ []
unfolding leave_airport set_departure_type clear_assigned_runway set_readback_pending
leave_airport-Cut g = refl

pub check_airport_change-Cut :
    (ctx : XPlaneContext) (now : ℤ) (w : World) → Cut w.g (check_airport_change ctx now w).g
unfolding check_airport_change
check_airport_change-Cut ctx now w = ground (arith, leave_airport-Cut (set_last_now_secs now w.g))

pub consume_readback_reminder-Cut :
    (now : ℤ) (g : AtcMachineState) → Cut g (consume_readback_reminder now g).0
unfolding consume_readback_reminder readback_timeout readback_tick
consume_readback_reminder-Cut now g =
    ground (
      arith,
      rb_clear-Cut g,
      transition_to-Cut AtcState.idle "readback_timeout_cancel" (rb_clear g),
    )

apply_match-Cut :
    (settings : Settings) (dt : ℤ) (o : Option (String × AutoCorrection)) (g : AtcMachineState)
    → Cut g (apply_match settings dt o g)
unfolding apply_match count_down correct run_timer
apply_match-Cut settings dt none g = inl refl
apply_match-Cut settings dt (some (name, ac)) g = ground arith

apply_rules-Cut :
    (settings : Settings) (phase : FlightPhase) (dt : ℤ)
    (o : Option (List (String × AutoCorrection))) (g : AtcMachineState)
    → Cut g (apply_rules settings phase dt o g)
unfolding apply_rules
apply_rules-Cut settings phase dt none g = inl refl
apply_rules-Cut settings phase dt (some cs) g = apply_match-Cut settings dt (first_match phase cs) g

pub check_auto_correction-Cut :
    (settings : Settings) (rules : FlightRules) (phase : FlightPhase) (dt now : ℤ)
    (g : AtcMachineState)
    → Cut g (check_auto_correction settings rules phase dt now g)
unfolding check_auto_correction
check_auto_correction-Cut settings rules phase dt now g = ground (
  arith,
  apply_rules-Cut settings phase dt
      (find_key (state_name g.state g.departure_type) rules.auto_corrections)
      (set_last_now_secs now g),
)

drop_stale-Cut : (next : AtcState) (g : AtcMachineState) → Cut g (drop_stale next g)
unfolding drop_stale
drop_stale-Cut next g = ground (arith, rb_clear-Cut g)

lock_runway-Cut :
    (msg : PilotMessage) (ctx : XPlaneContext) (next : AtcState) (g : AtcMachineState)
    → (lock_runway msg ctx next g).pending_clearances ≡ g.pending_clearances
unfolding lock_runway
lock_runway-Cut msg ctx next g = ground arith

lock_callsign-Cut :
    (msg : PilotMessage) (next : AtcState) (g : AtcMachineState)
    → (lock_callsign msg next g).pending_clearances ≡ g.pending_clearances
unfolding lock_callsign
lock_callsign-Cut msg next g = ground arith

advance-Cut :
    (msg : PilotMessage) (resp : AtcResponse) (g : AtcMachineState)
    → (advance msg resp g).pending_clearances ≡ g.pending_clearances
unfolding advance track_departure
advance-Cut msg resp g =
    ground
      (arith, transition_to-Cut resp.next_state ("process:" +s intent_template_key msg.intent) g)

end_session-Cut :
    (next : AtcState) (g : AtcMachineState)
    → (end_session next g).pending_clearances ≡ g.pending_clearances
unfolding end_session release_runway release_callsign
end_session-Cut next g = ground arith

advance_to-Cut :
    (target : Option AtcState) (resp : AtcResponse) (g : AtcMachineState)
    → (advance_to target resp g).0.pending_clearances ≡ g.pending_clearances
unfolding advance_to
advance_to-Cut none resp g = refl
advance_to-Cut (some s) resp g = transition_to-Cut s "tower_only_auto_advance" g

tower_only_advance-Cut :
    (rules : FlightRules) (ctx : XPlaneContext) (resp : AtcResponse) (g : AtcMachineState)
    → (tower_only_advance rules ctx resp g).0.pending_clearances ≡ g.pending_clearances
unfolding tower_only_advance
tower_only_advance-Cut rules ctx resp g = advance_to-Cut _ resp g

keep_response-Cut :
    (resp : AtcResponse) (g : AtcMachineState)
    → (keep_response resp g).pending_clearances ≡ g.pending_clearances
unfolding keep_response
keep_response-Cut resp g = ground arith

pub settle-Cut :
    (rules : FlightRules) (msg : PilotMessage) (ctx : XPlaneContext) (resp : AtcResponse)
    (g : AtcMachineState)
    → Cut g (settle rules msg ctx resp g).0
unfolding settle
settle-Cut rules msg ctx resp g =
    let next = resp.next_state in
    let g1 = drop_stale next g in
    let g2 = lock_runway msg ctx next g1 in
    let g3 = lock_callsign msg next g2 in
    let g4 = advance msg resp g3 in
    let g5 = end_session next g4 in
    let (g6, resp') = tower_only_advance rules ctx resp g5 in
    let same : (keep_response resp' g6).pending_clearances ≡ g1.pending_clearances =
      keep_response-Cut resp' g6
      ∙ tower_only_advance-Cut rules ctx resp g5
      ∙ end_session-Cut next g4
      ∙ advance-Cut msg resp g3
      ∙ lock_callsign-Cut msg next g2
      ∙ lock_runway-Cut msg ctx next g1 in
    elim (drop_stale-Cut next g) [ inl kept ↦ inl (same ∙ kept) | inr gone ↦ inr (same ∙ gone) ]
