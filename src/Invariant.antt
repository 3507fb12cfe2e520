-- ===== src/Invariant.antt =====
-- The invariant of the machine state, and that the steps of the state machine keep it.
pub mod Calls
pub mod HookSteps
use xp_welly_llm_atc.Base.{
  ℕ, ◌≤◌, ◌<◌, ◌≡◌, String, Bool, true, false, not, List, [], ◌∷◌, ◌++◌, is_empty, length, arith,
}
use xp_welly_llm_atc.State.{AtcState, AtcState-discrete, DepartureType}
use xp_welly_llm_atc.Machine.{
  AtcMachineState, gen_mod, history_cap, log_entry, trim_history, bump_gen, transition_to,
  set_readback_pending, set_was_airborne, set_assigned_runway, clear_assigned_runway,
  set_session_callsign, clear_session_callsign, set_departure_type, set_ifr_squawk,
  clear_ifr_squawk, set_last_tower_response, release_runway, release_callsign, set_state,
}
use xp_welly_llm_atc.Machine.Transition.{trim_history-length}
use xp_welly_llm_atc.Readback.{
  Verifier, join_from, rb_clear, rb_merge, rb_remove_matched, cancel_readback,
}

pub record IsSound (g : AtcMachineState) : Type 0 where
  pub flag : g.readback_pending ≡ not (is_empty g.pending_clearances)
  pub cache : g.last_clearance_text ≡ join_from "" g.pending_clearances
  pub log : length g.history ≤ history_cap
  pub gen_fits : g.gen < gen_mod
  pub reminders : g.readback_reminder_count ≤ 3

pub transition_to-IsSound :
    (s : AtcState) (reason : String) {g : AtcMachineState}
    → IsSound g
    → IsSound (transition_to s reason g)
unfolding transition_to
transition_to-IsSound s reason {g} v =
    ground (arith, trim_history-length (g.history ++ log_entry reason g ∷ []))

pub rb_clear-IsSound : {g : AtcMachineState} → IsSound g → IsSound (rb_clear g)
unfolding rb_clear join_from
rb_clear-IsSound v = ground arith

pub cancel_readback-IsSound : {g : AtcMachineState} → IsSound g → IsSound (cancel_readback g)
unfolding cancel_readback
cancel_readback-IsSound {g} v = ground (arith, rb_clear-IsSound {g = g} v)

pub rb_merge-IsSound :
    (v : Verifier) (text : String) {g : AtcMachineState} → IsSound g → IsSound (rb_merge v text g)
unfolding rb_merge
rb_merge-IsSound v text h = ground arith

pub rb_remove_matched-IsSound :
    (v : Verifier) {g : AtcMachineState} → IsSound g → IsSound (rb_remove_matched v g)
unfolding rb_remove_matched
rb_remove_matched-IsSound v h = ground arith

pub set_readback_pending-IsSound :
    {g : AtcMachineState} → IsSound g → IsSound (set_readback_pending false g)
unfolding set_readback_pending join_from
set_readback_pending-IsSound v = ground arith

pub set_state-IsSound : (s : AtcState) {g : AtcMachineState} → IsSound g → IsSound (set_state s g)
unfolding set_state release_runway release_callsign
set_state-IsSound s {g} v = ground (arith, transition_to-IsSound s "external_set_state" {g = g} v)

-- The plain setters of the bridge.
pub set_was_airborne-IsSound :
    (b : Bool) {g : AtcMachineState} → IsSound g → IsSound (set_was_airborne b g)
unfolding set_was_airborne
set_was_airborne-IsSound b v = ground arith

pub set_session_callsign-IsSound :
    (cs : String) {g : AtcMachineState} → IsSound g → IsSound (set_session_callsign cs g)
unfolding set_session_callsign
set_session_callsign-IsSound cs v = ground arith

pub set_assigned_runway-IsSound :
    (rwy : String) {g : AtcMachineState} → IsSound g → IsSound (set_assigned_runway rwy g)
unfolding set_assigned_runway
set_assigned_runway-IsSound rwy v = ground arith

pub set_ifr_squawk-IsSound :
    (sq : String) {g : AtcMachineState} → IsSound g → IsSound (set_ifr_squawk sq g)
unfolding set_ifr_squawk
set_ifr_squawk-IsSound sq v = ground arith

pub set_departure_type-IsSound :
    (t : DepartureType) {g : AtcMachineState} → IsSound g → IsSound (set_departure_type t g)
unfolding set_departure_type
set_departure_type-IsSound t v = ground arith

pub clear_assigned_runway-IsSound :
    {g : AtcMachineState} → IsSound g → IsSound (clear_assigned_runway g)
unfolding clear_assigned_runway
clear_assigned_runway-IsSound v = ground arith

pub set_last_tower_response-IsSound :
    (text : String) {g : AtcMachineState} → IsSound g → IsSound (set_last_tower_response text g)
unfolding set_last_tower_response
set_last_tower_response-IsSound text v = ground arith
