-- ===== src/Machine.antt =====
-- The state that src/atc/atc_state_machine.cpp owns (`AtcMachineState`, its one instance `g_state`),
-- with the bridge of src/atc/flows/state_storage.hpp: every function takes the state and returns it.
-- `assert_flight_loop_thread` and the log lines are left out.
pub mod Transition
use xp_welly_llm_atc.Base.{
  ℕ, suc, ◌+◌, ◌-◌, ◌%◌, ℤ, String, Bool, true, false, not, List, [], ◌∷◌, ◌++◌, length, ltb, ◌==◌,
  empty, bool_eq, string_eq, if◌then◌else◌,
}
use xp_welly_llm_atc.State.{AtcState, DepartureType, StateHistoryEntry, atc_state_eq}

pub record AtcMachineState : Type 0 where
  pub gen : ℕ  -- uint64_t
  pub state : AtcState
  pub readback_pending : Bool
  pub readback_pending_since_secs : ℤ
  pub readback_last_reminder_secs : ℤ
  pub readback_reminder_count : ℕ
  pub was_airborne : Bool
  pub assigned_runway : String
  pub session_callsign : String
  pub reference_callsign : String
  pub last_clearance_text : String
  pub pending_clearances : List String
  pub readback_ok_fields : List String  -- a set: a field stands in it at most once
  pub last_tower_response_text : String
  pub departure_type : DepartureType
  pub ifr_squawk : String
  pub history : List StateHistoryEntry  -- oldest first
  pub last_now_secs : ℤ
  pub active_correction_key : String
  pub correction_timer : ℤ

abbrev pub gen_mod : ℕ
gen_mod = 18446744073709551616

abbrev pub history_cap : ℕ
history_cap = 8

-- `++gen` on a `uint64_t`.
abbrev pub next_gen : ℕ → ℕ
next_gen n = (n + 1) % gen_mod

unfoldable pub bump_gen : AtcMachineState → AtcMachineState
bump_gen g = record g { gen = next_gen g.gen }

-- `while (history_.size() > kHistoryCap) history_.pop_front();`
unfoldable pub trim_history : List StateHistoryEntry → List StateHistoryEntry
trim_history [] = []
trim_history (e ∷ es) =
    let rest = trim_history es in if ltb history_cap (length (e ∷ es)) then rest else e ∷ es

abbrev pub log_entry : String → AtcMachineState → StateHistoryEntry
log_entry reason g = record { state = g.state; reason = reason; timestamp_secs = g.last_now_secs }

unfoldable pub transition_to : AtcState → String → AtcMachineState → AtcMachineState
unfolding bump_gen
transition_to next reason g = if next == g.state then g else record (bump_gen g) {
  history = trim_history (g.history ++ log_entry reason g ∷ []);
  state = next;
}

unfoldable pub set_readback_pending : Bool → AtcMachineState → AtcMachineState
unfolding bump_gen
set_readback_pending true g = record (bump_gen g) { readback_pending = true }
set_readback_pending false g = record (bump_gen g) {
  readback_pending = false;
  pending_clearances = [];
  last_clearance_text = "";
  readback_ok_fields = [];
}

unfoldable pub set_was_airborne : Bool → AtcMachineState → AtcMachineState
unfolding bump_gen
set_was_airborne v g = if g.was_airborne == v then g else record (bump_gen g) { was_airborne = v }

unfoldable pub set_assigned_runway : String → AtcMachineState → AtcMachineState
unfolding bump_gen
set_assigned_runway rwy g = record (bump_gen g) { assigned_runway = rwy }

unfoldable pub clear_assigned_runway : AtcMachineState → AtcMachineState
unfolding bump_gen
clear_assigned_runway g = record (bump_gen g) { assigned_runway = "" }

unfoldable pub set_session_callsign : String → AtcMachineState → AtcMachineState
unfolding bump_gen
set_session_callsign cs g = record (bump_gen g) {
  session_callsign = cs;
  reference_callsign = if empty cs then g.reference_callsign else cs;
}

unfoldable pub clear_session_callsign : AtcMachineState → AtcMachineState
unfolding bump_gen
clear_session_callsign g = record (bump_gen g) { session_callsign = "" }

unfoldable pub set_departure_type : DepartureType → AtcMachineState → AtcMachineState
unfolding bump_gen
set_departure_type t g = record (bump_gen g) { departure_type = t }

-- A heartbeat: no bump.
abbrev pub set_last_now_secs : ℤ → AtcMachineState → AtcMachineState
set_last_now_secs t g = record g { last_now_secs = t }

unfoldable pub set_ifr_squawk : String → AtcMachineState → AtcMachineState
unfolding bump_gen
set_ifr_squawk sq g = record (bump_gen g) { ifr_squawk = sq }

unfoldable pub clear_ifr_squawk : AtcMachineState → AtcMachineState
unfolding bump_gen
clear_ifr_squawk g = record (bump_gen g) { ifr_squawk = "" }

-- A replay memory, not guarded by the generation: no bump.
unfoldable pub set_last_tower_response : String → AtcMachineState → AtcMachineState
set_last_tower_response text g =
    if empty text then g else record g { last_tower_response_text = text }

-- The runway lock is released only when one is held.
unfoldable pub release_runway : AtcMachineState → AtcMachineState
unfolding bump_gen
release_runway g =
    if empty g.assigned_runway then g else record (bump_gen g) { assigned_runway = "" }

unfoldable pub release_callsign : AtcMachineState → AtcMachineState
unfolding bump_gen
release_callsign g =
    if empty g.session_callsign then g else record (bump_gen g) { session_callsign = "" }

-- `set_state`: reaching IDLE releases the runway and the callsign.
unfoldable pub set_state : AtcState → AtcMachineState → AtcMachineState
set_state s g =
    let t = transition_to s "external_set_state" g in
    if s == AtcState.idle then release_callsign (release_runway t) else t
