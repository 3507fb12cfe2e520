-- ===== src/World.antt =====
-- All that the dialogue keeps between two calls: the machine state, the two statics of the read-back
-- hook, the airport that src/atc/flows/crosscountry_flow.cpp tracks, and the traffic dialogue of
-- src/atc/traffic_dialog.cpp; with the calls that touch more than the machine state.
use xp_welly_llm_atc.Base.{
  ℕ, ℤ, pos, String, Bool, true, false, not, ◌||◌, [], ◌==◌, string_eq, int_eq, empty, leb_ℤ,
  if◌then◌else◌,
}
use xp_welly_llm_atc.State.{AtcState, DepartureType, atc_state_eq}
use xp_welly_llm_atc.Machine.{
  AtcMachineState, bump_gen, transition_to, set_last_now_secs, set_readback_pending,
  clear_assigned_runway, set_departure_type,
}
use xp_welly_llm_atc.Context.{XPlaneContext, Geometry}
use xp_welly_llm_atc.Phase.{FlightPhase, is_airborne}

pub data DialogState : Type 0 where
  idle awaiting_ack : DialogState

pub record Dialog : Type 0 where
  pub state : DialogState
  pub pending_target_id : ℕ

-- `traffic_dialog::init`, which `stop` and `reset` call.
abbrev pub dialog_init : Dialog
dialog_init = record { state = DialogState.idle; pending_target_id = 0 }

pub record World : Type 0 where
  pub g : AtcMachineState
  pub rb_last_cl : String
  pub rb_fails : ℕ
  pub last_airport_id : String
  pub dialog : Dialog

-- The settings that the state machine reads.
pub record Settings : Type 0 where
  pub start_mode : String
  pub pilot_callsign : String
  pub auto_correction_factor : ℤ

unfoldable pub init : Settings → World → World
unfolding bump_gen
init settings w = record w {
  g = record (bump_gen w.g) {
    state =
        if settings.start_mode == "ready_for_takeoff"
        then AtcState.tower_contact
        else AtcState.idle;
    readback_pending = false;
    was_airborne = false;
    assigned_runway = "";
    session_callsign = "";
    departure_type = DepartureType.pattern;
    history = [];
    last_now_secs = pos 0;
    last_clearance_text = "";
    pending_clearances = [];
    readback_ok_fields = [];
    readback_pending_since_secs = pos 0;
    readback_last_reminder_secs = pos 0;
    readback_reminder_count = 0;
  };
}

unfoldable pub stop : World → World
unfolding bump_gen
stop w = record w {
  g = record (bump_gen w.g) {
    state = AtcState.idle;
    readback_pending = false;
    was_airborne = false;
    assigned_runway = "";
    session_callsign = "";
    departure_type = DepartureType.pattern;
    ifr_squawk = "";
    history = [];
    last_now_secs = pos 0;
    last_clearance_text = "";
    pending_clearances = [];
    readback_ok_fields = [];
    last_tower_response_text = "";
    readback_pending_since_secs = pos 0;
    readback_last_reminder_secs = pos 0;
    readback_reminder_count = 0;
  };
}

-- `reset` clears the fields that `stop` clears, and the airport tracker.
unfoldable pub reset : World → World
unfolding bump_gen
reset w = record w {
  g = record (bump_gen w.g) {
    state = AtcState.idle;
    readback_pending = false;
    was_airborne = false;
    assigned_runway = "";
    session_callsign = "";
    departure_type = DepartureType.pattern;
    ifr_squawk = "";
    history = [];
    last_now_secs = pos 0;
    last_clearance_text = "";
    pending_clearances = [];
    readback_ok_fields = [];
    last_tower_response_text = "";
    readback_pending_since_secs = pos 0;
    readback_last_reminder_secs = pos 0;
    readback_reminder_count = 0;
  };
  last_airport_id = "";
}

-- 5.0 NM.
abbrev disregard_pattern_radius_nm : ℤ
disregard_pattern_radius_nm = pos 5000

unfoldable pub disregard_on_ground : AtcMachineState → AtcMachineState
disregard_on_ground g = record (transition_to AtcState.idle "disregard_on_ground" g) {
  assigned_runway = "";
  session_callsign = "";
  departure_type = DepartureType.pattern;
}

unfoldable pub disregard_airborne : Bool → AtcMachineState → AtcMachineState
disregard_airborne true g = transition_to AtcState.pattern_entry "disregard_airborne_near_airport" g
disregard_airborne false g = transition_to AtcState.en_route "disregard_airborne_transit" g

module _ (geo : Geometry) where
  unfoldable pub near_airport : XPlaneContext → Bool
  near_airport ctx =
      let d_nm = geo.distance_nm ctx.latitude ctx.longitude ctx.airport_lat ctx.airport_lon in
      if not (ctx.airport_lat == pos 0) || not (ctx.airport_lon == pos 0)
      then leb_ℤ d_nm disregard_pattern_radius_nm
      else true

  unfoldable pub disregard : XPlaneContext → FlightPhase → ℤ → World → World
  unfolding bump_gen
  disregard ctx phase now_secs w =
      let cleared = record (bump_gen w.g) {
        last_now_secs = now_secs;
        readback_pending = false;
        last_clearance_text = "";
        pending_clearances = [];
        readback_ok_fields = [];
        last_tower_response_text = "";
      } in
      record w {
        g =
            if not (is_airborne phase)
            then disregard_on_ground cleared
            else disregard_airborne (near_airport ctx) cleared;
        dialog = dialog_init;
      }

-- `crosscountry_flow::check_airport_change`: the airport under the aircraft has changed en route.
unfoldable pub leave_airport : AtcMachineState → AtcMachineState
leave_airport g = set_departure_type DepartureType.pattern (
    clear_assigned_runway
      (set_readback_pending false (transition_to AtcState.idle "airport_change_en_route" g)))

unfoldable pub check_airport_change : XPlaneContext → ℤ → World → World
check_airport_change ctx now_secs w0 =
    let w = record w0 { g = set_last_now_secs now_secs w0.g } in
    let id = ctx.nearest_airport_id in
    if empty id
    then w
    else if not (w.g.state == AtcState.en_route) || empty w.last_airport_id
    then record w { last_airport_id = id }
    else if id == w.last_airport_id
    then w
    else record w { g = leave_airport w.g; last_airport_id = id }
