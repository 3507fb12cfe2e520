-- ===== src/Examples.antt =====
-- Concrete worlds, flights and settings that the examples of the theorems run on.
pub mod Dialogue
pub mod Flight
pub mod Air
pub mod Ground
pub mod Rejected
pub mod Readback
pub mod Route
use xp_welly_llm_atc.Base.{
  ℕ, ℤ, pos, String, Bool, true, false, List, [], ◌∷◌, ◌==◌, ◌||◌, string_eq, empty, contains,
  remove_if, if◌then◌else◌,
}
use xp_welly_llm_atc.State.{AtcState, AtcResponse, DepartureType, StateHistoryEntry}
use xp_welly_llm_atc.Intent.{PilotIntent, PilotMessage}
use xp_welly_llm_atc.Context.{XPlaneContext, FrequencyType, Geometry, Formats}
use xp_welly_llm_atc.Machine.{AtcMachineState}
use xp_welly_llm_atc.Readback.{Verifier, Mismatch}
use xp_welly_llm_atc.World.{World, Settings, dialog_init}
use xp_welly_llm_atc.Correction.{FlightRules, AutoCorrection}
use xp_welly_llm_atc.Phase.{FlightPhase}

abbrev pub parked : AtcMachineState
parked = record {
  gen = 7;
  state = AtcState.idle;
  readback_pending = false;
  readback_pending_since_secs = pos 0;
  readback_last_reminder_secs = pos 0;
  readback_reminder_count = 0;
  was_airborne = false;
  assigned_runway = "";
  session_callsign = "";
  reference_callsign = "Skylane one two three";
  last_clearance_text = "";
  pending_clearances = [];
  readback_ok_fields = [];
  last_tower_response_text = "";
  departure_type = DepartureType.pattern;
  ifr_squawk = "";
  history = [];
  last_now_secs = pos 0;
  active_correction_key = "";
  correction_timer = pos 0;
}

-- A squawk, a level and a heading are to be read back since second 10.
abbrev pub cleared : AtcMachineState
cleared = record parked {
  state = AtcState.ground_contact;
  readback_pending = true;
  readback_pending_since_secs = pos 10000;
  readback_last_reminder_secs = pos 10000;
  last_clearance_text = "squawk  level  heading";
  pending_clearances = "squawk" ∷ "level" ∷ "heading" ∷ [];
}

abbrev pub world_of : AtcMachineState → World
world_of g = record {
  g = g;
  rb_last_cl = "";
  rb_fails = 0;
  last_airport_id = "";
  dialog = dialog_init;
}

abbrev pub missing : String → Mismatch
missing field = record { field = field; expected = field; stated = ""; correction = field }

-- A verifier over the fields `squawk`, `level` and `heading`: a text states a field that it is.
abbrev pub fields_of : String → List String
fields_of text =
    if text == "squawk  level  heading"
    then "squawk" ∷ "level" ∷ "heading" ∷ []
    else if text == "level  heading"
    then "level" ∷ "heading" ∷ []
    else if text == "squawk" || text == "level" || text == "heading"
    then text ∷ []
    else []

abbrev mismatches : List String → String → List Mismatch
mismatches [] said = []
mismatches (f ∷ fs) said =
    let rest = mismatches fs said in if f == said then rest else missing f ∷ rest

abbrev pub verifier : Verifier
verifier = record {
  check = λ clearance said. mismatches (fields_of clearance) said;
  matched_fields =
      λ clearance said. remove_if (λ f. if f == said then false else true) (fields_of clearance);
  fields_present = fields_of;
}

abbrev pub settings : Settings
settings = record { start_mode = ""; pilot_callsign = ""; auto_correction_factor = pos 1000 }

abbrev pub correction : AutoCorrection
correction = record { phases = FlightPhase.cruise ∷ []; next_state = "IDLE"; delay_sec = pos 3000 }

abbrev pub rules : FlightRules
rules = record {
  auto_corrections = ("GROUND_CONTACT", ("in_cruise", correction) ∷ []) ∷ [];
  tower_only_auto_advance = [];
}

-- A flat earth: the distance of two places is the difference of their latitudes.
abbrev pub geometry : Geometry
geometry = record {
  distance_nm = λ lat1 lon1 lat2 lon2. lat2;
  bearing_deg = λ lat1 lon1 lat2 lon2. pos 0;
  project = λ d a. (d, pos 0);
  path_intersects_cone = λ a b c d e f g h i j. true;
}

abbrev pub formats : Formats
formats = record { fixed0 = λ x. "n"; decimal = λ n. "n" }

abbrev pub ctx : XPlaneContext
ctx = record {
  latitude = pos 0;
  longitude = pos 0;
  groundspeed_kts = pos 0;
  vertical_speed_fpm = pos 0;
  heading_true = pos 0;
  height_agl_ft = pos 0;
  on_ground = true;
  nearest_airport_id = "LSZH";
  is_towered_airport = true;
  frequency_type = FrequencyType.ground;
  tower_only = false;
  airport_lat = pos 1;
  airport_lon = pos 1;
  runways = [];
  active_runway = "28";
}

abbrev pub request : PilotMessage
request = record {
  raw_transcript = "request taxi";
  intent = PilotIntent.request_taxi;
  confidence = pos 900;
  callsign = "Skylane nine two three";
  runway = "";
  vrp_name = "";
  has_position = false;
}

abbrev pub taxi_answer : AtcResponse
taxi_answer = record { text = "taxi"; next_state = AtcState.taxi_cleared; requires_readback = true }
