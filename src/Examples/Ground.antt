-- ===== src/Examples/Ground.antt =====
-- The theorems on a call of the pilot at concrete sessions.
use xp_welly_llm_atc.Base.{
  ℕ, ◌≤◌, pos, String, Bool, true, false, List, [], ◌∷◌, Option, none, ◌==◌, ◌≡◌, ◌⊎◌, refl,
  string_eq, arith, if◌then◌else◌, contains, empty, nat_eq, IsBest,
}
use xp_welly_llm_atc.State.{AtcState}
use xp_welly_llm_atc.Intent.{PilotIntent, PilotMessage, pilot_intent_eq}
use xp_welly_llm_atc.Context.{FrequencyType}
use xp_welly_llm_atc.Machine.{AtcMachineState}
use xp_welly_llm_atc.Invariant.{IsSound}
use xp_welly_llm_atc.Readback.{join_from}
use xp_welly_llm_atc.Phase.{FlightPhase}
use xp_welly_llm_atc.Airport.{AirportFrequency, close, outranks, type_of, lookup}
use xp_welly_llm_atc.Airport.Lookup.{lookup-IsBest}
use xp_welly_llm_atc.Airport.Stand.{ParkingStand, EngineKind, pick_ga_stand, name_of}
use xp_welly_llm_atc.Airport.Choice.{IsPick, pass, pick_ga_stand-IsPick}
use xp_welly_llm_atc.Ground.{GroundContext, Session, Services, GroundRules}
use xp_welly_llm_atc.Ground.Squawk.{reserved, IsOctal, generate_squawk, generate_squawk-range}
use xp_welly_llm_atc.Ground.Vars.{squawk_check}
use xp_welly_llm_atc.Ground.Reply.{machine, answer, same_state}
use xp_welly_llm_atc.Ground.Guards.{
  taxi_in, check_squawk_at_holding_point, set_check, check_no_flight_plan, check_atis_confirmation,
  check_sid_visibility,
}
use xp_welly_llm_atc.Process.{gate_ifr, handle, process}
use xp_welly_llm_atc.Process.Keeps.{SentToStand}
use xp_welly_llm_atc.Process.Sound.{process-IsSound, taxi_in-unsound, WentToStand}
use xp_welly_llm_atc.Process.Frame.{SameDialog, handle-SameDialog}
use xp_welly_llm_atc.Process.Code.{process-ifr_squawk}
use xp_welly_llm_atc.Process.Refusals.{RefusedWithCode, refusals-assign_code, squawk_check-mode_a}
use xp_welly_llm_atc.Examples.{parked, world_of, verifier, settings, rules, geometry, ctx, request}

abbrev stand : String → ℕ → ParkingStand
stand name size = record {
  name = name;
  lat = pos 1;
  lon = pos 1;
  size_code = size;
  general_aviation = true;
  op_airline = false;
  jets = false;
  turboprops = true;
  props = true;
}

abbrev channel : ℕ → FrequencyType → AirportFrequency
channel khz type = record { freq_khz = khz; type = type; name = "" }

abbrev channels : List AirportFrequency
channels =
    channel 126300 FrequencyType.unicom
    ∷ channel 126300 FrequencyType.tower
    ∷ channel 121900 FrequencyType.ground
    ∷ []

abbrev pub field : GroundContext
field = record {
  base = ctx;
  airport_freqs = channels;
  nearest_airport_name = "Zurich";
  altitude_ft_msl = pos 1400000;
  pressure_alt_ft = pos 1400000;
  active_com = 1;
  com1_freq_mhz = 121900;
  com2_freq_mhz = 0;
  aircraft_icao = "C172";
  aircraft_engine_kind = EngineKind.prop;
  aircraft_wingspan_m = pos 11000;
  ifr_destination = "";
  ifr_sid = "";
  ifr_fpl_first_fix = "";
  ifr_cifp_sid = "";
  ifr_sid_min_alt_ft = 0;
  ifr_sid_last_fix = "";
  ifr_cruise_alt_ft = 0;
  qnh_inhg = pos 29920;
  qnh_hpa = 1013;
  wind_direction_deg = pos 280000;
  wind_speed_kt = pos 5000;
  visibility_m = pos 9999000;
  runway_holding_points = [];
  transition_alt_ft = 5000;
  transponder_code = 2341;
  transponder_mode = 2;
  enclosing_airspaces = [];
  airport_parking = stand "North" b'A' ∷ stand "South" b'B' ∷ [];
}

abbrev pub ground_rules : GroundRules
ground_rules = record {
  flight = rules;
  preconditions =
      (
        "REQUEST_LANDING",
        record {
          allowed_phases = FlightPhase.final_approach ∷ [];
          rejection_parked = "{callsign}, you are parked.";
          rejection_airborne = "";
          rejection_ground = "";
        },
      )
      ∷ [];
  intent_frequency = [];
  state_reverts = [];
  idle_redirects = [];
  frequency_hint = none;
  state_frequency_validity = λ ft. none;
  frequency_auto_corrections = [];
  ifr_defaults = record {
    initial_altitude_ft = 5000;
    squawk_range_min = 1001;
    squawk_range_max = 6776;
    tower_report_alt_ft = 0;
  };
}

-- Texts of numbers are kept short.
abbrev pub services : Services
services = record {
  rules = ground_rules;
  templates = record { loaded = true; sections = []; fallbacks = [] };
  settings = settings;
  atc_profile = "EU";
  pattern_direction_setting = "left";
  phase = FlightPhase.parked;
  has_landed = true;
  atis_letter = 0;
  traffic = [];
  geometry = geometry;
  origin_icao = "";
  controller = λ id kind. none;
  sid_initial_climb_ft = λ id sid jet. 0;
  initial_altitude = λ id rwy. record { feet = 0; is_fl = false };
  get_pattern_direction = λ id rwy. "";
  nearest_taxiway_phrase = λ id lat lon. "to the apron";
  runway_to_cross = λ rwy. "";
  current_cleared_alt_ft = 0;
  cos = λ a. pos 1000;
  rand = λ n. n;
  decimal = λ n. if n == 2341 then "2341" else "n";
  padded = λ w n. "2341";
  rounded = λ x. "x";
  fixed2 = λ x. "x";
  fixed3 = λ x. "x";
  padded0 = λ w x. "x";
}

abbrev pub session_of : AtcMachineState → Session
session_of g = record {
  world = world_of g;
  engine = record {
    pending_handoff_freq = 0;
    pending_departure_label = "";
    pending_controller_label = "";
    current_controller_label = "";
    taxi_hold_short_runway = "";
  };
  squawk_check_pending = false;
  rolls = 0;
}

abbrev pub says : PilotIntent → PilotMessage
says intent = record request { intent = intent }

parked-IsSound : IsSound parked
unfolding join_from
parked-IsSound = record {
  flag = refl;
  cache = refl;
  log = omega arith;
  gen_fits = omega arith;
  reminders = omega arith;
}

process-IsSound_example :
    let result = process verifier services request field (pos 5000) (session_of parked) in
    IsSound (machine result.0) ⊎ WentToStand verifier services field (gate_ifr "EU" request) result
process-IsSound_example =
    process-IsSound verifier services field request (pos 5000) (session_of parked) parked-IsSound

taxi_in-unsound_example :
    ¬ IsSound
      (machine (taxi_in services (says PilotIntent.runway_vacated) field (session_of parked)).0)
taxi_in-unsound_example =
    taxi_in-unsound verifier services field (says PilotIntent.runway_vacated) (session_of parked)
      refl

process-ifr_squawk_example :
    (machine (process verifier services request field (pos 5000) (session_of parked)).0).ifr_squawk
    ≡ ""
process-ifr_squawk_example =
    process-ifr_squawk verifier services field request (pos 5000) (session_of parked) (ground arith)

handle-SameDialog_example :
    SameDialog request parked (machine (handle services request field (session_of parked)).0)
    ⊎ SentToStand services request field
        (SameDialog request parked)
        (handle services request field (session_of parked))
handle-SameDialog_example = handle-SameDialog services request field (session_of parked)

abbrev clearance : PilotMessage
clearance = says PilotIntent.request_ifr_clearance

refusals-assign_code_example :
    let s = session_of parked in
    ((check_no_flight_plan services clearance field s ≡ (s, none))
      ⊎ RefusedWithCode services clearance field s
          (check_no_flight_plan services clearance field s))
    × ((check_atis_confirmation services clearance field s ≡ (s, none))
        ⊎ RefusedWithCode services clearance field s
            (check_atis_confirmation services clearance field s))
    × ((check_sid_visibility services clearance field s ≡ (s, none))
        ⊎ RefusedWithCode services clearance field s
            (check_sid_visibility services clearance field s))
    × (empty "" ≡ true
        → RefusedWithCode services clearance field s
            (check_no_flight_plan services clearance field s))
refusals-assign_code_example =
    refusals-assign_code services clearance field (session_of parked) (ground arith)

abbrev holding : AtcMachineState
holding = record parked { state = AtcState.tower_contact; ifr_squawk = "2341" }

abbrev holds_short : PilotMessage
holds_short = says PilotIntent.report_holding_short

code_ne : empty "2341" ≡ false
unfolding string_eq
code_ne = refl

squawk_check-mode_a_example :
    (squawk_check services field holding ≡ "")
    × (check_squawk_at_holding_point services holds_short field (session_of holding)
        ≡ answer services holds_short field "{callsign}, squawk {squawk} mode Charlie, confirm."
            (same_state services)
            (set_check services true (session_of holding)))
squawk_check-mode_a_example =
    squawk_check-mode_a services holds_short field (session_of holding) refl (ground arith) code_ne
      refl refl

generate_squawk-range_example :
    IsOctal (generate_squawk (λ n. n) 1001 6776 0).0
    × (((generate_squawk (λ n. n) 1001 6776 0).0 ≡ 2341)
        ⊎ ((1001 ≤ (generate_squawk (λ n. n) 1001 6776 0).0)
            × ((generate_squawk (λ n. n) 1001 6776 0).0 ≤ 6776)
            × (contains reserved (generate_squawk (λ n. n) 1001 6776 0).0 ≡ false)))
    × ((generate_squawk (λ n. n) 1001 6776 0).1 ≤ 200)
generate_squawk-range_example = generate_squawk-range (λ n. n) 1001 6776 0

lookup-IsBest_example :
    (o : Option AirportFrequency) × (lookup channels 126305 ≡ type_of o)
    × IsBest (close 126305) outranks channels o
lookup-IsBest_example = lookup-IsBest channels 126305

pick_ga_stand-IsPick_example :
    let stands = field.airport_parking in
    let r = pick_ga_stand (λ a. pos 1000) (pos 0) (pos 0) stands b'A' EngineKind.prop in
    let picks = λ (ga : Bool).
      IsPick
        (λ a. pos 1000)
        (pos 0)
        (pos 0)
        stands
        b'A'
        EngineKind.prop
        (pass (λ a. pos 1000) (pos 0) (pos 0) stands b'A' EngineKind.prop ga) in
    (first : Option ParkingStand) × picks true first
    × (((empty (name_of first) ≡ false) × (r ≡ name_of first))
        ⊎ ((empty (name_of first) ≡ true)
            × ((second : Option ParkingStand) × picks false second × (r ≡ name_of second))))
pick_ga_stand-IsPick_example =
    pick_ga_stand-IsPick (λ a. pos 1000) (pos 0) (pos 0) field.airport_parking b'A' EngineKind.prop
