-- ===== src/Intent/Names.antt =====
-- The keys of the intents (src/atc/intent_parser.cpp).
use xp_welly_llm_atc.Base.{
  String, List, [], ◌∷◌, Option, none, some, ◌≡◌, refl, string_eq, find_key,
}
use xp_welly_llm_atc.Intent.{PilotIntent}

unfoldable pub intent_name : PilotIntent → String
intent_name PilotIntent.unknown = "UNKNOWN"
intent_name PilotIntent.radio_check = "RADIO_CHECK"
intent_name PilotIntent.initial_call = "INITIAL_CALL"
intent_name PilotIntent.initial_call_ground = "INITIAL_CALL_GROUND"
intent_name PilotIntent.initial_call_tower = "INITIAL_CALL_TOWER"
intent_name PilotIntent.initial_call_inbound = "INITIAL_CALL_INBOUND"
intent_name PilotIntent.initial_call_inbound_vrp = "INITIAL_CALL_INBOUND_VRP"
intent_name PilotIntent.initial_call_approach = "INITIAL_CALL_APPROACH"
intent_name PilotIntent.request_taxi = "REQUEST_TAXI"
intent_name PilotIntent.request_taxi_parking = "REQUEST_TAXI_PARKING"
intent_name PilotIntent.request_backtrack = "REQUEST_BACKTRACK"
intent_name PilotIntent.report_taking_off = "REPORT_TAKING_OFF"
intent_name PilotIntent.ready_for_departure = "READY_FOR_DEPARTURE"
intent_name PilotIntent.ready_for_departure_vfr = "READY_FOR_DEPARTURE_VFR"
intent_name PilotIntent.report_position = "REPORT_POSITION"
intent_name PilotIntent.report_position_downwind = "REPORT_POSITION_DOWNWIND"
intent_name PilotIntent.report_position_base = "REPORT_POSITION_BASE"
intent_name PilotIntent.report_position_final = "REPORT_POSITION_FINAL"
intent_name PilotIntent.request_landing = "REQUEST_LANDING"
intent_name PilotIntent.request_touch_and_go = "REQUEST_TOUCH_AND_GO"
intent_name PilotIntent.go_around = "GO_AROUND"
intent_name PilotIntent.runway_vacated = "RUNWAY_VACATED"
intent_name PilotIntent.readback = "READBACK"
intent_name PilotIntent.request_frequency = "REQUEST_FREQUENCY"
intent_name PilotIntent.leaving_frequency = "LEAVING_FREQUENCY"
intent_name PilotIntent.unable = "UNABLE"
intent_name PilotIntent.self_announce = "SELF_ANNOUNCE"
intent_name PilotIntent.request_flight_following = "REQUEST_FLIGHT_FOLLOWING"
intent_name PilotIntent.inappropriate_language = "INAPPROPRIATE_LANGUAGE"
intent_name PilotIntent.negative_correction = "NEGATIVE_CORRECTION"
intent_name PilotIntent.traffic_in_sight = "TRAFFIC_IN_SIGHT"
intent_name PilotIntent.traffic_negative_contact = "TRAFFIC_NEGATIVE_CONTACT"
intent_name PilotIntent.traffic_looking = "TRAFFIC_LOOKING"
intent_name PilotIntent.request_repeat = "REQUEST_REPEAT"
intent_name PilotIntent.request_ifr_clearance = "REQUEST_IFR_CLEARANCE"
intent_name PilotIntent.request_startup = "REQUEST_STARTUP"
intent_name PilotIntent.report_holding_short = "REPORT_HOLDING_SHORT"
intent_name PilotIntent.initial_call_center = "INITIAL_CALL_CENTER"
intent_name PilotIntent.request_descent = "REQUEST_DESCENT"
intent_name PilotIntent.request_higher = "REQUEST_HIGHER"

unfoldable pub intent_template_key : PilotIntent → String
unfolding intent_name
intent_template_key PilotIntent.initial_call = "INITIAL_CALL_TOWER"
intent_template_key PilotIntent.report_position = "REPORT_POSITION"
intent_template_key intent = intent_name intent

abbrev intent_table : List (String × PilotIntent)
intent_table =
    ("RADIO_CHECK", PilotIntent.radio_check)
    ∷ ("INITIAL_CALL", PilotIntent.initial_call)
    ∷ ("INITIAL_CALL_GROUND", PilotIntent.initial_call_ground)
    ∷ ("INITIAL_CALL_TOWER", PilotIntent.initial_call_tower)
    ∷ ("INITIAL_CALL_INBOUND", PilotIntent.initial_call_inbound)
    ∷ ("INITIAL_CALL_INBOUND_VRP", PilotIntent.initial_call_inbound_vrp)
    ∷ ("INITIAL_CALL_APPROACH", PilotIntent.initial_call_approach)
    ∷ ("REQUEST_TAXI", PilotIntent.request_taxi)
    ∷ ("REQUEST_TAXI_PARKING", PilotIntent.request_taxi_parking)
    ∷ ("REQUEST_BACKTRACK", PilotIntent.request_backtrack)
    ∷ ("REPORT_TAKING_OFF", PilotIntent.report_taking_off)
    ∷ ("READY_FOR_DEPARTURE", PilotIntent.ready_for_departure)
    ∷ ("READY_FOR_DEPARTURE_VFR", PilotIntent.ready_for_departure_vfr)
    ∷ ("REPORT_POSITION", PilotIntent.report_position)
    ∷ ("REPORT_POSITION_DOWNWIND", PilotIntent.report_position_downwind)
    ∷ ("REPORT_POSITION_BASE", PilotIntent.report_position_base)
    ∷ ("REPORT_POSITION_FINAL", PilotIntent.report_position_final)
    ∷ ("REQUEST_LANDING", PilotIntent.request_landing)
    ∷ ("REQUEST_TOUCH_AND_GO", PilotIntent.request_touch_and_go)
    ∷ ("GO_AROUND", PilotIntent.go_around)
    ∷ ("RUNWAY_VACATED", PilotIntent.runway_vacated)
    ∷ ("READBACK", PilotIntent.readback)
    ∷ ("_READBACK", PilotIntent.readback)
    ∷ ("REQUEST_FREQUENCY", PilotIntent.request_frequency)
    ∷ ("LEAVING_FREQUENCY", PilotIntent.leaving_frequency)
    ∷ ("UNABLE", PilotIntent.unable)
    ∷ ("SELF_ANNOUNCE", PilotIntent.self_announce)
    ∷ ("REQUEST_FLIGHT_FOLLOWING", PilotIntent.request_flight_following)
    ∷ ("INAPPROPRIATE_LANGUAGE", PilotIntent.inappropriate_language)
    ∷ ("NEGATIVE_CORRECTION", PilotIntent.negative_correction)
    ∷ ("TRAFFIC_IN_SIGHT", PilotIntent.traffic_in_sight)
    ∷ ("TRAFFIC_NEGATIVE_CONTACT", PilotIntent.traffic_negative_contact)
    ∷ ("TRAFFIC_LOOKING", PilotIntent.traffic_looking)
    ∷ ("REQUEST_REPEAT", PilotIntent.request_repeat)
    ∷ ("REQUEST_IFR_CLEARANCE", PilotIntent.request_ifr_clearance)
    ∷ ("REQUEST_STARTUP", PilotIntent.request_startup)
    ∷ ("REPORT_HOLDING_SHORT", PilotIntent.report_holding_short)
    ∷ ("INITIAL_CALL_CENTER", PilotIntent.initial_call_center)
    ∷ ("REQUEST_DESCENT", PilotIntent.request_descent)
    ∷ ("REQUEST_HIGHER", PilotIntent.request_higher)
    ∷ []

from_table : Option PilotIntent → PilotIntent
from_table none = PilotIntent.unknown
from_table (some i) = i

unfoldable pub intent_from_key : String → PilotIntent
unfolding from_table
intent_from_key key = from_table (find_key key intent_table)

-- Every intent is read back from its name.
pub intent_from_key-intent_name : (i : PilotIntent) → intent_from_key (intent_name i) ≡ i
unfolding intent_from_key intent_name string_eq
intent_from_key-intent_name PilotIntent.unknown = refl
intent_from_key-intent_name _ = refl
