-- ===== src/Intent.antt =====
-- The pilot's intents and the parsed call (src/atc/intent_parser.hpp).
pub mod Names
use xp_welly_llm_atc.Base.{String, Bool, ℤ, Eq}

pub data PilotIntent : Type 0 where
  unknown radio_check initial_call initial_call_ground initial_call_tower initial_call_inbound
        initial_call_inbound_vrp initial_call_approach request_taxi request_taxi_parking
        request_backtrack report_taking_off ready_for_departure ready_for_departure_vfr
        report_position report_position_downwind report_position_base report_position_final
        request_landing request_touch_and_go go_around runway_vacated readback request_frequency
        leaving_frequency unable self_announce request_flight_following inappropriate_language
        negative_correction traffic_in_sight traffic_negative_contact traffic_looking request_repeat
        request_ifr_clearance request_startup report_holding_short initial_call_center
        request_descent request_higher :
      PilotIntent

pub PilotIntent-discrete : Discrete PilotIntent
PilotIntent-discrete = hlevel

instance abbrev pub pilot_intent_eq : Eq PilotIntent
pilot_intent_eq = record { dec = PilotIntent-discrete }

pub record PilotMessage : Type 0 where
  pub raw_transcript : String
  pub intent : PilotIntent
  pub confidence : ℤ
  pub callsign : String
  pub runway : String
  pub vrp_name : String
  pub has_position : Bool
