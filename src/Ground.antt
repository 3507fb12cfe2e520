-- ===== src/Ground.antt =====
-- The ground operations (src/atc/flows/ground_operations.cpp): the snapshot, state and services that its
-- handlers read. A frequency in MHz is a number of thousandths; a length, angle, speed or pressure is
-- one too.
pub mod Text
pub mod Phonetic
pub mod Squawk
pub mod Vars
pub mod Climb
pub mod Facility
pub mod Reply
pub mod Early
pub mod Afis
pub mod Frequency
pub mod Guards
use xp_welly_llm_atc.Base.{
  ℕ, leb, ℤ, String, Bool, not, List, Option, empty, string_eq, ◌==◌, if◌then◌else◌,
}
use xp_welly_llm_atc.Context.{XPlaneContext, FrequencyType, Geometry}
use xp_welly_llm_atc.Phase.{FlightPhase}
use xp_welly_llm_atc.Phase.Guard.{IntentPrecondition, FrequencyRule}
use xp_welly_llm_atc.Correction.{FlightRules}
use xp_welly_llm_atc.World.{World, Settings}
use xp_welly_llm_atc.Sector.{Controller}
use xp_welly_llm_atc.Traffic.{TrafficTarget}
use xp_welly_llm_atc.Airport.{AirportFrequency}
use xp_welly_llm_atc.Airport.Stand.{ParkingStand, EngineKind}
use xp_welly_llm_atc.Templates.{Templates}

-- The snapshot: `base` has the fields that the state machine reads, the rest are those that only the
-- handlers read.
pub record GroundContext : Type 0 where
  pub base : XPlaneContext
  pub airport_freqs : List AirportFrequency
  pub nearest_airport_name : String
  pub altitude_ft_msl : ℤ
  pub pressure_alt_ft : ℤ
  pub active_com : ℕ
  pub com1_freq_mhz : ℕ
  pub com2_freq_mhz : ℕ
  pub aircraft_icao : String
  pub aircraft_engine_kind : EngineKind
  pub aircraft_wingspan_m : ℤ
  pub ifr_destination : String
  pub ifr_sid : String
  pub ifr_fpl_first_fix : String
  pub ifr_cifp_sid : String
  pub ifr_sid_min_alt_ft : ℕ
  pub ifr_sid_last_fix : String
  pub ifr_cruise_alt_ft : ℕ
  pub qnh_inhg : ℤ
  pub qnh_hpa : ℕ
  pub wind_direction_deg : ℤ
  pub wind_speed_kt : ℤ
  pub visibility_m : ℤ
  pub runway_holding_points : List (String × String)
  pub transition_alt_ft : ℕ
  pub transponder_code : ℕ
  pub transponder_mode : ℕ
  pub enclosing_airspaces : List Controller
  pub airport_parking : List ParkingStand

-- What src/atc/engine.cpp keeps of the hand-over that is pending.
pub record EngineState : Type 0 where
  pub pending_handoff_freq : ℕ
  pub pending_departure_label : String
  pub pending_controller_label : String
  pub current_controller_label : String
  pub taxi_hold_short_runway : String

-- All that one call of the pilot may change: `rolls` counts the numbers drawn from `std::rand`.
pub record Session : Type 0 where
  pub world : World
  pub engine : EngineState
  pub squawk_check_pending : Bool
  pub rolls : ℕ

abbrev pub mhz_100 : ℕ
mhz_100 = 100000

unfoldable pub set_pending_handoff_freq : ℕ → EngineState → EngineState
set_pending_handoff_freq mhz e =
    if leb mhz_100 mhz then record e { pending_handoff_freq = mhz } else e

unfoldable pub set_pending_departure_label : String → EngineState → EngineState
set_pending_departure_label label e =
    if not (empty label) then record e { pending_departure_label = label } else e

unfoldable pub set_pending_controller_label : String → EngineState → EngineState
set_pending_controller_label label e =
    if not (empty label) then record e { pending_controller_label = label } else e

unfoldable pub remember_taxi_hold_short : String → EngineState → EngineState
remember_taxi_hold_short runway e =
    if empty runway then e else record e { taxi_hold_short_runway = runway }

pub record IfrDefaults : Type 0 where
  pub initial_altitude_ft : ℕ
  pub squawk_range_min : ℕ
  pub squawk_range_max : ℕ
  pub tower_report_alt_ft : ℕ

pub record StateRevert : Type 0 where
  pub on_intent_in : List String
  pub in_state : String
  pub revert_to : String
  pub reset_departure_type : Bool

pub record IdleRedirect : Type 0 where
  pub intent_in : List String
  pub freq_type : FrequencyType
  pub unless_flag : String
  pub response : String
  pub next_state : String

pub record FrequencyHint : Type 0 where
  pub ground_intents : List String
  pub ground_response : String
  pub tower_response : String

pub record FrequencyAutoCorrection : Type 0 where
  pub frequencies : List FrequencyType
  pub next_state : String
  pub log : String

-- The tables of flight_rules.json that the handlers read; a `std::map` is a list in key order.
pub record GroundRules : Type 0 where
  pub flight : FlightRules
  pub preconditions : List (String × IntentPrecondition)
  pub intent_frequency : List (String × FrequencyRule)
  pub state_reverts : List StateRevert
  pub idle_redirects : List IdleRedirect
  pub frequency_hint : Option FrequencyHint
  pub state_frequency_validity : FrequencyType → Option (List String)
  pub frequency_auto_corrections : List (String × List (String × FrequencyAutoCorrection))
  pub ifr_defaults : IfrDefaults

-- The initial altitude of a procedure file: 0 feet where there is none.
pub record InitialAltitude : Type 0 where
  pub feet : ℕ
  pub is_fl : Bool

-- The other parts of the program as the handlers see them during one call: their data, which the
-- handlers do not change, the number formats of the C library, and the numbers that `std::rand` gives.
pub record Services : Type 0 where
  pub rules : GroundRules
  pub templates : Templates
  pub settings : Settings
  pub atc_profile : String
  pub pattern_direction_setting : String
  pub phase : FlightPhase
  pub has_landed : Bool
  pub atis_letter : ℕ
  pub traffic : List TrafficTarget
  pub geometry : Geometry
  pub origin_icao : String
  pub controller : String → String → Option (String × ℕ)
  pub sid_initial_climb_ft : String → String → Bool → ℕ
  pub initial_altitude : String → String → InitialAltitude
  pub get_pattern_direction : String → String → String
  pub nearest_taxiway_phrase : String → ℤ → ℤ → String
  pub runway_to_cross : String → String
  pub current_cleared_alt_ft : ℕ
  pub cos : ℤ → ℤ
  pub rand : ℕ → ℕ
  pub decimal : ℕ → String
  pub padded : ℕ → ℕ → String
  pub rounded : ℤ → String
  pub fixed2 : ℤ → String
  pub fixed3 : ℕ → String
  pub padded0 : ℕ → ℤ → String
