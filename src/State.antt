-- ===== src/State.antt =====
-- The dialogue states of src/atc/atc_state_machine.hpp, the answer to a pilot's call, an entry of the
-- state log, and the departure flag of src/atc/flows/state_storage.hpp.
pub mod Names
use xp_welly_llm_atc.Base.{String, Bool, Eq, ℤ}

pub data AtcState : Type 0 where
  idle ground_contact taxi_cleared tower_contact departure_cleared pattern_entry landing_cleared
        touch_and_go_cleared unicom_active en_route approach_contact ifr_predep_clearance
        ifr_cleared ifr_line_up_and_wait ifr_departure_cleared ifr_freq_handoff ifr_en_route
        ifr_radar_contact ifr_enroute_cruise ifr_descent ifr_arrival ifr_approach_contact
        ifr_approach_descent ifr_approach_tower ifr_landing_cleared :
      AtcState

pub AtcState-discrete : Discrete AtcState
AtcState-discrete = hlevel

instance abbrev pub atc_state_eq : Eq AtcState
atc_state_eq = record { dec = AtcState-discrete }

pub record AtcResponse : Type 0 where
  pub text : String
  pub next_state : AtcState
  pub requires_readback : Bool

pub record StateHistoryEntry : Type 0 where
  pub state : AtcState
  pub reason : String
  pub timestamp_secs : ℤ

pub data DepartureType : Type 0 where
  pattern cross_country : DepartureType

pub DepartureType-discrete : Discrete DepartureType
DepartureType-discrete = hlevel

instance abbrev pub departure_type_eq : Eq DepartureType
departure_type_eq = record { dec = DepartureType-discrete }
