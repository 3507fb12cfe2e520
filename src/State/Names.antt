-- ===== src/State/Names.antt =====
-- The names of the states (src/atc/atc_state_machine.cpp): `state_name` qualifies by flow, and
-- `state_from_name` reads the qualified and the raw form.
use xp_welly_llm_atc.Base.{
  String, List, [], ◌∷◌, Option, none, some, ◌≡◌, refl, string_eq, find_key,
}
use xp_welly_llm_atc.State.{AtcState, DepartureType}

unfoldable pub state_name : AtcState → DepartureType → String
state_name AtcState.idle _ = "IDLE"
state_name AtcState.ground_contact _ = "GROUND_CONTACT"
state_name AtcState.taxi_cleared _ = "TAXI_CLEARED"
state_name AtcState.tower_contact _ = "TOWER_CONTACT"
state_name AtcState.departure_cleared DepartureType.cross_country = "XC/DEPARTURE_CLEARED"
state_name AtcState.departure_cleared DepartureType.pattern = "Pattern/DEPARTURE_CLEARED"
state_name AtcState.pattern_entry _ = "Pattern/PATTERN_ENTRY"
state_name AtcState.landing_cleared _ = "Pattern/LANDING_CLEARED"
state_name AtcState.touch_and_go_cleared _ = "Pattern/TOUCH_AND_GO_CLEARED"
state_name AtcState.unicom_active _ = "UNICOM_ACTIVE"
state_name AtcState.en_route _ = "XC/EN_ROUTE"
state_name AtcState.approach_contact _ = "XC/APPROACH_CONTACT"
state_name AtcState.ifr_predep_clearance _ = "IFR/PREDEP_CLEARANCE"
state_name AtcState.ifr_cleared _ = "IFR/CLEARED"
state_name AtcState.ifr_line_up_and_wait _ = "IFR/LINE_UP_AND_WAIT"
state_name AtcState.ifr_departure_cleared _ = "IFR/DEPARTURE_CLEARED"
state_name AtcState.ifr_freq_handoff _ = "IFR/FREQ_HANDOFF"
state_name AtcState.ifr_en_route _ = "IFR/EN_ROUTE"
state_name AtcState.ifr_radar_contact _ = "IFR/RADAR_CONTACT"
state_name AtcState.ifr_enroute_cruise _ = "IFR/ENROUTE_CRUISE"
state_name AtcState.ifr_descent _ = "IFR/DESCENT"
state_name AtcState.ifr_arrival _ = "IFR/ARRIVAL"
state_name AtcState.ifr_approach_contact _ = "IFR/APPROACH_CONTACT"
state_name AtcState.ifr_approach_descent _ = "IFR/APPROACH_DESCENT"
state_name AtcState.ifr_approach_tower _ = "IFR/APPROACH_TOWER"
state_name AtcState.ifr_landing_cleared _ = "IFR/LANDING_CLEARED"

abbrev state_table : List (String × AtcState)
state_table =
    ("IDLE", AtcState.idle)
    ∷ ("GROUND_CONTACT", AtcState.ground_contact)
    ∷ ("TAXI_CLEARED", AtcState.taxi_cleared)
    ∷ ("TOWER_CONTACT", AtcState.tower_contact)
    ∷ ("UNICOM_ACTIVE", AtcState.unicom_active)
    ∷ ("DEPARTURE_CLEARED", AtcState.departure_cleared)
    ∷ ("Pattern/DEPARTURE_CLEARED", AtcState.departure_cleared)
    ∷ ("XC/DEPARTURE_CLEARED", AtcState.departure_cleared)
    ∷ ("PATTERN_ENTRY", AtcState.pattern_entry)
    ∷ ("Pattern/PATTERN_ENTRY", AtcState.pattern_entry)
    ∷ ("LANDING_CLEARED", AtcState.landing_cleared)
    ∷ ("Pattern/LANDING_CLEARED", AtcState.landing_cleared)
    ∷ ("TOUCH_AND_GO_CLEARED", AtcState.touch_and_go_cleared)
    ∷ ("Pattern/TOUCH_AND_GO_CLEARED", AtcState.touch_and_go_cleared)
    ∷ ("EN_ROUTE", AtcState.en_route)
    ∷ ("XC/EN_ROUTE", AtcState.en_route)
    ∷ ("APPROACH_CONTACT", AtcState.approach_contact)
    ∷ ("XC/APPROACH_CONTACT", AtcState.approach_contact)
    ∷ ("IFR/PREDEP_CLEARANCE", AtcState.ifr_predep_clearance)
    ∷ ("IFR_PREDEP_CLEARANCE", AtcState.ifr_predep_clearance)
    ∷ ("IFR/CLEARED", AtcState.ifr_cleared)
    ∷ ("IFR_CLEARED", AtcState.ifr_cleared)
    ∷ ("IFR/LINE_UP_AND_WAIT", AtcState.ifr_line_up_and_wait)
    ∷ ("IFR_LINE_UP_AND_WAIT", AtcState.ifr_line_up_and_wait)
    ∷ ("IFR/DEPARTURE_CLEARED", AtcState.ifr_departure_cleared)
    ∷ ("IFR_DEPARTURE_CLEARED", AtcState.ifr_departure_cleared)
    ∷ ("IFR/FREQ_HANDOFF", AtcState.ifr_freq_handoff)
    ∷ ("IFR_FREQ_HANDOFF", AtcState.ifr_freq_handoff)
    ∷ ("IFR/EN_ROUTE", AtcState.ifr_en_route)
    ∷ ("IFR_EN_ROUTE", AtcState.ifr_en_route)
    ∷ ("IFR/RADAR_CONTACT", AtcState.ifr_radar_contact)
    ∷ ("IFR_RADAR_CONTACT", AtcState.ifr_radar_contact)
    ∷ ("IFR/ENROUTE_CRUISE", AtcState.ifr_enroute_cruise)
    ∷ ("IFR_ENROUTE_CRUISE", AtcState.ifr_enroute_cruise)
    ∷ ("IFR/DESCENT", AtcState.ifr_descent)
    ∷ ("IFR_DESCENT", AtcState.ifr_descent)
    ∷ ("IFR/ARRIVAL", AtcState.ifr_arrival)
    ∷ ("IFR_ARRIVAL", AtcState.ifr_arrival)
    ∷ ("IFR/APPROACH_CONTACT", AtcState.ifr_approach_contact)
    ∷ ("IFR_APPROACH_CONTACT", AtcState.ifr_approach_contact)
    ∷ ("IFR/APPROACH_DESCENT", AtcState.ifr_approach_descent)
    ∷ ("IFR_APPROACH_DESCENT", AtcState.ifr_approach_descent)
    ∷ ("IFR/APPROACH_TOWER", AtcState.ifr_approach_tower)
    ∷ ("IFR_APPROACH_TOWER", AtcState.ifr_approach_tower)
    ∷ ("IFR/LANDING_CLEARED", AtcState.ifr_landing_cleared)
    ∷ ("IFR_LANDING_CLEARED", AtcState.ifr_landing_cleared)
    ∷ []

from_table : Option AtcState → AtcState
from_table none = AtcState.idle
from_table (some s) = s

unfoldable pub state_from_name : String → AtcState
unfolding from_table
state_from_name name = from_table (find_key name state_table)

-- A state is read back from its qualified name, whatever the departure flag is, and so the names of
-- two states differ.
pub state_from_name-state_name :
    (s : AtcState) (d : DepartureType) → state_from_name (state_name s d) ≡ s
unfolding state_from_name state_name string_eq
state_from_name-state_name AtcState.idle d = refl
state_from_name-state_name AtcState.departure_cleared DepartureType.pattern = refl
state_from_name-state_name AtcState.departure_cleared DepartureType.cross_country = refl
state_from_name-state_name _ d = refl
