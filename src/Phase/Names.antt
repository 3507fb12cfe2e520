-- ===== src/Phase/Names.antt =====
-- The names of the phases (src/atc/flight_phase.cpp, `kPhaseNames`).
use xp_welly_llm_atc.Base.{
  String, List, [], ◌∷◌, Option, none, some, ◌≡◌, refl, find_key, string_eq,
}
use xp_welly_llm_atc.Phase.{FlightPhase}

abbrev phase_table : List (String × FlightPhase)
phase_table =
    ("PARKED", FlightPhase.parked)
    ∷ ("TAXI", FlightPhase.taxi)
    ∷ ("TAKEOFF_ROLL", FlightPhase.takeoff_roll)
    ∷ ("CLIMB", FlightPhase.climb)
    ∷ ("PATTERN", FlightPhase.pattern)
    ∷ ("FINAL_APPROACH", FlightPhase.final_approach)
    ∷ ("LANDING_ROLL", FlightPhase.landing_roll)
    ∷ ("CRUISE", FlightPhase.cruise)
    ∷ []

unfoldable pub phase_name : FlightPhase → String
phase_name FlightPhase.parked = "PARKED"
phase_name FlightPhase.taxi = "TAXI"
phase_name FlightPhase.takeoff_roll = "TAKEOFF_ROLL"
phase_name FlightPhase.climb = "CLIMB"
phase_name FlightPhase.pattern = "PATTERN"
phase_name FlightPhase.final_approach = "FINAL_APPROACH"
phase_name FlightPhase.landing_roll = "LANDING_ROLL"
phase_name FlightPhase.cruise = "CRUISE"

from_table : Option FlightPhase → FlightPhase
from_table none = FlightPhase.parked
from_table (some p) = p

unfoldable pub phase_from_name : String → FlightPhase
unfolding from_table
phase_from_name name = from_table (find_key name phase_table)

-- Every phase is read back from its name.
pub phase_from_name-phase_name : (p : FlightPhase) → phase_from_name (phase_name p) ≡ p
unfolding phase_from_name phase_name string_eq
phase_from_name-phase_name FlightPhase.parked = refl
phase_from_name-phase_name _ = refl
