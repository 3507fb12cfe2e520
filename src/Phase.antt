-- ===== src/Phase.antt =====
-- Flight phases (src/atc/flight_phase.cpp): their names and their two classes.
pub mod Names
pub mod Detect
pub mod Hysteresis
pub mod Guard
pub mod Rejection
use xp_welly_llm_atc.Base.{Bool, not, ◌||◌, ◌≡◌, refl, ◌==◌, Eq}

pub data FlightPhase : Type 0 where
  parked taxi takeoff_roll climb pattern final_approach landing_roll cruise : FlightPhase

pub FlightPhase-discrete : Discrete FlightPhase
FlightPhase-discrete = hlevel

instance abbrev pub flight_phase_eq : Eq FlightPhase
flight_phase_eq = record { dec = FlightPhase-discrete }

unfoldable pub is_airborne : FlightPhase → Bool
is_airborne phase =
    phase == FlightPhase.climb
    || phase == FlightPhase.pattern
    || phase == FlightPhase.final_approach
    || phase == FlightPhase.cruise

unfoldable pub is_on_ground : FlightPhase → Bool
is_on_ground phase =
    phase == FlightPhase.parked
    || phase == FlightPhase.taxi
    || phase == FlightPhase.takeoff_roll
    || phase == FlightPhase.landing_roll

-- Every phase is of exactly one class.
pub is_on_ground-is_airborne : (p : FlightPhase) → not (is_airborne p) ≡ is_on_ground p
unfolding is_airborne is_on_ground FlightPhase-discrete
is_on_ground-is_airborne FlightPhase.parked = refl
is_on_ground-is_airborne _ = refl
