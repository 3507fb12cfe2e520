-- ===== src/Phase/Guard.antt =====
-- The guards on an intent by phase and by frequency (src/atc/flight_phase.cpp), over the tables that
-- are loaded from flight_rules.json.
use xp_welly_llm_atc.Base.{
  String, Bool, true, false, not, ◌&&◌, ◌||◌, List, Option, none, some, ◌==◌, string_eq, contains,
  empty, find_key, any, if◌then◌else◌,
}
use xp_welly_llm_atc.Context.{FrequencyType, frequency_type_eq}
use xp_welly_llm_atc.Phase.{FlightPhase, flight_phase_eq, is_airborne, is_on_ground}

pub record IntentPrecondition : Type 0 where
  pub allowed_phases : List FlightPhase
  pub rejection_parked : String
  pub rejection_airborne : String
  pub rejection_ground : String

-- The rejection for a phase that is not allowed.
unfoldable pub rejection_for : IntentPrecondition → FlightPhase → String
rejection_for pc phase =
    if phase == FlightPhase.parked && not (empty pc.rejection_parked)
    then pc.rejection_parked
    else if is_airborne phase && not (empty pc.rejection_airborne)
    then pc.rejection_airborne
    else if is_on_ground phase && not (empty pc.rejection_ground)
    then pc.rejection_ground
    else if not (empty pc.rejection_airborne) && is_airborne phase
    then pc.rejection_airborne
    else if not (empty pc.rejection_ground)
    then pc.rejection_ground
    else if not (empty pc.rejection_parked)
    then pc.rejection_parked
    else "{callsign}, unable."

unfoldable pub precondition_of : FlightPhase → Option IntentPrecondition → String
precondition_of phase none = ""
precondition_of phase (some pc) =
    if contains pc.allowed_phases phase then "" else rejection_for pc phase

-- Empty for an intent that is allowed.
unfoldable pub check_precondition :
    List (String × IntentPrecondition) → String → FlightPhase → String
check_precondition preconditions intent_key phase =
    precondition_of phase (find_key intent_key preconditions)

pub record FrequencyRule : Type 0 where
  pub allowed : List String
  pub rejection : String

unfoldable pub freq_type_name : FrequencyType → String
freq_type_name FrequencyType.delivery = "DELIVERY"
freq_type_name FrequencyType.ground = "GROUND"
freq_type_name FrequencyType.tower = "TOWER"
freq_type_name FrequencyType.unicom = "UNICOM"
freq_type_name FrequencyType.ctaf = "CTAF"
freq_type_name FrequencyType.approach = "APPROACH"
freq_type_name FrequencyType.departure = "DEPARTURE"
freq_type_name _ = ""

unfoldable pub freq_type_from_name : String → FrequencyType
freq_type_from_name name =
    if name == "GROUND"
    then FrequencyType.ground
    else if name == "TOWER"
    then FrequencyType.tower
    else if name == "APPROACH"
    then FrequencyType.approach
    else if name == "UNICOM"
    then FrequencyType.unicom
    else if name == "CTAF"
    then FrequencyType.ctaf
    else if name == "DELIVERY"
    then FrequencyType.delivery
    else if name == "ATIS"
    then FrequencyType.atis
    else if name == "DEPARTURE"
    then FrequencyType.departure
    else FrequencyType.unknown

unfoldable pub valid_under : FrequencyType → Option FrequencyRule → Bool
valid_under ft none = true
valid_under ft (some rule) =
    if empty (freq_type_name ft) then false else contains rule.allowed (freq_type_name ft)

unfoldable pub is_intent_valid_for_frequency :
    List (String × FrequencyRule) → String → FrequencyType → Bool
is_intent_valid_for_frequency rules intent_key ft = valid_under ft (find_key intent_key rules)

-- The three ways to pass a rule: named in it, unidentified, or an AFIS field for Ground or Tower.
unfoldable pub rule_allows : FrequencyRule → FrequencyType → Bool
rule_allows rule ft =
    any (λ f. not (empty (freq_type_name ft)) && f == freq_type_name ft) rule.allowed
    || ft == FrequencyType.unknown
    || (ft == FrequencyType.info && any (λ f. f == "GROUND" || f == "TOWER") rule.allowed)

unfoldable pub rejection_under : FrequencyType → Option FrequencyRule → String
rejection_under ft none = ""
rejection_under ft (some rule) = if rule_allows rule ft then "" else rule.rejection

unfoldable pub check_frequency_precondition :
    List (String × FrequencyRule) → String → FrequencyType → String
check_frequency_precondition rules intent_key ft = rejection_under ft (find_key intent_key rules)
