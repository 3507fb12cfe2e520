-- ===== src/Phase/Rejection.antt =====
-- The two guards on an intent against what their tables allow.
use xp_welly_llm_atc.Base.{
  String, Bool, true, false, not, ◌&&◌, List, [], ◌∷◌, Option, none, some, ◌==◌, string_eq,
  contains, any, empty, find_key, ◌≡◌, refl, arith,
}
use xp_welly_llm_atc.Context.{FrequencyType, frequency_type_eq}
use xp_welly_llm_atc.Phase.{FlightPhase, flight_phase_eq}
use xp_welly_llm_atc.Phase.Guard.{
  IntentPrecondition, rejection_for, precondition_of, check_precondition, FrequencyRule,
  freq_type_name, valid_under, rule_allows, rejection_under, is_intent_valid_for_frequency,
  check_frequency_precondition,
}

unable_ne : empty "{callsign}, unable." ≡ false
unfolding string_eq
unable_ne = refl

rejection_for-ne :
    (pc : IntentPrecondition) (phase : FlightPhase) → empty (rejection_for pc phase) ≡ false
unfolding rejection_for
rejection_for-ne pc phase = ground (arith, unable_ne)

-- The phase may follow the intent: there is no entry for it, or the entry lists the phase.
abbrev pub phase_allowed : FlightPhase → Option IntentPrecondition → Bool
phase_allowed phase none = true
phase_allowed phase (some pc) = contains pc.allowed_phases phase

precondition_of-allowed :
    (phase : FlightPhase) (o : Option IntentPrecondition)
    → empty (precondition_of phase o) ≡ phase_allowed phase o
unfolding precondition_of
precondition_of-allowed phase none = ground arith
precondition_of-allowed phase (some pc) = ground (arith, rejection_for-ne pc phase)

-- An intent is rejected with a text exactly where the table has an entry for it that does not list the
-- phase, whichever of the texts the entry leaves out.
pub check_precondition-allowed :
    (pcs : List (String × IntentPrecondition)) (key : String) (phase : FlightPhase)
    → empty (check_precondition pcs key phase) ≡ phase_allowed phase (find_key key pcs)
unfolding check_precondition
check_precondition-allowed pcs key phase = precondition_of-allowed phase (find_key key pcs)

any-contains :
    (b : Bool) (a : String) (xs : List String)
    → b ≡ true
    → contains xs a ≡ true
    → any (λ f. b && f == a) xs ≡ true
any-contains b a [] e c = ground (arith, c)
any-contains b a (x ∷ xs) e c = ground (arith, any-contains b a xs e)

rejection_under-valid :
    (ft : FrequencyType) (o : Option FrequencyRule)
    → valid_under ft o ≡ true
    → rejection_under ft o ≡ ""
unfolding valid_under rejection_under rule_allows
rejection_under-valid ft none v = refl
rejection_under-valid ft (some rule) v =
    let name = freq_type_name ft in
    ground (arith, v, any-contains (not (empty name)) name rule.allowed)

-- An intent that is valid for a frequency is not rejected on it.
pub check_frequency_precondition-valid :
    (rules : List (String × FrequencyRule)) (key : String) (ft : FrequencyType)
    → is_intent_valid_for_frequency rules key ft ≡ true
    → check_frequency_precondition rules key ft ≡ ""
unfolding is_intent_valid_for_frequency check_frequency_precondition
check_frequency_precondition-valid rules key ft v = rejection_under-valid ft (find_key key rules) v
