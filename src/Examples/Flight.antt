-- ===== src/Examples/Flight.antt =====
-- The theorems on the timers, the log, the callsign and the phase at concrete values.
use xp_welly_llm_atc.Base.{
  ℕ, pos, ◌+ℤ◌, String, true, false, List, [], ◌∷◌, some, ◌≡◌, ◌≢◌, ◌⊎◌, ◌↔◌, refl, string_eq,
  arith, empty, find_key,
}
use mathlib.Core.List.{reverse}
use xp_welly_llm_atc.State.{AtcState, atc_state_eq, StateHistoryEntry}
use xp_welly_llm_atc.Context.{FrequencyType}
use xp_welly_llm_atc.Machine.{AtcMachineState}
use xp_welly_llm_atc.Reminder.{consume_readback_reminder}
use xp_welly_llm_atc.Reminder.Timeout.{poll, poll-keeps, poll-gives_up, given_up}
use xp_welly_llm_atc.History.{landed_since_departure}
use xp_welly_llm_atc.History.Window.{Landed, landed_since_departure-Landed}
use xp_welly_llm_atc.Callsign.{locked_callsign, conflict}
use xp_welly_llm_atc.Callsign.Lock.{locked_callsign_lem}
use xp_welly_llm_atc.Correction.{AutoCorrection, first_match, check_auto_correction}
use xp_welly_llm_atc.State.Names.{state_from_name}
use xp_welly_llm_atc.Correction.Firing.{
  corrections_for, Corrected, Fires, check_auto_correction-outcome,
}
use xp_welly_llm_atc.Phase.{FlightPhase, is_on_ground}
use xp_welly_llm_atc.Phase.Detect.{HysteresisConfig, PhaseState}
use xp_welly_llm_atc.Phase.Hysteresis.{
  settle_frames, settle_frames-holds, settle_frames-enters, steady,
}
use xp_welly_llm_atc.Phase.Guard.{
  IntentPrecondition, check_precondition, FrequencyRule, is_intent_valid_for_frequency, valid_under,
  freq_type_name,
}
use xp_welly_llm_atc.Phase.Rejection.{phase_allowed, check_precondition-allowed}
use xp_welly_llm_atc.Examples.{parked, cleared, settings, rules}

poll-keeps_example :
    let h = poll (pos 60000 ∷ pos 120000 ∷ pos 189999 ∷ []) cleared in
    (h.readback_pending ≡ true)
    × (h.state ≡ AtcState.ground_contact)
    × (h.pending_clearances ≡ cleared.pending_clearances)
unfolding ◌+ℤ◌
poll-keeps_example =
    poll-keeps cleared (pos 60000 ∷ pos 120000 ∷ pos 189999 ∷ []) refl refl
      (omega arith, (omega arith, (omega arith, tt)))

poll-gives_up_example :
    let (h, text) =
      consume_readback_reminder
        (pos 190000)
        (poll (pos 55000 ∷ pos 100000 ∷ pos 145000 ∷ []) cleared) in
    (h.readback_pending ≡ false)
    × (h.pending_clearances ≡ [])
    × ((h.state, text) ≡ given_up cleared)
unfolding ◌+ℤ◌
poll-gives_up_example =
    poll-gives_up cleared (pos 55000) (pos 100000) (pos 145000) (pos 190000) refl refl (omega arith)
      (omega arith) (omega arith) (omega arith)

abbrev entry : AtcState → ℕ → StateHistoryEntry
entry s t = record { state = s; reason = "process"; timestamp_secs = pos t }

abbrev flown : AtcMachineState
flown = record parked {
  history = entry AtcState.departure_cleared 1000 ∷ entry AtcState.landing_cleared 5000 ∷ [];
}

landed_since_departure-Landed_example :
    (landed_since_departure (reverse flown.history) ≡ true) ↔ Landed (reverse flown.history)
landed_since_departure-Landed_example = landed_since_departure-Landed (reverse flown.history)

locked_callsign_example :
    ((locked_callsign "Skylane one two three" "Cessna two three" ≡ "Cessna two three")
      ⊎ (locked_callsign "Skylane one two three" "Cessna two three" ≡ "Skylane one two three"))
    × (conflict (locked_callsign "Skylane one two three" "Cessna two three") "Skylane one two three"
        ≡ false)
locked_callsign_example = locked_callsign_lem "Skylane one two three" "Cessna two three"

check_auto_correction-outcome_example :
    let h = check_auto_correction settings rules FlightPhase.cruise (pos 4000) (pos 9000) cleared in
    (h.state ≡ cleared.state)
    ⊎ ((cleared.state ≢ AtcState.idle)
        × (cleared.state ≢ AtcState.unicom_active)
        × ((cs : List (String × AutoCorrection)) × (c : String × AutoCorrection) × (corrections_for
                rules cleared
              ≡ some cs)
            × (first_match FlightPhase.cruise cs ≡ some c)
            × Fires settings FlightPhase.cruise (pos 4000) c cleared
            × Corrected (state_from_name c.1.next_state) h))
check_auto_correction-outcome_example =
    check_auto_correction-outcome settings FlightPhase.cruise (pos 4000) rules (pos 9000) cleared

abbrev waits : HysteresisConfig
waits = record { ground_to_airborne_sec = pos 500; airborne_to_landing_sec = pos 300 }

abbrev rolling : PhaseState
rolling = record {
  current_phase = FlightPhase.takeoff_roll;
  candidate_phase = FlightPhase.climb;
  candidate_timer = pos 100;
  was_airborne = false;
  has_landed = false;
  parked_secs = pos 0;
}

settle_frames-holds_example :
    (settle_frames waits
      ((FlightPhase.climb, 200) ∷ (FlightPhase.pattern, 100) ∷ [])
      rolling).current_phase
    ≡ FlightPhase.takeoff_roll
unfolding is_on_ground ◌+ℤ◌
settle_frames-holds_example =
    settle_frames-holds waits ((FlightPhase.climb, 200) ∷ (FlightPhase.pattern, 100) ∷ []) rolling
      (ground arith) (omega arith) (ground arith, (ground arith, tt)) (omega arith)

settle_frames-enters_example :
    (settle_frames waits (steady FlightPhase.climb (200 ∷ 250 ∷ [])) rolling).current_phase
    ≡ FlightPhase.climb
unfolding is_on_ground ◌+ℤ◌
settle_frames-enters_example =
    settle_frames-enters waits FlightPhase.climb (200 ∷ 250 ∷ []) rolling (ground arith)
      (ground arith) refl (omega arith) (omega arith)

abbrev only_parked : IntentPrecondition
only_parked = record {
  allowed_phases = FlightPhase.parked ∷ [];
  rejection_parked = "";
  rejection_airborne = "";
  rejection_ground = "";
}

check_precondition-allowed_example :
    empty
      (check_precondition (("request_taxi", only_parked) ∷ []) "request_taxi" FlightPhase.cruise)
    ≡ phase_allowed FlightPhase.cruise
        (find_key "request_taxi" (("request_taxi", only_parked) ∷ []))
check_precondition-allowed_example =
    check_precondition-allowed (("request_taxi", only_parked) ∷ []) "request_taxi"
      FlightPhase.cruise

abbrev on_ground_only : FrequencyRule
on_ground_only = record { allowed = "GROUND" ∷ []; rejection = "wrong frequency" }

ground_valid :
    is_intent_valid_for_frequency
      (("request_taxi", on_ground_only) ∷ [])
      "request_taxi"
      FrequencyType.ground
    ≡ true
unfolding is_intent_valid_for_frequency valid_under freq_type_name string_eq
ground_valid = refl
