-- ===== src/Correction.antt =====
-- The per-frame correction of the state by the flight phase (src/atc/atc_state_machine.cpp,
-- `check_auto_correction`) over the rules that src/atc/flight_phase.cpp loads.
pub mod Firing
use xp_welly_llm_atc.Base.{
  ℤ, pos, ◌+ℤ◌, ◌*ℤ◌, leb_ℤ, String, Bool, false, not, ◌&&◌, ◌||◌, List, [], ◌∷◌, Option, none,
  some, ◌==◌, string_eq, contains, find_key, ◌+s◌, if◌then◌else◌,
}
use xp_welly_llm_atc.State.{AtcState, atc_state_eq}
use xp_welly_llm_atc.State.Names.{state_name, state_from_name}
use xp_welly_llm_atc.Machine.{AtcMachineState, bump_gen, transition_to, set_last_now_secs}
use xp_welly_llm_atc.Phase.{FlightPhase, flight_phase_eq, is_on_ground}
use xp_welly_llm_atc.World.{Settings}

pub record AutoCorrection : Type 0 where
  pub phases : List FlightPhase
  pub next_state : String
  pub delay_sec : ℤ

-- The tables of flight_rules.json that the state machine reads; a `std::map` is a list in key order.
pub record FlightRules : Type 0 where
  pub auto_corrections : List (String × List (String × AutoCorrection))
  pub tower_only_auto_advance : List (String × String)

-- The condition holds, and `on_airborne` is not taken for a phase on the ground.
unfoldable pub matches : FlightPhase → String → AutoCorrection → Bool
matches phase cond_name ac =
    contains ac.phases phase && not (cond_name == "on_airborne" && is_on_ground phase)

-- The loop: the first condition that matches.
unfoldable pub first_match :
    FlightPhase → List (String × AutoCorrection) → Option (String × AutoCorrection)
unfolding matches
first_match phase [] = none
first_match phase ((cond_name, ac) ∷ rest) =
    if matches phase cond_name ac then some (cond_name, ac) else first_match phase rest

-- The correction fires: `new_state` is entered and the read-back dropped.
unfoldable pub correct : String → AtcState → AtcMachineState → AtcMachineState
unfolding transition_to bump_gen
correct reason new_state g =
    let t = bump_gen (transition_to new_state reason g) in
    record t {
      readback_pending = false;
      pending_clearances = [];
      last_clearance_text = "";
      readback_ok_fields = [];
      assigned_runway = if new_state == AtcState.idle then "" else t.assigned_runway;
      session_callsign = if new_state == AtcState.idle then "" else t.session_callsign;
      active_correction_key = "";
      correction_timer = pos 0;
    }

-- The timer of one condition: it restarts when the condition changes.
unfoldable pub run_timer : String → ℤ → AtcMachineState → AtcMachineState
run_timer key dt g = record g {
  active_correction_key = key;
  correction_timer = (if key == g.active_correction_key then g.correction_timer else pos 0) +ℤ dt;
}

-- `timer >= delay * factor`, with the product of two values in thousandths.
abbrev pub elapsed : ℤ → ℤ → ℤ → Bool
elapsed timer delay factor = leb_ℤ (delay *ℤ factor) (timer *ℤ pos 1000)

module _ (settings : Settings) where
  unfoldable pub count_down : ℤ → String → AutoCorrection → AtcMachineState → AtcMachineState
  count_down dt cond_name ac g =
      let key = state_name g.state g.departure_type +s ":" +s cond_name in
      let t = run_timer key dt g in
      if elapsed t.correction_timer ac.delay_sec settings.auto_correction_factor
      then correct ("auto_correction:" +s cond_name) (state_from_name ac.next_state) t
      else t

  unfoldable pub apply_match :
      ℤ → Option (String × AutoCorrection) → AtcMachineState → AtcMachineState
  apply_match dt none g = record g { active_correction_key = ""; correction_timer = pos 0 }
  apply_match dt (some (cond_name, ac)) g = count_down dt cond_name ac g

  unfoldable pub apply_rules :
      FlightPhase → ℤ → Option (List (String × AutoCorrection)) → AtcMachineState → AtcMachineState
  apply_rules phase dt none g = g
  apply_rules phase dt (some corrections) g = apply_match dt (first_match phase corrections) g

  unfoldable pub check_auto_correction :
      FlightRules → FlightPhase → ℤ → ℤ → AtcMachineState → AtcMachineState
  check_auto_correction rules phase dt now_secs g0 =
      let g = set_last_now_secs now_secs g0 in
      if g.state == AtcState.idle || g.state == AtcState.unicom_active
      then g
      else apply_rules phase dt
          (find_key (state_name g.state g.departure_type) rules.auto_corrections) g
