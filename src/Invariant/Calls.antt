-- ===== src/Invariant/Calls.antt =====
-- The invariant under the calls on the whole world.
use xp_welly_llm_atc.Base.{
  ℕ, ℤ, String, Bool, true, false, List, [], ◌∷◌, ◌++◌, Option, none, some, arith, find_key, ◌+s◌,
}
use xp_welly_llm_atc.State.{AtcState, DepartureType}
use xp_welly_llm_atc.State.Names.{state_name, state_from_name}
use xp_welly_llm_atc.Machine.{AtcMachineState, set_last_now_secs, log_entry, bump_gen}
use xp_welly_llm_atc.Machine.Transition.{trim_history-length}
use xp_welly_llm_atc.Readback.{rb_clear, join_from}
use xp_welly_llm_atc.Context.{XPlaneContext, Geometry}
use xp_welly_llm_atc.Phase.{FlightPhase}
use xp_welly_llm_atc.World.{
  World, Settings, init, stop, reset, near_airport, disregard_on_ground, disregard_airborne,
  disregard, leave_airport, check_airport_change,
}
use xp_welly_llm_atc.Reminder.{readback_timeout, readback_tick, consume_readback_reminder}
use xp_welly_llm_atc.Correction.{
  AutoCorrection, FlightRules, correct, run_timer, count_down, apply_match, apply_rules,
  first_match, check_auto_correction,
}
use xp_welly_llm_atc.Snapshot.{restore_snapshot_if_gen}
use xp_welly_llm_atc.Invariant.{
  IsSound, transition_to-IsSound, rb_clear-IsSound, set_readback_pending-IsSound,
  clear_assigned_runway-IsSound, set_departure_type-IsSound,
}

pub init-IsSound : (settings : Settings) (w : World) → IsSound w.g → IsSound (init settings w).g
unfolding init join_from
init-IsSound settings w v = ground arith

pub stop-IsSound : (w : World) → IsSound w.g → IsSound (stop w).g
unfolding stop join_from
stop-IsSound w v = ground arith

pub reset-IsSound : (w : World) → IsSound w.g → IsSound (reset w).g
unfolding reset join_from
reset-IsSound w v = ground arith

pub readback_timeout-IsSound : {g : AtcMachineState} → IsSound g → IsSound (readback_timeout g).0
unfolding readback_timeout
readback_timeout-IsSound {g} v = ground (
  arith,
  rb_clear-IsSound {g = g} v,
  transition_to-IsSound AtcState.idle "readback_timeout_cancel" {g = rb_clear g}
      (rb_clear-IsSound {g = g} v),
)

pub consume_readback_reminder-IsSound :
    (now_secs : ℤ) {g : AtcMachineState}
    → IsSound g
    → IsSound (consume_readback_reminder now_secs g).0
unfolding consume_readback_reminder readback_tick
consume_readback_reminder-IsSound now_secs {g} v =
    ground (arith, readback_timeout-IsSound {g = g} v)

leave_airport-IsSound : {g : AtcMachineState} → IsSound g → IsSound (leave_airport g)
unfolding leave_airport
leave_airport-IsSound {g} v = set_departure_type-IsSound DepartureType.pattern (
    clear_assigned_runway-IsSound (
      set_readback_pending-IsSound
        (transition_to-IsSound AtcState.idle "airport_change_en_route" v)))

pub check_airport_change-IsSound :
    (ctx : XPlaneContext) (now_secs : ℤ) (w : World)
    → IsSound w.g
    → IsSound (check_airport_change ctx now_secs w).g
unfolding check_airport_change
check_airport_change-IsSound ctx now_secs w v =
    ground (arith, leave_airport-IsSound {g = set_last_now_secs now_secs w.g} (ground arith))

disregard_on_ground-IsSound : {g : AtcMachineState} → IsSound g → IsSound (disregard_on_ground g)
unfolding disregard_on_ground
disregard_on_ground-IsSound {g} v =
    ground (arith, transition_to-IsSound AtcState.idle "disregard_on_ground" v)

disregard_airborne-IsSound :
    (near : Bool) {g : AtcMachineState} → IsSound g → IsSound (disregard_airborne near g)
unfolding disregard_airborne
disregard_airborne-IsSound true v = transition_to-IsSound _ _ v
disregard_airborne-IsSound false v = transition_to-IsSound _ _ v

pub disregard-IsSound :
    (geo : Geometry) (ctx : XPlaneContext) (phase : FlightPhase) (now_secs : ℤ) (w : World)
    → IsSound w.g
    → IsSound (disregard geo ctx phase now_secs w).g
unfolding disregard
disregard-IsSound geo ctx phase now_secs w v =
    let cleared : IsSound (record (bump_gen w.g) {
      last_now_secs = now_secs;
      readback_pending = false;
      last_clearance_text = "";
      pending_clearances = [];
      readback_ok_fields = [];
      last_tower_response_text = "";
    }) =
      unfold bump_gen join_from in ground arith in
    ground (
      arith,
      disregard_on_ground-IsSound cleared,
      disregard_airborne-IsSound (near_airport geo ctx) cleared,
    )

run_timer-IsSound :
    (key : String) (dt : ℤ) {g : AtcMachineState} → IsSound g → IsSound (run_timer key dt g)
unfolding run_timer
run_timer-IsSound key dt v = ground arith

pub correct-IsSound :
    (reason : String) (s : AtcState) {g : AtcMachineState}
    → IsSound g
    → IsSound (correct reason s g)
unfolding correct join_from
correct-IsSound reason s {g} v =
    ground (arith, trim_history-length (g.history ++ log_entry reason g ∷ []))

pub count_down-IsSound :
    (settings : Settings) (dt : ℤ) (cond_name : String) (ac : AutoCorrection) {g : AtcMachineState}
    → IsSound g
    → IsSound (count_down settings dt cond_name ac g)
unfolding count_down
count_down-IsSound settings dt cond_name ac {g} v =
    let key = state_name g.state g.departure_type +s ":" +s cond_name in
    let ticked = run_timer-IsSound key dt {g = g} v in
    ground (
      arith,
      ticked,
      correct-IsSound ("auto_correction:" +s cond_name) (state_from_name ac.next_state) ticked,
    )

apply_match-IsSound :
    (settings : Settings) (dt : ℤ) (m : Option (String × AutoCorrection)) {g : AtcMachineState}
    → IsSound g
    → IsSound (apply_match settings dt m g)
unfolding apply_match
apply_match-IsSound settings dt none v = ground arith
apply_match-IsSound settings dt (some (cond_name, ac)) v =
    count_down-IsSound settings dt cond_name ac v

apply_rules-IsSound :
    (settings : Settings) (phase : FlightPhase) (dt : ℤ)
    (cs : Option (List (String × AutoCorrection))) {g : AtcMachineState}
    → IsSound g
    → IsSound (apply_rules settings phase dt cs g)
unfolding apply_rules
apply_rules-IsSound settings phase dt none v = v
apply_rules-IsSound settings phase dt (some cs) v =
    apply_match-IsSound settings dt (first_match phase cs) v

pub check_auto_correction-IsSound :
    (settings : Settings) (rules : FlightRules) (phase : FlightPhase) (dt now_secs : ℤ)
    {g : AtcMachineState}
    → IsSound g
    → IsSound (check_auto_correction settings rules phase dt now_secs g)
unfolding check_auto_correction
check_auto_correction-IsSound settings rules phase dt now_secs {g} v =
    let g' = set_last_now_secs now_secs g in
    let same : IsSound g' = ground arith in
    ground (
      arith,
      same,
      apply_rules-IsSound settings phase dt
          (find_key (state_name g.state g.departure_type) rules.auto_corrections) same,
    )

pub restore_snapshot_if_gen-IsSound :
    (snap : AtcMachineState) (expected : ℕ) (w : World)
    → IsSound snap
    → IsSound w.g
    → IsSound (restore_snapshot_if_gen snap expected w).0.g
unfolding restore_snapshot_if_gen
restore_snapshot_if_gen-IsSound snap expected w s v = ground arith
