-- ===== src/Examples/Air.antt =====
-- The theorems on other aircraft and controllers at concrete values.
use xp_welly_llm_atc.Base.{
  ℕ, ◌+◌, ℤ, pos, ◌<ℤ◌, ◌≤ℤ◌, ◌-ℤ◌, ◌+ℤ◌, ltb_ℤ, String, true, false, not, ◌&&◌, List, [], ◌∷◌,
  Option, none, some, ◌==◌, ◌≡◌, ◌≢◌, ◌⊎◌, refl, All, string_eq, arith, if◌then◌else◌, inl,
  get_elem?, nat_eq,
}
use xp_welly_llm_atc.State.{AtcState}
use xp_welly_llm_atc.Intent.{PilotIntent, pilot_intent_eq}
use xp_welly_llm_atc.World.{dialog_init}
use xp_welly_llm_atc.Sector.{Controller, ControllerRole, pick_next, pick_from, offer, beats}
use xp_welly_llm_atc.Sector.{pick_next_approach, facility_dist_to}
use xp_welly_llm_atc.Sector.Approach.{ServesBetter, pick_next_approach-best}
use xp_welly_llm_atc.Sector.Choice.{Offered, eligible, Outranks, pick_next-best}
use xp_welly_llm_atc.Traffic.{TrafficPhase, TrafficTarget}
use xp_welly_llm_atc.Traffic.Sequence.{ActiveRunway, UserPosition, compute_landing_sequence}
use xp_welly_llm_atc.Traffic.Sequence.Order.{finals_ahead, compute_landing_sequence-user_position}
use xp_welly_llm_atc.Traffic.Sequence.Follow.{
  Behind, from_threshold, compute_landing_sequence-follow_target,
}
use xp_welly_llm_atc.Traffic.Advisor.{
  UserState, AdvisoryHistory, TrafficAdvisory, evaluate, evaluate_ground_conflict, evaluate_air,
  first_target, air_calls, target_qualifies, in_forward_arc, closure_kts, laterally_converging,
  within, stamp, gating_passes, mark_emitted, mark_acknowledged_visual, air_advisory,
}
use xp_welly_llm_atc.Traffic.Advisor.Cooldown.{
  pause, repeat_after, evaluate-mark_emitted, evaluate-mark_acknowledged_visual,
}
use xp_welly_llm_atc.Traffic.Dialog.{
  is_awaiting_ack, on_advisory_emitted, is_traffic_intent, handle_pilot,
}
use xp_welly_llm_atc.Traffic.Dialog.Turn.{handle_pilot_lem}
use xp_welly_llm_atc.Examples.{geometry, formats}

abbrev approach : Controller
approach = record {
  name = "Zurich Arrival";
  facility_id = "LSZH";
  role = ControllerRole.tracon;
  freqs_khz = 118000 ∷ [];
  floor_ft = pos 3000;
  ceiling_ft = pos 9000;
}

abbrev centre : Controller
centre = record approach {
  name = "Swiss";
  role = ControllerRole.ctr;
  freqs_khz = 133000 ∷ [];
  floor_ft = pos 9000;
}

abbrev around : List (Option Controller)
around = some centre ∷ none ∷ some approach ∷ []

pick_next-best_example :
    (c : Controller) × (pick_next around [] ≡ some c)
    × Offered c around
    × (eligible [] c ≡ true)
    × ((k : Controller) → Offered k around → eligible [] k ≡ true → ¬ Outranks k c)
pick_next-best_example = pick_next-best around [] centre (inl refl) (ground arith)

picked : pick_next around [] ≡ some approach
unfolding pick_next pick_from offer beats
picked = ground arith

abbrev nowhere : String → ℤ × ℤ
nowhere id = (pos 0, pos 0)

pick_next_approach-best_example :
    (c : Controller) × (pick_next_approach geometry nowhere around [] (pos 1) (pos 1) ≡ some c)
    × Offered c around
    × (eligible [] c ≡ true)
    × ((k : Controller)
        → Offered k around
        → eligible [] k ≡ true
        → ¬ ServesBetter (facility_dist_to geometry nowhere (pos 1) (pos 1)) k c)
pick_next_approach-best_example =
    pick_next_approach-best geometry nowhere (pos 1) (pos 1) around [] centre (inl refl)
      (ground arith)

abbrev runway : ActiveRunway
runway = record {
  threshold_lat = pos 0;
  threshold_lon = pos 0;
  heading_deg = pos 280000;
  length_m = pos 2500000;
  designator = "28";
}

abbrev target : ℕ → ℕ → TrafficPhase → TrafficTarget
target id lat phase = record {
  mode_s_id = id;
  callsign = "SWR1";
  icao_type = "A320";
  lat = pos lat;
  lon = pos 0;
  alt_msl_ft = pos 3000000;
  alt_agl_ft = pos 1500000;
  bearing_from_user_deg = pos 0;
  clock_position = pos 12000;
  distance_to_user_nm = pos 4000;
  altitude_diff_ft = pos 0;
  groundspeed_kts = pos 100000;
  vertical_speed_fpm = pos 0;
  track_deg = pos 90000;
  phase = phase;
}

abbrev snapshot : List TrafficTarget
snapshot =
    target 1 2000 TrafficPhase.final
    ∷ target 2 3000 TrafficPhase.final
    ∷ target 3 4000 TrafficPhase.cruise
    ∷ target 4 9000 TrafficPhase.final
    ∷ []

abbrev user : UserPosition
user = record { lat = pos 5000; lon = pos 0 }

compute_landing_sequence-user_position_example :
    (compute_landing_sequence geometry snapshot user runway).user_position
    ≡ finals_ahead geometry runway (pos 5000) snapshot + 1
compute_landing_sequence-user_position_example =
    compute_landing_sequence-user_position geometry runway snapshot user

two_ahead : finals_ahead geometry runway (pos 5000) snapshot ≢ 0
two_ahead e = ground (arith, e)

compute_landing_sequence-follow_target_example :
    (k : ℕ) × (t : TrafficTarget) × ((compute_landing_sequence geometry snapshot user
        runway).follow_target
      ≡ some t)
    × (get_elem? snapshot k ≡ some t)
    × (t.phase ≡ TrafficPhase.final)
    × (from_threshold geometry runway t ≤ℤ pos 5000)
    × All
        (λ u.
          (u.phase ≢ TrafficPhase.final)
          ⊎ Behind (pos 5000) (from_threshold geometry runway t) (from_threshold geometry runway u))
        snapshot
compute_landing_sequence-follow_target_example =
    compute_landing_sequence-follow_target geometry runway snapshot user two_ahead

abbrev flying : UserState
flying = record {
  atc_state = AtcState.en_route;
  on_active_atc_freq = true;
  lat = pos 0;
  lon = pos 0;
  alt_msl_ft = pos 3000000;
  heading_deg = pos 0;
  track_deg = pos 0;
  groundspeed_kts = pos 100000;
  on_ground = false;
  target_has_mode_c_default = false;
  user_taxiing = false;
}

abbrev silent : AdvisoryHistory
silent = record {
  last_issued_secs = [];
  acknowledged_visual_secs = [];
  last_global_emit_secs = pos 0;
}

abbrev call : TrafficAdvisory
call = air_advisory formats flying (target 2 3000 TrafficPhase.final)

handle_pilot_example :
    let (d', r) =
      handle_pilot formats
        (λ key vars. key)
        PilotIntent.traffic_in_sight
        []
        snapshot
        (on_advisory_emitted 2) in
    (r.handled
      ≡ (is_awaiting_ack (on_advisory_emitted 2) && is_traffic_intent PilotIntent.traffic_in_sight))
    × (r.acknowledged_with_visual
        ≡ (r.handled && PilotIntent.traffic_in_sight == PilotIntent.traffic_in_sight))
    × (is_awaiting_ack d' ≡ (is_awaiting_ack (on_advisory_emitted 2) && not r.handled))
    × (d' ≡ (if r.handled then dialog_init else on_advisory_emitted 2))
handle_pilot_example =
    handle_pilot_lem formats (λ key vars. key) PilotIntent.traffic_in_sight [] snapshot
      (on_advisory_emitted 2)

called :
    evaluate geometry formats snapshot flying (mark_emitted silent 1 (pos 0)) (pos 30000)
    ≡ some call
unfolding evaluate evaluate_ground_conflict evaluate_air first_target air_calls target_qualifies
    in_forward_arc closure_kts laterally_converging within mark_emitted mark_acknowledged_visual
    stamp gating_passes ◌-ℤ◌ ◌+ℤ◌
called = ground arith

call_needs_ack : call.requires_ack ≡ true
unfolding air_advisory
call_needs_ack = refl

evaluate-mark_emitted_example :
    (pause call ≤ℤ pos 30000 -ℤ pos 0)
    × ((call.mode_s_id == 1 && ltb_ℤ (pos 30000 -ℤ pos 0) (repeat_after call)) ≡ false)
evaluate-mark_emitted_example =
    evaluate-mark_emitted geometry formats snapshot flying silent 1 (pos 0) (pos 30000) call called

called_past :
    evaluate geometry formats snapshot flying
      (mark_acknowledged_visual silent 1 (pos 0))
      (pos 30000)
    ≡ some call
unfolding evaluate evaluate_ground_conflict evaluate_air first_target air_calls target_qualifies
    in_forward_arc closure_kts laterally_converging within mark_emitted mark_acknowledged_visual
    stamp gating_passes ◌-ℤ◌ ◌+ℤ◌
called_past = ground arith

soon : pos 30000 -ℤ pos 0 <ℤ pos 300000
unfolding ◌-ℤ◌
soon = omega arith

evaluate-mark_acknowledged_visual_example : call.mode_s_id ≢ 1
evaluate-mark_acknowledged_visual_example =
    evaluate-mark_acknowledged_visual geometry formats snapshot flying silent 1 (pos 0) (pos 30000)
      call called_past soon call_needs_ack
