-- ===== src/Phase/Detect.antt =====
-- The phase detector and its hysteresis (src/atc/flight_phase.cpp): `detect_raw` classifies one
-- snapshot, and `update` changes the phase only after a candidate has lasted.
use xp_welly_llm_atc.Base.{
  ℤ, pos, ◌+ℤ◌, ◌-ℤ◌, fmod, abs, ltb_ℤ, leb_ℤ, String, Bool, true, false, not, ◌&&◌, ◌||◌, List, [],
  ◌∷◌, ◌==◌, string_eq, bool_eq, empty, if◌then◌else◌,
}
use xp_welly_llm_atc.Context.{XPlaneContext, RunwayInfo, Geometry}
use xp_welly_llm_atc.Machine.{AtcMachineState, set_was_airborne}
use xp_welly_llm_atc.Phase.{FlightPhase, flight_phase_eq, is_airborne, is_on_ground}

pub record PhaseThresholds : Type 0 where
  pub taxi_min_gs_kt : ℤ
  pub roll_min_gs_kt : ℤ
  pub climb_min_vs_fpm : ℤ
  pub pattern_max_agl_ft : ℤ
  pub near_airport_nm : ℤ
  pub runway_aligned_deg : ℤ
  pub final_descent_rate_fpm : ℤ

pub record HysteresisConfig : Type 0 where
  pub ground_to_airborne_sec : ℤ
  pub airborne_to_landing_sec : ℤ

-- The statics that `update` keeps between frames.
pub record PhaseState : Type 0 where
  pub current_phase : FlightPhase
  pub candidate_phase : FlightPhase
  pub candidate_timer : ℤ
  pub was_airborne : Bool
  pub has_landed : Bool
  pub parked_secs : ℤ

abbrev pub parked_clears_landed_secs : ℤ
parked_clears_landed_secs = pos 300000

-- `atc_state_machine::effective_runway`.
unfoldable pub effective_runway : AtcMachineState → XPlaneContext → String
effective_runway g ctx = if empty g.assigned_runway then ctx.active_runway else g.assigned_runway

-- The loop of `active_runway_heading`; -1 for no such runway.
unfoldable pub heading_of : String → List RunwayInfo → ℤ
heading_of rwy [] = pos 0 -ℤ pos 1000
heading_of rwy (r ∷ rs) =
    if r.end1.number == rwy
    then r.end1.heading_deg
    else if r.end2.number == rwy
    then r.end2.heading_deg
    else heading_of rwy rs

abbrev pub active_runway_heading : AtcMachineState → XPlaneContext → ℤ
active_runway_heading g ctx = heading_of (effective_runway g ctx) ctx.runways

-- The unsigned difference of two headings, in thousandths of a degree.
unfoldable pub angle_diff : ℤ → ℤ → ℤ
angle_diff a b = abs (fmod (a -ℤ b +ℤ pos 540000) 360000 -ℤ pos 180000)

module _ (geo : Geometry) (thresholds : PhaseThresholds) where
  open thresholds use {
    taxi_min_gs_kt, roll_min_gs_kt, climb_min_vs_fpm, pattern_max_agl_ft, near_airport_nm,
    runway_aligned_deg, final_descent_rate_fpm,
  }

  unfoldable pub ground_phase : Bool → ℤ → FlightPhase
  ground_phase was_airborne gs =
      if leb_ℤ roll_min_gs_kt gs
      then (if was_airborne then FlightPhase.landing_roll else FlightPhase.takeoff_roll)
      else if leb_ℤ taxi_min_gs_kt gs
      then FlightPhase.taxi
      else FlightPhase.parked

  -- Descending, aligned with the runway, and the field ahead.
  unfoldable pub on_final : AtcMachineState → XPlaneContext → Bool
  on_final g ctx =
      let rwy_hdg = active_runway_heading g ctx in
      let brg_to_airport =
        geo.bearing_deg ctx.latitude ctx.longitude ctx.airport_lat ctx.airport_lon in
      leb_ℤ (pos 0) rwy_hdg
      && ltb_ℤ ctx.vertical_speed_fpm final_descent_rate_fpm
      && ltb_ℤ (angle_diff ctx.heading_true rwy_hdg) runway_aligned_deg
      && ltb_ℤ (angle_diff ctx.heading_true brg_to_airport) (pos 90000)

  unfoldable pub airborne_phase : AtcMachineState → XPlaneContext → FlightPhase
  airborne_phase g ctx =
      let dist_nm = geo.distance_nm ctx.latitude ctx.longitude ctx.airport_lat ctx.airport_lon in
      if ltb_ℤ dist_nm near_airport_nm && ltb_ℤ ctx.height_agl_ft pattern_max_agl_ft
      then (if on_final g ctx then FlightPhase.final_approach else FlightPhase.pattern)
      else if ltb_ℤ climb_min_vs_fpm ctx.vertical_speed_fpm
      then FlightPhase.climb
      else FlightPhase.cruise

  unfoldable pub detect_raw : Bool → AtcMachineState → XPlaneContext → FlightPhase
  detect_raw was_airborne g ctx =
      if ctx.on_ground then ground_phase was_airborne ctx.groundspeed_kts else airborne_phase g ctx

abbrev pub swaps_final : FlightPhase → FlightPhase → Bool
swaps_final from to =
    (from == FlightPhase.pattern && to == FlightPhase.final_approach)
    || (from == FlightPhase.final_approach && to == FlightPhase.pattern)

unfoldable pub needs_hysteresis : FlightPhase → FlightPhase → Bool
needs_hysteresis from to =
    if is_on_ground from && not (is_on_ground to)
    then true
    else if not (is_on_ground from) && to == FlightPhase.landing_roll
    then true
    else swaps_final from to

unfoldable pub hysteresis_duration : HysteresisConfig → FlightPhase → FlightPhase → ℤ
hysteresis_duration h from to =
    if is_on_ground from && not (is_on_ground to)
    then h.ground_to_airborne_sec
    else if not (is_on_ground from) && to == FlightPhase.landing_roll
    then h.airborne_to_landing_sec
    else if swaps_final from to
    then pos 3000
    else pos 0

-- Five minutes parked end the arrival.
unfoldable pub tick_parked : ℤ → PhaseState → PhaseState
tick_parked dt p =
    if p.current_phase == FlightPhase.parked
    then record p {
      parked_secs = p.parked_secs +ℤ dt;
      has_landed =
          if ltb_ℤ parked_clears_landed_secs (p.parked_secs +ℤ dt) then false else p.has_landed;
    }
    else p

-- A new candidate starts the timer.
unfoldable pub track_candidate : FlightPhase → PhaseState → PhaseState
track_candidate raw p =
    if raw == p.candidate_phase
    then p
    else record p { candidate_phase = raw; candidate_timer = pos 0 }

-- The change of phase, with the latches that follow it.
unfoldable pub enter_phase : FlightPhase → PhaseState → PhaseState
enter_phase raw p = record p {
  current_phase = raw;
  has_landed =
      if raw == FlightPhase.landing_roll && p.was_airborne
      then true
      else if raw == FlightPhase.takeoff_roll
      then false
      else p.has_landed;
  parked_secs = if not (raw == FlightPhase.parked) then pos 0 else p.parked_secs;
  was_airborne =
      if is_airborne raw
      then true
      else if is_on_ground raw
          && not (raw == FlightPhase.takeoff_roll)
          && not (raw == FlightPhase.landing_roll)
      then false
      else p.was_airborne;
}

-- The part of `update` behind the detection, on the detector's own state.
unfoldable pub settle_phase : HysteresisConfig → FlightPhase → ℤ → PhaseState → PhaseState
unfolding track_candidate enter_phase
settle_phase h raw dt p0 =
    if raw == p0.current_phase
    then record p0 { candidate_phase = raw; candidate_timer = pos 0 }
    else let p = track_candidate raw p0 in
      let waited = record p { candidate_timer = p.candidate_timer +ℤ dt } in
      if needs_hysteresis p.current_phase raw
      then (if ltb_ℤ waited.candidate_timer (hysteresis_duration h p.current_phase raw)
          then waited
          else enter_phase raw waited)
      else enter_phase raw p

abbrev mark_airborne : PhaseState → AtcMachineState → AtcMachineState
mark_airborne p g = if is_airborne p.current_phase then set_was_airborne true g else g

module _ (geo : Geometry) (thresholds : PhaseThresholds) (h : HysteresisConfig) where
  -- `update`: the flag of the state machine is set before and after the change.
  unfoldable pub update :
      XPlaneContext → ℤ → PhaseState → AtcMachineState → PhaseState × AtcMachineState
  update ctx dt p0 g0 =
      let p1 = tick_parked dt p0 in
      let raw = detect_raw geo thresholds p1.was_airborne g0 ctx in
      let p2 = settle_phase h raw dt p1 in (p2, mark_airborne p2 (mark_airborne p1 g0))
