-- ===== src/Traffic/Classifier.antt =====
-- The phase of another aircraft (src/data/traffic_phase_classifier.cpp).
use xp_welly_llm_atc.Base.{
  ℤ, pos, negsuc, ◌-ℤ◌, abs, ltb_ℤ, leb_ℤ, String, Bool, true, false, ◌&&◌, Option, none, some,
  if◌then◌else◌,
}
use xp_welly_llm_atc.Context.{Geometry}
use xp_welly_llm_atc.Traffic.{
  TrafficPhase, TrafficTarget, traffic_phase_eq, runway_axis_offsets, signed_diff,
}

pub record AirportRunwayHints : Type 0 where
  pub airport_lat : ℤ
  pub airport_lon : ℤ
  pub threshold_lat : ℤ
  pub threshold_lon : ℤ
  pub runway_heading_deg : ℤ
  pub pattern_direction : String

unfoldable pub was_airborne : TrafficPhase → Bool
was_airborne TrafficPhase.climb = true
was_airborne TrafficPhase.cruise = true
was_airborne TrafficPhase.descend = true
was_airborne TrafficPhase.final = true
was_airborne TrafficPhase.pattern = true
was_airborne _ = false

abbrev pub near_heading : ℤ → ℤ → ℤ → Bool
near_heading track ref tolerance = leb_ℤ (abs (signed_diff track ref)) tolerance

abbrev pub near_opposite : ℤ → ℤ → ℤ → Bool
near_opposite track ref tolerance =
    leb_ℤ (abs (abs (signed_diff track ref) -ℤ pos 180000)) tolerance

abbrev pub near_perpendicular : ℤ → ℤ → ℤ → Bool
near_perpendicular track ref tolerance =
    leb_ℤ (abs (abs (signed_diff track ref) -ℤ pos 90000)) tolerance

-- -200 fpm.
abbrev pub final_descent_fpm : ℤ
final_descent_fpm = negsuc 199999

module _ (geo : Geometry) where
  unfoldable pub classify_airborne_near_airport : TrafficTarget → AirportRunwayHints → TrafficPhase
  classify_airborne_near_airport t hints =
      let along_m =
        (runway_axis_offsets geo t.lat t.lon hints.threshold_lat hints.threshold_lon
          hints.runway_heading_deg).0 in
      let dist_thresh_nm = geo.distance_nm hints.threshold_lat hints.threshold_lon t.lat t.lon in
      let dist_airport_nm = geo.distance_nm hints.airport_lat hints.airport_lon t.lat t.lon in
      if near_heading t.track_deg hints.runway_heading_deg (pos 10000)
        && ltb_ℤ t.vertical_speed_fpm final_descent_fpm
        && leb_ℤ dist_thresh_nm (pos 5000)
        && leb_ℤ along_m (pos 0)
      then TrafficPhase.final
      else if ltb_ℤ (pos 5000) dist_airport_nm
      then TrafficPhase.unknown
      else if near_opposite t.track_deg hints.runway_heading_deg (pos 30000)
      then TrafficPhase.pattern
      else if near_perpendicular t.track_deg hints.runway_heading_deg (pos 30000)
      then TrafficPhase.pattern
      else TrafficPhase.unknown

  -- The refinement near the destination.
  unfoldable pub refine : TrafficTarget → Option AirportRunwayHints → TrafficPhase
  refine target none = TrafficPhase.unknown
  refine target (some hints) =
      let airport_dist_nm =
        geo.distance_nm hints.airport_lat hints.airport_lon target.lat target.lon in
      if ltb_ℤ target.alt_agl_ft (pos 3000000) && leb_ℤ airport_dist_nm (pos 8000)
      then classify_airborne_near_airport target hints
      else TrafficPhase.unknown

  unfoldable pub classify : TrafficTarget → TrafficPhase → Option AirportRunwayHints → TrafficPhase
  classify target prev_phase hints =
      let low = ltb_ℤ target.alt_agl_ft (pos 50000) in
      let gs = target.groundspeed_kts in
      if was_airborne prev_phase && low && ltb_ℤ gs (pos 80000)
      then TrafficPhase.landed
      else if low && ltb_ℤ gs (pos 5000)
      then TrafficPhase.on_ground
      else if low && leb_ℤ (pos 5000) gs && ltb_ℤ gs (pos 40000)
      then TrafficPhase.taxi
      else if ltb_ℤ target.alt_agl_ft (pos 200000)
          && leb_ℤ (pos 40000) gs
          && ltb_ℤ (pos 200000) target.vertical_speed_fpm
      then TrafficPhase.takeoff
      else refine target hints
