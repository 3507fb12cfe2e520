-- ===== src/Traffic.antt =====
-- The other aircraft (src/data/traffic_context.hpp) and the phraseology of their geometry
-- (src/data/traffic_geometry.cpp).
pub mod Clock
pub mod Classifier
pub mod Sequence
pub mod Advisor
pub mod Dialog
use xp_welly_llm_atc.Base.{
  ℕ, ◌+◌, ◌*◌, ◌/◌, leb, ltb, ℤ, pos, negsuc, ◌+ℤ◌, ◌-ℤ◌, ◌*ℤ◌, fmod, abs, ltb_ℤ, leb_ℤ, String,
  Bool, true, false, ◌&&◌, ◌||◌, List, ◌==◌, nat_eq, Eq, ◌+s◌, if◌then◌else◌,
}
use xp_welly_llm_atc.Context.{Geometry, Formats}

pub data TrafficPhase : Type 0 where
  unknown on_ground taxi takeoff climb cruise descend final pattern landed : TrafficPhase

pub TrafficPhase-discrete : Discrete TrafficPhase
TrafficPhase-discrete = hlevel

instance abbrev pub traffic_phase_eq : Eq TrafficPhase
traffic_phase_eq = record { dec = TrafficPhase-discrete }

-- All but the wake category, which none of the modelled code reads.
pub record TrafficTarget : Type 0 where
  pub mode_s_id : ℕ
  pub callsign : String
  pub icao_type : String
  pub lat : ℤ
  pub lon : ℤ
  pub alt_msl_ft : ℤ
  pub alt_agl_ft : ℤ
  pub bearing_from_user_deg : ℤ
  pub clock_position : ℤ
  pub distance_to_user_nm : ℤ
  pub altitude_diff_ft : ℤ
  pub groundspeed_kts : ℤ
  pub vertical_speed_fpm : ℤ
  pub track_deg : ℤ
  pub phase : TrafficPhase

-- `std::round(rel / 30.0)` for `rel` in thousandths, collapsed onto 1 to 12.
clock_of : ℤ → ℕ
clock_of (pos n) =
    let hours = (n + 15000) / 30000 in if hours == 0 || leb 12 hours then 12 else hours
clock_of (negsuc n) = 12

unfoldable pub clock_position : ℤ → ℤ → ℕ
unfolding clock_of
clock_position user_heading_deg target_bearing_deg =
    clock_of (fmod (target_bearing_deg -ℤ user_heading_deg +ℤ pos 720000) 360000)

abbrev pub between : ℤ → ℤ → ℤ → Bool
between lo hi x = leb_ℤ lo x && leb_ℤ x hi

unfoldable pub relative_track : ℤ → ℤ → String
relative_track diff clock_pos =
    if between (pos 150000) (pos 210000) diff
    then "opposite direction"
    else if leb_ℤ diff (pos 30000) || leb_ℤ (pos 330000) diff
    then "same direction"
    else if between (pos 60000) (pos 120000) diff
        && ltb_ℤ (pos 6000) clock_pos
        && ltb_ℤ clock_pos (pos 12000)
    then "crossing left to right"
    else if between (pos 240000) (pos 300000) diff
        && ltb_ℤ (pos 0) clock_pos
        && ltb_ℤ clock_pos (pos 6000)
    then "crossing right to left"
    else "converging"

unfoldable pub classify_relative_track : ℤ → ℤ → ℤ → String
unfolding relative_track
classify_relative_track user_track_deg target_track_deg clock_pos =
    relative_track (fmod (target_track_deg -ℤ user_track_deg +ℤ pos 720000) 360000) clock_pos

-- `round_to_100` of a value in thousandths; the sign and the rounded feet.
abbrev pub round_to_100 : ℕ → ℕ
round_to_100 n = (n + 50000) / 100000 * 100

abbrev rounded_text : Formats → ℤ → String
rounded_text fmt (pos n) = fmt.decimal (round_to_100 n)
rounded_text fmt (negsuc n) =
    if round_to_100 (n + 1) == 0 then fmt.decimal 0 else "-" +s fmt.decimal (round_to_100 (n + 1))

unfoldable pub format_altitude_info : Formats → ℤ → ℤ → Bool → String
format_altitude_info fmt target_alt_msl_ft user_alt_msl_ft has_mode_c =
    let diff = target_alt_msl_ft -ℤ user_alt_msl_ft in
    if has_mode_c
    then "indicating " +s rounded_text fmt target_alt_msl_ft +s " feet"
    else if ltb_ℤ (abs diff) (pos 2000000)
    then rounded_text fmt (abs diff)
      +s " feet "
      +s (if leb_ℤ (pos 0) diff then "above" else "below")
    else "altitude unknown"

module _ (geo : Geometry) where
  -- The offsets from the threshold along the runway and across it, in thousandths of a metre.
  unfoldable pub runway_axis_offsets : ℤ → ℤ → ℤ → ℤ → ℤ → ℤ × ℤ
  runway_axis_offsets target_lat target_lon threshold_lat threshold_lon heading =
      let dist_m = geo.distance_nm threshold_lat threshold_lon target_lat target_lon *ℤ pos 1852 in
      let brg = geo.bearing_deg threshold_lat threshold_lon target_lat target_lon in
      let (along, cross) = geo.project dist_m (brg -ℤ heading) in
      if leb_ℤ dist_m (pos 0) then (pos 0, pos 0) else (along, abs cross)

  unfoldable pub is_on_runway_centerline : ℤ → ℤ → ℤ → ℤ → ℤ → ℤ → ℤ → Bool
  unfolding runway_axis_offsets
  is_on_runway_centerline target_lat target_lon threshold_lat threshold_lon heading length_m
        max_lateral_m =
      let (along, lateral) =
        runway_axis_offsets target_lat target_lon threshold_lat threshold_lon heading in
      if ltb_ℤ max_lateral_m lateral
      then false
      else if ltb_ℤ along (pos 0) || ltb_ℤ length_m along
      then false
      else true

-- The signed difference of two angles, as the classifier and the sequencer write it.
unfoldable pub signed_diff : ℤ → ℤ → ℤ
signed_diff a b = fmod (a -ℤ b +ℤ pos 540000) 360000 -ℤ pos 180000
