-- ===== src/Traffic/Advisor.antt =====
-- The traffic advisor (src/atc/traffic_advisor.cpp): whether a target deserves a call on this tick.
pub mod Cooldown
use xp_welly_llm_atc.Base.{
  ℕ, ℤ, pos, ◌-ℤ◌, ◌+ℤ◌, fmod, abs, ltb_ℤ, leb_ℤ, String, Bool, true, false, not, ◌&&◌, ◌||◌, List,
  [], ◌∷◌, Option, none, some, ◌==◌, nat_eq, bool_eq, string_eq, empty, if◌then◌else◌,
}
use xp_welly_llm_atc.State.{AtcState, atc_state_eq}
use xp_welly_llm_atc.Context.{Geometry, Formats}
use xp_welly_llm_atc.Traffic.{
  TrafficPhase, TrafficTarget, traffic_phase_eq, between, classify_relative_track,
  format_altitude_info,
}

pub record UserState : Type 0 where
  pub atc_state : AtcState
  pub on_active_atc_freq : Bool
  pub lat : ℤ
  pub lon : ℤ
  pub alt_msl_ft : ℤ
  pub heading_deg : ℤ
  pub track_deg : ℤ
  pub groundspeed_kts : ℤ
  pub on_ground : Bool
  pub target_has_mode_c_default : Bool
  pub user_taxiing : Bool

-- A time for each target.
abbrev pub Stamps : Type 0
Stamps = List (ℕ × ℤ)

abbrev pub find_stamp : ℕ → Stamps → Option ℤ
find_stamp id [] = none
find_stamp id ((j, t) ∷ m) = if j == id then some t else find_stamp id m

-- `stamps[id] = now`.
unfoldable pub stamp : ℕ → ℤ → Stamps → Stamps
stamp id now [] = (id, now) ∷ []
stamp id now ((j, t) ∷ m) = if j == id then (j, now) ∷ m else (j, t) ∷ stamp id now m

pub record AdvisoryHistory : Type 0 where
  pub last_issued_secs : Stamps
  pub acknowledged_visual_secs : Stamps
  pub last_global_emit_secs : ℤ

pub record TrafficAdvisory : Type 0 where
  pub mode_s_id : ℕ
  pub vars : List (String × String)
  pub template_key : String
  pub requires_ack : Bool

-- A stamp younger than `limit`.
unfoldable pub within : ℤ → ℤ → Option ℤ → Bool
within limit now none = false
within limit now (some t) = ltb_ℤ (now -ℤ t) limit

unfoldable pub in_forward_arc : ℤ → Bool
in_forward_arc clock_pos =
    if between (pos 9000) (pos 12000) clock_pos
    then true
    else if between (pos 1000) (pos 3000) clock_pos
    then true
    else false

unfoldable pub gating_passes : UserState → Bool
gating_passes user =
    if user.atc_state == AtcState.idle
    then false
    else if user.atc_state == AtcState.unicom_active
    then false
    else user.on_active_atc_freq

unfoldable pub laterally_converging : UserState → TrafficTarget → Bool
laterally_converging user t =
    let diff = fmod (t.track_deg -ℤ user.track_deg +ℤ pos 720000) 360000 in
    between (pos 60000) (pos 120000) diff || between (pos 240000) (pos 300000) diff

unfoldable pub side_from_clock : ℤ → String
side_from_clock clock_pos =
    if between (pos 1000) (pos 3000) clock_pos
    then "right"
    else if between (pos 9000) (pos 11000) clock_pos
    then "left"
    else "left"

unfoldable pub ground_target_qualifies : TrafficTarget → Bool
ground_target_qualifies t =
    if leb_ℤ (pos 300) t.distance_to_user_nm
    then false
    else if not (t.phase == TrafficPhase.taxi)
        && not (t.phase == TrafficPhase.takeoff)
        && not (t.phase == TrafficPhase.landed)
    then false
    else true

unfoldable pub ground_template_for : TrafficTarget → String
ground_template_for t =
    if leb_ℤ (pos 11000) t.clock_position || leb_ℤ t.clock_position (pos 1000)
    then "taxi_hold_position"
    else if leb_ℤ (pos 15000) t.groundspeed_kts
    then "taxi_give_way"
    else "taxi_caution"

unfoldable pub build_ground_vars : TrafficTarget → List (String × String)
build_ground_vars t =
    ("side", side_from_clock t.clock_position)
    ∷ ("type", if empty t.icao_type then "aircraft" else t.icao_type)
    ∷ []

module _ (geo : Geometry) where
  -- The closing speed along the line of sight.
  unfoldable pub closure_kts : UserState → TrafficTarget → ℤ
  closure_kts user t =
      let bearing = t.bearing_from_user_deg in
      let user_along = (geo.project user.groundspeed_kts (user.track_deg -ℤ bearing)).0 in
      let tgt_along = (geo.project t.groundspeed_kts (t.track_deg -ℤ bearing)).0 in
      user_along -ℤ tgt_along

  unfoldable pub target_qualifies : TrafficTarget → UserState → Bool
  target_qualifies t user =
      let target_on_ground = leb_ℤ t.alt_agl_ft (pos 200000) in
      if ltb_ℤ t.distance_to_user_nm (pos 2000) || ltb_ℤ (pos 8000) t.distance_to_user_nm
      then false
      else if ltb_ℤ (pos 1500000) (abs t.altitude_diff_ft)
      then false
      else if not (in_forward_arc t.clock_position)
      then false
      else if not (user.on_ground == target_on_ground)
      then false
      else if leb_ℤ (closure_kts user t) (pos 0) && not (laterally_converging user t)
      then false
      else true

  unfoldable pub cone_hit : UserState → TrafficTarget → Bool
  cone_hit user t =
      geo.path_intersects_cone user.lat user.lon user.heading_deg (pos 30000) (pos 200000) t.lat
        t.lon t.track_deg t.groundspeed_kts (pos 20000)

  -- The target gets a call by the ground rule.
  unfoldable pub ground_calls : UserState → AdvisoryHistory → ℤ → TrafficTarget → Bool
  ground_calls user history now_secs t =
      ground_target_qualifies t
      && cone_hit user t
      && not (within (pos 30000) now_secs (find_stamp t.mode_s_id history.last_issued_secs))

  -- The target gets a call by the airborne rule.
  unfoldable pub air_calls : UserState → AdvisoryHistory → ℤ → TrafficTarget → Bool
  air_calls user history now_secs t =
      target_qualifies t user
      && not (within (pos 60000) now_secs (find_stamp t.mode_s_id history.last_issued_secs))
      && not
          (within (pos 300000) now_secs (find_stamp t.mode_s_id history.acknowledged_visual_secs))

-- The loop over the targets: the first that passes.
unfoldable pub first_target : (TrafficTarget → Bool) → List TrafficTarget → Option TrafficTarget
first_target p [] = none
first_target p (t ∷ ts) = if p t then some t else first_target p ts

unfoldable pub build_advisory_vars : Formats → TrafficTarget → UserState → List (String × String)
build_advisory_vars fmt t user =
    ("clock", fmt.fixed0 t.clock_position)
    ∷ ("distance", fmt.fixed0 t.distance_to_user_nm)
    ∷ ("direction", classify_relative_track user.track_deg t.track_deg t.clock_position)
    ∷ (
      "altitude_info",
      format_altitude_info fmt t.alt_msl_ft user.alt_msl_ft user.target_has_mode_c_default,
    )
    ∷ ("type", if empty t.icao_type then "type unknown" else t.icao_type)
    ∷ []

unfoldable pub ground_advisory : TrafficTarget → TrafficAdvisory
ground_advisory t = record {
  mode_s_id = t.mode_s_id;
  vars = build_ground_vars t;
  template_key = ground_template_for t;
  requires_ack = false;
}

unfoldable pub air_advisory : Formats → UserState → TrafficTarget → TrafficAdvisory
air_advisory fmt user t = record {
  mode_s_id = t.mode_s_id;
  vars = build_advisory_vars fmt t user;
  template_key = "traffic_advisory";
  requires_ack = true;
}

abbrev pub map_option {ℓ κ} : {A : Type ℓ} {B : Type κ} → (A → B) → Option A → Option B
map_option f none = none
map_option f (some a) = some (f a)

module _ (geo : Geometry) (fmt : Formats) where
  unfoldable pub evaluate_ground_conflict :
      List TrafficTarget → UserState → AdvisoryHistory → ℤ → Option TrafficAdvisory
  evaluate_ground_conflict targets user history now_secs =
      if not user.user_taxiing
      then none
      else if ltb_ℤ (now_secs -ℤ history.last_global_emit_secs) (pos 15000)
      then none
      else map_option ground_advisory
          (first_target (ground_calls geo user history now_secs) targets)

  unfoldable pub evaluate_air :
      List TrafficTarget → UserState → AdvisoryHistory → ℤ → Option TrafficAdvisory
  evaluate_air targets user history now_secs =
      if not (gating_passes user)
      then none
      else if ltb_ℤ (now_secs -ℤ history.last_global_emit_secs) (pos 20000)
      then none
      else map_option (air_advisory fmt user)
          (first_target (air_calls geo user history now_secs) targets)

  unfoldable pub evaluate :
      List TrafficTarget → UserState → AdvisoryHistory → ℤ → Option TrafficAdvisory
  evaluate targets user history now_secs =
      elim (evaluate_ground_conflict targets user history now_secs) [
        | some ground ↦ some ground
        | none ↦ evaluate_air targets user history now_secs
      ]

unfoldable pub mark_emitted : AdvisoryHistory → ℕ → ℤ → AdvisoryHistory
mark_emitted history mode_s_id now_secs = record history {
  last_issued_secs = stamp mode_s_id now_secs history.last_issued_secs;
  last_global_emit_secs = now_secs;
}

unfoldable pub mark_acknowledged_visual : AdvisoryHistory → ℕ → ℤ → AdvisoryHistory
mark_acknowledged_visual history mode_s_id now_secs = record history {
  acknowledged_visual_secs = stamp mode_s_id now_secs history.acknowledged_visual_secs;
}
