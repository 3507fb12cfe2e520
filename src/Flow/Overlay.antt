-- ===== src/Flow/Overlay.antt =====
-- The landing sequence laid over a landing clearance (src/atc/flows/pattern_flow.cpp).
use xp_welly_llm_atc.Base.{
  ℕ, leb, ℤ, pos, ltb_ℤ, String, true, false, not, ◌||◌, List, [], ◌∷◌, is_empty, Option, none,
  some, ◌==◌, string_eq, empty, if◌then◌else◌,
}
use xp_welly_llm_atc.State.{AtcState, AtcResponse, atc_state_eq}
use xp_welly_llm_atc.Context.{XPlaneContext, RunwayEnd, RunwayInfo, Geometry}
use xp_welly_llm_atc.Traffic.{TrafficTarget}
use xp_welly_llm_atc.Traffic.Sequence.{
  ActiveRunway, UserPosition, SequenceResult, compute_landing_sequence, leg_label,
}
use xp_welly_llm_atc.Templates.{Templates, lookup, fill}
use xp_welly_llm_atc.Vars.{Vars, put}

-- 2500 m where the length is missing.
abbrev pub runway_from : RunwayEnd → ℤ → ActiveRunway
runway_from end length_m = record {
  threshold_lat = end.lat;
  threshold_lon = end.lon;
  heading_deg = end.heading_deg;
  length_m = if ltb_ℤ length_m (pos 500000) then pos 2500000 else length_m;
  designator = end.number;
}

-- The loop: the first end with the designator.
unfoldable pub find_end : String → List RunwayInfo → Option ActiveRunway
find_end rwy [] = none
find_end rwy (rw' ∷ rest) =
    if rw'.end1.number == rwy
    then some (runway_from rw'.end1 rw'.length_m)
    else if rw'.end2.number == rwy
    then some (runway_from rw'.end2 rw'.length_m)
    else find_end rwy rest

unfoldable pub resolve_active_runway : XPlaneContext → Option ActiveRunway
unfolding find_end
resolve_active_runway ctx =
    if empty ctx.active_runway || is_empty ctx.runways
    then none
    else find_end ctx.active_runway ctx.runways

module _ (t : Templates) where
  unfoldable pub render_overlay : String → Vars → AtcResponse → AtcResponse
  render_overlay key vars resp =
      let tmpl = lookup t true "Pattern/LANDING_CLEARED" key false in
      if empty tmpl.response_template
      then resp
      else record resp { text = fill tmpl.response_template vars }

  -- The variables that name the traffic to follow.
  abbrev pub follow_vars : (ℕ → String) → String → ℕ → TrafficTarget → Vars → Vars
  follow_vars decimal leg n follow vars = put "seq_position" leg (
      put "seq_type" (if empty follow.icao_type then "traffic" else follow.icao_type)
        (put "seq_number" (decimal n) vars))

  module _ (geo : Geometry) (decimal : ℕ → String)
      (pattern_direction : String → String → String) where
    unfoldable pub overlay :
        XPlaneContext → ActiveRunway → SequenceResult → Vars → AtcResponse → AtcResponse
    overlay ctx rwy seq vars resp =
        if seq.runway_occupied
        then record (render_overlay "continue_approach_traffic_runway" vars resp) {
          next_state = AtcState.landing_cleared;
        }
        else elim seq.follow_target [
          | none ↦ resp
          | some follow ↦
              let dir = pattern_direction ctx.nearest_airport_id ctx.active_runway in
              if leb 2 seq.user_position
              then render_overlay "number_to_land_follow"
                  (follow_vars decimal (leg_label geo follow rwy dir) seq.user_position follow vars)
                  resp
              else resp
        ]

    unfoldable pub apply_landing_sequence :
        XPlaneContext → List TrafficTarget → Vars → AtcResponse → AtcResponse
    unfolding overlay
    apply_landing_sequence ctx traffic vars resp =
        if not (resp.next_state == AtcState.landing_cleared)
        then resp
        else elim (resolve_active_runway ctx) [
          | none ↦ resp
          | some rwy ↦
              let user : UserPosition = record { lat = ctx.latitude; lon = ctx.longitude } in
              overlay ctx rwy (compute_landing_sequence geo traffic user rwy) vars resp
        ]
