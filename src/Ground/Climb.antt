-- ===== src/Ground/Climb.antt =====
-- The texts of the initial altitude and of the climb after departure.
use xp_welly_llm_atc.Base.{
  ℕ, ◌+◌, ◌*◌, ◌/◌, ◌%◌, ltb, leb, leb_ℤ, ℤ, pos, String, Bool, not, ◌&&◌, List, [], ◌∷◌, contains,
  ◌==◌, nat_eq, string_eq, empty, ◌+s◌, if◌then◌else◌,
}
use xp_welly_llm_atc.State.{AtcState, atc_state_eq}
use xp_welly_llm_atc.Machine.{AtcMachineState}
use xp_welly_llm_atc.Airport.Stand.{EngineKind, engine_kind_eq}
use xp_welly_llm_atc.Ground.{GroundContext, Services}

abbrev pub sid_name : GroundContext → String
sid_name ctx = if not (empty ctx.ifr_cifp_sid) then ctx.ifr_cifp_sid else ctx.ifr_sid

-- The published initial climb, 0 where there is none.
abbrev pub published_climb_ft : Services → GroundContext → ℕ
published_climb_ft sv ctx =
    sv.sid_initial_climb_ft ctx.base.nearest_airport_id (sid_name ctx)
      (ctx.aircraft_engine_kind == EngineKind.jet)

abbrev pub transition_ft : GroundContext → ℕ
transition_ft ctx = if ltb 0 ctx.transition_alt_ft then ctx.transition_alt_ft else 5000

abbrev pub feet_text : Services → ℕ → String
feet_text sv ft = sv.decimal ft +s " feet"

unfoldable pub ifr_initial_altitude : Services → GroundContext → String
ifr_initial_altitude sv ctx =
    let ov = published_climb_ft sv ctx in
    let cifp = sv.initial_altitude ctx.base.nearest_airport_id ctx.base.active_runway in
    if ltb 0 ov
    then (if leb (transition_ft ctx) ov && ov % 100 == 0
        then "FL" +s sv.padded 3 (ov / 100)
        else feet_text sv ov)
    else if ltb 0 cifp.feet
    then (if cifp.is_fl then "FL" +s sv.decimal (cifp.feet / 100) else feet_text sv cifp.feet)
    else if ltb 0 ctx.transition_alt_ft
    then feet_text sv ctx.transition_alt_ft
    else feet_text sv sv.rules.ifr_defaults.initial_altitude_ft

-- A level is not above the cruise level.
unfoldable pub fl_str : Services → GroundContext → ℕ → String
fl_str sv ctx fl =
    let cruise_fl = ctx.ifr_cruise_alt_ft / 100 in
    "FL" +s sv.decimal (if ltb 0 cruise_fl && ltb cruise_fl fl then cruise_fl else fl)

abbrev pub west_fixes : List String
west_fixes = "LSE" ∷ "LTP" ∷ "ROMAM" ∷ []

abbrev pub departure_fix : GroundContext → String
departure_fix ctx =
    if empty ctx.ifr_sid_last_fix then ctx.ifr_fpl_first_fix else ctx.ifr_sid_last_fix

-- A departure from runway 04 of LFLP to the west.
unfoldable pub is_west_departure : GroundContext → Bool
is_west_departure ctx =
    ctx.base.nearest_airport_id == "LFLP"
    && ctx.base.active_runway == "04"
    && contains west_fixes (departure_fix ctx)

-- Half way between the initial altitude and the minimum of the procedure, rounded up to a level.
unfoldable pub computed_fl : Services → GroundContext → ℕ
computed_fl sv ctx =
    let cifp = sv.initial_altitude ctx.base.nearest_airport_id ctx.base.active_runway in
    let init_ft =
      if ltb 0 cifp.feet
      then cifp.feet
      else if ltb 0 ctx.transition_alt_ft
      then ctx.transition_alt_ft
      else sv.rules.ifr_defaults.initial_altitude_ft in
    let sid_min = if ltb 0 ctx.ifr_sid_min_alt_ft then ctx.ifr_sid_min_alt_ft else init_ft + 6000 in
    ((init_ft + sid_min) / 2 + 999) / 1000 * 10

-- `computed_fl < (int)pressure_alt_ft / 100`, on numbers of thousandths.
abbrev pub below_now : ℕ → ℤ → Bool
below_now fl pressure_alt_ft = leb_ℤ (pos ((fl + 1) * 100000)) pressure_alt_ft

unfoldable pub ifr_departure_climb : Services → GroundContext → AtcMachineState → String
unfolding fl_str is_west_departure computed_fl
ifr_departure_climb sv ctx g =
    let ov = published_climb_ft sv ctx in
    let cleared = sv.current_cleared_alt_ft in
    if ltb 0 ov && g.state == AtcState.ifr_predep_clearance
    then fl_str sv ctx (ov / 100)
    else if ltb 0 cleared
    then (if leb (transition_ft ctx) cleared
        then "FL" +s sv.decimal (cleared / 100)
        else feet_text sv cleared)
    else if ltb 0 ov
    then fl_str sv ctx (ov / 100)
    else if ctx.base.nearest_airport_id == "LFLP"
    then fl_str sv ctx (if is_west_departure ctx then 90 else 110)
    else if ltb 0 ctx.ifr_cruise_alt_ft && below_now (computed_fl sv ctx) ctx.pressure_alt_ft
    then fl_str sv ctx (ctx.ifr_cruise_alt_ft / 100)
    else fl_str sv ctx (computed_fl sv ctx)

unfoldable pub ifr_departure_constraint : GroundContext → String
unfolding is_west_departure
ifr_departure_constraint ctx =
    if is_west_departure ctx then ", cross SOCOF at or above 4000 feet" else ""
