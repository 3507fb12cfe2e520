-- ===== src/Ground/Vars.antt =====
-- The variables of an answer and what their evaluation does to the session (`build_vars`).
use xp_welly_llm_atc.Base.{
  ℕ, ◌+◌, ltb, leb, String, Bool, not, ◌&&◌, ◌||◌, [], ◌∷◌, ◌++◌, ◌==◌, nat_eq, string_eq, empty,
  find_key, ◌+s◌, if◌then◌else◌,
}
use xp_welly_llm_atc.Context.{FrequencyType, frequency_type_eq}
use xp_welly_llm_atc.Intent.{PilotIntent, PilotMessage, pilot_intent_eq}
use xp_welly_llm_atc.Machine.{AtcMachineState, set_ifr_squawk}
use xp_welly_llm_atc.Airport.{first_mhz}
use xp_welly_llm_atc.Templates.{value}
use xp_welly_llm_atc.Vars.{Vars, to_map}
use xp_welly_llm_atc.Ground.{
  GroundContext, Session, Services, mhz_100, set_pending_handoff_freq, set_pending_departure_label,
  remember_taxi_hold_short,
}
use xp_welly_llm_atc.Ground.Text.{
  get_callsign, get_runway, format_wind, airport_name, extract_position,
}
use xp_welly_llm_atc.Ground.Phonetic.{letter_name, spell_holding_point, format_sid_for_tts}
use xp_welly_llm_atc.Ground.Squawk.{generate_squawk}
use xp_welly_llm_atc.Ground.Climb.{
  sid_name, ifr_initial_altitude, ifr_departure_climb, ifr_departure_constraint,
}
use xp_welly_llm_atc.Ground.Facility.{
  departure_controller, departure_mhz, format_freq, clearance_controller, clearance_facility,
  ifr_ground_handoff, ifr_departure_contact, facility_name, or_text,
}

module _ (sv : Services) where
  abbrev pub set_world_g : AtcMachineState → Session → Session
  set_world_g g s = record s { world = record s.world { g = g } }

  -- "squawk": a request for a clearance draws a new code and keeps it.
  unfoldable pub assign_squawk : PilotMessage → Session → Session
  assign_squawk msg s =
      let range = sv.rules.ifr_defaults in
      let (code, rolls) =
        generate_squawk sv.rand range.squawk_range_min range.squawk_range_max s.rolls in
      if not (msg.intent == PilotIntent.request_ifr_clearance)
      then s
      else record (set_world_g (set_ifr_squawk (sv.padded 4 code) s.world.g) s) { rolls = rolls }

  abbrev pub near : ℕ → ℕ → ℕ → Bool
  near tolerance a b = ltb a (b + tolerance) && ltb b (a + tolerance)

  -- "ifr_departure_contact": the hand-over to Departure is kept while the aircraft stands, unless
  -- another one is pending.
  unfoldable pub cache_departure : GroundContext → Session → Session
  unfolding set_pending_handoff_freq set_pending_departure_label
  cache_departure ctx s =
      let freq = departure_mhz ctx.airport_freqs in
      let existing = s.engine.pending_handoff_freq in
      if ltb 0 sv.rules.ifr_defaults.tower_report_alt_ft
        || ltb freq mhz_100
        || not ctx.base.on_ground
        || not (ltb existing mhz_100 || near 5 existing freq)
      then s
      else record s {
        engine =
            set_pending_handoff_freq freq
              (set_pending_departure_label (facility_name ctx) s.engine);
      }

  -- "holding_point": a runway on the way is remembered.
  unfoldable pub remember_crossing : PilotMessage → GroundContext → Session → Session
  unfolding remember_taxi_hold_short
  remember_crossing msg ctx s =
      let cross = sv.runway_to_cross (get_runway msg ctx s.world.g) in
      if empty cross then s else record s { engine = remember_taxi_hold_short cross s.engine }

  abbrev hold_text : String → String → String
  hold_text hp rwy =
      if empty hp
      then "holding point runway " +s rwy
      else "holding point " +s spell_holding_point hp +s ", runway " +s rwy

  unfoldable pub holding_point : PilotMessage → GroundContext → AtcMachineState → String
  holding_point msg ctx g =
      let rwy = get_runway msg ctx g in
      let cross = sv.runway_to_cross rwy in
      let held = if empty cross then rwy else cross in
      hold_text (value (find_key held ctx.runway_holding_points) "") held

  unfoldable pub squawk_check : GroundContext → AtcMachineState → String
  squawk_check ctx g =
      if empty g.ifr_squawk
        || sv.decimal ctx.transponder_code == g.ifr_squawk && leb 2 ctx.transponder_mode
      then ""
      else ", verify squawk " +s g.ifr_squawk +s " mode Charlie"

  unfoldable pub ifr_clearance_route : PilotMessage → GroundContext → AtcMachineState → String
  ifr_clearance_route msg ctx g =
      if not (empty (sid_name ctx))
      then "as filed via " +s format_sid_for_tts (sid_name ctx) ctx.ifr_sid_last_fix
      else "omnidirectional departure runway "
        +s get_runway msg ctx g
        +s (if empty ctx.ifr_fpl_first_fix then "" else ", then direct " +s ctx.ifr_fpl_first_fix)

  -- The first of the two where a field has no Ground of its own.
  abbrev ground_mhz : GroundContext → ℕ
  ground_mhz ctx =
      let f = first_mhz ctx.airport_freqs FrequencyType.ground in
      if ltb f 1000 && ctx.base.tower_only
      then first_mhz ctx.airport_freqs FrequencyType.tower
      else f

  abbrev position_remark : PilotMessage → String
  position_remark msg =
      if not msg.has_position
        && (msg.intent == PilotIntent.request_taxi || msg.intent == PilotIntent.initial_call_ground)
      then "say position. "
      else ""

  abbrev tower_handoff_phrase : GroundContext → String
  tower_handoff_phrase ctx =
      let tower_freq = first_mhz ctx.airport_freqs FrequencyType.tower in
      if not (ctx.base.frequency_type == FrequencyType.tower) && leb mhz_100 tower_freq
      then ", contact Tower on " +s format_freq sv tower_freq
      else ""

  abbrev hold_short_reminder : String → String
  hold_short_reminder cross = if empty cross then "" else ", hold short of runway " +s cross

  -- The variables that do not concern a clearance.
  unfoldable pub general_vars : PilotMessage → GroundContext → AtcMachineState → Vars
  general_vars msg ctx g =
      let letter = letter_name sv.atis_letter in
      let rwy = get_runway msg ctx g in
      ("current_altitude", sv.rounded ctx.altitude_ft_msl +s " feet")
      ∷ ("callsign", get_callsign sv.settings.pilot_callsign msg g)
      ∷ ("airport", airport_name ctx)
      ∷ ("runway", rwy)
      ∷ ("wind", format_wind sv ctx.wind_direction_deg ctx.wind_speed_kt)
      ∷ ("qnh", sv.decimal ctx.qnh_hpa)
      ∷ ("altimeter", sv.fixed2 ctx.qnh_inhg)
      ∷ ("atis_letter", letter)
      ∷ ("atis_tail", if empty letter then "" else ", information " +s letter +s " current")
      ∷ ("frequency", format_freq sv (ground_mhz ctx))
      ∷ ("tower_frequency", format_freq sv (first_mhz ctx.airport_freqs FrequencyType.tower))
      ∷ ("hold_short_reminder", hold_short_reminder (sv.runway_to_cross rwy))
      ∷ ("ground_frequency", format_freq sv (ground_mhz ctx))
      ∷ ("taxi_controller", if ctx.base.tower_only then "Tower" else "Ground")
      ∷ ("aircraft_type", ctx.aircraft_icao)
      ∷ ("aircraft_type_phrase", if empty ctx.aircraft_icao then "" else ", " +s ctx.aircraft_icao)
      ∷ ("position", extract_position msg ctx g)
      ∷ (
        "pattern_direction",
        or_text (sv.get_pattern_direction ctx.base.nearest_airport_id ctx.base.active_runway)
            sv.pattern_direction_setting,
      )
      ∷ ("entry_vrp", msg.vrp_name)
      ∷ ("position_remark", position_remark msg)
      ∷ ("tower_handoff_phrase", tower_handoff_phrase ctx)
      ∷ (
        "nearest_taxiway",
        sv.nearest_taxiway_phrase ctx.base.nearest_airport_id ctx.base.latitude ctx.base.longitude,
      )
      ∷ ("clock", "")
      ∷ ("distance", "")
      ∷ ("direction", "")
      ∷ ("altitude_info", "")
      ∷ ("type", "")
      ∷ ("side", "")
      ∷ ("seq_number", "")
      ∷ ("seq_type", "")
      ∷ ("seq_position", "")
      ∷ []

  -- Those of a clearance.
  unfoldable pub clearance_vars : PilotMessage → GroundContext → AtcMachineState → Vars
  clearance_vars msg ctx g =
      ("squawk", g.ifr_squawk)
      ∷ ("squawk_check", squawk_check ctx g)
      ∷ ("ifr_destination", or_text ctx.ifr_destination "your destination")
      ∷ ("ifr_sid_phrase", format_sid_for_tts (or_text (sid_name ctx) "SID") ctx.ifr_sid_last_fix)
      ∷ ("ifr_sid_last_fix", ctx.ifr_sid_last_fix)
      ∷ ("ifr_clearance_route", ifr_clearance_route msg ctx g)
      ∷ ("ifr_initial_altitude", ifr_initial_altitude sv ctx)
      ∷ ("ifr_departure_climb", ifr_departure_climb sv ctx g)
      ∷ ("ifr_departure_constraint", ifr_departure_constraint ctx)
      ∷ ("departure_controller", departure_controller ctx)
      ∷ ("departure_frequency", format_freq sv (departure_mhz ctx.airport_freqs))
      ∷ ("clearance_controller", clearance_controller ctx.airport_freqs)
      ∷ ("clearance_facility", clearance_facility sv ctx)
      ∷ ("ifr_ground_handoff", ifr_ground_handoff sv ctx)
      ∷ ("ifr_departure_contact", ifr_departure_contact sv ctx)
      ∷ ("holding_point", holding_point msg ctx g)
      ∷ []

  -- The session behind `build_vars` with its side effects, in the order of the initializer list.
  unfoldable pub touch_vars : PilotMessage → GroundContext → Session → Session
  unfolding assign_squawk cache_departure remember_crossing
  touch_vars msg ctx s = remember_crossing msg ctx (cache_departure ctx (assign_squawk msg s))

  -- The variables over the state that `touch_vars` leaves.
  unfoldable pub vars_of : PilotMessage → GroundContext → AtcMachineState → Vars
  unfolding general_vars clearance_vars
  vars_of msg ctx g = to_map (general_vars msg ctx g ++ clearance_vars msg ctx g)

  unfoldable pub build_vars : PilotMessage → GroundContext → Session → Session × Vars
  unfolding touch_vars vars_of
  build_vars msg ctx s = let s' = touch_vars msg ctx s in (s', vars_of msg ctx s'.world.g)
