-- ===== src/Ground/Guards.antt =====
-- The guards in front of the template lookup.
use xp_welly_llm_atc.Base.{
  ℕ, ltb, leb, pos, leb_ℤ, String, Bool, true, false, not, ◌&&◌, ◌||◌, List, [], ◌∷◌, Option, none,
  some, contains, ◌==◌, string_eq, nat_eq, empty, ◌+s◌, if◌then◌else◌,
}
use xp_welly_llm_atc.State.{AtcState, atc_state_eq}
use xp_welly_llm_atc.Intent.{PilotIntent, PilotMessage, pilot_intent_eq}
use xp_welly_llm_atc.Intent.Names.{intent_template_key}
use xp_welly_llm_atc.Context.{FrequencyType, frequency_type_eq}
use xp_welly_llm_atc.Machine.{set_readback_pending}
use xp_welly_llm_atc.Phase.Guard.{check_precondition, check_frequency_precondition}
use xp_welly_llm_atc.Airport.{has, first_mhz}
use xp_welly_llm_atc.Airport.Stand.{icao_size_code_for_wingspan, pick_ga_stand}
use xp_welly_llm_atc.Templates.{fill}
use xp_welly_llm_atc.Vars.{put}
use xp_welly_llm_atc.Ground.{
  GroundContext, Session, Services, mhz_100, set_pending_handoff_freq, set_pending_controller_label,
}
use xp_welly_llm_atc.Ground.Text.{mentions}
use xp_welly_llm_atc.Ground.Vars.{build_vars, near}
use xp_welly_llm_atc.Ground.Climb.{is_west_departure}
use xp_welly_llm_atc.Ground.Reply.{
  Outcome, pass, machine, current_name, on_machine, move_to, answer, same_state,
}
use xp_welly_llm_atc.Ground.Afis.{active_mhz}

module _ (sv : Services) where
  unfoldable pub check_phase_precondition : PilotMessage → GroundContext → Session → Outcome
  check_phase_precondition msg ctx s =
      let rejection =
        check_precondition sv.rules.preconditions (intent_template_key msg.intent) sv.phase in
      if empty rejection then pass s else answer sv msg ctx rejection (same_state sv) s

  -- The unit that delivers the clearances of a field with an information service.
  unfoldable pub clearance_unit : PilotMessage → GroundContext → Option (String × ℕ)
  clearance_unit msg ctx =
      if not (msg.intent == PilotIntent.request_ifr_clearance || msg.intent == PilotIntent.readback)
      then none
      else elim (sv.controller ctx.base.nearest_airport_id "info") [
        | none ↦ none
        | some info ↦ elim (sv.controller ctx.base.nearest_airport_id "delivery") [
          | none ↦ none
          | some (acc_n, acc_f) ↦ if ltb mhz_100 acc_f then some (acc_n, acc_f) else none
        ]
      ]

  abbrev pub contact_text : String → ℕ → String
  contact_text name mhz =
      "{callsign}, for IFR clearance contact " +s name +s " on " +s sv.fixed3 mhz +s "."

  abbrev pub await_unit : String → ℕ → Session → Session
  await_unit name mhz s = record s {
    engine = set_pending_controller_label name (set_pending_handoff_freq mhz s.engine);
  }

  -- A clearance is asked for on the frequency of another unit.
  abbrev pub wrong_unit : PilotMessage → GroundContext → Bool
  wrong_unit msg ctx =
      msg.intent == PilotIntent.request_ifr_clearance
      && not (ctx.base.frequency_type == FrequencyType.delivery)
      && not (ctx.base.frequency_type == FrequencyType.ground)
      && not ctx.base.tower_only
      && (has ctx.airport_freqs FrequencyType.delivery
          || has ctx.airport_freqs FrequencyType.ground)

  abbrev pub redirect_text : GroundContext → String
  redirect_text ctx =
      if has ctx.airport_freqs FrequencyType.delivery
      then contact_text "Delivery" (first_mhz ctx.airport_freqs FrequencyType.delivery)
      else contact_text "Ground" (first_mhz ctx.airport_freqs FrequencyType.ground)

  abbrev pub airborne_ifr_names : List String
  airborne_ifr_names =
      "IFR/RADAR_CONTACT" ∷ "IFR/ENROUTE_CRUISE" ∷ "IFR/EN_ROUTE" ∷ "IFR/DESCENT" ∷ "IFR/ARRIVAL"
      ∷ "IFR/FREQ_HANDOFF" ∷ "IFR/APPROACH_CONTACT" ∷ "IFR/APPROACH_DESCENT" ∷ "IFR/APPROACH_TOWER"
      ∷ "IFR/LANDING_CLEARED" ∷ []

  -- Tower alone at the field, or an IFR flight in the air: the table does not apply.
  abbrev pub exempt : GroundContext → Session → Bool
  exempt ctx s =
      (ctx.base.tower_only && ctx.base.frequency_type == FrequencyType.tower)
      || contains airborne_ifr_names (current_name s)

  abbrev pub taxis_in : PilotMessage → GroundContext → Session → Bool
  taxis_in msg ctx s =
      (msg.intent == PilotIntent.runway_vacated
        || msg.intent == PilotIntent.report_holding_short
        || msg.intent == PilotIntent.initial_call_ground)
      && ctx.base.frequency_type == FrequencyType.ground
      && ((machine s).was_airborne || sv.has_landed)

  -- The way to the stand after a landing; the read-back flag is raised by the setter of the bridge.
  unfoldable pub taxi_in : PilotMessage → GroundContext → Session → Outcome
  taxi_in msg ctx s =
      let (s', vars) = build_vars sv msg ctx s in
      let stand =
        pick_ga_stand sv.cos ctx.base.latitude ctx.base.longitude ctx.airport_parking
          (icao_size_code_for_wingspan ctx.aircraft_wingspan_m) ctx.aircraft_engine_kind in
      let text =
        if not (empty stand)
        then fill "{callsign}, taxi to {stand}, report on stand." (put "stand" stand vars)
        else fill "{callsign}, taxi to general aviation parking {nearest_taxiway}, report on stand."
            vars in
      (
        on_machine sv (set_readback_pending true) s',
        some (record { text = text; next_state = (machine s').state; requires_readback = true }),
      )

  abbrev departs_on_ground : PilotMessage → GroundContext → Bool
  departs_on_ground msg ctx =
      (msg.intent == PilotIntent.ready_for_departure
        || msg.intent == PilotIntent.ready_for_departure_vfr)
      && ctx.base.frequency_type == FrequencyType.ground

  -- The table of frequencies; a departure call on Ground hands over to Tower.
  unfoldable pub check_frequency_table : PilotMessage → GroundContext → Session → Outcome
  check_frequency_table msg ctx s =
      let rejection =
        check_frequency_precondition sv.rules.intent_frequency (intent_template_key msg.intent)
          ctx.base.frequency_type in
      if empty rejection
      then pass s
      else if departs_on_ground msg ctx
      then (let (s', resp) = answer sv msg ctx rejection (λ _. AtcState.tower_contact) s in
          (move_to sv AtcState.tower_contact "ready_for_departure_on_ground" s', resp))
      else answer sv msg ctx rejection (same_state sv) s

  -- The tests behind those for the unit that delivers clearances.
  unfoldable pub check_frequency : PilotMessage → GroundContext → Session → Outcome
  unfolding taxi_in check_frequency_table
  check_frequency msg ctx s =
      if wrong_unit msg ctx
      then answer sv msg ctx (redirect_text ctx) (same_state sv) s
      else if exempt ctx s
      then pass s
      else if taxis_in msg ctx s
      then taxi_in msg ctx s
      else check_frequency_table msg ctx s

  unfoldable pub check_freq_precondition : PilotMessage → GroundContext → Session → Outcome
  unfolding clearance_unit check_frequency
  check_freq_precondition msg ctx s = elim (clearance_unit msg ctx) [
    | none ↦ check_frequency msg ctx s
    | some (acc_n, acc_f) ↦
        if near sv 20 (active_mhz ctx) acc_f
        then pass s
        else if msg.intent == PilotIntent.request_ifr_clearance
        then (let (s', resp) = answer sv msg ctx (contact_text acc_n acc_f) (same_state sv) s in
            (await_unit acc_n acc_f s', resp))
        else check_frequency msg ctx s
  ]

  abbrev pub asks_clearance : PilotMessage → Session → Bool
  asks_clearance msg s =
      msg.intent == PilotIntent.request_ifr_clearance && (machine s).state == AtcState.idle

  unfoldable pub check_no_flight_plan : PilotMessage → GroundContext → Session → Outcome
  check_no_flight_plan msg ctx s =
      if not (asks_clearance msg s) || not (empty ctx.ifr_destination)
      then pass s
      else answer sv msg ctx
          "{callsign}, unable IFR clearance, no flight plan on file. Load your SimBrief OFP in the IFR tab first."
          (λ _. AtcState.idle) s

  unfoldable pub check_atis_confirmation : PilotMessage → GroundContext → Session → Outcome
  check_atis_confirmation msg ctx s =
      if not (asks_clearance msg s)
        || sv.atis_letter == 0
        || mentions msg.raw_transcript "information"
      then pass s
      else answer sv msg ctx
          "{callsign}, advise information {atis_letter} received, then re-state IFR request."
          (λ _. AtcState.idle) s

  unfoldable pub check_sid_visibility : PilotMessage → GroundContext → Session → Outcome
  check_sid_visibility msg ctx s =
      if not (asks_clearance msg s)
        || not (is_west_departure ctx)
        || leb_ℤ (pos 5000000) ctx.visibility_m
      then pass s
      else answer sv msg ctx
          "{callsign}, unable, minimum visibility 5 kilometres required for {ifr_sid_phrase}."
          (λ _. AtcState.idle) s

  unfoldable pub check_runway_at_holding_point : PilotMessage → GroundContext → Session → Outcome
  check_runway_at_holding_point msg ctx s =
      let assigned = (machine s).assigned_runway in
      let active = ctx.base.active_runway in
      if not (msg.intent == PilotIntent.report_holding_short)
        || empty (machine s).ifr_squawk
        || empty assigned
        || empty active
        || assigned == active
      then pass s
      else answer sv msg ctx
          ("{callsign}, confirm runway " +s assigned
            +s ", you appear to be at holding point runway " +s active +s ".")
          (same_state sv) s

  abbrev pub set_check : Bool → Session → Session
  set_check b s = record s { squawk_check_pending = b }

  -- The taxi-in on the frequency of Tower.
  unfoldable pub redirect_to_ground : PilotMessage → GroundContext → Session → Outcome
  redirect_to_ground msg ctx s =
      let gnd_mhz = first_mhz ctx.airport_freqs FrequencyType.ground in
      let (s', vars) = build_vars sv msg ctx s in
      if not (ctx.base.frequency_type == FrequencyType.tower) || ltb gnd_mhz mhz_100
      then pass s
      else (
        s',
        some (record {
          text =
              fill "{callsign}, you are still on Tower, contact Ground on {ground_freq}."
                (put "ground_freq" (sv.fixed3 gnd_mhz) vars);
          next_state = (machine s').state;
          requires_readback = false;
        }),
      )

  abbrev pub transponder_ok : GroundContext → Session → Bool
  transponder_ok ctx s =
      sv.padded 4 ctx.transponder_code == (machine s).ifr_squawk && leb 3 ctx.transponder_mode

  unfoldable pub check_squawk_at_holding_point : PilotMessage → GroundContext → Session → Outcome
  unfolding redirect_to_ground
  check_squawk_at_holding_point msg ctx s =
      if not (msg.intent == PilotIntent.report_holding_short) && not s.squawk_check_pending
      then pass s
      else if (machine s).was_airborne && ctx.base.on_ground
      then redirect_to_ground msg ctx (set_check false s)
      else if empty (machine s).ifr_squawk || transponder_ok ctx s
      then pass (set_check false s)
      else answer sv msg ctx "{callsign}, squawk {squawk} mode Charlie, confirm." (same_state sv)
          (set_check true s)
