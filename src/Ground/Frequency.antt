-- ===== src/Ground/Frequency.antt =====
-- The handlers that watch the tuned frequency.
use xp_welly_llm_atc.Base.{
  ℕ, ltb, leb, String, Bool, not, ◌&&◌, ◌||◌, List, [], ◌∷◌, Option, none, some, contains, any,
  find_key, ◌==◌, string_eq, empty, starts_with, ◌+s◌, if◌then◌else◌, nat_eq,
}
use xp_welly_llm_atc.State.{AtcState, atc_state_eq}
use xp_welly_llm_atc.State.Names.{state_from_name}
use xp_welly_llm_atc.Intent.{PilotIntent, PilotMessage, pilot_intent_eq}
use xp_welly_llm_atc.Intent.Names.{intent_template_key}
use xp_welly_llm_atc.Context.{FrequencyType, frequency_type_eq}
use xp_welly_llm_atc.Sector.{Controller, ControllerRole, controller_role_eq}
use xp_welly_llm_atc.Airport.{first_mhz}
use xp_welly_llm_atc.Ground.{
  GroundContext, Session, Services, FrequencyHint, FrequencyAutoCorrection, IdleRedirect, mhz_100,
}
use xp_welly_llm_atc.Ground.Text.{mentions}
use xp_welly_llm_atc.Ground.Vars.{near}
use xp_welly_llm_atc.Ground.Reply.{
  Outcome, pass, machine, current_name, move_to, answer, same_state,
}

module _ (sv : Services) where
  -- Ground's text for an intent of Ground, unless Tower works the ground too.
  abbrev pub hint_text : GroundContext → String → FrequencyHint → String
  hint_text ctx key fh =
      if contains fh.ground_intents key && not ctx.base.tower_only
      then fh.ground_response
      else fh.tower_response

  unfoldable pub handle_frequency_hint : PilotMessage → GroundContext → Session → Outcome
  handle_frequency_hint msg ctx s =
      if not (ctx.base.frequency_type == FrequencyType.unknown)
        || not ctx.base.is_towered_airport
        || msg.intent == PilotIntent.readback
        || msg.intent == PilotIntent.request_ifr_clearance
        || not ctx.base.on_ground
      then pass s
      else elim sv.rules.frequency_hint [
        | none ↦ pass s
        | some fh ↦
            let tmpl = hint_text ctx (intent_template_key msg.intent) fh in
            if empty tmpl then pass s else answer sv msg ctx tmpl (same_state sv) s
      ]

  abbrev needs_validation : GroundContext → Session → Bool
  needs_validation ctx s =
      not (starts_with (current_name s) "IFR")
      && not (ctx.base.frequency_type == FrequencyType.unknown)
      && not (ctx.base.tower_only && ctx.base.frequency_type == FrequencyType.tower)
      && not ((machine s).state == AtcState.en_route)

  -- A state that the frequency does not allow is left for IDLE.
  unfoldable pub apply_state_frequency_validity : GroundContext → Session → Session
  apply_state_frequency_validity ctx s =
      if not (needs_validation ctx s)
      then s
      else elim (sv.rules.state_frequency_validity ctx.base.frequency_type) [
        | none ↦ s
        | some allowed ↦
            if contains allowed (current_name s)
            then s
            else move_to sv AtcState.idle "freq_validity_reset" s
      ]

  -- The loop: the first condition that lists the frequency.
  unfoldable pub first_correction :
      FrequencyType
      → List (String × FrequencyAutoCorrection)
      → Option (String × FrequencyAutoCorrection)
  first_correction ft [] = none
  first_correction ft ((cond_name, rule) ∷ rest) =
      if contains rule.frequencies ft then some (cond_name, rule) else first_correction ft rest

  abbrev pub correct_by : Option (String × FrequencyAutoCorrection) → Session → Session
  correct_by none s = s
  correct_by (some (cond_name, rule)) s =
      move_to sv (state_from_name rule.next_state)
        ("freq_auto_correction:" +s (if empty rule.log then cond_name else rule.log)) s

  unfoldable pub apply_frequency_auto_corrections : GroundContext → Session → Session
  unfolding first_correction
  apply_frequency_auto_corrections ctx s =
      elim (find_key (current_name s) sv.rules.frequency_auto_corrections) [
        | none ↦ s
        | some fc ↦ correct_by (first_correction ctx.base.frequency_type fc) s
      ]

  abbrev redirects : GroundContext → String → IdleRedirect → Bool
  redirects ctx key r =
      r.freq_type == ctx.base.frequency_type
      && not (r.unless_flag == "tower_only" && ctx.base.tower_only)
      && contains r.intent_in key

  unfoldable pub first_redirect : GroundContext → String → List IdleRedirect → Option IdleRedirect
  first_redirect ctx key [] = none
  first_redirect ctx key (r ∷ rs) =
      if redirects ctx key r then some r else first_redirect ctx key rs

  abbrev pub destination : IdleRedirect → AtcState
  destination r = if empty r.next_state then AtcState.idle else state_from_name r.next_state

  unfoldable pub handle_idle_redirects : PilotMessage → GroundContext → Session → Outcome
  unfolding first_redirect
  handle_idle_redirects msg ctx s =
      if not ((machine s).state == AtcState.idle)
      then pass s
      else elim (first_redirect ctx (intent_template_key msg.intent) sv.rules.idle_redirects) [
        | none ↦ pass s
        | some r ↦
            let (s', resp) = answer sv msg ctx r.response (λ _. destination r) s in
            (move_to sv (destination r) "idle_redirect" s', resp)
      ]

  abbrev pub handoff_names : List String
  handoff_names =
      "IFR/FREQ_HANDOFF" ∷ "IFR/ENROUTE_CRUISE" ∷ "IFR/DESCENT" ∷ "IFR/ARRIVAL"
      ∷ "IFR/APPROACH_CONTACT" ∷ "IFR/APPROACH_DESCENT" ∷ "IFR/APPROACH_TOWER"
      ∷ "IFR/LANDING_CLEARED" ∷ []

  -- The frequency of the radio in use, by the test of this handler.
  abbrev pilot_mhz : GroundContext → ℕ
  pilot_mhz ctx = if ctx.active_com == 1 then ctx.com1_freq_mhz else ctx.com2_freq_mhz

  -- The pilot is on a frequency of a sector that encloses him.
  unfoldable pub on_sector_frequency : ℕ → List Controller → Bool
  on_sector_frequency pilot cs =
      any
        (λ c.
          (c.role == ControllerRole.tracon || c.role == ControllerRole.ctr)
          && any (near sv 5 pilot) c.freqs_khz)
        cs

  abbrev pub silent_intent : PilotMessage → Bool
  silent_intent msg =
      msg.intent == PilotIntent.readback || msg.intent == PilotIntent.leaving_frequency

  abbrev pub target_label : Session → String
  target_label s =
      if empty s.engine.current_controller_label
      then s.engine.pending_departure_label
      else s.engine.current_controller_label

  -- The pilot has been handed over and is still on the frequency before.
  unfoldable pub reissue_handoff : PilotMessage → GroundContext → Session → Outcome
  unfolding on_sector_frequency
  reissue_handoff msg ctx s =
      let pending = s.engine.pending_handoff_freq in
      let pilot = pilot_mhz ctx in
      if not (contains handoff_names (current_name s))
        || ctx.base.frequency_type == FrequencyType.unknown
        || ctx.base.frequency_type == FrequencyType.ctaf
        || ctx.base.frequency_type == FrequencyType.unicom
        || silent_intent msg
        || mentions msg.raw_transcript "contact"
        || (leb mhz_100 pending && near sv 5 pilot pending)
        || on_sector_frequency pilot ctx.enclosing_airspaces
        || ltb pending mhz_100
        || empty (target_label s)
      then pass s
      else answer sv msg ctx
          ("{callsign}, you are still on the previous frequency, contact "
            +s target_label s
            +s " on "
            +s sv.fixed3 pending
            +s ".")
          (same_state sv) s

  unfoldable pub check_handoff_reissue : PilotMessage → GroundContext → Session → Outcome
  unfolding reissue_handoff
  check_handoff_reissue msg ctx s =
      let tower_freq = first_mhz ctx.airport_freqs FrequencyType.tower in
      if (machine s).state == AtcState.tower_contact
        && ctx.base.frequency_type == FrequencyType.ground
      then (if silent_intent msg
          then pass s
          else if leb mhz_100 tower_freq
          then answer sv msg ctx
              ("{callsign}, you are still on Ground, contact Tower on "
                +s sv.fixed3 tower_freq
                +s ".")
              (λ _. AtcState.tower_contact) s
          else reissue_handoff msg ctx s)
      else reissue_handoff msg ctx s
