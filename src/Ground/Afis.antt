-- ===== src/Ground/Afis.antt =====
-- The departure from a field with an information service (`handle_afis_ground_flow`).
use xp_welly_llm_atc.Base.{
  ℕ, ltb, String, Bool, not, ◌&&◌, ◌||◌, List, [], ◌∷◌, Option, none, some, contains, any, ◌==◌,
  nat_eq, string_eq, empty, ◌+s◌, if◌then◌else◌,
}
use xp_welly_llm_atc.State.{AtcState}
use xp_welly_llm_atc.Intent.{PilotIntent, PilotMessage, pilot_intent_eq}
use xp_welly_llm_atc.Ground.{GroundContext, Session, Services, mhz_100}
use xp_welly_llm_atc.Ground.Text.{get_runway, mentions}
use xp_welly_llm_atc.Ground.Vars.{near}
use xp_welly_llm_atc.Ground.Reply.{
  Outcome, pass, machine, current_name, move_to, answer, same_state,
}

abbrev pub ground_ifr_names : List String
ground_ifr_names =
    "IFR/CLEARED" ∷ "IFR/PREDEP_CLEARANCE" ∷ "TAXI_CLEARED" ∷ "TOWER_CONTACT" ∷ "GROUND_CONTACT"
    ∷ []

abbrev pub manoeuvres : List String
manoeuvres =
    "backtrack" ∷ "back track" ∷ "track back" ∷ "line up" ∷ "lining up" ∷ "line-up" ∷ "taking off"
    ∷ "take off" ∷ "rolling" ∷ "departing" ∷ "ready" ∷ "taxi" ∷ []

-- The frequency of the radio in use, by the test of this handler.
abbrev pub active_mhz : GroundContext → ℕ
active_mhz ctx = if ctx.active_com == 2 then ctx.com2_freq_mhz else ctx.com1_freq_mhz

module _ (sv : Services) where
  -- The information service of the origin, else that of the nearest field.
  unfoldable pub info_service : GroundContext → Option (String × ℕ)
  info_service ctx =
      let nearest = sv.controller ctx.base.nearest_airport_id "info" in
      if empty sv.origin_icao
      then nearest
      else elim (sv.controller sv.origin_icao "info") [ some c ↦ some c | none ↦ nearest ]

  abbrev pub on_other_frequency : GroundContext → ℕ → Bool
  on_other_frequency ctx info_freq =
      ltb mhz_100 info_freq
      && ltb mhz_100 (active_mhz ctx)
      && not (near sv 21 (active_mhz ctx) info_freq)

  -- What the service says to each intent: the text behind its name, and the state that is entered.
  unfoldable pub info_text : PilotIntent → String → Option (String × Option AtcState)
  info_text PilotIntent.request_startup rwy = some (
    ", runway " +s rwy +s " in use, QNH {qnh}, startup at your discretion.",
    some AtcState.ifr_cleared,
  )
  info_text PilotIntent.request_taxi rwy =
      some (", runway " +s rwy +s " in use, QNH {qnh}, no reported traffic.", none)
  info_text PilotIntent.request_backtrack rwy =
      some (", roger, runway " +s rwy +s " in use, wind {wind}, no reported traffic.", none)
  info_text PilotIntent.report_taking_off rwy =
      some (", roger, wind {wind}, no reported traffic.", none)
  info_text PilotIntent.report_holding_short rwy =
      some (", runway " +s rwy +s " in use, wind {wind}, no reported traffic.", none)
  info_text PilotIntent.ready_for_departure rwy = some (
    ", runway " +s rwy +s ", wind {wind}, no reported traffic.",
    some AtcState.ifr_departure_cleared,
  )
  info_text PilotIntent.ready_for_departure_vfr rwy = some (
    ", runway " +s rwy +s ", wind {wind}, no reported traffic.",
    some AtcState.ifr_departure_cleared,
  )
  info_text _ rwy = none

  abbrev pub reason_of : PilotIntent → String
  reason_of intent =
      if intent == PilotIntent.request_startup then "afis_startup_info" else "afis_departure_info"

  abbrev pub move_if : PilotIntent → Option AtcState → Session → Session
  move_if intent none s = s
  move_if intent (some next) s = move_to sv next (reason_of intent) s

  -- A taxi request is answered with the cleared state, which is not entered.
  abbrev pub said_state : PilotIntent → Option AtcState → Session → AtcState
  said_state intent (some next) s = next
  said_state intent none s =
      if intent == PilotIntent.request_taxi then AtcState.ifr_cleared else same_state sv s

  abbrev pub free_text : String → String → String
  free_text info_name rwy =
      "{callsign}, " +s info_name +s ", runway " +s rwy +s ", no reported traffic."

  -- The words are searched where the intent has no text of its own.
  unfoldable pub names_manoeuvre : String → Bool
  names_manoeuvre transcript = any (mentions transcript) manoeuvres

  unfoldable pub speak_free : PilotMessage → GroundContext → String → Session → Outcome
  unfolding names_manoeuvre
  speak_free msg ctx info_name s =
      if names_manoeuvre msg.raw_transcript
      then answer sv msg ctx (free_text info_name (get_runway msg ctx (machine s))) (same_state sv)
          s
      else if not (msg.intent == PilotIntent.unknown)
      then pass (answer sv msg ctx "" (same_state sv) s).0
      else answer sv msg ctx ("{callsign}, " +s info_name +s ", say again.") (same_state sv) s

  -- The handler once the service is addressed; the variables are built in every case.
  unfoldable pub speak_info : PilotMessage → GroundContext → String → Session → Outcome
  unfolding info_text speak_free
  speak_info msg ctx info_name s =
      let rwy = get_runway msg ctx (machine s) in
      elim (info_text msg.intent rwy) [
        | some (text, next) ↦
            let (s', resp) =
              answer sv msg ctx ("{callsign}, " +s info_name +s text) (said_state msg.intent next)
                s in
            (move_if msg.intent next s', resp)
        | none ↦ speak_free msg ctx info_name s
      ]

  unfoldable pub handle_afis_ground_flow : PilotMessage → GroundContext → Session → Outcome
  unfolding info_service speak_info
  handle_afis_ground_flow msg ctx s = elim (info_service ctx) [
    | none ↦ pass s
    | some (info_name, info_freq) ↦
        if not ctx.base.on_ground
          || on_other_frequency ctx info_freq
          || not (contains ground_ifr_names (current_name s))
        then pass s
        else speak_info msg ctx info_name s
  ]
