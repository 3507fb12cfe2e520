-- ===== src/Process/Refusals.antt =====
-- The refusals of a clearance, and the two tests of the transponder.
use xp_welly_llm_atc.Base.{
  pos, leb_ℤ, leb, String, true, false, not, ◌&&◌, ◌||◌, some, ◌≡◌, refl, ◌⊎◌, inl, inr, arith, ap,
  ◌∙◌, Bool-cases, ◌==◌, nat_eq, string_eq, empty,
}
use xp_welly_llm_atc.State.{AtcState, AtcResponse, atc_state_eq}
use xp_welly_llm_atc.Intent.{PilotIntent, PilotMessage, pilot_intent_eq}
use xp_welly_llm_atc.Machine.{set_ifr_squawk}
use xp_welly_llm_atc.Ground.{GroundContext, Session, Services}
use xp_welly_llm_atc.Ground.Text.{mentions}
use xp_welly_llm_atc.Ground.Climb.{is_west_departure}
use xp_welly_llm_atc.Ground.Squawk.{generate_squawk}
use xp_welly_llm_atc.Ground.Vars.{
  build_vars, touch_vars, assign_squawk, cache_departure, squawk_check,
}
use xp_welly_llm_atc.Ground.Reply.{Outcome, pass, machine, answer, same_state}
use xp_welly_llm_atc.Ground.Guards.{
  asks_clearance, check_no_flight_plan, check_atis_confirmation, check_sid_visibility,
  check_squawk_at_holding_point, transponder_ok, set_check,
}
use xp_welly_llm_atc.Process.Frame.{remember_crossing-world, cache_departure-world}

module _ (sv : Services) (msg : PilotMessage) (ctx : GroundContext) (s : Session) where
  abbrev new_code : String
  new_code =
      let range = sv.rules.ifr_defaults in
      sv.padded 4 (generate_squawk sv.rand range.squawk_range_min range.squawk_range_max s.rolls).0

  assign_squawk-code :
      msg.intent ≡ PilotIntent.request_ifr_clearance
      → (machine (assign_squawk sv msg s)).ifr_squawk ≡ new_code
  unfolding assign_squawk set_ifr_squawk
  assign_squawk-code asks =
      let e : (msg.intent == PilotIntent.request_ifr_clearance) ≡ true = ground arith in
      rw (e, assign_squawk) refl

  touch_vars-code :
      msg.intent ≡ PilotIntent.request_ifr_clearance
      → (machine (touch_vars sv msg ctx s)).ifr_squawk ≡ new_code
  unfolding touch_vars
  touch_vars-code asks =
      let s1 = assign_squawk sv msg s in
      ap (λ w. w.g.ifr_squawk) (remember_crossing-world sv msg ctx (cache_departure sv ctx s1))
      ∙ ap (λ w. w.g.ifr_squawk) (cache_departure-world sv ctx s1)
      ∙ assign_squawk-code asks

  -- The refusal is an answer, and assigns the code of a clearance all the same.
  abbrev pub RefusedWithCode : Outcome → Type 0
  RefusedWithCode o =
      (r : AtcResponse) × (o.1 ≡ some r)
      × (r.next_state ≡ AtcState.idle)
      × ((machine o.0).ifr_squawk ≡ new_code)

  answer-RefusedWithCode :
      (tmpl : String)
      → msg.intent ≡ PilotIntent.request_ifr_clearance
      → RefusedWithCode (answer sv msg ctx tmpl (λ _. AtcState.idle) s)
  unfolding answer build_vars
  answer-RefusedWithCode tmpl asks = (_, refl, refl, touch_vars-code asks)

  -- A request for a clearance in IDLE that is refused, for want of a flight plan, of the ATIS letter or
  -- of the visibility, is answered in IDLE, and the flight holds the code of a clearance from then on;
  -- each check that does not refuse leaves the session as it is.
  pub refusals-assign_code :
      asks_clearance sv msg s ≡ true
      → ((check_no_flight_plan sv msg ctx s ≡ pass s)
          ⊎ RefusedWithCode (check_no_flight_plan sv msg ctx s))
        × ((check_atis_confirmation sv msg ctx s ≡ pass s)
            ⊎ RefusedWithCode (check_atis_confirmation sv msg ctx s))
        × ((check_sid_visibility sv msg ctx s ≡ pass s)
            ⊎ RefusedWithCode (check_sid_visibility sv msg ctx s))
        × (empty ctx.ifr_destination ≡ true → RefusedWithCode (check_no_flight_plan sv msg ctx s))
  unfolding check_no_flight_plan check_atis_confirmation check_sid_visibility
  refusals-assign_code asks =
      let e : msg.intent ≡ PilotIntent.request_ifr_clearance = ground arith in
      (
        elim (Bool-cases (empty ctx.ifr_destination)) [
          | inl none_filed ↦ inr (rw (asks, none_filed) (answer-RefusedWithCode _ e))
          | inr filed ↦ inl (rw (asks, filed) refl)
        ],
        elim (Bool-cases (sv.atis_letter == 0 || mentions msg.raw_transcript "information")) [
          | inl known ↦ inl (rw (asks, known) refl)
          | inr unknown ↦ inr (rw (asks, unknown) (answer-RefusedWithCode _ e))
        ],
        elim (Bool-cases (not (is_west_departure ctx) || leb_ℤ (pos 5000000) ctx.visibility_m)) [
          | inl clear ↦ inl (rw (asks, clear) refl)
          | inr low ↦ inr (rw (asks, low) (answer-RefusedWithCode _ e))
        ],
        (λ none_filed. rw (asks, none_filed) (answer-RefusedWithCode _ e)),
      )

  -- The reminder in a taxi clearance takes mode A for altitude reporting: with the right code in mode A
  -- it stays silent, while the test at the holding point answers the same transponder.
  pub squawk_check-mode_a :
      ctx.transponder_mode ≡ 2
      → sv.decimal ctx.transponder_code ≡ (machine s).ifr_squawk
      → empty (machine s).ifr_squawk ≡ false
      → msg.intent ≡ PilotIntent.report_holding_short
      → ((machine s).was_airborne && ctx.base.on_ground) ≡ false
      → (squawk_check sv ctx (machine s) ≡ "")
        × (check_squawk_at_holding_point sv msg ctx s
            ≡ answer sv msg ctx "{callsign}, squawk {squawk} mode Charlie, confirm."
                (same_state sv)
                (set_check sv true s))
  unfolding squawk_check check_squawk_at_holding_point
  squawk_check-mode_a mode code assigned reports departs =
      let m : leb 3 ctx.transponder_mode ≡ false = ground arith in
      let n : leb 2 ctx.transponder_mode ≡ true = ground arith in
      let c : (sv.decimal ctx.transponder_code == (machine s).ifr_squawk) ≡ true = ground arith in
      let i : (msg.intent == PilotIntent.report_holding_short) ≡ true = ground arith in
      let t : transponder_ok sv ctx s ≡ false =
        elim (Bool-cases (sv.padded 4 ctx.transponder_code == (machine s).ifr_squawk)) [
          | inl p ↦ rw (p, m) refl
          | inr p ↦ rw p refl
        ] in
      (rw (c, n, assigned) refl, rw (i, departs, assigned, t, check_squawk_at_holding_point) refl)
