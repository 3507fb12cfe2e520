-- ===== src/Process/Code.antt =====
-- The transponder code of the flight over a whole call.
use xp_welly_llm_atc.Base.{
  ℤ, String, false, ◌&&◌, List, [], ◌∷◌, Option, none, some, ◌≡◌, refl, ◌≢◌, inl, inr, arith, ap,
  sym, ◌∙◌, ◌==◌, string_eq, ◌+s◌,
}
use xp_welly_llm_atc.State.{AtcState, AtcResponse}
use xp_welly_llm_atc.Intent.{PilotIntent, PilotMessage, pilot_intent_eq}
use xp_welly_llm_atc.Intent.Names.{intent_template_key}
use xp_welly_llm_atc.Context.{XPlaneContext}
use xp_welly_llm_atc.Machine.{
  AtcMachineState, transition_to, set_departure_type, set_readback_pending, set_was_airborne,
  clear_assigned_runway, release_runway, release_callsign,
}
use xp_welly_llm_atc.World.{World, leave_airport, check_airport_change}
use xp_welly_llm_atc.Readback.{Verifier, Mismatch, rb_clear, rb_merge, rb_remove_matched}
use xp_welly_llm_atc.Correction.{FlightRules}
use xp_welly_llm_atc.Hooks.{
  accept_silently, take_readback, judge, hear_readback, supersede, answer_readback, track_readback,
  outstanding, drop_stale, lock_runway, lock_callsign, track_departure, advance, end_session,
  advance_to, tower_only_advance, keep_response, settle, finish, apply_post_transition_hooks,
}
use xp_welly_llm_atc.Ground.{GroundContext, Session, Services}
use xp_welly_llm_atc.Ground.Vars.{build_vars, touch_vars}
use xp_welly_llm_atc.Ground.Reply.{Outcome, machine}
use xp_welly_llm_atc.Ground.Guards.{taxi_in}
use xp_welly_llm_atc.Process.{
  gate_ifr, handle, reset_airborne, run_hooks, respond, finish_call, start_call, process,
}
use xp_welly_llm_atc.Process.Keeps.{IsKept, Kept, touch_vars-P}
use xp_welly_llm_atc.Process.Chain.{handle-Kept}

-- `h` has the code of `g`.
abbrev Same : AtcMachineState → AtcMachineState → Type 0
Same g h = h.ifr_squawk ≡ g.ifr_squawk

transition_to-Same :
    (s : AtcState) (reason : String) (g : AtcMachineState) → Same g (transition_to s reason g)
unfolding transition_to
transition_to-Same s reason g = ground arith

module _ (v : Verifier) where
  accept_silently-Same :
      (msg : PilotMessage) (g : AtcMachineState) → Same g (accept_silently v msg g)
  unfolding accept_silently rb_clear
  accept_silently-Same msg g = ground arith

  judge-Same : (ms : List Mismatch) (w : World) → Same w.g (judge ms w).0.g
  unfolding judge rb_clear
  judge-Same [] w = refl
  judge-Same (m ∷ ms) w = ground arith

  hear_readback-Same : (t : String) (w : World) → Same w.g (hear_readback v t w).0.g
  unfolding hear_readback take_readback rb_remove_matched rb_clear
  hear_readback-Same t w =
      let w' = record w { g = take_readback v t w.g } in
      ground (arith, judge-Same (outstanding v t w'.g) w')

  answer_readback-Same : (r : AtcResponse) (g : AtcMachineState) → Same g (answer_readback v r g)
  unfolding answer_readback supersede rb_merge rb_clear
  answer_readback-Same r g = ground arith

  track_readback-Same :
      (msg : PilotMessage) (r : AtcResponse) (w : World) → Same w.g (track_readback v msg r w).0.g
  unfolding track_readback
  track_readback-Same msg r w =
      ground (arith, hear_readback-Same msg.raw_transcript w, answer_readback-Same r w.g)

module _ (rules : FlightRules) (msg : PilotMessage) (ctx : XPlaneContext) where
  drop_stale-Same : (n : AtcState) (g : AtcMachineState) → Same g (drop_stale n g)
  unfolding drop_stale rb_clear
  drop_stale-Same n g = ground arith

  lock_runway-Same : (n : AtcState) (g : AtcMachineState) → Same g (lock_runway msg ctx n g)
  unfolding lock_runway
  lock_runway-Same n g = ground arith

  lock_callsign-Same : (n : AtcState) (g : AtcMachineState) → Same g (lock_callsign msg n g)
  unfolding lock_callsign
  lock_callsign-Same n g = ground arith

  track_departure-Same : (p n : AtcState) (g : AtcMachineState) → Same g (track_departure msg p n g)
  unfolding track_departure
  track_departure-Same p n g = ground arith

  advance-Same : (r : AtcResponse) (g : AtcMachineState) → Same g (advance msg r g)
  unfolding advance
  advance-Same r g =
      let t = transition_to r.next_state ("process:" +s intent_template_key msg.intent) g in
      ground (
        arith,
        track_departure-Same g.state r.next_state t,
        transition_to-Same r.next_state ("process:" +s intent_template_key msg.intent) g,
      )

  end_session-Same : (n : AtcState) (g : AtcMachineState) → Same g (end_session n g)
  unfolding end_session release_runway release_callsign
  end_session-Same n g = ground arith

  advance_to-Same :
      (o : Option AtcState) (r : AtcResponse) (g : AtcMachineState) → Same g (advance_to o r g).0
  unfolding advance_to
  advance_to-Same none r g = refl
  advance_to-Same (some t) r g = transition_to-Same t "tower_only_auto_advance" g

  keep_response-Same : (r : AtcResponse) (g : AtcMachineState) → Same g (keep_response r g)
  unfolding keep_response
  keep_response-Same r g = ground arith

  settle-Same : (r : AtcResponse) (g : AtcMachineState) → Same g (settle rules msg ctx r g).0
  unfolding settle tower_only_advance
  settle-Same r g =
      let n = r.next_state in
      let g1 = drop_stale n g in
      let g2 = lock_runway msg ctx n g1 in
      let g3 = lock_callsign msg n g2 in
      let g4 = advance msg r g3 in
      let g5 = end_session n g4 in
      keep_response-Same _ _
      ∙ advance_to-Same _ r g5
      ∙ end_session-Same n g4
      ∙ advance-Same r g3
      ∙ lock_callsign-Same n g2
      ∙ lock_runway-Same n g1
      ∙ drop_stale-Same n g

  finish-Same :
      (r : AtcResponse) (o : World × Option Mismatch) → Same o.0.g (finish rules msg ctx r o).0.g
  unfolding finish
  finish-Same r (w, none) = settle-Same r w.g
  finish-Same r (w, some m) = refl

  hooks-Same :
      (v : Verifier) (r : AtcResponse) (w : World)
      → Same w.g (apply_post_transition_hooks v rules msg ctx r w).0.g
  unfolding apply_post_transition_hooks
  hooks-Same v r w =
      let w' = record w { g = accept_silently v msg w.g } in
      finish-Same r (track_readback v msg r w')
      ∙ track_readback-Same v msg r w'
      ∙ accept_silently-Same v msg w.g

check_airport_change-Same :
    (ctx : XPlaneContext) (now : ℤ) (w : World) → Same w.g (check_airport_change ctx now w).g
unfolding check_airport_change leave_airport set_departure_type clear_assigned_runway
    set_readback_pending
check_airport_change-Same ctx now w = ground (
  arith,
  transition_to-Same AtcState.idle "airport_change_en_route" (record w.g { last_now_secs = now }),
)

Same-IsKept :
    (msg : PilotMessage) (g : AtcMachineState)
    → msg.intent ≢ PilotIntent.request_ifr_clearance
    → IsKept (Same g) msg
unfolding set_departure_type
Same-IsKept msg g other = record {
  moved = λ next reason h e. transition_to-Same next reason h ∙ e;
  typed = λ t h e. e;
  squawked = λ sq h asks e. absurd (other asks);
}

module _ (v : Verifier) (sv : Services) (ctx : GroundContext) where
  reset_airborne-Same :
      (msg : PilotMessage) (s : Session) → Same (machine s) (machine (reset_airborne sv msg ctx s))
  unfolding reset_airborne set_was_airborne
  reset_airborne-Same msg s = ground arith

  module _ (msg : PilotMessage) (other : msg.intent ≢ PilotIntent.request_ifr_clearance) where
    respond-Same : (s : Session) → Same (machine s) (machine (respond v sv msg ctx s).0)
    unfolding respond run_hooks build_vars
    respond-Same s =
        let s' = touch_vars sv msg ctx s in
        hooks-Same sv.rules.flight msg ctx.base v _ _
        ∙ reset_airborne-Same msg s'
        ∙ touch_vars-P sv msg ctx (Same (machine s)) (Same-IsKept msg (machine s) other) s refl

    taxi_in-Same : (s : Session) → Same (machine s) (machine (taxi_in sv msg ctx s).0)
    unfolding taxi_in build_vars set_readback_pending
    taxi_in-Same s =
        touch_vars-P sv msg ctx (Same (machine s)) (Same-IsKept msg (machine s) other) s refl

    taxi_in-answers : (s : Session) → (taxi_in sv msg ctx s).1 ≢ none
    unfolding taxi_in
    taxi_in-answers s e = cc e

    finish_call-Same :
        (g : AtcMachineState) (o : Outcome)
        → Kept sv msg ctx (Same g) o
        → Same g (machine (finish_call v sv msg ctx o).0)
    unfolding finish_call
    finish_call-Same g (s, none) (inl e) = respond-Same s ∙ e
    finish_call-Same g (s, none) (inr (t, e, c, q)) =
        absurd (taxi_in-answers t (sym (ap (λ o. o.1) q)))
    finish_call-Same g (s, some r) (inl e) = e
    finish_call-Same g (s, some r) (inr (t, e, c, q)) =
        ap (λ o. (machine o.0).ifr_squawk) q ∙ taxi_in-Same t ∙ e

  asks-gated :
      (msg : PilotMessage)
      → (sv.atc_profile == "EU" && msg.intent == PilotIntent.request_ifr_clearance) ≡ false
      → (gate_ifr sv.atc_profile msg).intent ≢ PilotIntent.request_ifr_clearance
  unfolding gate_ifr
  asks-gated msg h asks = ground arith

  -- A call assigns no code to the flight, whatever it leads to, but where a clearance is requested
  -- under the European profile.
  pub process-ifr_squawk :
      (msg : PilotMessage) (now_secs : ℤ) (s : Session)
      → (sv.atc_profile == "EU" && msg.intent == PilotIntent.request_ifr_clearance) ≡ false
      → (machine (process v sv msg ctx now_secs s).0).ifr_squawk ≡ (machine s).ifr_squawk
  unfolding process start_call
  process-ifr_squawk msg now_secs s h =
      let gated = gate_ifr sv.atc_profile msg in
      let other = asks-gated msg h in
      let s' = start_call sv ctx now_secs s in
      finish_call-Same gated other (machine s') (handle sv gated ctx s') (
        handle-Kept sv gated ctx (Same (machine s')) (Same-IsKept gated (machine s') other) s' refl)
      ∙ check_airport_change-Same ctx.base now_secs s.world
