-- ===== src/Invariant/HookSteps.antt =====
-- The invariant under the hooks behind the template lookup.
use xp_welly_llm_atc.Base.{String, List, [], ◌∷◌, Option, none, some, arith, ◌+s◌}
use xp_welly_llm_atc.State.{AtcState, AtcResponse}
use xp_welly_llm_atc.Intent.{PilotMessage}
use xp_welly_llm_atc.Intent.Names.{intent_template_key}
use xp_welly_llm_atc.Context.{XPlaneContext}
use xp_welly_llm_atc.Machine.{AtcMachineState, release_runway, release_callsign}
use xp_welly_llm_atc.Readback.{Verifier, Mismatch}
use xp_welly_llm_atc.World.{World}
use xp_welly_llm_atc.Correction.{FlightRules}
use xp_welly_llm_atc.Hooks.{
  accept_silently, take_readback, judge, hear_readback, supersede, answer_readback, track_readback,
  outstanding, drop_stale, lock_runway, lock_callsign, track_departure, advance, end_session,
  advance_to, tower_only_advance, keep_response, settle, finish, apply_post_transition_hooks,
}
use xp_welly_llm_atc.Invariant.{
  IsSound, transition_to-IsSound, rb_clear-IsSound, rb_merge-IsSound, rb_remove_matched-IsSound,
}

module _ (v : Verifier) where
  accept_silently-IsSound :
      (msg : PilotMessage) {g : AtcMachineState} → IsSound g → IsSound (accept_silently v msg g)
  unfolding accept_silently
  accept_silently-IsSound msg h = ground (arith, rb_clear-IsSound h)

  take_readback-IsSound :
      (transcript : String) {g : AtcMachineState}
      → IsSound g
      → IsSound (take_readback v transcript g)
  unfolding take_readback
  take_readback-IsSound transcript h = rb_remove_matched-IsSound v (ground arith)

  judge-IsSound : (ms : List Mismatch) (w : World) → IsSound w.g → IsSound (judge ms w).0.g
  unfolding judge
  judge-IsSound [] w h = rb_clear-IsSound h
  judge-IsSound (m ∷ ms) w h = ground (arith, rb_clear-IsSound h)

  hear_readback-IsSound :
      (transcript : String) (w : World) → IsSound w.g → IsSound (hear_readback v transcript w).0.g
  unfolding hear_readback
  hear_readback-IsSound transcript w h =
      let w' = record w { g = take_readback v transcript w.g } in
      ground (
        arith,
        rb_clear-IsSound h,
        judge-IsSound (outstanding v transcript w'.g) w' (take_readback-IsSound transcript h),
      )

  supersede-IsSound :
      (next : AtcState) {g : AtcMachineState} → IsSound g → IsSound (supersede next g)
  unfolding supersede
  supersede-IsSound next h = ground (arith, rb_clear-IsSound h)

  answer_readback-IsSound :
      (resp : AtcResponse) {g : AtcMachineState} → IsSound g → IsSound (answer_readback v resp g)
  unfolding answer_readback
  answer_readback-IsSound resp h =
      ground (arith, rb_merge-IsSound v resp.text h, supersede-IsSound resp.next_state h)

  track_readback-IsSound :
      (msg : PilotMessage) (resp : AtcResponse) (w : World)
      → IsSound w.g
      → IsSound (track_readback v msg resp w).0.g
  unfolding track_readback
  track_readback-IsSound msg resp w h =
      ground (arith, hear_readback-IsSound msg.raw_transcript w h, answer_readback-IsSound resp h)

module _ (msg : PilotMessage) (ctx : XPlaneContext) where
  drop_stale-IsSound :
      (next : AtcState) {g : AtcMachineState} → IsSound g → IsSound (drop_stale next g)
  unfolding drop_stale
  drop_stale-IsSound next h = ground (arith, rb_clear-IsSound h)

  lock_runway-IsSound :
      (next : AtcState) {g : AtcMachineState} → IsSound g → IsSound (lock_runway msg ctx next g)
  unfolding lock_runway
  lock_runway-IsSound next h = ground arith

  lock_callsign-IsSound :
      (next : AtcState) {g : AtcMachineState} → IsSound g → IsSound (lock_callsign msg next g)
  unfolding lock_callsign
  lock_callsign-IsSound next h = ground arith

  track_departure-IsSound :
      (prev next : AtcState) {g : AtcMachineState}
      → IsSound g
      → IsSound (track_departure msg prev next g)
  unfolding track_departure
  track_departure-IsSound prev next h = ground arith

  advance-IsSound :
      (resp : AtcResponse) {g : AtcMachineState} → IsSound g → IsSound (advance msg resp g)
  unfolding advance
  advance-IsSound resp {g} h = ground (
    arith,
    track_departure-IsSound g.state resp.next_state
        (transition_to-IsSound resp.next_state ("process:" +s intent_template_key msg.intent) h),
  )

  end_session-IsSound :
      (next : AtcState) {g : AtcMachineState} → IsSound g → IsSound (end_session next g)
  unfolding end_session release_runway release_callsign
  end_session-IsSound next h = ground arith

  advance_to-IsSound :
      (target : Option AtcState) (resp : AtcResponse) {g : AtcMachineState}
      → IsSound g
      → IsSound (advance_to target resp g).0
  unfolding advance_to
  advance_to-IsSound none resp h = h
  advance_to-IsSound (some s) resp h = transition_to-IsSound s "tower_only_auto_advance" h

  keep_response-IsSound :
      (resp : AtcResponse) {g : AtcMachineState} → IsSound g → IsSound (keep_response resp g)
  unfolding keep_response
  keep_response-IsSound resp h = ground arith

  settle-IsSound :
      (rules : FlightRules) (resp : AtcResponse) {g : AtcMachineState}
      → IsSound g
      → IsSound (settle rules msg ctx resp g).0
  unfolding settle tower_only_advance
  settle-IsSound rules resp h = keep_response-IsSound _ (
      advance_to-IsSound _ resp (
        end_session-IsSound resp.next_state (
          advance-IsSound resp (
            lock_callsign-IsSound resp.next_state
              (lock_runway-IsSound resp.next_state (drop_stale-IsSound resp.next_state h))))))

finish-IsSound :
    (rules : FlightRules) (msg : PilotMessage) (ctx : XPlaneContext) (resp : AtcResponse)
    (r : World × Option Mismatch)
    → IsSound r.0.g
    → IsSound (finish rules msg ctx resp r).0.g
unfolding finish
finish-IsSound rules msg ctx resp (w, none) h = settle-IsSound msg ctx rules resp h
finish-IsSound rules msg ctx resp (w, some m) h = h

-- The hooks keep the invariant, on every branch, whatever the verifier reports.
pub apply_post_transition_hooks-IsSound :
    (v : Verifier) (rules : FlightRules) (msg : PilotMessage) (ctx : XPlaneContext)
    (resp : AtcResponse) (w : World)
    → IsSound w.g
    → IsSound (apply_post_transition_hooks v rules msg ctx resp w).0.g
unfolding apply_post_transition_hooks
apply_post_transition_hooks-IsSound v rules msg ctx resp w h =
    let w' = record w { g = accept_silently v msg w.g } in
    finish-IsSound rules msg ctx resp (track_readback v msg resp w')
      (track_readback-IsSound v msg resp w' (accept_silently-IsSound v msg h))
