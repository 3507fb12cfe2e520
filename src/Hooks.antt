-- ===== src/Hooks.antt =====
-- The hooks behind the template lookup (src/atc/atc_state_machine.cpp,
-- `apply_post_transition_hooks`), in the order of the source.
pub mod Session
pub mod Outstanding
pub mod Verbatim
use xp_welly_llm_atc.Base.{
  ℕ, ◌+◌, ltb, String, Bool, not, ◌&&◌, ◌||◌, List, [], ◌∷◌, Option, none, some, ◌==◌, nat_eq,
  string_eq, empty, is_empty, contains, remove_if, find_key, ◌+s◌, if◌then◌else◌,
}
use xp_welly_llm_atc.State.{AtcState, AtcResponse, DepartureType, atc_state_eq}
use xp_welly_llm_atc.State.Names.{state_name, state_from_name}
use xp_welly_llm_atc.Intent.{PilotIntent, PilotMessage, pilot_intent_eq}
use xp_welly_llm_atc.Intent.Names.{intent_template_key}
use xp_welly_llm_atc.Context.{XPlaneContext}
use xp_welly_llm_atc.Machine.{
  AtcMachineState, bump_gen, transition_to, release_runway, release_callsign,
}
use xp_welly_llm_atc.Readback.{
  Verifier, Mismatch, rb_clear, rb_merge, rb_remove_matched, insert_fields,
}
use xp_welly_llm_atc.Callsign.{locked_callsign}
use xp_welly_llm_atc.World.{World}
use xp_welly_llm_atc.Correction.{FlightRules}

abbrev pub owes : AtcMachineState → Bool
owes g = g.readback_pending && not (empty g.last_clearance_text)

-- "negative, …": the first outstanding item, behind the callsign.
abbrev pub correction_text : AtcMachineState → Mismatch → String
correction_text g m =
    (if empty g.session_callsign then "" else g.session_callsign +s ", ") +s m.correction +s "."

-- The attempts at one outstanding text, this one included.
abbrev pub attempts : World → ℕ
attempts w = (if w.rb_last_cl == w.g.last_clearance_text then w.rb_fails else 0) + 1

-- One failed attempt is corrected, the second is accepted. `some m`: the hooks end with the
-- correction of `m`.
unfoldable pub judge : List Mismatch → World → World × Option Mismatch
judge [] w = (record w { g = rb_clear w.g }, none)
judge (m ∷ _) w =
    if ltb (attempts w) 2
    then (record w { rb_last_cl = w.g.last_clearance_text; rb_fails = attempts w }, some m)
    else (record w { g = rb_clear w.g; rb_last_cl = w.g.last_clearance_text; rb_fails = 0 }, none)

-- An answer while a read-back is owed: a new state supersedes it, the same state restarts the wait.
unfoldable pub supersede : AtcState → AtcMachineState → AtcMachineState
unfolding bump_gen
supersede next g = if not (next == g.state) then rb_clear g else record (bump_gen g) {
  readback_last_reminder_secs = g.last_now_secs;
  readback_reminder_count = 0;
}

module _ (v : Verifier) where
  -- A call that is no read-back but states every owed field acknowledges the clearance.
  unfoldable pub accept_silently : PilotMessage → AtcMachineState → AtcMachineState
  accept_silently msg g =
      if owes g
        && not (msg.intent == PilotIntent.readback)
        && not (empty msg.raw_transcript)
        && is_empty (v.check g.last_clearance_text msg.raw_transcript)
      then rb_clear g
      else g

  -- The fields stated in this turn are added to those of the turns before, and every clearance that
  -- is read back in full leaves the queue.
  unfoldable pub take_readback : String → AtcMachineState → AtcMachineState
  take_readback transcript g = rb_remove_matched v (record g {
    readback_ok_fields =
        insert_fields g.readback_ok_fields (v.matched_fields g.last_clearance_text transcript);
  })

  -- What is still owed after `take_readback`.
  abbrev pub outstanding : String → AtcMachineState → List Mismatch
  outstanding transcript g =
      if is_empty g.pending_clearances
      then []
      else remove_if (λ m. contains g.readback_ok_fields m.field)
          (v.check g.last_clearance_text transcript)

  unfoldable pub hear_readback : String → World → World × Option Mismatch
  hear_readback transcript w =
      let w' = record w { g = take_readback transcript w.g } in
      if owes w.g
      then judge (outstanding transcript w'.g) w'
      else (record w { g = rb_clear w.g }, none)

  unfoldable pub answer_readback : AtcResponse → AtcMachineState → AtcMachineState
  answer_readback resp g =
      if resp.requires_readback
      then rb_merge v resp.text g
      else if g.readback_pending && not (empty resp.text)
      then supersede resp.next_state g
      else g

  unfoldable pub track_readback : PilotMessage → AtcResponse → World → World × Option Mismatch
  track_readback msg resp w =
      if msg.intent == PilotIntent.readback
      then hear_readback msg.raw_transcript w
      else (record w { g = answer_readback resp w.g }, none)

-- Leaving the controller or resetting drops the read-back.
unfoldable pub drop_stale : AtcState → AtcMachineState → AtcMachineState
drop_stale next g = if next == AtcState.en_route || next == AtcState.idle then rb_clear g else g

-- The runway of a clearance: as said, else the active one, else "28".
abbrev pub clearance_runway : PilotMessage → XPlaneContext → String
clearance_runway msg ctx =
    if not (empty msg.runway)
    then msg.runway
    else if not (empty ctx.active_runway)
    then ctx.active_runway
    else "28"

unfoldable pub lock_runway :
    PilotMessage → XPlaneContext → AtcState → AtcMachineState → AtcMachineState
unfolding bump_gen
lock_runway msg ctx next g =
    if empty g.assigned_runway
      && not (next == AtcState.idle)
      && not (empty (clearance_runway msg ctx))
    then record (bump_gen g) { assigned_runway = clearance_runway msg ctx }
    else g

unfoldable pub lock_callsign : PilotMessage → AtcState → AtcMachineState → AtcMachineState
unfolding bump_gen
lock_callsign msg next g =
    if empty g.session_callsign && not (empty msg.callsign) && not (next == AtcState.idle)
    then record (bump_gen g) {
      session_callsign = locked_callsign g.reference_callsign msg.callsign;
    }
    else g

-- `prev` is the state before the transition.
unfoldable pub track_departure :
    PilotMessage → AtcState → AtcState → AtcMachineState → AtcMachineState
unfolding bump_gen
track_departure msg prev next g =
    if next == AtcState.departure_cleared && not (prev == AtcState.departure_cleared)
    then record (bump_gen g) {
      departure_type =
          if msg.intent == PilotIntent.ready_for_departure_vfr
          then DepartureType.cross_country
          else DepartureType.pattern;
    }
    else if prev == AtcState.departure_cleared && not (next == AtcState.departure_cleared)
    then record (bump_gen g) { departure_type = DepartureType.pattern }
    else g

-- Nothing moves where the machine is silent in the same state.
unfoldable pub moves : AtcResponse → AtcMachineState → Bool
moves resp g = not (empty resp.text) || not (resp.next_state == g.state)

unfoldable pub advance : PilotMessage → AtcResponse → AtcMachineState → AtcMachineState
advance msg resp g =
    if moves resp g
    then track_departure msg g.state resp.next_state
        (transition_to resp.next_state ("process:" +s intent_template_key msg.intent) g)
    else g

unfoldable pub end_session : AtcState → AtcMachineState → AtcMachineState
end_session next g = if next == AtcState.idle then release_callsign (release_runway g) else g

abbrev pub tower_only_target : Option String → Option AtcState
tower_only_target none = none
tower_only_target (some next) = if empty next then none else some (state_from_name next)

unfoldable pub advance_to :
    Option AtcState → AtcResponse → AtcMachineState → AtcMachineState × AtcResponse
advance_to none resp g = (g, resp)
advance_to (some target) resp g =
    (transition_to target "tower_only_auto_advance" g, record resp { next_state = target })

-- A field without Ground skips the hand-over to Tower.
unfoldable pub tower_only_advance :
    FlightRules → XPlaneContext → AtcResponse → AtcMachineState → AtcMachineState × AtcResponse
tower_only_advance rules ctx resp g =
    let next = find_key (state_name g.state g.departure_type) rules.tower_only_auto_advance in
    advance_to (if ctx.tower_only then tower_only_target next else none) resp g

unfoldable pub keep_response : AtcResponse → AtcMachineState → AtcMachineState
unfolding bump_gen
keep_response resp g =
    if not (empty resp.text)
    then record (bump_gen g) { last_tower_response_text = resp.text }
    else g

-- The hooks behind the read-back.
unfoldable pub settle :
    FlightRules
    → PilotMessage
    → XPlaneContext
    → AtcResponse
    → AtcMachineState
    → AtcMachineState × AtcResponse
settle rules msg ctx resp g =
    let next = resp.next_state in
    let locked = lock_callsign msg next (lock_runway msg ctx next (drop_stale next g)) in
    let (g', resp') =
      tower_only_advance rules ctx resp (end_session next (advance msg resp locked)) in
    (keep_response resp' g', resp')

-- An outstanding item ends the hooks with its correction, in the same state.
unfoldable pub finish :
    FlightRules
    → PilotMessage
    → XPlaneContext
    → AtcResponse
    → World × Option Mismatch
    → World × AtcResponse
finish rules msg ctx resp (w, none) =
    let (g', resp') = settle rules msg ctx resp w.g in (record w { g = g' }, resp')
finish rules msg ctx resp (w, some m) =
    (w, record resp { text = correction_text w.g m; next_state = w.g.state })

module _ (v : Verifier) (rules : FlightRules) where
  unfoldable pub apply_post_transition_hooks :
      PilotMessage → XPlaneContext → AtcResponse → World → World × AtcResponse
  apply_post_transition_hooks msg ctx resp w =
      finish rules msg ctx resp
        (track_readback v msg resp (record w { g = accept_silently v msg w.g }))
