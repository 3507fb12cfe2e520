-- ===== src/Process/Sound.antt =====
-- The invariant of the machine state over a whole call.
use xp_welly_llm_atc.Base.{
  ℤ, true, false, [], none, some, ◌≡◌, ◌⊎◌, inl, inr, arith, ap, is_empty, string_eq,
}
use xp_welly_llm_atc.State.{AtcResponse}
use xp_welly_llm_atc.Intent.{PilotMessage}
use xp_welly_llm_atc.Machine.{
  set_readback_pending, transition_to, set_departure_type, set_ifr_squawk,
}
use xp_welly_llm_atc.Readback.{Verifier}
use xp_welly_llm_atc.Invariant.{
  IsSound, transition_to-IsSound, set_departure_type-IsSound, set_ifr_squawk-IsSound,
  set_was_airborne-IsSound,
}
use xp_welly_llm_atc.Invariant.Calls.{check_airport_change-IsSound}
use xp_welly_llm_atc.Invariant.HookSteps.{apply_post_transition_hooks-IsSound}
use xp_welly_llm_atc.Ground.{GroundContext, Session, Services}
use xp_welly_llm_atc.Ground.Vars.{build_vars, touch_vars}
use xp_welly_llm_atc.Ground.Reply.{Outcome, machine}
use xp_welly_llm_atc.Ground.Guards.{taxis_in, taxi_in}
use xp_welly_llm_atc.Process.{
  gate_ifr, handle, reset_airborne, run_hooks, respond, finish_call, start_call, process,
}
use xp_welly_llm_atc.Process.Keeps.{IsKept, Kept, touch_vars-P}
use xp_welly_llm_atc.Process.Chain.{handle-Kept}

IsSound-IsKept : (msg : PilotMessage) → IsKept IsSound msg
IsSound-IsKept msg = record {
  moved = λ next reason g h. transition_to-IsSound next reason {g = g} h;
  typed = λ t g h. set_departure_type-IsSound t {g = g} h;
  squawked = λ sq g e h. set_ifr_squawk-IsSound sq {g = g} h;
}

queue-IsKept : (msg : PilotMessage) → IsKept (λ g. g.pending_clearances ≡ []) msg
unfolding transition_to set_departure_type set_ifr_squawk
queue-IsKept msg = record {
  moved = λ next reason g h. ground arith;
  typed = λ t g h. h;
  squawked = λ sq g e h. h;
}

module _ (v : Verifier) (sv : Services) (ctx : GroundContext) where
  reset_airborne-IsSound :
      (msg : PilotMessage) (s : Session)
      → IsSound (machine s)
      → IsSound (machine (reset_airborne sv msg ctx s))
  unfolding reset_airborne
  reset_airborne-IsSound msg s h = ground (arith, set_was_airborne-IsSound false {g = machine s} h)

  respond-IsSound :
      (msg : PilotMessage) (s : Session)
      → IsSound (machine s)
      → IsSound (machine (respond v sv msg ctx s).0)
  unfolding respond run_hooks build_vars
  respond-IsSound msg s h =
      let s' = touch_vars sv msg ctx s in
      let h' = touch_vars-P sv msg ctx IsSound (IsSound-IsKept msg) s h in
      apply_post_transition_hooks-IsSound v sv.rules.flight msg ctx.base _ _
        (reset_airborne-IsSound msg s' h')

  -- The call was answered by the way to the stand.
  abbrev pub WentToStand : PilotMessage → Session × AtcResponse → Type 0
  WentToStand msg result =
      (s : Session) × IsSound (machine s)
      × (taxis_in sv msg ctx s ≡ true)
      × (result.0 ≡ (taxi_in sv msg ctx s).0)

  finish_call-IsSound :
      (msg : PilotMessage) (o : Outcome)
      → Kept sv msg ctx IsSound o
      → IsSound (machine (finish_call v sv msg ctx o).0)
        ⊎ WentToStand msg (finish_call v sv msg ctx o)
  unfolding finish_call taxi_in
  finish_call-IsSound msg (s, none) (inl h) = inl (respond-IsSound msg s h)
  finish_call-IsSound msg (s, none) (inr (t, h, c, e)) = absurd (cc (ap (λ o. o.1) e))
  finish_call-IsSound msg (s, some r) (inl h) = inl h
  finish_call-IsSound msg (s, some r) (inr (t, h, c, e)) = inr (t, h, c, ap (λ o. o.0) e)

  -- A call of the pilot keeps the invariant of the machine state, whichever handler answers it, but
  -- where it sends an aircraft that has landed to its stand.
  pub process-IsSound :
      (msg_in : PilotMessage) (now_secs : ℤ) (s : Session)
      → IsSound (machine s)
      → let result = process v sv msg_in ctx now_secs s in
        IsSound (machine result.0) ⊎ WentToStand (gate_ifr sv.atc_profile msg_in) result
  unfolding process start_call
  process-IsSound msg_in now_secs s h =
      let msg = gate_ifr sv.atc_profile msg_in in
      let s' = start_call sv ctx now_secs s in
      let h' = check_airport_change-IsSound ctx.base now_secs s.world h in
      finish_call-IsSound msg (handle sv msg ctx s')
        (handle-Kept sv msg ctx IsSound (IsSound-IsKept msg) s' h')

  -- The way to the stand raises the read-back flag and puts no clearance into the queue: where none is
  -- outstanding, the invariant is lost.
  pub taxi_in-unsound :
      (msg : PilotMessage) (s : Session)
      → (machine s).pending_clearances ≡ []
      → ¬ IsSound (machine (taxi_in sv msg ctx s).0)
  unfolding taxi_in build_vars set_readback_pending
  taxi_in-unsound msg s none_owed h =
      let kept_queue =
        touch_vars-P sv msg ctx (λ g. g.pending_clearances ≡ []) (queue-IsKept msg) s none_owed in
      cc (h.flag, ap is_empty kept_queue)
