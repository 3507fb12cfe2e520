-- ===== src/Reachable/CallSlots.antt =====
-- A whole call of the pilot leaves no two clearances of the queue in one slot.
use xp_welly_llm_atc.Base.{ℤ, none, some, inl, inr, arith, ap}
use xp_welly_llm_atc.Intent.{PilotMessage}
use xp_welly_llm_atc.Machine.{
  set_readback_pending, transition_to, set_departure_type, set_ifr_squawk, set_was_airborne,
}
use xp_welly_llm_atc.Readback.{Verifier}
use xp_welly_llm_atc.Ground.{GroundContext, Session, Services}
use xp_welly_llm_atc.Ground.Vars.{build_vars, touch_vars}
use xp_welly_llm_atc.Ground.Reply.{Outcome, machine}
use xp_welly_llm_atc.Ground.Guards.{taxi_in}
use xp_welly_llm_atc.Process.{
  gate_ifr, handle, reset_airborne, run_hooks, respond, finish_call, start_call, process,
}
use xp_welly_llm_atc.Process.Keeps.{IsKept, Kept, touch_vars-P}
use xp_welly_llm_atc.Process.Chain.{handle-Kept}
use xp_welly_llm_atc.Reachable.Cuts.{check_airport_change-Cut}
use xp_welly_llm_atc.Reachable.HookSlots.{Slots, Cut-Slots, hooks-Slots}

module _ (v : Verifier) (sv : Services) (ctx : GroundContext) where
  Slots-IsKept : (msg : PilotMessage) → IsKept (Slots v) msg
  unfolding transition_to set_departure_type set_ifr_squawk
  Slots-IsKept msg = record {
    moved = λ next reason g h. ground (arith, h);
    typed = λ t g h. h;
    squawked = λ sq g e h. h;
  }

  reset_airborne-Slots :
      (msg : PilotMessage) (s : Session)
      → Slots v (machine s)
      → Slots v (machine (reset_airborne sv msg ctx s))
  unfolding reset_airborne set_was_airborne
  reset_airborne-Slots msg s h = ground (arith, h)

  respond-Slots :
      (msg : PilotMessage) (s : Session)
      → Slots v (machine s)
      → Slots v (machine (respond v sv msg ctx s).0)
  unfolding respond run_hooks build_vars
  respond-Slots msg s h =
      let s' = touch_vars sv msg ctx s in
      let h' = touch_vars-P sv msg ctx (Slots v) (Slots-IsKept msg) s h in
      hooks-Slots v sv.rules.flight msg ctx.base _ _ (reset_airborne-Slots msg s' h')

  -- The way to the stand leaves the queue.
  taxi_in-Slots :
      (msg : PilotMessage) (s : Session)
      → Slots v (machine s)
      → Slots v (machine (taxi_in sv msg ctx s).0)
  unfolding taxi_in build_vars set_readback_pending
  taxi_in-Slots msg s h = touch_vars-P sv msg ctx (Slots v) (Slots-IsKept msg) s h

  finish_call-Slots :
      (msg : PilotMessage) (o : Outcome)
      → Kept sv msg ctx (Slots v) o
      → Slots v (machine (finish_call v sv msg ctx o).0)
  unfolding finish_call
  finish_call-Slots msg (s, none) (inl h) = respond-Slots msg s h
  finish_call-Slots msg (s, none) (inr (t, h, c, e)) =
      respond-Slots msg s (rw (ap (λ o. o.0) e) (taxi_in-Slots msg t h))
  finish_call-Slots msg (s, some r) (inl h) = h
  finish_call-Slots msg (s, some r) (inr (t, h, c, e)) =
      rw (ap (λ o. o.0) e) (taxi_in-Slots msg t h)

  pub process-Slots :
      (msg_in : PilotMessage) (now_secs : ℤ) (s : Session)
      → Slots v (machine s)
      → Slots v (machine (process v sv msg_in ctx now_secs s).0)
  unfolding process start_call
  process-Slots msg_in now_secs s h =
      let msg = gate_ifr sv.atc_profile msg_in in
      let s' = start_call sv ctx now_secs s in
      let h' =
        Cut-Slots v (machine s) (machine s') (check_airport_change-Cut ctx.base now_secs s.world)
          h in
      finish_call-Slots msg (handle sv msg ctx s')
        (handle-Kept sv msg ctx (Slots v) (Slots-IsKept msg) s' h')
