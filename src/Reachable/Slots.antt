-- ===== src/Reachable/Slots.antt =====
-- No two clearances of the queue ever claim one slot.
use xp_welly_llm_atc.Base.{ℕ, ◌==◌, nat_eq, bool_eq, inl, inr, Bool-cases}
use xp_welly_llm_atc.Intent.{pilot_intent_eq}
use xp_welly_llm_atc.Context.{Geometry}
use xp_welly_llm_atc.Machine.{set_assigned_runway, set_session_callsign, set_ifr_squawk}
use xp_welly_llm_atc.Readback.{Verifier, arm_readback, cancel_readback}
use xp_welly_llm_atc.Readback.Merge.{Exclusive, rb_merge-Exclusive}
use xp_welly_llm_atc.World.{World, Settings, init, stop, reset, check_airport_change}
use xp_welly_llm_atc.Reminder.{consume_readback_reminder}
use xp_welly_llm_atc.Correction.{FlightRules, check_auto_correction}
use xp_welly_llm_atc.Snapshot.{capture_snapshot, restore_snapshot_if_gen}
use xp_welly_llm_atc.Reachable.{Step, Reach}
use xp_welly_llm_atc.Reachable.HookSlots.{Slots, Cut-Slots, hooks-Slots}
use xp_welly_llm_atc.Reachable.CallSlots.{process-Slots}
use xp_welly_llm_atc.Reachable.Cuts.{
  set_state-Cut, set_was_airborne-Cut, set_last_tower_response-Cut, cancel_readback-Cut,
  disregard-Cut, check_airport_change-Cut, consume_readback_reminder-Cut, check_auto_correction-Cut,
}

module _ (v : Verifier) (geo : Geometry) (settings : Settings) (rules : FlightRules) where
  Step-Slots : {w u : World} → Step v geo settings rules w u → Slots v w.g → Slots v u.g
  unfolding init stop reset set_assigned_runway set_session_callsign set_ifr_squawk arm_readback
  Step-Slots Step.does_init s = tt
  Step-Slots Step.does_stop s = tt
  Step-Slots Step.does_reset s = tt
  Step-Slots {w} (Step.does_set_state to) s = rw (set_state-Cut to w.g) s
  Step-Slots {w} (Step.does_set_was_airborne b) s = rw (set_was_airborne-Cut b w.g) s
  Step-Slots (Step.does_set_runway rwy) s = s
  Step-Slots (Step.does_set_callsign cs) s = s
  Step-Slots (Step.does_set_squawk sq) s = s
  Step-Slots {w} (Step.does_set_tower_response text) s = rw (set_last_tower_response-Cut text w.g) s
  Step-Slots {w} (Step.does_arm text) s = rb_merge-Exclusive v text w.g s
  Step-Slots {w} Step.does_cancel s =
      Cut-Slots v w.g (cancel_readback w.g) (cancel_readback-Cut w.g) s
  Step-Slots {w} (Step.does_disregard ctx phase now) s = rw (disregard-Cut geo ctx phase now w) tt
  Step-Slots {w} (Step.does_airport ctx now) s =
      Cut-Slots v w.g (check_airport_change ctx now w).g (check_airport_change-Cut ctx now w) s
  Step-Slots {w} (Step.does_remind now) s =
      Cut-Slots v w.g (consume_readback_reminder now w.g).0 (consume_readback_reminder-Cut now w.g)
        s
  Step-Slots {w} (Step.does_correct phase dt now) s =
      Cut-Slots v w.g (check_auto_correction settings rules phase dt now w.g)
        (check_auto_correction-Cut settings rules phase dt now w.g) s
  Step-Slots {w} (Step.does_hooks msg ctx resp) s = hooks-Slots v rules msg ctx resp w s
  Step-Slots {w} (Step.does_process sv msg ctx now s) h =
      process-Slots v sv ctx msg now (record s { world = w }) h

  restore-Slots :
      (t u : World) (expected : ℕ)
      → Slots v t.g
      → Slots v u.g
      → Slots v (restore_snapshot_if_gen (capture_snapshot t) expected u).0.g
  unfolding restore_snapshot_if_gen capture_snapshot
  restore-Slots t u expected s s' = elim (Bool-cases (u.g.gen == expected)) [
    | inl h ↦ rw h s
    | inr h ↦ rw h s'
  ]

  -- In every world that the calls, in any order and with any arguments, and restores of earlier
  -- snapshots reach from one with an exclusive queue, no two clearances of the queue claim one slot.
  pub Reach-Exclusive :
      {s u : World}
      → Exclusive v s.g.pending_clearances
      → Reach v geo settings rules s u
      → Exclusive v u.g.pending_clearances
  Reach-Exclusive h Reach.here = h
  Reach-Exclusive h (Reach.next r st) = Step-Slots st (Reach-Exclusive h r)
  Reach-Exclusive h (Reach.restores {t} {u} r r' expected) =
      restore-Slots t u expected (Reach-Exclusive h r) (Reach-Exclusive h r')
