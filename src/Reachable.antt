-- ===== src/Reachable.antt =====
-- Every order of calls that the flight loop makes on the state machine, as a step relation, and what
-- holds of each world that they reach.
pub mod Cuts
pub mod HookSlots
pub mod CallSlots
pub mod Slots
use xp_welly_llm_atc.Base.{ℕ, ℤ, String, Bool, ◌⊎◌, inl, inr}
use xp_welly_llm_atc.State.{AtcState, AtcResponse}
use xp_welly_llm_atc.Intent.{PilotMessage}
use xp_welly_llm_atc.Context.{XPlaneContext, Geometry}
use xp_welly_llm_atc.Phase.{FlightPhase}
use xp_welly_llm_atc.Machine.{
  AtcMachineState, set_was_airborne, set_assigned_runway, set_session_callsign, set_ifr_squawk,
  set_last_tower_response, set_state,
}
use xp_welly_llm_atc.Readback.{Verifier, arm_readback, cancel_readback}
use xp_welly_llm_atc.World.{World, Settings, init, stop, reset, disregard, check_airport_change}
use xp_welly_llm_atc.Reminder.{consume_readback_reminder}
use xp_welly_llm_atc.Correction.{FlightRules, check_auto_correction}
use xp_welly_llm_atc.Hooks.{apply_post_transition_hooks}
use xp_welly_llm_atc.Ground.{GroundContext, Session, Services}
use xp_welly_llm_atc.Process.{gate_ifr, process}
use xp_welly_llm_atc.Process.Sound.{WentToStand, process-IsSound}
use xp_welly_llm_atc.Snapshot.{capture_snapshot, restore_snapshot_if_gen}
use xp_welly_llm_atc.Invariant.{
  IsSound, rb_merge-IsSound, cancel_readback-IsSound, set_was_airborne-IsSound,
  set_assigned_runway-IsSound, set_session_callsign-IsSound, set_ifr_squawk-IsSound,
  set_last_tower_response-IsSound, set_state-IsSound,
}
use xp_welly_llm_atc.Invariant.Calls.{
  init-IsSound, stop-IsSound, reset-IsSound, disregard-IsSound, check_airport_change-IsSound,
  consume_readback_reminder-IsSound, check_auto_correction-IsSound, restore_snapshot_if_gen-IsSound,
}
use xp_welly_llm_atc.Invariant.HookSteps.{apply_post_transition_hooks-IsSound}

-- A call on the machine state alone leaves the rest of the world.
abbrev pub on : World → AtcMachineState → World
on w g = record w { g = g }

module _ (v : Verifier) (geo : Geometry) (settings : Settings) (rules : FlightRules) where
  -- One public call, with any arguments.
  pub data Step (w : World) : World → Type 0 where
    does_init : Step w (init settings w)
    does_stop : Step w (stop w)
    does_reset : Step w (reset w)
    does_set_state : (s : AtcState) → Step w (on w (set_state s w.g))
    does_set_was_airborne : (b : Bool) → Step w (on w (set_was_airborne b w.g))
    does_set_runway : (rwy : String) → Step w (on w (set_assigned_runway rwy w.g))
    does_set_callsign : (cs : String) → Step w (on w (set_session_callsign cs w.g))
    does_set_squawk : (sq : String) → Step w (on w (set_ifr_squawk sq w.g))
    does_set_tower_response : (text : String) → Step w (on w (set_last_tower_response text w.g))
    does_arm : (text : String) → Step w (on w (arm_readback v text w.g))
    does_cancel : Step w (on w (cancel_readback w.g))
    does_disregard :
        (ctx : XPlaneContext) (phase : FlightPhase) (now : ℤ)
        → Step w (disregard geo ctx phase now w)
    does_airport : (ctx : XPlaneContext) (now : ℤ) → Step w (check_airport_change ctx now w)
    does_remind : (now : ℤ) → Step w (on w (consume_readback_reminder now w.g).0)
    does_correct :
        (phase : FlightPhase) (dt now : ℤ)
        → Step w (on w (check_auto_correction settings rules phase dt now w.g))
    does_hooks :
        (msg : PilotMessage) (ctx : XPlaneContext) (resp : AtcResponse)
        → Step w (apply_post_transition_hooks v rules msg ctx resp w).0
    does_process :
        (sv : Services) (msg : PilotMessage) (ctx : GroundContext) (now : ℤ) (s : Session)
        → Step w (process v sv msg ctx now (record s { world = w })).0.world

  -- The worlds that calls reach from `s`. A restore brings back a snapshot of a world that was
  -- reached before.
  pub data Reach (s : World) : World → Type 0 where
    here : Reach s s
    next : {t u : World} → Reach s t → Step t u → Reach s u
    restores :
        {t u : World}
        → Reach s t
        → Reach s u
        → (expected : ℕ) → Reach s (restore_snapshot_if_gen (capture_snapshot t) expected u).0

  -- The step is a call of the pilot that sent a landed aircraft to its stand.
  pub SendsToStand : {w u : World} → Step w u → Type 0
  SendsToStand {w} (does_process sv msg ctx now s) =
      WentToStand v sv ctx (gate_ifr sv.atc_profile msg)
        (process v sv msg ctx now (record s { world = w }))
  SendsToStand _ = ⊥

  -- One of the steps that lead to the world, or to a snapshot that was restored on the way, is.
  pub SentOnTheWay : {s u : World} → Reach s u → Type 0
  SentOnTheWay here = ⊥
  SentOnTheWay (next r st) = SentOnTheWay r ⊎ SendsToStand st
  SentOnTheWay (restores r r' expected) = SentOnTheWay r ⊎ SentOnTheWay r'

  pub Step-IsSound : {w u : World} (st : Step w u) → IsSound w.g → IsSound u.g ⊎ SendsToStand st
  unfolding arm_readback SendsToStand
  Step-IsSound {w} does_init h = inl (init-IsSound settings w h)
  Step-IsSound {w} does_stop h = inl (stop-IsSound w h)
  Step-IsSound {w} does_reset h = inl (reset-IsSound w h)
  Step-IsSound (does_set_state s) h = inl (set_state-IsSound s h)
  Step-IsSound (does_set_was_airborne b) h = inl (set_was_airborne-IsSound b h)
  Step-IsSound (does_set_runway rwy) h = inl (set_assigned_runway-IsSound rwy h)
  Step-IsSound (does_set_callsign cs) h = inl (set_session_callsign-IsSound cs h)
  Step-IsSound (does_set_squawk sq) h = inl (set_ifr_squawk-IsSound sq h)
  Step-IsSound (does_set_tower_response text) h = inl (set_last_tower_response-IsSound text h)
  Step-IsSound (does_arm text) h = inl (rb_merge-IsSound v text h)
  Step-IsSound does_cancel h = inl (cancel_readback-IsSound h)
  Step-IsSound {w} (does_disregard ctx phase now) h = inl (disregard-IsSound geo ctx phase now w h)
  Step-IsSound {w} (does_airport ctx now) h = inl (check_airport_change-IsSound ctx now w h)
  Step-IsSound (does_remind now) h = inl (consume_readback_reminder-IsSound now h)
  Step-IsSound (does_correct phase dt now) h =
      inl (check_auto_correction-IsSound settings rules phase dt now h)
  Step-IsSound {w} (does_hooks msg ctx resp) h =
      inl (apply_post_transition_hooks-IsSound v rules msg ctx resp w h)
  Step-IsSound {w} (does_process sv msg ctx now s) h =
      process-IsSound v sv ctx msg now (record s { world = w }) h

  -- In every world that the calls of the flight loop, a whole call of the pilot among them, in any order
  -- and with any arguments, and restores of earlier snapshots reach from a sound one: a read-back is
  -- pending exactly when the queue is not empty, the text shown is the queue joined, the log has at most
  -- eight entries, the generation fits its 64 bits, and at most three reminders were counted; unless a
  -- call on the way sent a landed aircraft to its stand.
  pub Reach-IsSound : {s u : World} → IsSound s.g → (r : Reach s u) → IsSound u.g ⊎ SentOnTheWay r
  unfolding capture_snapshot SentOnTheWay
  Reach-IsSound h here = inl h
  Reach-IsSound h (next r st) = elim (Reach-IsSound h r) [
    | inr sent ↦ inr (inl sent)
    | inl before ↦ elim (Step-IsSound st before) [
      | inl after ↦ inl after
      | inr sends ↦ inr (inr sends)
    ]
  ]
  Reach-IsSound h (restores {t} {u} r r' expected) = elim (Reach-IsSound h r) [
    | inr sent ↦ inr (inl sent)
    | inl captured ↦ elim (Reach-IsSound h r') [
      | inr sent ↦ inr (inr sent)
      | inl current ↦ inl (restore_snapshot_if_gen-IsSound t.g expected u captured current)
    ]
  ]
