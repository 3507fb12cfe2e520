-- ===== src/Traffic/Dialog/Turn.antt =====
-- One turn of the traffic dialogue.
use xp_welly_llm_atc.Base.{String, not, ◌&&◌, List, ◌==◌, ◌≡◌, arith, if◌then◌else◌}
use xp_welly_llm_atc.Intent.{PilotIntent, pilot_intent_eq}
use xp_welly_llm_atc.Context.{Formats}
use xp_welly_llm_atc.World.{Dialog, dialog_init}
use xp_welly_llm_atc.Traffic.{TrafficTarget}
use xp_welly_llm_atc.Traffic.Dialog.{
  is_awaiting_ack, is_traffic_intent, handle_pilot, in_sight, reissue,
}

module _ (fmt : Formats) (render : String → List (String × String) → String) where
  -- A call of the pilot is taken exactly while an advisory awaits its acknowledgement and the intent is
  -- one of the three about traffic; only "in sight" counts as visual contact; a call that is taken ends
  -- the wait, and any other leaves the dialogue as it is.
  pub handle_pilot_lem :
      (intent : PilotIntent) (vars : List (String × String)) (targets : List TrafficTarget)
      (d : Dialog)
      → let (d', r) = handle_pilot fmt render intent vars targets d in
        (r.handled ≡ (is_awaiting_ack d && is_traffic_intent intent))
        × (r.acknowledged_with_visual ≡ (r.handled && intent == PilotIntent.traffic_in_sight))
        × (is_awaiting_ack d' ≡ (is_awaiting_ack d && not r.handled))
        × (d' ≡ (if r.handled then dialog_init else d))
  unfolding handle_pilot is_awaiting_ack is_traffic_intent in_sight reissue
  handle_pilot_lem intent vars targets d = ground arith
