-- ===== src/Traffic/Dialog.antt =====
-- The acknowledgement of a traffic call (src/atc/traffic_dialog.cpp).
pub mod Turn
use xp_welly_llm_atc.Base.{
  ℕ, String, Bool, true, false, not, ◌||◌, List, [], ◌∷◌, Option, none, some, ◌==◌, nat_eq,
  string_eq, if◌then◌else◌,
}
use xp_welly_llm_atc.Intent.{PilotIntent, pilot_intent_eq}
use xp_welly_llm_atc.Context.{Formats}
use xp_welly_llm_atc.World.{Dialog, DialogState, dialog_init}
use xp_welly_llm_atc.Traffic.{TrafficTarget}

pub record Reply : Type 0 where
  pub handled : Bool
  pub text : String
  pub acknowledged_with_visual : Bool

abbrev no_reply : Reply
no_reply = record { handled = false; text = ""; acknowledged_with_visual = false }

abbrev pub is_awaiting : DialogState → Bool
is_awaiting DialogState.idle = false
is_awaiting DialogState.awaiting_ack = true

unfoldable pub is_awaiting_ack : Dialog → Bool
is_awaiting_ack d = is_awaiting d.state

unfoldable pub on_advisory_emitted : ℕ → Dialog
on_advisory_emitted target_mode_s_id = record {
  state = DialogState.awaiting_ack;
  pending_target_id = target_mode_s_id;
}

unfoldable pub find_target : List TrafficTarget → ℕ → Option TrafficTarget
find_target [] mode_s_id = none
find_target (t ∷ ts) mode_s_id =
    if t.mode_s_id == mode_s_id then some t else find_target ts mode_s_id

-- `vars[k] = v`.
unfoldable pub set_var : String → String → List (String × String) → List (String × String)
set_var k v [] = (k, v) ∷ []
set_var k v ((j, w) ∷ m) = if j == k then (j, v) ∷ m else (j, w) ∷ set_var k v m

unfoldable pub inject_geometry :
    Formats → Option TrafficTarget → List (String × String) → List (String × String)
inject_geometry fmt (some t) vars =
    set_var "distance" (fmt.fixed0 t.distance_to_user_nm)
      (set_var "clock" (fmt.fixed0 t.clock_position) vars)
inject_geometry fmt none vars = set_var "distance" "0" (set_var "clock" "12" vars)

unfoldable pub is_traffic_intent : PilotIntent → Bool
is_traffic_intent i =
    i == PilotIntent.traffic_in_sight
    || i == PilotIntent.traffic_negative_contact
    || i == PilotIntent.traffic_looking

-- `render key vars` is the template of the block TRAFFIC_DIALOG filled in, and `vars` the variables
-- of `ground_ops::build_vars` for the call.
module _ (fmt : Formats) (render : String → List (String × String) → String) where
  unfoldable pub reissue : PilotIntent → List TrafficTarget → ℕ → List (String × String) → Reply
  reissue intent targets id vars = record {
    handled = true;
    text =
        render
          (if intent == PilotIntent.traffic_looking
            then "TRAFFIC_LOOKING"
            else "TRAFFIC_NEGATIVE_CONTACT")
          (inject_geometry fmt (find_target targets id) vars);
    acknowledged_with_visual = false;
  }

  unfoldable pub in_sight : List (String × String) → Reply
  in_sight vars = record {
    handled = true;
    text = render "TRAFFIC_IN_SIGHT" vars;
    acknowledged_with_visual = true;
  }

  unfoldable pub handle_pilot :
      PilotIntent → List (String × String) → List TrafficTarget → Dialog → Dialog × Reply
  unfolding is_awaiting_ack
  handle_pilot intent vars targets d =
      if not (is_awaiting_ack d)
      then (d, no_reply)
      else if not (is_traffic_intent intent)
      then (d, no_reply)
      else (
        dialog_init,
        if intent == PilotIntent.traffic_in_sight
            then in_sight vars
            else reissue intent targets d.pending_target_id vars,
      )
