-- ===== src/Reachable/HookSlots.antt =====
-- The hooks leave no two clearances of the queue in one slot.
use xp_welly_llm_atc.Base.{
  ◌==◌, nat_eq, bool_eq, String, List, [], ◌∷◌, Option, none, some, ◌≡◌, refl, ◌⊎◌, inl, inr, arith,
  Bool-cases,
}
use xp_welly_llm_atc.State.{AtcResponse, AtcState-discrete}
use xp_welly_llm_atc.Intent.{PilotMessage, PilotIntent, pilot_intent_eq}
use xp_welly_llm_atc.Context.{XPlaneContext}
use xp_welly_llm_atc.Machine.{AtcMachineState}
use xp_welly_llm_atc.Readback.{Verifier, Mismatch, rb_merge, rb_remove_matched}
use xp_welly_llm_atc.Readback.Merge.{Exclusive, Exclusive-remove_if, rb_merge-Exclusive}
use xp_welly_llm_atc.World.{World}
use xp_welly_llm_atc.Correction.{FlightRules}
use xp_welly_llm_atc.Hooks.{
  owes, judge, supersede, accept_silently, take_readback, outstanding, hear_readback,
  answer_readback, track_readback, finish, apply_post_transition_hooks,
}
use xp_welly_llm_atc.Reachable.Cuts.{Cut, rb_clear-Cut, settle-Cut}

module _ (v : Verifier) where
  abbrev pub Slots : AtcMachineState → Type 0
  Slots g = Exclusive v g.pending_clearances

  pub Cut-Slots : (g h : AtcMachineState) → Cut g h → Slots g → Slots h
  Cut-Slots g h (inl same) s = rw same s
  Cut-Slots g h (inr gone) s = rw gone tt

  accept_silently-Cut : (msg : PilotMessage) (g : AtcMachineState) → Cut g (accept_silently v msg g)
  unfolding accept_silently
  accept_silently-Cut msg g = ground (arith, rb_clear-Cut g)

  take_readback-Slots : (t : String) (g : AtcMachineState) → Slots g → Slots (take_readback v t g)
  unfolding take_readback rb_remove_matched
  take_readback-Slots t g s = Exclusive-remove_if v _ g.pending_clearances s

  judge-Cut : (ms : List Mismatch) (w : World) → Cut w.g (judge ms w).0.g
  unfolding judge
  judge-Cut [] w = inr (rb_clear-Cut w.g)
  judge-Cut (m ∷ ms) w = ground (arith, rb_clear-Cut w.g)

  hear_readback-Cut :
      (t : String) (w : World) → Cut (take_readback v t w.g) (hear_readback v t w).0.g
  unfolding hear_readback
  hear_readback-Cut t w =
      let w' = record w { g = take_readback v t w.g } in
      elim (Bool-cases (owes w.g)) [
        | inl h ↦ ground (arith, h, judge-Cut (outstanding v t w'.g) w')
        | inr h ↦ ground (arith, h, rb_clear-Cut w.g)
      ]

  hear_readback-Slots : (t : String) (w : World) → Slots w.g → Slots (hear_readback v t w).0.g
  hear_readback-Slots t w s =
      Cut-Slots (take_readback v t w.g) (hear_readback v t w).0.g (hear_readback-Cut t w)
        (take_readback-Slots t w.g s)

  answer_readback-Cut :
      (resp : AtcResponse) (g : AtcMachineState)
      → (answer_readback v resp g ≡ rb_merge v resp.text g) ⊎ Cut g (answer_readback v resp g)
  unfolding answer_readback supersede
  answer_readback-Cut resp g = elim (Bool-cases resp.requires_readback) [
    | inl h ↦ inl (ground (arith, h))
    | inr h ↦ elim (AtcState-discrete resp.next_state g.state) [
      | yes same ↦ inr (ground (arith, h))
      | no new ↦ inr (ground (arith, h, rb_clear-Cut g))
    ]
  ]

  answer_readback-Slots :
      (resp : AtcResponse) (g : AtcMachineState) → Slots g → Slots (answer_readback v resp g)
  answer_readback-Slots resp g s = elim (answer_readback-Cut resp g) [
    | inl merged ↦ rw merged (rb_merge-Exclusive v resp.text g s)
    | inr cut ↦ Cut-Slots g (answer_readback v resp g) cut s
  ]

  track_readback-Slots :
      (msg : PilotMessage) (resp : AtcResponse) (w : World)
      → Slots w.g
      → Slots (track_readback v msg resp w).0.g
  unfolding track_readback
  track_readback-Slots msg resp w s = elim (Bool-cases (msg.intent == PilotIntent.readback)) [
    | inl h ↦ rw h (hear_readback-Slots msg.raw_transcript w s)
    | inr h ↦ rw h (answer_readback-Slots resp w.g s)
  ]

  finish-Cut :
      (rules : FlightRules) (msg : PilotMessage) (ctx : XPlaneContext) (resp : AtcResponse)
      (w : World) (o : Option Mismatch)
      → Cut w.g (finish rules msg ctx resp (w, o)).0.g
  unfolding finish
  finish-Cut rules msg ctx resp w none = settle-Cut rules msg ctx resp w.g
  finish-Cut rules msg ctx resp w (some m) = inl refl

  pub hooks-Slots :
      (rules : FlightRules) (msg : PilotMessage) (ctx : XPlaneContext) (resp : AtcResponse)
      (w : World)
      → Slots w.g
      → Slots (apply_post_transition_hooks v rules msg ctx resp w).0.g
  unfolding apply_post_transition_hooks
  hooks-Slots rules msg ctx resp w s =
      let heard = record w { g = accept_silently v msg w.g } in
      let (tracked, o) = track_readback v msg resp heard in
      Cut-Slots tracked.g (finish rules msg ctx resp (tracked, o)).0.g
        (finish-Cut rules msg ctx resp tracked o)
        (track_readback-Slots msg resp heard
          (Cut-Slots w.g heard.g (accept_silently-Cut msg w.g) s))
