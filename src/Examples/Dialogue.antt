-- ===== src/Examples/Dialogue.antt =====
-- The theorems on the dialogue at concrete worlds.
use xp_welly_llm_atc.Base.{
  suc, ◌-◌, ◌≤◌, String, true, false, [], ◌∷◌, ◌++◌, none, some, ◌==◌, ◌≡◌, ◌≢◌, ◌⊎◌, ◌↔◌, refl, In,
  contains, string_eq, arith, pos, if◌then◌else◌, length, drop, nat_eq,
}
use xp_welly_llm_atc.State.{AtcState, atc_state_eq}
use xp_welly_llm_atc.Machine.{AtcMachineState, transition_to, next_gen, log_entry, history_cap}
use xp_welly_llm_atc.Machine.Transition.{transition_to_log}
use xp_welly_llm_atc.Readback.{
  insert_fields, insert_field, all_read, rb_merge, rb_remove_matched, join_from, arm_readback,
}
use xp_welly_llm_atc.Readback.Merge.{Exclusive, Disjoint, rb_merge-content}
use xp_welly_llm_atc.Readback.Retire.{AllRead, rb_remove_matched-content}
use xp_welly_llm_atc.Invariant.{IsSound}
use xp_welly_llm_atc.Process.{process}
use xp_welly_llm_atc.Reachable.{Step, Reach, SentOnTheWay, Reach-IsSound}
use xp_welly_llm_atc.Reachable.Slots.{Reach-Exclusive}
use xp_welly_llm_atc.Snapshot.{current_gen, capture_snapshot, restore_snapshot_if_gen}
use xp_welly_llm_atc.Snapshot.Guard.{restore_snapshot_if_gen_lem, restore-transition_to}
use xp_welly_llm_atc.Hooks.{judge, hear_readback, take_readback, settle}
use xp_welly_llm_atc.Hooks.Outstanding.{
  hear_readback-correction, hear_readback-twice, restore-hear_readback,
}
use xp_welly_llm_atc.Hooks.Session.{settle_session, held_runway, held_callsign}
use xp_welly_llm_atc.World.{World}
use xp_welly_llm_atc.Examples.Ground.{field, services, session_of}
use xp_welly_llm_atc.Examples.{
  fields_of, parked, cleared, world_of, verifier, settings, rules, geometry, missing, ctx, request,
  taxi_answer,
}

IsSound-start : IsSound parked
unfolding join_from
IsSound-start = record {
  flag = refl;
  cache = refl;
  log = omega arith;
  gen_fits = omega arith;
  reminders = omega arith;
}

-- A clearance is armed, then the pilot calls.
abbrev called : AtcMachineState
called = arm_readback verifier "squawk" parked

abbrev after_call : World
after_call = (process verifier services request field (pos 5000) (session_of called)).0.world

abbrev calls : Reach verifier geometry settings rules (world_of parked) after_call
calls =
    Reach.next (Reach.next Reach.here (Step.does_arm "squawk"))
      (Step.does_process services request field (pos 5000) (session_of called))

Reach-IsSound_example : IsSound after_call.g ⊎ SentOnTheWay verifier geometry settings rules calls
Reach-IsSound_example = Reach-IsSound verifier geometry settings rules IsSound-start calls

Reach-Exclusive_example : Exclusive verifier after_call.g.pending_clearances
Reach-Exclusive_example = Reach-Exclusive verifier geometry settings rules tt calls

rb_merge-content_example : In "squawk" (rb_merge verifier "level" cleared).pending_clearances ↔ (
    (◌≡◌ {A = String} "squawk" "level")
    ⊎ ((fields_of "level" ≢ [])
        × In "squawk" cleared.pending_clearances
        × Disjoint verifier "level" "squawk"))
rb_merge-content_example = rb_merge-content verifier "level" "squawk" cleared

rb_remove_matched-content_example :
    In "level" (rb_remove_matched verifier cleared).pending_clearances ↔ (
      In "level" cleared.pending_clearances
      × (¬ AllRead verifier cleared.readback_ok_fields "level"))
rb_remove_matched-content_example = rb_remove_matched-content verifier "level" cleared

asked : (hear_readback verifier "squawk" (world_of cleared)).1 ≡ some (missing "level")
unfolding hear_readback take_readback judge insert_fields insert_field rb_remove_matched join_from
    all_read string_eq
asked = refl

asked_again :
    (hear_readback verifier "level" (hear_readback verifier "squawk" (world_of cleared)).0).1
    ≡ some (missing "heading")
unfolding hear_readback take_readback judge insert_fields insert_field rb_remove_matched join_from
    all_read string_eq
asked_again = refl

accepted : (hear_readback verifier "hello" (world_of parked)).1 ≡ none
unfolding hear_readback string_eq
accepted = refl

hear_readback-correction_example :
    let h = (hear_readback verifier "squawk" (world_of cleared)).0.g in
    (h.state ≡ AtcState.ground_contact)
    × (contains cleared.readback_ok_fields "level" ≡ false)
    × (contains (verifier.matched_fields cleared.last_clearance_text "squawk") "level" ≡ false)
    × ((d : String)
        → In d h.pending_clearances
          ↔ (In d cleared.pending_clearances × (¬ AllRead verifier h.readback_ok_fields d)))
hear_readback-correction_example =
    hear_readback-correction verifier "squawk" (world_of cleared) (missing "level") asked

hear_readback-twice_example :
    (hear_readback verifier "level"
      (hear_readback verifier "squawk" (world_of cleared)).0).0.g.last_clearance_text
    ≢ (hear_readback verifier "squawk" (world_of cleared)).0.g.last_clearance_text
hear_readback-twice_example =
    hear_readback-twice verifier "squawk" "level" (world_of cleared) (missing "level")
      (missing "heading") asked asked_again

restore-hear_readback_example :
    restore_snapshot_if_gen
      (capture_snapshot (world_of cleared))
      (current_gen (world_of cleared))
      (hear_readback verifier "squawk" (world_of cleared)).0
    ≡ (
      record (hear_readback verifier "squawk" (world_of cleared)).0 {
        g = record cleared { gen = next_gen 7 };
      },
      true,
    )
restore-hear_readback_example =
    restore-hear_readback verifier "squawk" (world_of cleared) (missing "level") asked

settle_session_example :
    let (h, answer) = settle rules request ctx taxi_answer parked in
    (h.state ≡ answer.next_state)
    × (h.assigned_runway
        ≡ (if taxi_answer.next_state == AtcState.idle then "" else held_runway request ctx parked))
    × (h.session_callsign
        ≡ (if taxi_answer.next_state == AtcState.idle then "" else held_callsign request parked))
settle_session_example = settle_session rules request ctx taxi_answer parked

restore_snapshot_if_gen_example :
    let (w', ok) =
      restore_snapshot_if_gen (capture_snapshot (world_of parked)) 7 (world_of cleared) in
    (ok ≡ (current_gen (world_of cleared) == 7))
    × (w' ≡ (
        if ok
        then record (world_of cleared) { g = record parked { gen = next_gen 7 } }
        else world_of cleared))
    × ((restore_snapshot_if_gen cleared
          (current_gen (world_of cleared))
          (restore_snapshot_if_gen
            (capture_snapshot (world_of parked))
            (current_gen (world_of cleared))
            (world_of cleared)).0).1
        ≡ false)
restore_snapshot_if_gen_example =
    restore_snapshot_if_gen_lem (world_of parked) (world_of cleared) cleared 7

contact_new : AtcState.ground_contact ≢ AtcState.idle
contact_new e = cc

restore-transition_to_example :
    let w' = world_of (transition_to AtcState.ground_contact "call" parked) in
    let snap = capture_snapshot (world_of parked) in
    (restore_snapshot_if_gen snap (current_gen (world_of parked)) w' ≡ (w', false))
    × (restore_snapshot_if_gen snap (current_gen w') w'
        ≡ (world_of (record parked { gen = next_gen (current_gen w') }), true))
restore-transition_to_example =
    restore-transition_to (world_of parked) AtcState.ground_contact "call" contact_new

transition_to_log_example :
    ((AtcState.ground_contact ≡ parked.state)
      × (transition_to AtcState.ground_contact "call" parked ≡ parked))
    ⊎ ((AtcState.ground_contact ≢ parked.state)
        × ((transition_to AtcState.ground_contact "call" parked).state ≡ AtcState.ground_contact)
        × ((transition_to AtcState.ground_contact "call" parked).history
            ≡ drop
                (suc (length parked.history) - history_cap)
                (parked.history ++ log_entry "call" parked ∷ []))
        × (length (transition_to AtcState.ground_contact "call" parked).history ≤ history_cap))
transition_to_log_example = transition_to_log AtcState.ground_contact "call" parked
