-- ===== src/Reminder.antt =====
-- The silent count-down of a forgotten read-back (src/atc/atc_state_machine.cpp,
-- `consume_readback_reminder`) and the accessors of the pending read-back.
pub mod Timeout
use xp_welly_llm_atc.Base.{
  ℕ, ◌+◌, ℤ, pos, ◌-ℤ◌, ltb_ℤ, leb, String, Bool, not, List, [], ◌∷◌, ◌==◌, nat_eq, string_eq,
  contains, if◌then◌else◌,
}
use text.Mathlib.Text.{starts_with}
use xp_welly_llm_atc.State.{AtcState}
use xp_welly_llm_atc.State.Names.{state_name}
use xp_welly_llm_atc.Machine.{AtcMachineState, bump_gen, transition_to}
use xp_welly_llm_atc.Readback.{rb_clear}

abbrev pub readback_first_reminder_sec : ℤ
readback_first_reminder_sec = pos 45000

abbrev pub readback_repeat_reminder_sec : ℤ
readback_repeat_reminder_sec = pos 45000

abbrev pub readback_max_reminders : ℕ
readback_max_reminders = 3

unfoldable pub readback_pending_for_secs : ℤ → AtcMachineState → ℤ
readback_pending_for_secs now_secs g =
    if not g.readback_pending then pos 0 else now_secs -ℤ g.readback_pending_since_secs

abbrev ifr_inflight_names : List String
ifr_inflight_names =
    "IFR/ENROUTE_CRUISE" ∷ "IFR/DESCENT" ∷ "IFR/ARRIVAL" ∷ "IFR/APPROACH_CONTACT"
    ∷ "IFR/APPROACH_DESCENT" ∷ "IFR/APPROACH_TOWER" ∷ "IFR/LANDING_CLEARED" ∷ "IFR/RADAR_CONTACT"
    ∷ "IFR/FREQ_HANDOFF" ∷ "IFR/EN_ROUTE" ∷ []

unfoldable pub is_ifr_inflight : String → Bool
is_ifr_inflight cur = contains ifr_inflight_names cur

-- The first four characters are "IFR/".
unfoldable pub is_ifr : String → Bool
is_ifr cur = starts_with cur "IFR/"

abbrev required_delay : ℕ → ℤ
required_delay n = if n == 0 then readback_first_reminder_sec else readback_repeat_reminder_sec

-- Gate 3: the budget is used up. The text is the key of the reply, empty for none.
unfoldable pub readback_timeout : AtcMachineState → AtcMachineState × String
unfolding rb_clear transition_to is_ifr_inflight is_ifr
readback_timeout g =
    let cur = state_name g.state g.departure_type in
    if is_ifr_inflight cur then (rb_clear g, "") else (
      transition_to AtcState.idle "readback_timeout_cancel" (rb_clear g),
      if is_ifr cur then "readback_cancel_ifr" else "readback_cancel",
    )

-- Gate 4: one silent tick.
unfoldable pub readback_tick : ℤ → AtcMachineState → AtcMachineState
unfolding bump_gen
readback_tick now_secs g = record (bump_gen g) {
  readback_reminder_count = g.readback_reminder_count + 1;
  readback_last_reminder_secs = now_secs;
}

unfoldable pub consume_readback_reminder : ℤ → AtcMachineState → AtcMachineState × String
unfolding readback_timeout readback_tick
consume_readback_reminder now_secs g =
    if not g.readback_pending
    then (g, "")
    else if ltb_ℤ (now_secs -ℤ g.readback_last_reminder_secs)
        (required_delay g.readback_reminder_count)
    then (g, "")
    else if leb readback_max_reminders g.readback_reminder_count
    then readback_timeout g
    else (readback_tick now_secs g, "")
