-- ===== src/History.antt =====
-- The state log as the classifiers read it (src/atc/atc_state_machine.cpp, "State history accessors").
pub mod Window
use xp_welly_llm_atc.Base.{
  ℤ, ◌-ℤ◌, ltb_ℤ, String, Bool, true, false, not, ◌||◌, List, [], ◌∷◌, ◌==◌, string_eq, empty, ◌+s◌,
  if◌then◌else◌,
}
use mathlib.Core.List.{reverse}
use xp_welly_llm_atc.State.{AtcState, DepartureType, StateHistoryEntry, atc_state_eq}
use xp_welly_llm_atc.State.Names.{state_name}
use xp_welly_llm_atc.Machine.{AtcMachineState}
use xp_welly_llm_atc.Context.{XPlaneContext}

-- `history_.back().state`, IDLE for an empty log.
last_state : List StateHistoryEntry → AtcState
last_state [] = AtcState.idle
last_state (e ∷ []) = e.state
last_state (e ∷ f ∷ es) = last_state (f ∷ es)

unfoldable pub previous_state : AtcMachineState → AtcState
unfolding last_state
previous_state g = last_state g.history

-- The loop of `was_recently_in`, newest entry first.
unfoldable pub recent_in : AtcState → ℤ → ℤ → List StateHistoryEntry → Bool
recent_in s max_age_secs now_secs [] = false
recent_in s max_age_secs now_secs (e ∷ older) =
    let rest = recent_in s max_age_secs now_secs older in
    if ltb_ℤ max_age_secs (now_secs -ℤ e.timestamp_secs)
    then false
    else if e.state == s
    then true
    else rest

unfoldable pub was_recently_in : AtcState → ℤ → ℤ → AtcMachineState → Bool
unfolding recent_in
was_recently_in s max_age_secs now_secs g =
    if g.state == s then true else recent_in s max_age_secs now_secs (reverse g.history)

unfoldable pub just_landed : ℤ → ℤ → AtcMachineState → Bool
just_landed now_secs window_secs g =
    was_recently_in AtcState.landing_cleared window_secs now_secs g
    || was_recently_in AtcState.touch_and_go_cleared window_secs now_secs g

abbrev pub is_landing : AtcState → Bool
is_landing s = s == AtcState.landing_cleared || s == AtcState.touch_and_go_cleared

-- The walk of `at_airport_after_landing`, newest entry first.
unfoldable pub landed_since_departure : List StateHistoryEntry → Bool
landed_since_departure [] = false
landed_since_departure (e ∷ older) =
    let rest = landed_since_departure older in
    if e.state == AtcState.departure_cleared
    then false
    else if is_landing e.state
    then true
    else rest

unfoldable pub at_airport_after_landing : XPlaneContext → AtcMachineState → Bool
unfolding landed_since_departure
at_airport_after_landing ctx g =
    if not ctx.on_ground
    then false
    else if is_landing g.state
    then true
    else landed_since_departure (reverse g.history)

-- The loop of `history_csv`; `d` is the departure flag that `state_name` reads.
csv_from : DepartureType → String → List StateHistoryEntry → String
csv_from d out [] = out
csv_from d out (e ∷ es) =
    csv_from d ((if empty out then out else out +s ",") +s state_name e.state d) es

unfoldable pub history_csv : AtcMachineState → String
unfolding csv_from
history_csv g =
    let out = csv_from g.departure_type "" g.history in
    (if empty out then out else out +s ",") +s state_name g.state g.departure_type
