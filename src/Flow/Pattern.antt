-- ===== src/Flow/Pattern.antt =====
-- The pattern states (src/atc/flows/pattern_flow.cpp).
use xp_welly_llm_atc.Base.{String, Bool, true, false, ◌≡◌, refl}
use xp_welly_llm_atc.State.{AtcState}

pub data PatternState : Type 0 where
  departure_cleared pattern_entry landing_cleared touch_and_go_cleared : PatternState

unfoldable pub state_name : PatternState → String
state_name PatternState.departure_cleared = "Pattern/DEPARTURE_CLEARED"
state_name PatternState.pattern_entry = "Pattern/PATTERN_ENTRY"
state_name PatternState.landing_cleared = "Pattern/LANDING_CLEARED"
state_name PatternState.touch_and_go_cleared = "Pattern/TOUCH_AND_GO_CLEARED"

unfoldable pub from_atc_state : AtcState → PatternState
from_atc_state AtcState.departure_cleared = PatternState.departure_cleared
from_atc_state AtcState.pattern_entry = PatternState.pattern_entry
from_atc_state AtcState.landing_cleared = PatternState.landing_cleared
from_atc_state AtcState.touch_and_go_cleared = PatternState.touch_and_go_cleared
from_atc_state _ = PatternState.departure_cleared

unfoldable pub to_atc_state : PatternState → AtcState
to_atc_state PatternState.departure_cleared = AtcState.departure_cleared
to_atc_state PatternState.pattern_entry = AtcState.pattern_entry
to_atc_state PatternState.landing_cleared = AtcState.landing_cleared
to_atc_state PatternState.touch_and_go_cleared = AtcState.touch_and_go_cleared

unfoldable pub is_pattern_state : AtcState → Bool
is_pattern_state AtcState.departure_cleared = true
is_pattern_state AtcState.pattern_entry = true
is_pattern_state AtcState.landing_cleared = true
is_pattern_state AtcState.touch_and_go_cleared = true
is_pattern_state _ = false

pattern_trip : (s : AtcState) → is_pattern_state s ≡ true → to_atc_state (from_atc_state s) ≡ s
unfolding to_atc_state from_atc_state is_pattern_state
pattern_trip AtcState.departure_cleared h = refl
pattern_trip AtcState.pattern_entry h = refl
pattern_trip AtcState.landing_cleared h = refl
pattern_trip AtcState.touch_and_go_cleared h = refl
pattern_trip _ h = cc

atc_trip :
    (p : PatternState)
    → (is_pattern_state (to_atc_state p) ≡ true) × (from_atc_state (to_atc_state p) ≡ p)
unfolding to_atc_state from_atc_state is_pattern_state
atc_trip PatternState.departure_cleared = (refl, refl)
atc_trip _ = (refl, refl)

-- The pattern states are those states of the machine that a pattern state stands for.
pub to_atc_state-from_atc_state :
    (s : AtcState)
    → (is_pattern_state s ≡ true → to_atc_state (from_atc_state s) ≡ s)
      × ((p : PatternState)
          → (is_pattern_state (to_atc_state p) ≡ true) × (from_atc_state (to_atc_state p) ≡ p))
unfolding to_atc_state from_atc_state is_pattern_state
to_atc_state-from_atc_state s = (pattern_trip s, atc_trip)
