-- ===== src/Flow/CrossCountry.antt =====
-- The cross-country states (src/atc/flows/crosscountry_flow.cpp).
use xp_welly_llm_atc.Base.{String, Bool, true, false}
use xp_welly_llm_atc.State.{AtcState, AtcResponse}
use xp_welly_llm_atc.World.{World}

pub data XcState : Type 0 where
  departure_cleared en_route approach_contact : XcState

unfoldable pub state_name : XcState → String
state_name XcState.departure_cleared = "XC/DEPARTURE_CLEARED"
state_name XcState.en_route = "XC/EN_ROUTE"
state_name XcState.approach_contact = "XC/APPROACH_CONTACT"

unfoldable pub from_atc_state : AtcState → XcState
from_atc_state AtcState.departure_cleared = XcState.departure_cleared
from_atc_state AtcState.en_route = XcState.en_route
from_atc_state AtcState.approach_contact = XcState.approach_contact
from_atc_state _ = XcState.en_route

unfoldable pub to_atc_state : XcState → AtcState
to_atc_state XcState.departure_cleared = AtcState.departure_cleared
to_atc_state XcState.en_route = AtcState.en_route
to_atc_state XcState.approach_contact = AtcState.approach_contact

unfoldable pub is_xc_state : AtcState → Bool
is_xc_state AtcState.en_route = true
is_xc_state AtcState.approach_contact = true
is_xc_state _ = false

-- The airport tracker alone.
unfoldable pub reset : World → World
reset w = record w { last_airport_id = "" }

-- No landing sequence on this side: the response stays.
abbrev pub apply_landing_sequence : AtcResponse → AtcResponse
apply_landing_sequence resp = resp
