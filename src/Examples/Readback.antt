-- ===== src/Examples/Readback.antt =====
-- The theorems on the read-back verifier at concrete clearances.
use xp_welly_llm_atc.Base.{
  ℕ, String, true, false, [], ◌∷◌, none, ◌==◌, ◌≡◌, refl, string_eq, All, if◌then◌else◌,
}
use xp_welly_llm_atc.State.{AtcState}
use xp_welly_llm_atc.Machine.{AtcMachineState}
use xp_welly_llm_atc.Readback.Verify.{Searches, verifier, check, fields_present, matched_fields}
use xp_welly_llm_atc.Readback.Verbatim.{IsUnmatched, check-IsUnmatched}
use xp_welly_llm_atc.Hooks.{hear_readback}
use xp_welly_llm_atc.Hooks.Verbatim.{hear_readback-verbatim}
use xp_welly_llm_atc.Examples.{parked, world_of}

abbrev code_of : String → String
code_of text =
    if text == "squawk 2201" then "2201" else if text == "squawk 2200" then "2200" else ""

abbrev level_of : String → ℕ
level_of text = if text == "climb flight level 100" then 100 else 0

-- Searches that know a few texts.
abbrev searches : Searches
searches = record {
  normalise = λ s. s;
  runway = λ s. none;
  side = λ s. "";
  fl = level_of;
  alt_ft = λ s. 0;
  freq = λ s. "";
  squawk = code_of;
  speed = λ s. 0;
  collapse_compound_hundreds = λ s. s;
  decimal = λ n. "100";
  padded2 = λ n. "00";
}

-- A squawk is to be read back.
abbrev squawk_owed : AtcMachineState
squawk_owed = record parked {
  state = AtcState.ground_contact;
  readback_pending = true;
  last_clearance_text = "squawk 2201";
  pending_clearances = "squawk 2201" ∷ [];
}

check-IsUnmatched_example :
    All
      (IsUnmatched
        (fields_present searches "squawk 2201")
        (matched_fields searches "squawk 2201" "squawk 2200"))
      (check searches "squawk 2201" "squawk 2200")
check-IsUnmatched_example = check-IsUnmatched searches "squawk 2201" "squawk 2200"

hear_readback-verbatim_example :
    ((hear_readback (verifier searches) "squawk 2201" (world_of squawk_owed)).1 ≡ none)
    × ((hear_readback
          (verifier searches)
          "squawk 2201"
          (world_of squawk_owed)).0.g.pending_clearances
        ≡ [])
    × ((hear_readback (verifier searches) "squawk 2201" (world_of squawk_owed)).0.g.readback_pending
        ≡ false)
    × ((hear_readback (verifier searches) "squawk 2201" (world_of squawk_owed)).0.g.state
        ≡ AtcState.ground_contact)
hear_readback-verbatim_example =
    hear_readback-verbatim searches "squawk 2201" (world_of squawk_owed) refl
