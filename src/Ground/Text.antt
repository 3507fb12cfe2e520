-- ===== src/Ground/Text.antt =====
-- The texts of a variable that depend on the call, the runway and the airport.
use Prim.Native.Char.{code, Char}
use xp_welly_llm_atc.Base.{
  ℕ, ltb_ℤ, pos, ℤ, String, Bool, not, ◌||◌, List, [], ◌∷◌, ◌++◌, ◌==◌, nat_eq, string_eq, empty,
  ◌+s◌, if◌then◌else◌,
}
use xp_welly_llm_atc.Callsign.{codes, to_lower, Word, is_infix}
use xp_welly_llm_atc.State.{AtcState, atc_state_eq}
use xp_welly_llm_atc.Intent.{PilotMessage}
use xp_welly_llm_atc.Machine.{AtcMachineState}
use xp_welly_llm_atc.Ground.{GroundContext, Services}

abbrev pub of_char : Char → String
of_char c = String.◌∷◌ c ""

abbrev flush : String → List String
flush word = if empty word then [] else word ∷ []

abbrev emit : String → Char → List String
emit word c = if code c == b' ' then flush word else []

abbrev extend : String → Char → String
extend word c = if code c == b' ' then "" else word +s of_char c

-- The loop: the words between blanks.
unfoldable pub split_words : String → String → List String
split_words word String.[] = flush word
split_words word (String.◌∷◌ c s) = emit word c ++ split_words (extend word c) s

unfoldable pub last_pair : String → String → List String → String × String
last_pair a b [] = (a, b)
last_pair a b (c ∷ ws) = last_pair b c ws

-- The first word and the last two, where there are more than three.
unfoldable pub shorten : String → List String → String
shorten cs [] = cs
shorten cs (a ∷ []) = cs
shorten cs (a ∷ b ∷ []) = cs
shorten cs (a ∷ b ∷ c ∷ []) = cs
shorten cs (a ∷ b ∷ c ∷ d ∷ ws) = let (x, y) = last_pair c d ws in a +s " " +s x +s " " +s y

unfoldable pub abbreviate_callsign : String → String
unfolding split_words shorten last_pair
abbreviate_callsign cs = shorten cs (split_words "" cs)

-- The callsign of the session, of the call or of the settings.
abbrev pub full_callsign : String → PilotMessage → AtcMachineState → String
full_callsign pilot_callsign msg g =
    if not (empty g.session_callsign)
    then g.session_callsign
    else if not (empty msg.callsign)
    then msg.callsign
    else pilot_callsign

unfoldable pub get_callsign : String → PilotMessage → AtcMachineState → String
get_callsign pilot_callsign msg g =
    let cs = full_callsign pilot_callsign msg g in
    if not (g.state == AtcState.idle) then abbreviate_callsign cs else cs

unfoldable pub get_runway : PilotMessage → GroundContext → AtcMachineState → String
get_runway msg ctx g =
    if not (empty g.assigned_runway)
    then g.assigned_runway
    else if not (empty ctx.base.active_runway)
    then ctx.base.active_runway
    else if not (empty msg.runway)
    then msg.runway
    else "28"

-- Under 3 knots the wind is calm.
unfoldable pub format_wind : Services → ℤ → ℤ → String
format_wind sv dir spd =
    if ltb_ℤ spd (pos 3000)
    then "calm"
    else sv.padded0 3 dir +s " degrees " +s sv.padded0 2 spd +s " knots"

-- `s.substr(0, s.find_first_of(stops))`.
unfoldable pub take_until : (ℕ → Bool) → String → String
take_until stop String.[] = ""
take_until stop (String.◌∷◌ c s) = if stop (code c) then "" else String.◌∷◌ c (take_until stop s)

abbrev pub is_separator : ℕ → Bool
is_separator c = c == b' ' || c == b'-' || c == b'/'

unfoldable pub airport_name : GroundContext → String
unfolding take_until
airport_name ctx = take_until is_separator (
    if not (empty ctx.nearest_airport_name)
    then ctx.nearest_airport_name
    else if not (empty ctx.base.nearest_airport_id)
    then ctx.base.nearest_airport_id
    else "Airport")

-- The text in lower case.
unfoldable pub lower_of : List ℕ → Word
lower_of [] = []
lower_of (c ∷ cs) = to_lower c ∷ lower_of cs

-- `lower.find(word) != npos`.
abbrev pub mentions : String → String → Bool
mentions transcript word = is_infix (codes word) (lower_of (codes transcript))

unfoldable pub extract_position : PilotMessage → GroundContext → AtcMachineState → String
extract_position msg ctx g =
    let rwy = get_runway msg ctx g in
    let apt = airport_name ctx in
    if ctx.base.on_ground
    then "on the ground at " +s apt
    else if mentions msg.raw_transcript "downwind"
    then "downwind runway " +s rwy
    else if mentions msg.raw_transcript "base"
    then "base runway " +s rwy
    else if mentions msg.raw_transcript "final"
    then "final runway " +s rwy
    else if mentions msg.raw_transcript "crosswind"
    then "crosswind runway " +s rwy
    else if mentions msg.raw_transcript "upwind"
    then "upwind runway " +s rwy
    else "in the pattern at " +s apt
