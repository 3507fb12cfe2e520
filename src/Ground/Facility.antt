-- ===== src/Ground/Facility.antt =====
-- The texts that name the units to contact.
use Prim.Native.Char.{code, Char}
use xp_welly_llm_atc.Base.{
  ℕ, ltb, leb, pos, ◌-ℤ◌, ◌+ℤ◌, leb_ℤ, to_int, String, Bool, true, not, ◌&&◌, ◌||◌, List, [], ◌∷◌,
  Option, none, some, ◌==◌, nat_eq, string_eq, empty, ◌+s◌, if◌then◌else◌,
}
use xp_welly_llm_atc.Context.{FrequencyType, frequency_type_eq}
use xp_welly_llm_atc.Airport.{AirportFrequency, has, first_mhz, first_name}
use xp_welly_llm_atc.Ground.{GroundContext, Services, mhz_100}
use xp_welly_llm_atc.Ground.Text.{airport_name, take_until}

-- `s` without `suffix` where it ends in it.
unfoldable pub strip_suffix : String → String → Option String
strip_suffix suffix String.[] = if empty suffix then some "" else none
strip_suffix suffix (String.◌∷◌ c s) =
    let rest = strip_suffix suffix s in
    if String.◌∷◌ c s == suffix
    then some ""
    else elim rest [ none ↦ none | some p ↦ some (String.◌∷◌ c p) ]

-- The loop: the first suffix that the text ends in is cut off.
unfoldable pub cut_first : List String → String → String
unfolding strip_suffix
cut_first [] loc = loc
cut_first (suf ∷ sufs) loc = elim (strip_suffix suf loc) [ some p ↦ p | none ↦ cut_first sufs loc ]

abbrev pub suffixes : List String
suffixes = " APP" ∷ " DEP" ∷ " CTR" ∷ " GND" ∷ " TWR" ∷ " DLV" ∷ " DEL" ∷ " FSS" ∷ []

-- `c` replaced by the character of `to` at its place in `from`.
unfoldable pub translate : String → String → Char → Char
translate String.[] to c = c
translate (String.◌∷◌ a from) String.[] c = c
translate (String.◌∷◌ a from) (String.◌∷◌ b to) c =
    if code a == code c then b else translate from to c

abbrev pub upper_case : Char → Char
upper_case c = translate "abcdefghijklmnopqrstuvwxyz" "ABCDEFGHIJKLMNOPQRSTUVWXYZ" c

abbrev pub lower_case : Char → Char
lower_case c = translate "ABCDEFGHIJKLMNOPQRSTUVWXYZ" "abcdefghijklmnopqrstuvwxyz" c

-- The first letter of each word in upper case, the others in lower case.
unfoldable pub capitalize : Bool → String → String
unfolding translate
capitalize first String.[] = ""
capitalize first (String.◌∷◌ c s) =
    String.◌∷◌ (if code c == b' ' then c else if first then upper_case c else lower_case c)
      (capitalize (code c == b' ') s)

-- The first letter in upper case, all others in lower case.
unfoldable pub lower_text : String → String
unfolding translate
lower_text String.[] = ""
lower_text (String.◌∷◌ c s) = String.◌∷◌ (lower_case c) (lower_text s)

unfoldable pub capitalize_first : String → String
unfolding translate lower_text
capitalize_first String.[] = ""
capitalize_first (String.◌∷◌ c s) = String.◌∷◌ (upper_case c) (lower_text s)

unfoldable pub location_from_raw : String → String
unfolding cut_first capitalize
location_from_raw raw = capitalize true (cut_first suffixes raw)

abbrev pub or_text : String → String → String
or_text s default = if empty s then default else s

unfoldable pub departure_controller : GroundContext → String
unfolding location_from_raw
departure_controller ctx =
    let fallback = or_text ctx.nearest_airport_name ctx.base.nearest_airport_id in
    let freqs = ctx.airport_freqs in
    if has freqs FrequencyType.departure
    then or_text (location_from_raw (first_name freqs FrequencyType.departure)) fallback
      +s " Departure"
    else if has freqs FrequencyType.approach
    then or_text (location_from_raw (first_name freqs FrequencyType.approach)) fallback
      +s " Approach"
    else fallback +s " Departure"

-- The frequency of Departure, else that of Approach.
unfoldable pub departure_mhz : List AirportFrequency → ℕ
departure_mhz freqs =
    let f = first_mhz freqs FrequencyType.departure in
    if ltb f mhz_100 then first_mhz freqs FrequencyType.approach else f

unfoldable pub format_freq : Services → ℕ → String
format_freq sv mhz = if ltb mhz mhz_100 then "" else sv.fixed3 mhz

abbrev pub clearance_controller : List AirportFrequency → String
clearance_controller freqs =
    if has freqs FrequencyType.delivery
    then "Delivery"
    else if has freqs FrequencyType.ground
    then "Ground"
    else "Tower"

-- At a field with an information service the unit that delivers its clearances.
unfoldable pub clearance_facility : Services → GroundContext → String
clearance_facility sv ctx =
    let local = airport_name ctx +s " " +s clearance_controller ctx.airport_freqs in
    elim (sv.controller ctx.base.nearest_airport_id "info") [
      | none ↦ local
      | some info ↦ elim (sv.controller ctx.base.nearest_airport_id "delivery") [
        | none ↦ local
        | some (nm, fr) ↦ nm
      ]
    ]

unfoldable pub ifr_ground_handoff : Services → GroundContext → String
ifr_ground_handoff sv ctx =
    let gf = first_mhz ctx.airport_freqs FrequencyType.ground in
    elim (sv.controller ctx.base.nearest_airport_id "info") [
      | some info ↦ ", report airborne"
      | none ↦
          if ctx.base.tower_only
            || ctx.base.frequency_type == FrequencyType.ground
            || ctx.base.frequency_type == FrequencyType.delivery
            || ltb gf mhz_100
          then ", report when ready to taxi"
          else ", contact Ground on " +s sv.fixed3 gf +s " when ready"
    ]

abbrev pub contact_suffixes : List String
contact_suffixes = " APP" ∷ " DEP" ∷ " CTR" ∷ " GND" ∷ " TWR" ∷ []

-- The loop of `facility_name`: a name that is a bare suffix is dropped.
unfoldable pub cut_contact : List String → String → String
unfolding strip_suffix
cut_contact [] loc = loc
cut_contact (suf ∷ sufs) loc = elim (strip_suffix suf loc) [
  | some p ↦ p
  | none ↦ if " " +s loc == suf then "" else cut_contact sufs loc
]

abbrev pub is_word_end : ℕ → Bool
is_word_end c = c == b' ' || c == b'-'

unfoldable pub facility_name : GroundContext → String
unfolding cut_contact capitalize capitalize_first take_until
facility_name ctx =
    let freqs = ctx.airport_freqs in
    let dep = has freqs FrequencyType.departure in
    let raw = first_name freqs (if dep then FrequencyType.departure else FrequencyType.approach) in
    let loc = cut_contact contact_suffixes raw in
    let apt = take_until is_word_end ctx.nearest_airport_name in
    if not (empty loc)
    then capitalize true loc +s (if dep then " Departure" else " Approach")
    else if not (empty apt)
    then capitalize_first apt +s (if dep then " Departure" else " Approach")
    else if dep
    then "Departure"
    else "Approach"

-- The text of an altitude report, where the rules ask for one instead of the contact.
unfoldable pub report_text : Services → GroundContext → ℕ → String
report_text sv ctx report_alt =
    let init = sv.initial_altitude ctx.base.nearest_airport_id ctx.base.active_runway in
    let field_ft = to_int (ctx.altitude_ft_msl -ℤ ctx.base.height_agl_ft) in
    if ltb 0 init.feet
      && not init.is_fl
      && (leb init.feet report_alt || leb_ℤ (pos report_alt) (field_ft +ℤ pos 300))
    then ", report reaching " +s sv.decimal init.feet +s " feet"
    else ", report passing " +s sv.decimal report_alt +s " feet"

unfoldable pub ifr_departure_contact : Services → GroundContext → String
unfolding report_text
ifr_departure_contact sv ctx =
    let report_alt = sv.rules.ifr_defaults.tower_report_alt_ft in
    let freq = departure_mhz ctx.airport_freqs in
    if ltb 0 report_alt
    then report_text sv ctx report_alt
    else if ltb freq mhz_100
    then ""
    else ", QNH "
      +s sv.decimal ctx.qnh_hpa
      +s ", contact "
      +s facility_name ctx
      +s " on "
      +s sv.fixed3 freq
