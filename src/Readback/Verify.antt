-- ===== src/Readback/Verify.antt =====
-- The read-back verifier (src/atc/readback_verifier.cpp). Its normalisation and its searches are made of
-- std::regex, which is a parameter: what a search finds in a normalised text is a function of the text.
use Prim.Native.Char.{code}
use xp_welly_llm_atc.Base.{
  ℕ, ◌+◌, ◌-◌, ltb, leb, String, Bool, true, false, not, ◌&&◌, ◌||◌, List, [], ◌∷◌, ◌++◌, Option,
  none, some, get_elem?, ◌==◌, nat_eq, string_eq, empty, ◌+s◌, if◌then◌else◌,
}
use xp_welly_llm_atc.Callsign.{codes, is_digit, is_infix}
use xp_welly_llm_atc.Readback.{Mismatch, Verifier}

-- `runway` is none where the source gives -1, and `side` is the letter behind a designator or empty.
-- A number is 0 and a text empty where nothing is found; the source gives -1 for a speed, which it
-- tests with `> 0` only.
pub record Searches : Type 0 where
  pub normalise : String → String
  pub runway : String → Option ℕ
  pub side : String → String
  pub fl : String → ℕ
  pub alt_ft : String → ℕ
  pub freq : String → String
  pub squawk : String → String
  pub speed : String → ℕ
  pub collapse_compound_hundreds : String → String
  pub decimal : ℕ → String
  pub padded2 : ℕ → String

abbrev pub digit_names : List String
digit_names =
    "zero" ∷ "one" ∷ "two" ∷ "three" ∷ "four" ∷ "five" ∷ "six" ∷ "seven" ∷ "eight" ∷ "niner" ∷ []

abbrev name_of_digit : ℕ → String
name_of_digit c = elim (get_elem? digit_names (c - b'0')) [ none ↦ "" | some w ↦ w ]

-- The loop of `runway_to_speech` and `fl_to_speech` over the digits.
unfoldable pub speak_digits : String → String → String
speak_digits out String.[] = out
speak_digits out (String.◌∷◌ c s) =
    speak_digits ((if empty out then out else out +s " ") +s name_of_digit (code c)) s

abbrev pub side_to_speech : String → String
side_to_speech side =
    if side == "L"
    then " left"
    else if side == "R"
    then " right"
    else if side == "C"
    then " center"
    else ""

-- A designator has two digits and at most one letter.
unfoldable pub runway_desig_to_speech : String → String
unfolding speak_digits
runway_desig_to_speech String.[] = ""
runway_desig_to_speech (String.◌∷◌ a String.[]) = speak_digits "" (String.◌∷◌ a "")
runway_desig_to_speech (String.◌∷◌ a (String.◌∷◌ b side)) =
    speak_digits "" (String.◌∷◌ a (String.◌∷◌ b "")) +s side_to_speech side

-- A blank between two digits is dropped; `prev` is the character before.
unfoldable pub drop_digit_blanks : ℕ → List ℕ → List ℕ
drop_digit_blanks prev [] = []
drop_digit_blanks prev (c ∷ []) = c ∷ []
drop_digit_blanks prev (c ∷ d ∷ cs) =
    let rest = drop_digit_blanks c (d ∷ cs) in
    if c == b' ' && is_digit prev && is_digit d then rest else c ∷ rest

abbrev pub correction_for : Bool → String → String
correction_for was_stated spoken =
    if was_stated then "negative, I say again, " +s spoken else "read back " +s spoken

abbrev pub mismatch : String → String → String → String → Mismatch
mismatch field expected stated spoken = record {
  field = field;
  expected = expected;
  stated = stated;
  correction = correction_for (not (empty stated)) spoken;
}

-- `std::abs(a - b) <= 100`.
abbrev pub within_100 : ℕ → ℕ → Bool
within_100 a b = leb a (b + 100) && leb b (a + 100)

-- `field` where the test holds.
abbrev pub field_if : Bool → String → List String
field_if b field = if b then field ∷ [] else []

abbrev pub is_found : Option ℕ → Bool
is_found none = false
is_found (some n) = true

module _ (x : Searches) where
  open x use {decimal}

  unfoldable pub desig_of : Option ℕ → String → String
  desig_of none side = ""
  desig_of (some num) side = x.padded2 num +s side

  unfoldable pub extract_runway_desig : String → String
  unfolding desig_of
  extract_runway_desig norm = desig_of (x.runway norm) (x.side norm)

  unfoldable pub readback_contains : String → ℕ → Bool
  unfolding drop_digit_blanks
  readback_contains norm value =
      is_infix (codes (decimal value)) (drop_digit_blanks 0 (codes norm))
      || is_infix (codes (decimal value))
          (drop_digit_blanks 0 (codes (x.collapse_compound_hundreds norm)))

  abbrev stated_number : ℕ → String
  stated_number n = if ltb 0 n then decimal n else ""

  -- The blocks of `check`, one for each field, on the values of the clearance and of the read-back.
  unfoldable pub check_runway : String → String → List Mismatch
  check_runway cl_rwy rb_rwy =
      if empty cl_rwy || rb_rwy == cl_rwy
      then []
      else mismatch "runway" cl_rwy rb_rwy ("runway " +s runway_desig_to_speech cl_rwy) ∷ []

  unfoldable pub check_fl : String → ℕ → ℕ → List Mismatch
  check_fl rb cl_fl rb_fl =
      if not (ltb 0 cl_fl) || rb_fl == cl_fl || readback_contains rb cl_fl
      then []
      else mismatch "fl" (decimal cl_fl) (stated_number rb_fl)
          ("flight level " +s speak_digits "" (decimal cl_fl))
        ∷ []

  -- The altitude is read only where the clearance has no level.
  unfoldable pub check_alt : String → ℕ → ℕ → ℕ → List Mismatch
  check_alt rb cl_fl cl_alt rb_alt =
      if ltb 0 cl_fl
        || not (ltb 0 cl_alt)
        || (ltb 0 rb_alt && within_100 rb_alt cl_alt)
        || readback_contains rb cl_alt
      then []
      else mismatch "alt" (decimal cl_alt) (stated_number rb_alt) (decimal cl_alt +s " feet") ∷ []

  unfoldable pub check_freq : String → String → List Mismatch
  check_freq cl_freq rb_freq =
      if empty cl_freq || rb_freq == cl_freq
      then []
      else mismatch "freq" cl_freq rb_freq cl_freq ∷ []

  unfoldable pub check_squawk : String → String → List Mismatch
  check_squawk cl_sq rb_sq =
      if empty cl_sq || rb_sq == cl_sq
      then []
      else mismatch "squawk" cl_sq rb_sq ("squawk " +s cl_sq) ∷ []

  unfoldable pub check_speed : String → String → ℕ → ℕ → List Mismatch
  check_speed cl rb cl_spd rb_spd =
      if not (ltb 0 cl_spd) || rb_spd == cl_spd || readback_contains rb cl_spd
      then []
      else mismatch "speed" (decimal cl_spd) (stated_number rb_spd) (
          if is_infix (codes "or less") (codes cl)
          then decimal cl_spd +s " knots or less"
          else "reduce speed to " +s decimal cl_spd +s " knots")
        ∷ []

  unfoldable pub check : String → String → List Mismatch
  check clearance_text readback_text =
      let cl = x.normalise clearance_text in
      let rb = x.normalise readback_text in
      if empty clearance_text || empty readback_text
      then []
      else check_runway (extract_runway_desig cl) (extract_runway_desig rb)
        ++ (check_fl rb (x.fl cl) (x.fl rb)
            ++ (check_alt rb (x.fl cl) (x.alt_ft cl) (x.alt_ft rb)
                ++ (check_freq (x.freq cl) (x.freq rb)
                    ++ (check_squawk (x.squawk cl) (x.squawk rb)
                        ++ check_speed cl rb (x.speed cl) (x.speed rb)))))

  unfoldable pub matched_fields : String → String → List String
  matched_fields clearance_text readback_text =
      let cl = x.normalise clearance_text in
      let rb = x.normalise readback_text in
      let cl_rwy = extract_runway_desig cl in
      if empty clearance_text || empty readback_text
      then []
      else field_if (not (empty cl_rwy) && extract_runway_desig rb == cl_rwy) "runway"
        ++ (field_if (ltb 0 (x.fl cl) && x.fl rb == x.fl cl) "fl"
            ++ (field_if
                  (not (ltb 0 (x.fl cl))
                    && ltb 0 (x.alt_ft cl)
                    && ltb 0 (x.alt_ft rb)
                    && within_100 (x.alt_ft rb) (x.alt_ft cl))
                  "alt"
                ++ (field_if (not (empty (x.freq cl)) && x.freq rb == x.freq cl) "freq"
                    ++ (field_if (not (empty (x.squawk cl)) && x.squawk rb == x.squawk cl) "squawk"
                        ++ field_if (ltb 0 (x.speed cl) && x.speed rb == x.speed cl) "speed"))))

  unfoldable pub fields_present : String → List String
  fields_present clearance_text =
      let cl = x.normalise clearance_text in
      if empty clearance_text
      then []
      else field_if (is_found (x.runway cl)) "runway"
        ++ (field_if (ltb 0 (x.fl cl)) "fl"
            ++ (field_if (not (ltb 0 (x.fl cl)) && ltb 0 (x.alt_ft cl)) "alt"
                ++ (field_if (not (empty (x.freq cl))) "freq"
                    ++ (field_if (not (empty (x.squawk cl))) "squawk"
                        ++ field_if (ltb 0 (x.speed cl)) "speed"))))

  -- What the state machine calls.
  unfoldable pub verifier : Verifier
  unfolding check matched_fields fields_present
  verifier = record {
    check = check;
    matched_fields = matched_fields;
    fields_present = fields_present;
  }
