-- ===== src/Ground/Phonetic.antt =====
-- Spelling: the letter words, the name of a departure procedure, and that of a holding point
-- (src/atc/phonetic.hpp).
use Prim.Native.Char.{code, Char}
use xp_welly_llm_atc.Base.{
  ℕ, ◌-◌, String, Bool, not, ◌&&◌, ◌||◌, List, [], ◌∷◌, Option, none, some, get_elem?, string_eq,
  empty, starts_with, ◌+s◌, if◌then◌else◌,
}
use xp_welly_llm_atc.Callsign.{is_digit, is_upper, is_lower}
use xp_welly_llm_atc.Templates.{value}
use xp_welly_llm_atc.Ground.Text.{of_char}

abbrev pub nato : List String
nato =
    "Alpha" ∷ "Bravo" ∷ "Charlie" ∷ "Delta" ∷ "Echo" ∷ "Foxtrot" ∷ "Golf" ∷ "Hotel" ∷ "India"
    ∷ "Juliet" ∷ "Kilo" ∷ "Lima" ∷ "Mike" ∷ "November" ∷ "Oscar" ∷ "Papa" ∷ "Quebec" ∷ "Romeo"
    ∷ "Sierra" ∷ "Tango" ∷ "Uniform" ∷ "Victor" ∷ "Whiskey" ∷ "X-ray" ∷ "Yankee" ∷ "Zulu" ∷ []

abbrev pub digit_words : List String
digit_words =
    "Zero" ∷ "One" ∷ "Two" ∷ "Three" ∷ "Four" ∷ "Five" ∷ "Six" ∷ "Seven" ∷ "Eight" ∷ "Nine" ∷ []

abbrev pub to_upper : ℕ → ℕ
to_upper c = if is_lower c then c - 32 else c

abbrev pub is_alpha : ℕ → Bool
is_alpha c = is_upper c || is_lower c

-- The word of a letter, nothing for any other code.
unfoldable pub letter_name : ℕ → String
letter_name c = if is_upper c then value (get_elem? nato (c - b'A')) "" else ""

-- The word of a letter or digit; separators have none.
unfoldable pub spell_char : ℕ → String
unfolding letter_name
spell_char c =
    if is_alpha c
    then letter_name (to_upper c)
    else if is_digit c
    then value (get_elem? digit_words (c - b'0')) ""
    else ""

abbrev append_word : String → String → String
append_word out tok = if empty tok then out else (if empty out then "" else out +s " ") +s tok

unfoldable pub spell_from : String → String → String
unfolding spell_char
spell_from out String.[] = out
spell_from out (String.◌∷◌ c s) = spell_from (append_word out (spell_char (code c))) s

unfoldable pub spell_holding_point : String → String
unfolding spell_from
spell_holding_point hp = let out = spell_from "" hp in if empty out then hp else out

-- A text as its last two characters and what stands before them.
unfoldable pub split_end : String → Option (String × Char × Char)
split_end String.[] = none
split_end (String.◌∷◌ a String.[]) = none
split_end (String.◌∷◌ a (String.◌∷◌ b String.[])) = some ("", a, b)
split_end (String.◌∷◌ a (String.◌∷◌ b (String.◌∷◌ c s))) =
    elim (split_end (String.◌∷◌ b (String.◌∷◌ c s))) [
      | none ↦ none
      | some (prefix, prev, last) ↦ some (String.◌∷◌ a prefix, prev, last)
    ]

-- A name of three characters or more that ends in a digit and a letter is spelled by its point, the
-- last fix where that begins with the name, and the two.
unfoldable pub speak_sid : String → String → Option (String × Char × Char) → String
speak_sid sid last_fix none = sid
speak_sid sid last_fix (some (prefix, prev, last)) =
    if empty prefix || not (is_alpha (code last)) || not (is_digit (code prev))
    then sid
    else (if not (empty last_fix) && starts_with last_fix prefix then last_fix else prefix)
      +s " "
      +s of_char prev
      +s " "
      +s letter_name (to_upper (code last))

unfoldable pub format_sid_for_tts : String → String → String
unfolding split_end speak_sid letter_name
format_sid_for_tts sid last_fix = speak_sid sid last_fix (split_end sid)
