-- ===== src/Callsign.antt =====
-- The lock on the session callsign (src/atc/atc_state_machine.cpp, in `apply_post_transition_hooks`):
-- a garbled callsign is refused when it conflicts with the configured one.
pub mod Lock
use Prim.Native.Char.{code}
use xp_welly_llm_atc.Base.{
  ℕ, ◌+◌, leb, String, Bool, true, false, not, ◌&&◌, ◌||◌, List, [], ◌∷◌, ◌++◌, Option, none, some,
  ◌==◌, nat_eq, Eq, ℕ_discrete, is_empty, empty, string_eq, if◌then◌else◌,
}

-- The code points of a text.
abbrev pub codes : String → List ℕ
codes String.[] = []
codes (String.◌∷◌ c s) = code c ∷ codes s

abbrev pub is_digit : ℕ → Bool
is_digit c = leb b'0' c && leb c b'9'

abbrev pub is_upper : ℕ → Bool
is_upper c = leb b'A' c && leb c b'Z'

abbrev pub is_lower : ℕ → Bool
is_lower c = leb b'a' c && leb c b'z'

-- `std::isalnum` and `std::tolower` in the C locale.
abbrev pub is_alnum : ℕ → Bool
is_alnum c = is_digit c || is_upper c || is_lower c

abbrev pub to_lower : ℕ → ℕ
to_lower c = if is_upper c then c + 32 else c

abbrev pub Word : Type 0
Word = List ℕ

pub Word-discrete : Discrete Word
Word-discrete = hlevel ℕ_discrete

instance abbrev pub word_eq : Eq Word
word_eq = record { dec = Word-discrete }

abbrev flush : Word → List Word
flush cur = if is_empty cur then [] else cur ∷ []

abbrev emit : Word → ℕ → List Word
emit cur c = if c == b' ' then flush cur else []

abbrev extend : Word → ℕ → Word
extend cur c = if c == b' ' then [] else if is_alnum c then cur ++ to_lower c ∷ [] else cur

-- The loop of `norm`: `cur` is the word that is being read.
unfoldable pub words_from : Word → List ℕ → List Word
words_from cur [] = flush cur
words_from cur (c ∷ s) = emit cur c ++ words_from (extend cur c) s

unfoldable pub norm : String → List Word
unfolding words_from
norm s = words_from [] (codes s)

-- The last word but one and the last, where there are two.
unfoldable pub last_two : List Word → Option (Word × Word)
last_two [] = none
last_two (a ∷ []) = none
last_two (a ∷ b ∷ []) = some (a, b)
last_two (a ∷ b ∷ c ∷ r) = last_two (b ∷ c ∷ r)

unfoldable pub is_prefix : Word → Word → Bool
is_prefix [] s = true
is_prefix (c ∷ p) [] = false
is_prefix (c ∷ p) (d ∷ s) = c == d && is_prefix p s

-- `s.find(p) != npos`.
unfoldable pub is_infix : Word → Word → Bool
unfolding is_prefix
is_infix p [] = is_prefix p []
is_infix p (d ∷ s) = is_prefix p (d ∷ s) || is_infix p s

abbrev pub differ : Word → Word → Bool
differ ps rs = not (ps == rs) && not (is_infix rs ps) && not (is_infix ps rs)

unfoldable pub words_conflict : Option (Word × Word) → Option (Word × Word) → Bool
words_conflict (some (ps, p)) (some (rs, r)) = p == r && differ ps rs
words_conflict (some _) none = false
words_conflict none _ = false

unfoldable pub conflict : String → String → Bool
unfolding norm last_two is_infix words_conflict
conflict parsed reference = words_conflict (last_two (norm parsed)) (last_two (norm reference))

-- The callsign that is locked for a parsed one under the configured one.
unfoldable pub locked_callsign : String → String → String
unfolding conflict
locked_callsign reference parsed =
    if empty reference then parsed else if conflict parsed reference then reference else parsed
