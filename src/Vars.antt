-- ===== src/Vars.antt =====
-- The variables of a template: `std::map<std::string, std::string>`, a list in key order.
use Prim.Native.Char.{code}
use xp_welly_llm_atc.Base.{
  ltb, String, Bool, true, false, ◌&&◌, ◌||◌, List, [], ◌∷◌, ◌==◌, nat_eq, string_eq, if◌then◌else◌,
}

abbrev pub Vars : Type 0
Vars = List (String × String)

-- `a < b` on `std::string`.
unfoldable pub before : String → String → Bool
before a String.[] = false
before String.[] (String.◌∷◌ d b) = true
before (String.◌∷◌ c a) (String.◌∷◌ d b) = ltb (code c) (code d) || code c == code d && before a b

-- `vars[key] = v`.
unfoldable pub put : String → String → Vars → Vars
unfolding before
put key v [] = (key, v) ∷ []
put key v ((k, w) ∷ vars) =
    let rest = put key v vars in
    if k == key
    then (key, v) ∷ vars
    else if before key k
    then (key, v) ∷ (k, w) ∷ vars
    else (k, w) ∷ rest

-- The map of an initializer list.
unfoldable pub to_map : List (String × String) → Vars
unfolding put
to_map [] = []
to_map ((k, v) ∷ rest) = put k v (to_map rest)
