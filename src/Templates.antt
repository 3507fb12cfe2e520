-- ===== src/Templates.antt =====
-- The phraseology templates (src/atc/atc_templates.cpp) over the document that `init` loads, which is a
-- list of its keys with their values at each level.
use xp_welly_llm_atc.Base.{
  ℕ, zero, suc, ◌-◌, String, Bool, false, not, ◌&&◌, ◌||◌, List, [], ◌∷◌, map, Option, none, some,
  ◌==◌, string_eq, size, starts_with, remove_if, find_key, ◌+s◌, if◌then◌else◌,
}

pub record TemplateEntry : Type 0 where
  pub response_template : String
  pub next_state : String
  pub requires_readback : Bool

-- An entry of the document; a key may be missing.
pub record EntryJson : Type 0 where
  pub response : Option String
  pub next_state : Option String
  pub requires_readback : Option Bool

pub record Templates : Type 0 where
  pub loaded : Bool
  pub sections : List (String × List (String × List (String × EntryJson)))
  pub fallbacks : List (String × String)

abbrev pub value {ℓ} : {A : Type ℓ} → Option A → A → A
value none default = default
value (some a) default = a

abbrev pub section_of : Templates → String → List (String × List (String × EntryJson))
section_of t type = value (find_key type t.sections) []

abbrev pub fallback : TemplateEntry
fallback = record {
  response_template = "Say again, {callsign}.";
  next_state = "IDLE";
  requires_readback = false;
}

abbrev pub section_name : Bool → String
section_name is_towered = if is_towered then "towered" else "uncontrolled"

-- The entries of a state; those of an IFR state may stand in the towered section only.
unfoldable pub state_entries : Templates → Bool → String → Option (List (String × EntryJson))
state_entries t is_towered state = elim (find_key state (section_of t (section_name is_towered))) [
  | some entries ↦ some entries
  | none ↦ if starts_with state "IFR/" then find_key state (section_of t "towered") else none
]

abbrev pub contains_key {ℓ} : {V : Type ℓ} → String → List (String × V) → Bool
contains_key k [] = false
contains_key k ((j, v) ∷ m) = j == k || contains_key k m

-- The variant for a field without Ground, then the intent, then `_INVALID`.
unfoldable pub entry_key : List (String × EntryJson) → String → Bool → String
entry_key entries intent_key tower_only =
    if tower_only && contains_key (intent_key +s "_TOWER_ONLY") entries
    then intent_key +s "_TOWER_ONLY"
    else if not (contains_key intent_key entries)
    then "_INVALID"
    else intent_key

unfoldable pub entry_of : String → Option EntryJson → TemplateEntry
entry_of state none = fallback
entry_of state (some e) = record {
  response_template = value e.response fallback.response_template;
  next_state = value e.next_state state;
  requires_readback = value e.requires_readback false;
}

unfoldable pub lookup_in :
    String → String → Bool → Option (List (String × EntryJson)) → TemplateEntry
lookup_in state intent_key tower_only none = fallback
lookup_in state intent_key tower_only (some entries) =
    entry_of state (find_key (entry_key entries intent_key tower_only) entries)

unfoldable pub lookup : Templates → Bool → String → String → Bool → TemplateEntry
lookup t is_towered state intent_key tower_only =
    if not t.loaded
    then fallback
    else lookup_in state intent_key tower_only (state_entries t is_towered state)

unfoldable pub valid_intents : Templates → Bool → String → List String
valid_intents t is_towered state =
    if not t.loaded
    then []
    else remove_if (λ k. k == "_INVALID")
        (map (λ e. e.0) (value (find_key state (section_of t (section_name is_towered))) []))

-- The loop over one placeholder, which is not empty: `skip` characters of it are still to be passed.
unfoldable pub replace_from : String → String → ℕ → String → String
replace_from placeholder v skip String.[] = ""
replace_from placeholder v (suc skip) (String.◌∷◌ c s) = replace_from placeholder v skip s
replace_from placeholder v zero (String.◌∷◌ c s) =
    let found = v +s replace_from placeholder v (size placeholder - 1) s in
    let kept = String.◌∷◌ c (replace_from placeholder v zero s) in
    if starts_with (String.◌∷◌ c s) placeholder then found else kept

unfoldable pub fill : String → List (String × String) → String
unfolding replace_from
fill tmpl [] = tmpl
fill tmpl ((key, v) ∷ vars) = fill (replace_from ("{" +s key +s "}") v 0 tmpl) vars

unfoldable pub lookup_fallback : Templates → String → String → String
lookup_fallback t key default =
    if not t.loaded then default else value (find_key key t.fallbacks) default
