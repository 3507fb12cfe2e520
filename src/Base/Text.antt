-- ===== src/Base/Text.antt =====
-- Texts: `std::string` as the native `String`, with its tests and concatenation.
use Prim.Native.Nat.{ℕ, suc}
use Prim.Native.Char.{code}
use Prim.Native.String
use Prim.Native.String.{String}
use mathlib.Core.Bool.{Bool, true, false, ◌&&◌}
use mathlib.Core.List.{List, [], ◌∷◌}
use mathlib.Core.Option.{Option, none, some}
use xp_welly_llm_atc.Base.Tests.{if◌then◌else◌}
use xp_welly_llm_atc.Base.Equality.{◌==◌, string_eq, nat_eq}

-- `s.empty()`.
abbrev pub empty : String → Bool
empty s = s == ""

infixr 65 ◌+s◌
-- `a + b` on `std::string`.
abbrev pub ◌+s◌ : String → String → String
a +s b = String.◌++◌ a b

-- `map.find(key)`: the value at a key of a table, the first where a key stands twice.
abbrev pub find_key {ℓ} : {V : Type ℓ} → String → List (String × V) → Option V
find_key k [] = none
find_key k ((j, v) ∷ m) = if j == k then some v else find_key k m

-- `s.size()`.
abbrev pub size : String → ℕ
size String.[] = 0
size (String.◌∷◌ c s) = suc (size s)

-- `s.rfind(p, 0) == 0`.
unfoldable pub starts_with : String → String → Bool
starts_with s String.[] = true
starts_with String.[] (String.◌∷◌ d p) = false
starts_with (String.◌∷◌ c s) (String.◌∷◌ d p) = code c == code d && starts_with s p
