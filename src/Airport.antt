-- ===== src/Airport.antt =====
-- The frequencies of an airport (src/core/xplane_context.cpp, `AirportFrequencies`). A frequency in MHz
-- is a number of thousandths, so the `float` of the program is the number of kHz.
pub mod Lookup
pub mod Stand
pub mod Choice
use xp_welly_llm_atc.Base.{
  ℕ, ◌+◌, ◌-◌, ltb, leb, String, Bool, true, false, List, [], ◌∷◌, Option, none, some, ◌==◌, select,
  if◌then◌else◌,
}
use xp_welly_llm_atc.Context.{FrequencyType, frequency_type_eq}

pub record AirportFrequency : Type 0 where
  pub freq_khz : ℕ
  pub type : FrequencyType
  pub name : String

unfoldable pub priority_rank : FrequencyType → ℕ
priority_rank FrequencyType.tower = 7
priority_rank FrequencyType.ground = 6
priority_rank FrequencyType.delivery = 5
priority_rank FrequencyType.approach = 4
priority_rank FrequencyType.departure = 4
priority_rank FrequencyType.atis = 3
priority_rank FrequencyType.ctaf = 2
priority_rank FrequencyType.unicom = 1
priority_rank FrequencyType.info = 2
priority_rank FrequencyType.unknown = 0

unfoldable pub has : List AirportFrequency → FrequencyType → Bool
has [] ft = false
has (f ∷ fs) ft = if f.type == ft then true else has fs ft

unfoldable pub first_mhz : List AirportFrequency → FrequencyType → ℕ
first_mhz [] ft = 0
first_mhz (f ∷ fs) ft = if f.type == ft then f.freq_khz else first_mhz fs ft

unfoldable pub first_name : List AirportFrequency → FrequencyType → String
first_name [] ft = ""
first_name (f ∷ fs) ft = if f.type == ft then f.name else first_name fs ft

unfoldable pub has_ground : List AirportFrequency → Bool
unfolding has
has_ground fs = has fs FrequencyType.ground

-- The distance of two channels in kHz.
abbrev pub diff : ℕ → ℕ → ℕ
diff target khz = if ltb khz target then target - khz else khz - target

abbrev pub close : ℕ → AirportFrequency → Bool
close target f = leb (diff target f.freq_khz) 5

abbrev pub outranks : AirportFrequency → AirportFrequency → Bool
outranks f best = ltb (priority_rank best.type) (priority_rank f.type)

abbrev pub type_of : Option AirportFrequency → FrequencyType
type_of none = FrequencyType.unknown
type_of (some f) = f.type

-- The rank -1 of the loop stands for no channel.
unfoldable pub lookup : List AirportFrequency → ℕ → FrequencyType
lookup fs target = type_of (select (close target) outranks none fs)

unfoldable pub frequency_type_name : FrequencyType → String
frequency_type_name FrequencyType.unknown = "Unknown"
frequency_type_name FrequencyType.delivery = "Delivery"
frequency_type_name FrequencyType.ground = "Ground"
frequency_type_name FrequencyType.tower = "Tower"
frequency_type_name FrequencyType.approach = "Approach"
frequency_type_name FrequencyType.departure = "Departure"
frequency_type_name FrequencyType.unicom = "Unicom"
frequency_type_name FrequencyType.ctaf = "CTAF"
frequency_type_name FrequencyType.atis = "ATIS"
frequency_type_name FrequencyType.info = "Information"
