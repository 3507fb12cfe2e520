-- ===== src/Airport/Lookup.antt =====
-- Which type of service a tuned frequency is taken for.
use xp_welly_llm_atc.Base.{
  ℕ, List, ◌≡◌, refl, arith, Option, none, IsWeakOrder, IsBest, select, select-IsBest,
}
use xp_welly_llm_atc.Airport.{AirportFrequency, close, outranks, lookup, type_of}

outranks-IsWeakOrder : IsWeakOrder outranks
outranks-IsWeakOrder = record {
  irrefl = λ a. ground arith;
  trans = λ a b c h k. ground arith;
  weak = λ a b c h k. ground arith;
}

-- A tuned frequency is taken for the service of a channel within 5 kHz of it that no channel within
-- 5 kHz outranks, and for an unknown one where no channel lies within 5 kHz.
pub lookup-IsBest :
    (fs : List AirportFrequency) (target : ℕ)
    → (o : Option AirportFrequency) × (lookup fs target ≡ type_of o)
      × IsBest (close target) outranks fs o
unfolding lookup
lookup-IsBest fs target = (
  select (close target) outranks none fs,
  refl,
  select-IsBest (close target) outranks outranks-IsWeakOrder fs,
)
