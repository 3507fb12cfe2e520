-- ===== src/Airport/Stand.antt =====
-- The parking stand for a general-aviation arrival (src/core/xplane_context.cpp, `pick_ga_stand`).
-- Letters are code points, lengths thousandths of a metre, angles thousandths of a degree.
use xp_welly_llm_atc.Base.{
  ℕ, ltb, leb, ℤ, pos, ◌+ℤ◌, ◌-ℤ◌, ◌*ℤ◌, ltb_ℤ, String, Bool, not, ◌&&◌, ◌||◌, List, Option, none,
  some, ◌==◌, nat_eq, Eq, empty, string_eq, select, if◌then◌else◌,
}

pub data EngineKind : Type 0 where
  prop turboprop jet : EngineKind

pub EngineKind-discrete : Discrete EngineKind
EngineKind-discrete = hlevel

instance abbrev pub engine_kind_eq : Eq EngineKind
engine_kind_eq = record { dec = EngineKind-discrete }

pub record ParkingStand : Type 0 where
  pub name : String
  pub lat : ℤ
  pub lon : ℤ
  pub size_code : ℕ
  pub general_aviation : Bool
  pub op_airline : Bool
  pub jets : Bool
  pub turboprops : Bool
  pub props : Bool

unfoldable pub icao_size_code_for_wingspan : ℤ → ℕ
icao_size_code_for_wingspan w =
    if ltb_ℤ w (pos 15000)
    then b'A'
    else if ltb_ℤ w (pos 24000)
    then b'B'
    else if ltb_ℤ w (pos 36000)
    then b'C'
    else if ltb_ℤ w (pos 52000)
    then b'D'
    else if ltb_ℤ w (pos 65000)
    then b'E'
    else b'F'

unfoldable pub eq_ok : EngineKind → ParkingStand → Bool
eq_ok EngineKind.jet s = s.jets
eq_ok EngineKind.turboprop s = s.turboprops || s.props
eq_ok EngineKind.prop s = s.props || s.turboprops

abbrev pub usable : EngineKind → (ParkingStand → Bool) → ParkingStand → Bool
usable ac_engine eligible s = eligible s && eq_ok ac_engine s

abbrev pub fits : ℕ → EngineKind → (ParkingStand → Bool) → ParkingStand → Bool
fits ac_size_code ac_engine eligible s = usable ac_engine eligible s && leb ac_size_code s.size_code

abbrev pub or_else : Option ParkingStand → Option ParkingStand → Option ParkingStand
or_else none fallback = fallback
or_else (some s) fallback = some s

abbrev pub name_of : Option ParkingStand → String
name_of none = ""
name_of (some s) = s.name

-- `cos` of libm is a parameter, in thousandths.
module _ (cos : ℤ → ℤ) (ac_lat ac_lon : ℤ) where
  unfoldable pub d2 : ParkingStand → ℤ
  d2 s =
      let dlat = (s.lat -ℤ ac_lat) *ℤ pos 1000 in
      let dlon = (s.lon -ℤ ac_lon) *ℤ cos ac_lat in dlat *ℤ dlat +ℤ dlon *ℤ dlon

  unfoldable pub smaller : ParkingStand → ParkingStand → Bool
  smaller s best =
      ltb s.size_code best.size_code || s.size_code == best.size_code && ltb_ℤ (d2 s) (d2 best)

  unfoldable pub larger : ParkingStand → ParkingStand → Bool
  larger s best =
      ltb best.size_code s.size_code || s.size_code == best.size_code && ltb_ℤ (d2 s) (d2 best)

  -- The two variables of the loop, which do not meet.
  unfoldable pub pick :
      List ParkingStand → ℕ → EngineKind → (ParkingStand → Bool) → Option ParkingStand
  pick stands ac_size_code ac_engine eligible =
      or_else (select (fits ac_size_code ac_engine eligible) smaller none stands)
        (select (usable ac_engine eligible) larger none stands)

  unfoldable pub pick_ga_stand : List ParkingStand → ℕ → EngineKind → String
  unfolding pick
  pick_ga_stand stands ac_size_code ac_engine =
      let r = name_of (pick stands ac_size_code ac_engine (λ s. s.general_aviation)) in
      if empty r then name_of (pick stands ac_size_code ac_engine (λ s. not s.op_airline)) else r
