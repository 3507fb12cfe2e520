-- ===== src/Context.antt =====
-- The simulator snapshot of src/core/xplane_context.hpp, with the fields that the modelled code reads,
-- and the great-circle geometry, which is a parameter: it is made of sin, cos and atan2 of libm.
use xp_welly_llm_atc.Base.{ℕ, ℤ, String, Bool, List, Eq}

pub data FrequencyType : Type 0 where
  unknown delivery ground tower approach departure unicom ctaf atis info : FrequencyType

pub FrequencyType-discrete : Discrete FrequencyType
FrequencyType-discrete = hlevel

instance abbrev pub frequency_type_eq : Eq FrequencyType
frequency_type_eq = record { dec = FrequencyType-discrete }

pub record RunwayEnd : Type 0 where
  pub number : String
  pub lat : ℤ
  pub lon : ℤ
  pub heading_deg : ℤ

pub record RunwayInfo : Type 0 where
  pub end1 : RunwayEnd
  pub end2 : RunwayEnd
  pub length_m : ℤ

-- The fields that the modelled code reads.
pub record XPlaneContext : Type 0 where
  pub latitude : ℤ
  pub longitude : ℤ
  pub groundspeed_kts : ℤ
  pub vertical_speed_fpm : ℤ
  pub heading_true : ℤ
  pub height_agl_ft : ℤ
  pub on_ground : Bool
  pub nearest_airport_id : String
  pub is_towered_airport : Bool
  pub frequency_type : FrequencyType
  pub tower_only : Bool
  pub airport_lat : ℤ
  pub airport_lon : ℤ
  pub runways : List RunwayInfo
  pub active_runway : String

-- Positions, angles, distances and speeds are in thousandths. `project d a` is `(d * cos a, d * sin a)`,
-- and `path_intersects_cone` takes the arguments of src/data/traffic_geometry.hpp in its order.
pub record Geometry : Type 0 where
  pub distance_nm : ℤ → ℤ → ℤ → ℤ → ℤ
  pub bearing_deg : ℤ → ℤ → ℤ → ℤ → ℤ
  pub project : ℤ → ℤ → ℤ × ℤ
  pub path_intersects_cone : ℤ → ℤ → ℤ → ℤ → ℤ → ℤ → ℤ → ℤ → ℤ → ℤ → Bool

-- The number formats of the C library: `"%.0f"` and `"%d"`.
pub record Formats : Type 0 where
  pub fixed0 : ℤ → String
  pub decimal : ℕ → String
