-- ===== src/Examples/Route.antt =====
-- The theorem on the choice of a fix at concrete candidates.
use xp_welly_llm_atc.Base.{ℕ, pos, String, List, [], ◌∷◌, Option, ◌≡◌, IsBest}
use xp_welly_llm_atc.Shortcut.{Candidate, Request, pick_nearest}
use xp_welly_llm_atc.Shortcut.Nearest.{numbered, passes, closer, pick_on, pick_nearest-IsBest}
use xp_welly_llm_atc.Examples.{geometry}

abbrev fix : String → ℕ → ℕ → Candidate
fix ident lat routed = record {
  ident = ident;
  lat = pos lat;
  lon = pos 0;
  routed_nm = pos routed;
  cross_alt_ft = pos 3000;
  route_idx = pos 4;
}

abbrev fixes : List Candidate
fixes = fix "MILPA" 30000 60000 ∷ fix "RILAX" 20000 60000 ∷ fix "BERSU" 10000 10500 ∷ []

-- A tenth is to be saved, at three degrees at most.
abbrev inbound : Request
inbound = record {
  geo = geometry;
  descent_angle = λ h d. pos 2000;
  ac_lat = pos 1;
  ac_lon = pos 1;
  ac_alt_ft = pos 9000;
  min_save_frac = pos 100;
  max_descent_deg = pos 3000;
}

pick_nearest-IsBest_example :
    (o : Option (ℕ × Candidate)) × (pick_nearest inbound fixes ≡ pick_on inbound o)
    × IsBest (passes inbound) (closer inbound) (numbered 0 fixes) o
pick_nearest-IsBest_example = pick_nearest-IsBest inbound fixes
