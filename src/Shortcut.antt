-- ===== src/Shortcut.antt =====
-- The choice of a fix to cut direct to (src/atc/route_shortcut.hpp). Positions, distances, fractions and
-- angles are in thousandths, altitudes in feet. Distance and the angle of a descent are parameters.
pub mod Nearest
use xp_welly_llm_atc.Base.{
  ℕ, suc, ℤ, pos, negsuc, ltb_ℤ, leb_ℤ, ◌-ℤ◌, ◌*ℤ◌, int_eq, String, Bool, true, false, not, ◌&&◌,
  ◌||◌, List, [], ◌∷◌, ◌==◌, if◌then◌else◌,
}
use xp_welly_llm_atc.Context.{Geometry}

-- `cross_alt_ft` is zero where the descent is not to be tested.
pub record Candidate : Type 0 where
  pub ident : String
  pub lat : ℤ
  pub lon : ℤ
  pub routed_nm : ℤ
  pub cross_alt_ft : ℤ
  pub route_idx : ℤ

pub record Pick : Type 0 where
  pub ok : Bool
  pub which : ℤ
  pub ident : String
  pub route_idx : ℤ
  pub direct_nm : ℤ
  pub saved_nm : ℤ
  pub descent_deg : ℤ

-- The defaults of the fields of `Pick`.
abbrev pub no_pick : Pick
no_pick = record {
  ok = false;
  which = negsuc 0;
  ident = "";
  route_idx = negsuc 0;
  direct_nm = pos 0;
  saved_nm = pos 0;
  descent_deg = pos 0;
}

-- The aircraft and the limits of a call. `descent_angle h d` is the angle of losing `h` feet in `d`.
pub record Request : Type 0 where
  pub geo : Geometry
  pub descent_angle : ℤ → ℤ → ℤ
  pub ac_lat : ℤ
  pub ac_lon : ℤ
  pub ac_alt_ft : ℤ
  pub min_save_frac : ℤ
  pub max_descent_deg : ℤ

module _ (q : Request) where
  abbrev pub direct : Candidate → ℤ
  direct c = q.geo.distance_nm q.ac_lat q.ac_lon c.lat c.lon

  -- The gate on the saving: a route of at most a mile has nothing to save.
  unfoldable pub saves : Candidate → Bool
  saves c =
      not (ltb_ℤ (pos 0) q.min_save_frac)
      || (not (leb_ℤ c.routed_nm (pos 1000))
          && not (ltb_ℤ ((c.routed_nm -ℤ direct c) *ℤ pos 1000) (q.min_save_frac *ℤ c.routed_nm)))

  abbrev lose : Candidate → ℤ
  lose c = q.ac_alt_ft -ℤ c.cross_alt_ft

  -- The gate on the descent is asked of a candidate below the aircraft only.
  abbrev must_descend : Candidate → Bool
  must_descend c =
      ltb_ℤ (pos 0) q.max_descent_deg && ltb_ℤ (pos 0) c.cross_alt_ft && ltb_ℤ (pos 0) (lose c)

  unfoldable pub descent_deg : Candidate → ℤ
  descent_deg c = if must_descend c then q.descent_angle (lose c) (direct c) else pos 0

  unfoldable pub flyable : Candidate → Bool
  unfolding descent_deg
  flyable c = not (must_descend c && ltb_ℤ q.max_descent_deg (descent_deg c))

  -- No `continue` of the loop is taken.
  unfoldable pub worthwhile : Candidate → Bool
  worthwhile c =
      not (c.lat == pos 0 && c.lon == pos 0) && ltb_ℤ (pos 0) (direct c) && saves c && flyable c

  abbrev pub pick_of : ℕ → Candidate → Pick
  pick_of i c = record {
    ok = true;
    which = pos i;
    ident = c.ident;
    route_idx = c.route_idx;
    direct_nm = direct c;
    saved_nm = if ltb_ℤ (pos 0) c.routed_nm then c.routed_nm -ℤ direct c else pos 0;
    descent_deg = descent_deg c;
  }

  unfoldable pub nearest_from : ℕ → Pick → List Candidate → Pick
  nearest_from i best [] = best
  nearest_from i best (c ∷ cs) =
      nearest_from (suc i)
        (if worthwhile c && (not best.ok || ltb_ℤ (direct c) best.direct_nm)
          then pick_of i c
          else best)
        cs

  unfoldable pub pick_nearest : List Candidate → Pick
  unfolding nearest_from
  pick_nearest cands = nearest_from 0 no_pick cands
