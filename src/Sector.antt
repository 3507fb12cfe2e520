-- ===== src/Sector.antt =====
-- The choice of the next controller (src/atc/sector_picker.cpp). A `nullptr` in the list of enclosing
-- controllers is `none`.
pub mod Choice
pub mod Approach
use xp_welly_llm_atc.Base.{
  ℕ, ℤ, pos, ltb_ℤ, String, Bool, true, false, not, ◌&&◌, ◌||◌, List, [], ◌∷◌, Option, none, some,
  ◌==◌, nat_eq, int_eq, string_eq, bool_eq, contains, empty, Eq, if◌then◌else◌,
}
use xp_welly_llm_atc.Context.{Geometry}

pub data ControllerRole : Type 0 where
  unknown twr tracon ctr : ControllerRole

pub ControllerRole-discrete : Discrete ControllerRole
ControllerRole-discrete = hlevel

instance abbrev pub controller_role_eq : Eq ControllerRole
controller_role_eq = record { dec = ControllerRole-discrete }

-- The fields that the picks read; the outline of the sector is left to the airspace database.
pub record Controller : Type 0 where
  pub name : String
  pub facility_id : String
  pub role : ControllerRole
  pub freqs_khz : List ℕ
  pub floor_ft : ℤ
  pub ceiling_ft : ℤ

abbrev pub is_tracon : Controller → Bool
is_tracon c = c.role == ControllerRole.tracon

abbrev pub is_ctr : Controller → Bool
is_ctr c = c.role == ControllerRole.ctr

-- The front frequency is new.
abbrev pub fresh : List ℕ → List ℕ → Bool
fresh visited [] = false
fresh visited (f ∷ fs) = not (contains visited f)

-- `c` takes the place of `best` in `pick_next`.
unfoldable pub beats : Controller → Option Controller → Bool
beats c none = is_tracon c || is_ctr c
beats c (some b) =
    if is_tracon c
    then not (is_tracon b) || ltb_ℤ b.floor_ft c.floor_ft
    else is_ctr c && not (is_tracon b) && ltb_ℤ b.floor_ft c.floor_ft

unfoldable pub offer : List ℕ → Option Controller → Option Controller → Option Controller
offer visited none best = best
offer visited (some c) best = if fresh visited c.freqs_khz && beats c best then some c else best

unfoldable pub pick_from : List ℕ → Option Controller → List (Option Controller) → Option Controller
pick_from visited best [] = best
pick_from visited best (c ∷ cs) = pick_from visited (offer visited c best) cs

unfoldable pub pick_next : List (Option Controller) → List ℕ → Option Controller
pick_next enclosing visited = pick_from visited none enclosing

-- 0 is unbounded.
abbrev pub ceil_of : Controller → ℤ
ceil_of c = if ltb_ℤ (pos 0) c.ceiling_ft then c.ceiling_ft else pos 999999

unfoldable pub more_terminal : Option Controller → Option Controller → Bool
more_terminal none b = false
more_terminal (some a) none = true
more_terminal (some a) (some b) =
    if not (is_tracon a == is_tracon b)
    then is_tracon a
    else if not (a.floor_ft == b.floor_ft)
    then ltb_ℤ b.floor_ft a.floor_ft
    else ltb_ℤ (ceil_of a) (ceil_of b)

-- `pick_next_approach`: `facility_dist` is the distance of a controller's airport to the destination.
unfoldable pub better_approach : (Controller → ℤ) → Controller → Option Controller → Bool
better_approach facility_dist c none = true
better_approach facility_dist c (some b) =
    if not (is_tracon c == is_tracon b)
    then is_tracon c
    else if not (c.floor_ft == b.floor_ft)
    then ltb_ℤ b.floor_ft c.floor_ft
    else if not (ceil_of c == ceil_of b)
    then ltb_ℤ (ceil_of c) (ceil_of b)
    else ltb_ℤ (facility_dist c) (facility_dist b)

unfoldable pub offer_approach :
    (Controller → ℤ) → List ℕ → Option Controller → Option Controller → Option Controller
offer_approach facility_dist visited none best = best
offer_approach facility_dist visited (some c) best =
    if fresh visited c.freqs_khz
      && (is_tracon c || is_ctr c)
      && better_approach facility_dist c best
    then some c
    else best

unfoldable pub pick_approach_from :
    (Controller → ℤ) → List ℕ → Option Controller → List (Option Controller) → Option Controller
pick_approach_from facility_dist visited best [] = best
pick_approach_from facility_dist visited best (c ∷ cs) =
    pick_approach_from facility_dist visited (offer_approach facility_dist visited c best) cs

-- The distance of the facility's airport to the destination; 1e18 where one of them is not known.
unfoldable pub facility_dist_to : Geometry → (String → ℤ × ℤ) → ℤ → ℤ → Controller → ℤ
facility_dist_to geo airport_pos_for dest_lat dest_lon c =
    let (lat, lon) = airport_pos_for c.facility_id in
    if (dest_lat == pos 0 && dest_lon == pos 0)
      || empty c.facility_id
      || (lat == pos 0 && lon == pos 0)
    then pos 1000000000000000000000
    else geo.distance_nm dest_lat dest_lon lat lon

unfoldable pub pick_next_approach :
    Geometry → (String → ℤ × ℤ) → List (Option Controller) → List ℕ → ℤ → ℤ → Option Controller
pick_next_approach geo airport_pos_for enclosing visited dest_lat dest_lon =
    pick_approach_from (facility_dist_to geo airport_pos_for dest_lat dest_lon) visited none
      enclosing
