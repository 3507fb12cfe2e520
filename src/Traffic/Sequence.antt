-- ===== src/Traffic/Sequence.antt =====
-- The landing sequence (src/atc/landing_sequence.cpp).
pub mod Order
pub mod Follow
use xp_welly_llm_atc.Base.{
  ℕ, suc, zero, ◌+◌, ltb, ℤ, pos, ◌-ℤ◌, ◌*ℤ◌, abs, ltb_ℤ, leb_ℤ, String, Bool, true, false, not,
  ◌&&◌, ◌||◌, List, [], ◌∷◌, Option, none, some, ◌==◌, int_eq, string_eq, empty, get_elem?, ◌+s◌,
  if◌then◌else◌,
}
use xp_welly_llm_atc.Context.{Geometry}
use xp_welly_llm_atc.Traffic.{
  TrafficPhase, TrafficTarget, traffic_phase_eq, is_on_runway_centerline, signed_diff,
}

pub record ActiveRunway : Type 0 where
  pub threshold_lat : ℤ
  pub threshold_lon : ℤ
  pub heading_deg : ℤ
  pub length_m : ℤ
  pub designator : String

pub record UserPosition : Type 0 where
  pub lat : ℤ
  pub lon : ℤ

pub record SequenceResult : Type 0 where
  pub user_position : ℕ
  pub follow_target : Option TrafficTarget
  pub runway_occupied : Bool
  pub occupant : Option TrafficTarget

pub record FinalEntry : Type 0 where
  pub dist_nm : ℤ
  pub source_idx : ℕ

unfoldable pub is_ground_phase : TrafficPhase → Bool
is_ground_phase p =
    p == TrafficPhase.on_ground || p == TrafficPhase.takeoff || p == TrafficPhase.landed

-- The comparator of the sort: by distance, then by place in the snapshot.
unfoldable pub entry_lt : FinalEntry → FinalEntry → Bool
entry_lt a b =
    if not (a.dist_nm == b.dist_nm)
    then ltb_ℤ a.dist_nm b.dist_nm
    else ltb a.source_idx b.source_idx

-- `std::sort` by a strict total order.
unfoldable pub insert_entry : FinalEntry → List FinalEntry → List FinalEntry
insert_entry e [] = e ∷ []
insert_entry e (f ∷ fs) = if entry_lt f e then f ∷ insert_entry e fs else e ∷ f ∷ fs

unfoldable pub sort_entries : List FinalEntry → List FinalEntry
sort_entries [] = []
sort_entries (e ∷ es) = insert_entry e (sort_entries es)

-- The loop that finds the user's slot.
unfoldable pub user_slot : ℤ → List FinalEntry → ℕ
user_slot user_dist_nm [] = 0
user_slot user_dist_nm (f ∷ fs) =
    let rest = suc (user_slot user_dist_nm fs) in if ltb_ℤ user_dist_nm f.dist_nm then 0 else rest

-- `targets[finals[user_idx - 1].source_idx]`, where the user is not first.
unfoldable pub target_ahead : List TrafficTarget → List FinalEntry → ℕ → Option TrafficTarget
target_ahead targets finals zero = none
target_ahead targets finals (suc i) = elim (get_elem? finals i) [
  | none ↦ none
  | some e ↦ get_elem? targets e.source_idx
]

abbrev pub is_some {ℓ} : {A : Type ℓ} → Option A → Bool
is_some none = false
is_some (some a) = true

module _ (geo : Geometry) where
  abbrev pub distance_to_threshold_nm : ℤ → ℤ → ActiveRunway → ℤ
  distance_to_threshold_nm lat lon rwy = geo.distance_nm rwy.threshold_lat rwy.threshold_lon lat lon

  -- The targets on final, each with its place; `i` is the place of the head.
  unfoldable pub collect_finals : ActiveRunway → ℕ → List TrafficTarget → List FinalEntry
  collect_finals rwy i [] = []
  collect_finals rwy i (t ∷ ts) =
      let rest = collect_finals rwy (suc i) ts in
      if not (t.phase == TrafficPhase.final)
      then rest
      else record { dist_nm = distance_to_threshold_nm t.lat t.lon rwy; source_idx = i } ∷ rest

  abbrev pub occupies : ActiveRunway → TrafficTarget → Bool
  occupies rwy t =
      is_ground_phase t.phase
      && is_on_runway_centerline geo t.lat t.lon rwy.threshold_lat rwy.threshold_lon rwy.heading_deg
          (pos 1500000) (pos 30000)

  -- The scan: the first occupier.
  unfoldable pub first_occupant : ActiveRunway → List TrafficTarget → Option TrafficTarget
  first_occupant rwy [] = none
  first_occupant rwy (t ∷ ts) = if occupies rwy t then some t else first_occupant rwy ts

  unfoldable pub compute_landing_sequence :
      List TrafficTarget → UserPosition → ActiveRunway → SequenceResult
  compute_landing_sequence targets user rwy =
      let finals = sort_entries (collect_finals rwy 0 targets) in
      let user_idx = user_slot (distance_to_threshold_nm user.lat user.lon rwy) finals in
      let occupant = first_occupant rwy targets in
      record {
        user_position = user_idx + 1;
        follow_target = target_ahead targets finals user_idx;
        runway_occupied = is_some occupant;
        occupant = occupant;
      }

  unfoldable pub leg_label : TrafficTarget → ActiveRunway → String → String
  leg_label follow rwy pattern_direction =
      let dist_m =
        geo.distance_nm rwy.threshold_lat rwy.threshold_lon follow.lat follow.lon *ℤ pos 1852 in
      let brg = geo.bearing_deg rwy.threshold_lat rwy.threshold_lon follow.lat follow.lon in
      let (along_m, cross_m) = geo.project dist_m (brg -ℤ rwy.heading_deg) in
      let lr = if ltb_ℤ (pos 0) cross_m then "right" else "left" in
      let side = if empty pattern_direction then "left" else pattern_direction in
      let diff = abs (signed_diff follow.track_deg rwy.heading_deg) in
      if leb_ℤ diff (pos 20000)
      then "final"
      else if leb_ℤ (abs (diff -ℤ pos 180000)) (pos 30000)
      then lr +s " downwind"
      else if leb_ℤ (abs (diff -ℤ pos 90000)) (pos 40000)
      then (if leb_ℤ along_m (pos 0) then lr +s " base" else lr +s " crosswind")
      else side +s " base"
