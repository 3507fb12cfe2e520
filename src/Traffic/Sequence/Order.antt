-- ===== src/Traffic/Sequence/Order.antt =====
-- The user's place in the sequence and the traffic to follow.
use xp_welly_llm_atc.Base.{
  ℕ, suc, ◌+◌, ℤ, ◌≤ℤ◌, ◌<ℤ◌, ltb_ℤ, leb_ℤ, true, false, ◌&&◌, List, [], ◌∷◌, ◌==◌, int_eq, All,
  ◌≡◌, refl, ◌⊎◌, inl, inr, arith, Bool-cases, if◌then◌else◌,
}
use xp_welly_llm_atc.Context.{Geometry}
use xp_welly_llm_atc.Traffic.{TrafficPhase, TrafficTarget, traffic_phase_eq}
use xp_welly_llm_atc.Traffic.Sequence.{
  ActiveRunway, UserPosition, FinalEntry, entry_lt, insert_entry, sort_entries, user_slot,
  distance_to_threshold_nm, collect_finals, compute_landing_sequence,
}

-- The entries not farther than `d`.
abbrev pub closer : ℤ → List FinalEntry → ℕ
closer d [] = 0
closer d (f ∷ fs) = let rest = closer d fs in if ltb_ℤ d f.dist_nm then rest else suc rest

abbrev pub Sorted : List FinalEntry → Type 0
Sorted [] = Unit
Sorted (f ∷ fs) = All (λ e. f.dist_nm ≤ℤ e.dist_nm) fs × Sorted fs

entry_lt_le :
    (a b : FinalEntry)
    → ((entry_lt a b ≡ true) × (a.dist_nm ≤ℤ b.dist_nm))
      ⊎ ((entry_lt a b ≡ false) × (b.dist_nm ≤ℤ a.dist_nm))
unfolding entry_lt
entry_lt_le a b = ground arith

closer-insert_entry :
    (d : ℤ) (e : FinalEntry) (fs : List FinalEntry)
    → closer d (insert_entry e fs) ≡ closer d (e ∷ fs)
unfolding insert_entry
closer-insert_entry d e [] = refl
closer-insert_entry d e (f ∷ fs) = ground (arith, closer-insert_entry d e fs)

pub closer-sort_entries : (d : ℤ) (es : List FinalEntry) → closer d (sort_entries es) ≡ closer d es
unfolding sort_entries
closer-sort_entries d [] = refl
closer-sort_entries d (e ∷ es) =
    ground (arith, closer-insert_entry d e (sort_entries es), closer-sort_entries d es)

pub insert_entry-All :
    (P : FinalEntry → Type 0) (e : FinalEntry) (fs : List FinalEntry)
    → P e
    → All P fs
    → All P (insert_entry e fs)
unfolding insert_entry
insert_entry-All P e [] pe ps = (pe, tt)
insert_entry-All P e (f ∷ fs) pe (pf, ps) = elim (Bool-cases (entry_lt f e)) [
  | inl h ↦ rw h (pf, insert_entry-All P e fs pe ps)
  | inr h ↦ rw h (pe, (pf, ps))
]

pub All-map :
    {P Q : FinalEntry → Type 0} (fs : List FinalEntry)
    → ((f : FinalEntry) → P f → Q f)
    → All P fs
    → All Q fs
All-map [] k ps = tt
All-map (f ∷ fs) k (p, ps) = (k f p, All-map fs k ps)

insert_entry-Sorted :
    (e : FinalEntry) (fs : List FinalEntry) → Sorted fs → Sorted (insert_entry e fs)
unfolding insert_entry
insert_entry-Sorted e [] s = (tt, tt)
insert_entry-Sorted e (f ∷ fs) (least, s) = elim (entry_lt_le f e) [
  | inl (h, le) ↦
      rw h
        (insert_entry-All (λ k. f.dist_nm ≤ℤ k.dist_nm) e fs le least, insert_entry-Sorted e fs s)
  | inr (h, le) ↦ rw h ((le, All-map fs (λ k lk. omega arith) least), (least, s))
]

pub sort_entries-Sorted : (es : List FinalEntry) → Sorted (sort_entries es)
unfolding sort_entries
sort_entries-Sorted [] = tt
sort_entries-Sorted (e ∷ es) = insert_entry-Sorted e (sort_entries es) (sort_entries-Sorted es)

closer-far :
    (d : ℤ) (b : ℤ) (fs : List FinalEntry) → d <ℤ b → All (λ e. b ≤ℤ e.dist_nm) fs → closer d fs ≡ 0
closer-far d b [] lt a = refl
closer-far d b (f ∷ fs) lt (le, a) = ground (arith, closer-far d b fs lt a)

pub user_slot-closer : (d : ℤ) (fs : List FinalEntry) → Sorted fs → user_slot d fs ≡ closer d fs
unfolding user_slot
user_slot-closer d [] s = refl
user_slot-closer d (f ∷ fs) (least, s) = elim (Bool-cases (ltb_ℤ d f.dist_nm)) [
  | inl h ↦ ground (arith, closer-far d f.dist_nm fs (ground arith) least)
  | inr h ↦ ground (arith, user_slot-closer d fs s)
]

module _ (geo : Geometry) (rwy : ActiveRunway) where
  -- The targets on final that are not farther from the threshold than `d`.
  abbrev pub finals_ahead : ℤ → List TrafficTarget → ℕ
  finals_ahead d [] = 0
  finals_ahead d (t ∷ ts) =
      let rest = finals_ahead d ts in
      if t.phase == TrafficPhase.final && leb_ℤ (distance_to_threshold_nm geo t.lat t.lon rwy) d
      then suc rest
      else rest

  pub closer-collect_finals :
      (d : ℤ) (i : ℕ) (ts : List TrafficTarget)
      → closer d (collect_finals geo rwy i ts) ≡ finals_ahead d ts
  unfolding collect_finals
  closer-collect_finals d i [] = refl
  closer-collect_finals d i (t ∷ ts) = ground (arith, closer-collect_finals d (suc i) ts)

  -- The user's number is one more than the count of aircraft on final that are not farther from the
  -- threshold, whatever the order of the snapshot.
  pub compute_landing_sequence-user_position :
      (targets : List TrafficTarget) (user : UserPosition)
      → (compute_landing_sequence geo targets user rwy).user_position
        ≡ finals_ahead (distance_to_threshold_nm geo user.lat user.lon rwy) targets + 1
  unfolding compute_landing_sequence
  compute_landing_sequence-user_position targets user =
      let d = distance_to_threshold_nm geo user.lat user.lon rwy in
      let es = collect_finals geo rwy 0 targets in
      omega (
        arith,
        user_slot-closer d (sort_entries es) (sort_entries-Sorted es),
        closer-sort_entries d es,
        closer-collect_finals d 0 targets,
      )
