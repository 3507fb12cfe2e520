-- ===== src/Traffic/Sequence/Follow.antt =====
-- The traffic to follow is the last of those on final ahead of the user.
use xp_welly_llm_atc.Base.{
  ℕ, suc, zero, ◌+◌, ℤ, ◌≤ℤ◌, ◌<ℤ◌, List, [], ◌∷◌, some, ◌==◌, get_elem?, any, All, ◌≡◌, refl, sym,
  ap, subst, ◌∙◌, ◌≢◌, ◌⊎◌, inl, inr, arith, Bool-cases,
}
use xp_welly_llm_atc.Context.{Geometry}
use xp_welly_llm_atc.Traffic.{TrafficPhase, TrafficTarget, traffic_phase_eq}
use xp_welly_llm_atc.Traffic.Sequence.{
  ActiveRunway, UserPosition, FinalEntry, entry_lt, insert_entry, sort_entries, user_slot,
  distance_to_threshold_nm, collect_finals, is_some, target_ahead, occupies, first_occupant,
  compute_landing_sequence,
}
use xp_welly_llm_atc.Traffic.Sequence.Order.{
  Sorted, insert_entry-All, All-map, sort_entries-Sorted, user_slot-closer, closer-sort_entries,
  closer-collect_finals, finals_ahead,
}

zero_or_suc : (n : ℕ) → (n ≡ 0) ⊎ ((i : ℕ) × (n ≡ suc i))
zero_or_suc zero = inl refl
zero_or_suc (suc i) = inr (i, refl)

sort_entries-All :
    (P : FinalEntry → Type 0) (es : List FinalEntry) → All P es → All P (sort_entries es)
unfolding sort_entries
sort_entries-All P [] ps = tt
sort_entries-All P (e ∷ es) (p, ps) =
    insert_entry-All P e (sort_entries es) p (sort_entries-All P es ps)

All-insert_entry :
    (P : FinalEntry → Type 0) (e : FinalEntry) (fs : List FinalEntry)
    → All P (insert_entry e fs)
    → P e × All P fs
unfolding insert_entry
All-insert_entry P e [] ps = ps
All-insert_entry P e (f ∷ fs) ps = elim (Bool-cases (entry_lt f e)) [
  | inl h ↦
      let (pf, rest) : P f × All P (insert_entry e fs) = rw h at ps in
      let (pe, pfs) = All-insert_entry P e fs rest in (pe, (pf, pfs))
  | inr h ↦ rw h at ps
]

All-sort_entries :
    (P : FinalEntry → Type 0) (es : List FinalEntry) → All P (sort_entries es) → All P es
unfolding sort_entries
All-sort_entries P [] ps = tt
All-sort_entries P (e ∷ es) ps =
    let (pe, rest) = All-insert_entry P e (sort_entries es) ps in (pe, All-sort_entries P es rest)

All-zip :
    (P Q : FinalEntry → Type 0) (fs : List FinalEntry)
    → All P fs
    → All Q fs
    → All (λ f. P f × Q f) fs
All-zip P Q [] ps qs = tt
All-zip P Q (f ∷ fs) (p, ps) (q, qs) = ((p, q), All-zip P Q fs ps qs)

-- Not farther than `e`, or behind the user at `d`.
abbrev pub Behind : ℤ → ℤ → ℤ → Type 0
Behind d e x = (x ≤ℤ e) ⊎ (d <ℤ x)

slot_zero :
    (d e : ℤ) (fs : List FinalEntry)
    → Sorted fs
    → user_slot d fs ≡ 0
    → All (λ f. Behind d e f.dist_nm) fs
unfolding user_slot
slot_zero d e [] s z = tt
slot_zero d e (f ∷ fs) (least, s) z =
    let far : d <ℤ f.dist_nm = ground (arith, z) in
    (inr far, All-map fs (λ k le. inr (omega arith)) least)

-- The entry in front of the user's slot.
slot_entry :
    (P : FinalEntry → Type 0) (d : ℤ) (i : ℕ) (fs : List FinalEntry)
    → Sorted fs
    → All P fs
    → user_slot d fs ≡ suc i
    → (e : FinalEntry) × (get_elem? fs i ≡ some e)
      × P e
      × (e.dist_nm ≤ℤ d)
      × All (λ f. Behind d e.dist_nm f.dist_nm) fs
unfolding user_slot
slot_entry P d i [] s ps h = absurd (ground (arith, h))
slot_entry P d zero (f ∷ fs) (least, s) (p, ps) h = (
  f,
  refl,
  p,
  ground (arith, h),
  (inl (omega arith), slot_zero d f.dist_nm fs s (ground (arith, h))),
)
slot_entry P d (suc i) (f ∷ fs) (least, s) (p, ps) h =
    let (e, found, (pe, le), near, rest) =
      slot_entry (λ e. P e × (f.dist_nm ≤ℤ e.dist_nm)) d i fs s
        (All-zip P (λ e. f.dist_nm ≤ℤ e.dist_nm) fs ps least) (ground (arith, h)) in
    (e, found, pe, near, (inl le, rest))

target_ahead_found :
    (targets : List TrafficTarget) (finals : List FinalEntry) (i : ℕ) (e : FinalEntry)
    (t : TrafficTarget)
    → get_elem? finals i ≡ some e
    → get_elem? targets e.source_idx ≡ some t
    → target_ahead targets finals (suc i) ≡ some t
unfolding target_ahead
target_ahead_found targets finals i e t found there = ground (arith, found, there)

module _ (geo : Geometry) (rwy : ActiveRunway) where
  abbrev pub from_threshold : TrafficTarget → ℤ
  from_threshold t = distance_to_threshold_nm geo t.lat t.lon rwy

  -- The entry of a target on final that stands `k` places behind place `i`.
  abbrev Entered : ℕ → List TrafficTarget → FinalEntry → Type 0
  Entered i ts e =
      (k : ℕ) × (t : TrafficTarget) × (e.source_idx ≡ i + k)
      × (get_elem? ts k ≡ some t)
      × (t.phase ≡ TrafficPhase.final)
      × (e.dist_nm ≡ from_threshold t)

  Entered-later :
      (i : ℕ) (t : TrafficTarget) (ts : List TrafficTarget) (e : FinalEntry)
      → Entered (suc i) ts e
      → Entered i (t ∷ ts) e
  Entered-later i t ts e (k, u, at, found, fin, far) =
      (suc k, u, omega (arith, at), found, fin, far)

  collect_finals-Entered :
      (i : ℕ) (ts : List TrafficTarget) → All (Entered i ts) (collect_finals geo rwy i ts)
  unfolding collect_finals
  collect_finals-Entered i [] = tt
  collect_finals-Entered i (t ∷ ts) =
      let rest : All (Entered i (t ∷ ts)) (collect_finals geo rwy (suc i) ts) =
        All-map (collect_finals geo rwy (suc i) ts) (Entered-later i t ts)
          (collect_finals-Entered (suc i) ts) in
      elim (Bool-cases (t.phase == TrafficPhase.final)) [
        | inl fin ↦ rw fin ((0, t, omega arith, refl, ground (arith, fin), refl), rest)
        | inr other ↦ rw other rest
      ]

  -- What holds of the distance of every entry holds of every target on final.
  collect_finals-All :
      (P : ℤ → Type 0) (i : ℕ) (ts : List TrafficTarget)
      → All (λ e. P e.dist_nm) (collect_finals geo rwy i ts)
      → All (λ t. (t.phase ≢ TrafficPhase.final) ⊎ P (from_threshold t)) ts
  unfolding collect_finals
  collect_finals-All P i [] ps = tt
  collect_finals-All P i (t ∷ ts) ps = elim (Bool-cases (t.phase == TrafficPhase.final)) [
    | inl fin ↦
        let (p, rest) : P (from_threshold t)
            × All (λ e. P e.dist_nm) (collect_finals geo rwy (suc i) ts) =
          rw fin at ps in
        (inr p, collect_finals-All P (suc i) ts rest)
    | inr other ↦
        let rest : All (λ e. P e.dist_nm) (collect_finals geo rwy (suc i) ts) = rw other at ps in
        (inl (ground (arith, other)), collect_finals-All P (suc i) ts rest)
  ]

  -- Where an aircraft on final is ahead of the user, there is one to follow: it is in the snapshot, on
  -- final, not farther from the threshold than the user, and every other one on final is not farther
  -- than it or is behind the user.
  pub compute_landing_sequence-follow_target :
      (targets : List TrafficTarget) (user : UserPosition)
      → finals_ahead geo rwy (distance_to_threshold_nm geo user.lat user.lon rwy) targets ≢ 0
      → let d = distance_to_threshold_nm geo user.lat user.lon rwy in
        (k : ℕ) × (t : TrafficTarget) × ((compute_landing_sequence geo targets user
            rwy).follow_target
          ≡ some t)
        × (get_elem? targets k ≡ some t)
        × (t.phase ≡ TrafficPhase.final)
        × (from_threshold t ≤ℤ d)
        × All
            (λ u. (u.phase ≢ TrafficPhase.final) ⊎ Behind d (from_threshold t) (from_threshold u))
            targets
  unfolding compute_landing_sequence
  compute_landing_sequence-follow_target targets user some_ahead =
      let d = distance_to_threshold_nm geo user.lat user.lon rwy in
      let es = collect_finals geo rwy 0 targets in
      let sorted = sort_entries-Sorted es in
      let slot : user_slot d (sort_entries es) ≡ finals_ahead geo rwy d targets =
        user_slot-closer d (sort_entries es) sorted
        ∙ closer-sort_entries d es
        ∙ closer-collect_finals geo rwy d 0 targets in
      elim (zero_or_suc (user_slot d (sort_entries es))) [
        | inl z ↦ absurd (some_ahead (sym slot ∙ z))
        | inr (i, s) ↦
            let (e, found, (k, t, at, there, fin, far), near, rest) =
              slot_entry (Entered 0 targets) d i (sort_entries es) sorted
                (sort_entries-All (Entered 0 targets) es (collect_finals-Entered 0 targets)) s in
            let place : e.source_idx ≡ k = omega (arith, at) in
            let here = ap (λ j. get_elem? targets j) place ∙ there in
            let nearest = subst (λ x. All (λ f. Behind d x f.dist_nm) (sort_entries es)) far rest in
            (
              k,
              t,
              ap (target_ahead targets (sort_entries es)) s
                  ∙ target_ahead_found targets (sort_entries es) i e t found here,
              there,
              fin,
              subst (λ x. x ≤ℤ d) far near,
              collect_finals-All (Behind d (from_threshold t)) 0 targets
                  (All-sort_entries (λ f. Behind d (from_threshold t) f.dist_nm) es nearest),
            )
      ]

  first_occupant-any :
      (ts : List TrafficTarget) → is_some (first_occupant geo rwy ts) ≡ any (occupies geo rwy) ts
  unfolding first_occupant
  first_occupant-any [] = refl
  first_occupant-any (t ∷ ts) = elim (Bool-cases (occupies geo rwy t)) [
    | inl h ↦ ground (arith, h)
    | inr h ↦ ground (arith, h, first_occupant-any ts)
  ]

  -- The runway is reported occupied exactly where some aircraft of the snapshot occupies it.
  pub compute_landing_sequence-runway_occupied :
      (targets : List TrafficTarget) (user : UserPosition)
      → (compute_landing_sequence geo targets user rwy).runway_occupied
        ≡ any (occupies geo rwy) targets
  unfolding compute_landing_sequence
  compute_landing_sequence-runway_occupied targets user = first_occupant-any targets
