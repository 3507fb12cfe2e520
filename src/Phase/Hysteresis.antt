-- ===== src/Phase/Hysteresis.antt =====
-- The phase leaves the ground only after a time in the air.
use xp_welly_llm_atc.Base.{
  ℕ, ◌+◌, pos, ◌+ℤ◌, ◌≤ℤ◌, ◌<ℤ◌, true, false, List, [], ◌∷◌, All, ◌≡◌, refl, ap, ◌⊎◌, inl, inr,
  arith, pos_part, neg_part, +ℤ_parts,
}
use xp_welly_llm_atc.Phase.{FlightPhase, is_on_ground, flight_phase_eq}
use xp_welly_llm_atc.Phase.Detect.{
  HysteresisConfig, PhaseState, settle_phase, needs_hysteresis, hysteresis_duration,
  track_candidate, enter_phase,
}

-- A frame: the phase detected and the milliseconds since the frame before.
abbrev pub Frame : Type 0
Frame = FlightPhase × ℕ

abbrev pub total : List Frame → ℕ
total [] = 0
total ((raw, dt) ∷ fs) = dt + total fs

-- Frames that all show the phase `raw`.
abbrev pub steady : FlightPhase → List ℕ → List Frame
steady raw [] = []
steady raw (dt ∷ dts) = (raw, dt) ∷ steady raw dts

module _ (h : HysteresisConfig) where
  unfoldable pub settle_frames : List Frame → PhaseState → PhaseState
  settle_frames [] p = p
  settle_frames ((raw, dt) ∷ fs) p = settle_frames fs (settle_phase h raw (pos dt) p)

  ground_duration :
      (from to : FlightPhase)
      → is_on_ground from ≡ true
      → is_on_ground to ≡ false
      → (needs_hysteresis from to ≡ true)
        × (hysteresis_duration h from to ≡ h.ground_to_airborne_sec)
  unfolding needs_hysteresis hysteresis_duration
  ground_duration from to g a = ground arith

  -- One frame in the air, before the time is over.
  settle_phase-holds :
      (raw : FlightPhase) (dt : ℕ) (p : PhaseState)
      → is_on_ground p.current_phase ≡ true
      → is_on_ground raw ≡ false
      → pos 0 ≤ℤ p.candidate_timer
      → p.candidate_timer +ℤ pos dt <ℤ h.ground_to_airborne_sec
      → ((settle_phase h raw (pos dt) p).current_phase ≡ p.current_phase)
        × (pos 0 ≤ℤ (settle_phase h raw (pos dt) p).candidate_timer)
        × ((settle_phase h raw (pos dt) p).candidate_timer ≤ℤ p.candidate_timer +ℤ pos dt)
  unfolding settle_phase track_candidate enter_phase
  settle_phase-holds raw dt p g a z early = ground (
    arith,
    +ℤ_parts p.candidate_timer (pos dt),
    +ℤ_parts (pos 0) (pos dt),
    ground_duration p.current_phase raw g a,
  )

  -- While the frames show only phases in the air, and for less than the time that take-off needs, the
  -- phase stays the one on the ground.
  pub settle_frames-holds :
      (fs : List Frame) (p : PhaseState)
      → is_on_ground p.current_phase ≡ true
      → pos 0 ≤ℤ p.candidate_timer
      → All (λ f. is_on_ground f.0 ≡ false) fs
      → p.candidate_timer +ℤ pos (total fs) <ℤ h.ground_to_airborne_sec
      → (settle_frames fs p).current_phase ≡ p.current_phase
  unfolding settle_frames
  settle_frames-holds [] p g z a early = refl
  settle_frames-holds ((raw, dt) ∷ fs) p g z (air, a) early =
      let q = settle_phase h raw (pos dt) p in
      let parts = +ℤ_parts p.candidate_timer (pos (dt + total fs)) in
      let part = +ℤ_parts p.candidate_timer (pos dt) in
      let (same, z', le) =
        settle_phase-holds raw dt p g air z (ground (arith, parts, part, early)) in
      let rest = +ℤ_parts q.candidate_timer (pos (total fs)) in
      ground (
        arith,
        same,
        settle_frames-holds fs q (ground (arith, same, g)) z' a
            (omega (arith, parts, part, early, rest, le)),
      )

  settle_phase-enters :
      (raw : FlightPhase) (dt : ℕ) (p : PhaseState)
      → is_on_ground p.current_phase ≡ true
      → is_on_ground raw ≡ false
      → p.candidate_phase ≡ raw
      → ((settle_phase h raw (pos dt) p).current_phase ≡ raw)
        ⊎ (((settle_phase h raw (pos dt) p).current_phase ≡ p.current_phase)
            × ((settle_phase h raw (pos dt) p).candidate_phase ≡ raw)
            × ((settle_phase h raw (pos dt) p).candidate_timer ≡ p.candidate_timer +ℤ pos dt)
            × (p.candidate_timer +ℤ pos dt <ℤ h.ground_to_airborne_sec))
  unfolding settle_phase track_candidate enter_phase
  settle_phase-enters raw dt p g a c = ground (arith, ground_duration p.current_phase raw g a)

  settle_phase-stays :
      (raw : FlightPhase) (dt : ℕ) (p : PhaseState)
      → p.current_phase ≡ raw
      → (settle_phase h raw (pos dt) p).current_phase ≡ raw
  unfolding settle_phase
  settle_phase-stays raw dt p c = ground arith

  settle_frames-stays :
      (raw : FlightPhase) (dts : List ℕ) (p : PhaseState)
      → p.current_phase ≡ raw
      → (settle_frames (steady raw dts) p).current_phase ≡ raw
  unfolding settle_frames
  settle_frames-stays raw [] p c = c
  settle_frames-stays raw (dt ∷ dts) p c =
      settle_frames-stays raw dts (settle_phase h raw (pos dt) p) (settle_phase-stays raw dt p c)

  -- Once one phase in the air has been the candidate for the time that take-off needs, it is the phase.
  pub settle_frames-enters :
      (raw : FlightPhase) (dts : List ℕ) (p : PhaseState)
      → is_on_ground p.current_phase ≡ true
      → is_on_ground raw ≡ false
      → p.candidate_phase ≡ raw
      → p.candidate_timer <ℤ h.ground_to_airborne_sec
      → h.ground_to_airborne_sec ≤ℤ p.candidate_timer +ℤ pos (total (steady raw dts))
      → (settle_frames (steady raw dts) p).current_phase ≡ raw
  unfolding settle_frames
  settle_frames-enters raw [] p g a c early long =
      absurd (omega (arith, +ℤ_parts p.candidate_timer (pos 0), early, long))
  settle_frames-enters raw (dt ∷ dts) p g a c early long =
      let q = settle_phase h raw (pos dt) p in
      let rest = total (steady raw dts) in
      elim (settle_phase-enters raw dt p g a c) [
        | inl e ↦ settle_frames-stays raw dts q e
        | inr (same, c', t, early') ↦
            settle_frames-enters raw dts q (ground (arith, same, g)) a c' (rw t early') (
              omega (
                arith,
                ap pos_part t,
                ap neg_part t,
                long,
                +ℤ_parts p.candidate_timer (pos (dt + rest)),
                +ℤ_parts p.candidate_timer (pos dt),
                +ℤ_parts q.candidate_timer (pos rest),
              ))
      ]
