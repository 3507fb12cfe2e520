-- ===== src/Traffic/Advisor/Cooldown.antt =====
-- How often the advisor speaks, and of which target.
use xp_welly_llm_atc.Base.{
  ℕ, ℤ, pos, ◌-ℤ◌, ltb_ℤ, ◌<ℤ◌, ◌≤ℤ◌, ap, Bool, true, false, ◌&&◌, List, [], ◌∷◌, Option, none,
  some, ◌==◌, nat_eq, ◌≡◌, refl, ◌≢◌, ◌⊎◌, inl, inr, arith, Bool-cases, if◌then◌else◌,
}
use xp_welly_llm_atc.Context.{Geometry, Formats}
use xp_welly_llm_atc.Traffic.{TrafficTarget}
use xp_welly_llm_atc.Traffic.Advisor.{
  UserState, Stamps, find_stamp, stamp, AdvisoryHistory, TrafficAdvisory, within, ground_calls,
  air_calls, map_option, first_target, ground_advisory, air_advisory, gating_passes,
  evaluate_ground_conflict, evaluate_air, evaluate, mark_emitted, mark_acknowledged_visual,
}

find_stamp-stamp : (id : ℕ) (now : ℤ) (m : Stamps) → find_stamp id (stamp id now m) ≡ some now
unfolding stamp
find_stamp-stamp id now [] = ground arith
find_stamp-stamp id now ((j, t) ∷ m) = ground (arith, find_stamp-stamp id now m)

first_target-some :
    (p : TrafficTarget → Bool) (ts : List TrafficTarget) (t : TrafficTarget)
    → first_target p ts ≡ some t
    → p t ≡ true
unfolding first_target
first_target-some p [] t h = absurd (ground arith)
first_target-some p (u ∷ ts) t h = elim (Bool-cases (p u)) [
  | inl y ↦ ground (arith, y, h)
  | inr n ↦ first_target-some p ts t (ground (arith, n, h))
]

map_option-some :
    {A B : Type 0} (f : A → B) (o : Option A) (b : B)
    → map_option f o ≡ some b
    → (a : A) × (o ≡ some a) × (b ≡ f a)
map_option-some f none b h = absurd (ground arith)
map_option-some f (some a) b h = (a, refl, ground arith)

first_of-some :
    {A : Type 0} (o p : Option A) (a : A)
    → (elim o [ some b ↦ some b | none ↦ p ]) ≡ some a
    → (o ≡ some a) ⊎ (p ≡ some a)
first_of-some none p a h = inr h
first_of-some (some b) p a h = inl h

-- The silence after any call, and before a call of the same target.
abbrev pub pause : TrafficAdvisory → ℤ
pause adv = if adv.requires_ack then pos 20000 else pos 15000

abbrev pub repeat_after : TrafficAdvisory → ℤ
repeat_after adv = if adv.requires_ack then pos 60000 else pos 30000

module _ (geo : Geometry) (fmt : Formats) (targets : List TrafficTarget) (user : UserState)
    (history : AdvisoryHistory) (now : ℤ) where
  ground_source :
      (adv : TrafficAdvisory)
      → evaluate_ground_conflict geo fmt targets user history now ≡ some adv
      → (t : TrafficTarget) × (adv ≡ ground_advisory t)
        × (ground_calls geo user history now t ≡ true)
        × (ltb_ℤ (now -ℤ history.last_global_emit_secs) (pos 15000) ≡ false)
  unfolding evaluate_ground_conflict
  ground_source adv h = elim (Bool-cases user.user_taxiing) [
    | inr still ↦ absurd (ground (arith, still, h))
    | inl taxiing ↦ elim (Bool-cases (ltb_ℤ (now -ℤ history.last_global_emit_secs) (pos 15000))) [
      | inl soon ↦ absurd (ground (arith, soon, taxiing, h))
      | inr late ↦
          let p = ground_calls geo user history now in
          let (t, found, same) =
            map_option-some ground_advisory (first_target p targets) adv
              (ground (arith, late, taxiing, h)) in
          (t, same, first_target-some p targets t found, late)
    ]
  ]

  air_source :
      (adv : TrafficAdvisory)
      → evaluate_air geo fmt targets user history now ≡ some adv
      → (t : TrafficTarget) × (adv ≡ air_advisory fmt user t)
        × (air_calls geo user history now t ≡ true)
        × (ltb_ℤ (now -ℤ history.last_global_emit_secs) (pos 20000) ≡ false)
  unfolding evaluate_air
  air_source adv h = elim (Bool-cases (gating_passes user)) [
    | inr shut ↦ absurd (ground (arith, shut, h))
    | inl clear ↦ elim (Bool-cases (ltb_ℤ (now -ℤ history.last_global_emit_secs) (pos 20000))) [
      | inl soon ↦ absurd (ground (arith, soon, clear, h))
      | inr late ↦
          let p = air_calls geo user history now in
          let (t, found, same) =
            map_option-some (air_advisory fmt user) (first_target p targets) adv
              (ground (arith, late, clear, h)) in
          (t, same, first_target-some p targets t found, late)
    ]
  ]

module _ (geo : Geometry) (fmt : Formats) (targets : List TrafficTarget) (user : UserState)
    (history : AdvisoryHistory) (id : ℕ) (t0 now : ℤ) (adv : TrafficAdvisory) where
  -- After a call at `t0` about the target `id` the next call comes after the pause of its kind (15 s on
  -- the ground, 20 s in the air), and one about the same target after 30 s or 60 s.
  pub evaluate-mark_emitted :
      evaluate geo fmt targets user (mark_emitted history id t0) now ≡ some adv
      → (pause adv ≤ℤ now -ℤ t0)
        × ((adv.mode_s_id == id && ltb_ℤ (now -ℤ t0) (repeat_after adv)) ≡ false)
  unfolding evaluate mark_emitted ground_calls air_calls ground_advisory air_advisory within
  evaluate-mark_emitted h =
      let after = mark_emitted history id t0 in
      let again = find_stamp-stamp id t0 history.last_issued_secs in
      elim (first_of-some (evaluate_ground_conflict geo fmt targets user after now)
        (evaluate_air geo fmt targets user after now) adv h) [
          | inl g ↦
              let (t, same, calls, late) = ground_source geo fmt targets user after now adv g in
              ground (
                arith,
                again,
                ap (λ a. a.mode_s_id) same,
                ap (λ a. a.requires_ack) same,
                calls,
                late,
              )
          | inr a ↦
              let (t, same, calls, late) = air_source geo fmt targets user after now adv a in
              ground (
                arith,
                again,
                ap (λ a. a.mode_s_id) same,
                ap (λ a. a.requires_ack) same,
                calls,
                late,
              )
        ]

  -- A target that the pilot has reported in sight at `t0` is not called again in the air for 300 s.
  pub evaluate-mark_acknowledged_visual :
      evaluate geo fmt targets user (mark_acknowledged_visual history id t0) now ≡ some adv
      → now -ℤ t0 <ℤ pos 300000
      → adv.requires_ack ≡ true
      → adv.mode_s_id ≢ id
  unfolding evaluate mark_acknowledged_visual air_calls ground_advisory air_advisory within
  evaluate-mark_acknowledged_visual h soon air same_id =
      let after = mark_acknowledged_visual history id t0 in
      let again = find_stamp-stamp id t0 history.acknowledged_visual_secs in
      elim (first_of-some (evaluate_ground_conflict geo fmt targets user after now)
        (evaluate_air geo fmt targets user after now) adv h) [
          | inl g ↦
              let (t, same, calls, late) = ground_source geo fmt targets user after now adv g in
              absurd (ground (arith, air, ap (λ a. a.requires_ack) same))
          | inr a ↦
              let (t, same, calls, late) = air_source geo fmt targets user after now adv a in
              absurd (ground (arith, again, same_id, ap (λ a. a.mode_s_id) same, calls, soon))
        ]
