-- ===== src/Correction/Firing.antt =====
-- When a correction fires, and what it leaves behind.
use xp_welly_llm_atc.Base.{
  ℤ, pos, String, true, false, ◌&&◌, List, [], ◌∷◌, Option, none, some, ◌==◌, string_eq, find_key,
  contains, ◌≡◌, refl, ◌≢◌, ◌⊎◌, inl, inr, arith, Bool-cases, Option-cases, ◌+s◌,
}
use xp_welly_llm_atc.State.{AtcState, AtcState-discrete, atc_state_eq}
use xp_welly_llm_atc.State.Names.{state_name, state_from_name}
use xp_welly_llm_atc.Machine.{AtcMachineState, set_last_now_secs, bump_gen}
use xp_welly_llm_atc.Machine.Transition.{transition_to-state}
use xp_welly_llm_atc.Phase.{FlightPhase, flight_phase_eq, is_on_ground}
use xp_welly_llm_atc.World.{Settings}
use xp_welly_llm_atc.Correction.{
  AutoCorrection, FlightRules, matches, first_match, correct, run_timer, elapsed, count_down,
  apply_match, apply_rules, check_auto_correction,
}

first_match-matches :
    (phase : FlightPhase) (cs : List (String × AutoCorrection)) (c : String × AutoCorrection)
    → first_match phase cs ≡ some c
    → matches phase c.0 c.1 ≡ true
unfolding first_match
first_match-matches phase [] c h = absurd (ground arith)
first_match-matches phase ((name, ac) ∷ cs) c h = elim (Bool-cases (matches phase name ac)) [
  | inl y ↦ let e : (name, ac) ≡ c = ground (arith, y, h) in rw (← e) y
  | inr n ↦ first_match-matches phase cs c (ground (arith, n, h))
]

-- The corrections that the rules hold for a state.
abbrev pub corrections_for : FlightRules → AtcMachineState → Option (List (String × AutoCorrection))
corrections_for rules g = find_key (state_name g.state g.departure_type) rules.auto_corrections

-- What a fired correction leaves behind.
abbrev pub Corrected : AtcState → AtcMachineState → Type 0
Corrected new_state h =
    (h.state ≡ new_state)
    × (h.readback_pending ≡ false)
    × (h.pending_clearances ≡ [])
    × (h.active_correction_key ≡ "")
    × (h.correction_timer ≡ pos 0)

correct-Corrected :
    (reason : String) (new_state : AtcState) (g : AtcMachineState)
    → Corrected new_state (correct reason new_state g)
unfolding correct bump_gen
correct-Corrected reason new_state g =
    ((transition_to-state new_state reason g).0, refl, refl, refl, refl)

module _ (settings : Settings) (phase : FlightPhase) (dt : ℤ) where
  -- The condition of `c` fires from `g`: the phase is one of its phases, `on_airborne` is not taken on
  -- the ground, and its timer has run out.
  abbrev pub Fires : String × AutoCorrection → AtcMachineState → Type 0
  Fires (name, ac) g =
      (contains ac.phases phase ≡ true)
      × ((name == "on_airborne" && is_on_ground phase) ≡ false)
      × (elapsed
            (run_timer (state_name g.state g.departure_type +s ":" +s name) dt g).correction_timer
            ac.delay_sec settings.auto_correction_factor
          ≡ true)

  apply_match-outcome :
      (o : Option (String × AutoCorrection)) (g : AtcMachineState)
      → ((c : String × AutoCorrection) → o ≡ some c → matches phase c.0 c.1 ≡ true)
      → ((apply_match settings dt o g).state ≡ g.state)
        ⊎ ((c : String × AutoCorrection) × (o ≡ some c)
            × Fires c g
            × Corrected (state_from_name c.1.next_state) (apply_match settings dt o g))
  unfolding apply_match count_down run_timer matches
  apply_match-outcome none g m = inl refl
  apply_match-outcome (some (name, ac)) g m =
      let t = run_timer (state_name g.state g.departure_type +s ":" +s name) dt g in
      elim (Bool-cases (elapsed t.correction_timer ac.delay_sec settings.auto_correction_factor)) [
        | inl y ↦
            let ok = m (name, ac) refl in
            inr (
              (name, ac),
              refl,
              (ground (arith, ok), ground (arith, ok), y),
              rw y (
                  correct-Corrected ("auto_correction:" +s name) (state_from_name ac.next_state) t),
            )
        | inr n ↦ inl (ground (arith, n))
      ]

  check_acts :
      (rules : FlightRules) (now_secs : ℤ) (g : AtcMachineState)
      (cs : List (String × AutoCorrection))
      → g.state ≢ AtcState.idle
      → g.state ≢ AtcState.unicom_active
      → corrections_for rules g ≡ some cs
      → check_auto_correction settings rules phase dt now_secs g
        ≡ apply_match settings dt (first_match phase cs) (set_last_now_secs now_secs g)
  unfolding check_auto_correction apply_rules
  check_acts rules now_secs g cs busy towered found = ground (arith, found)

  -- A frame changes the state only where a condition of the rules for it fires, and then the state is
  -- the one the rule names and no read-back is left; IDLE and UNICOM are never corrected.
  pub check_auto_correction-outcome :
      (rules : FlightRules) (now_secs : ℤ) (g : AtcMachineState)
      → ((check_auto_correction settings rules phase dt now_secs g).state ≡ g.state)
        ⊎ ((g.state ≢ AtcState.idle)
            × (g.state ≢ AtcState.unicom_active)
            × ((cs : List (String × AutoCorrection)) × (c : String × AutoCorrection)
                × (corrections_for rules g ≡ some cs)
                × (first_match phase cs ≡ some c)
                × Fires c g
                × Corrected
                    (state_from_name c.1.next_state)
                    (check_auto_correction settings rules phase dt now_secs g)))
  unfolding check_auto_correction apply_rules run_timer
  check_auto_correction-outcome rules now_secs g = elim (AtcState-discrete g.state AtcState.idle) [
    | yes idle ↦ inl (ground (arith, idle))
    | no busy ↦ elim (AtcState-discrete g.state AtcState.unicom_active) [
      | yes unicom ↦ inl (ground (arith, unicom))
      | no towered ↦ elim (Option-cases (corrections_for rules g)) [
        | inl none_for ↦ inl (ground (arith, busy, towered, none_for))
        | inr (cs, found) ↦
            elim (apply_match-outcome (first_match phase cs) (set_last_now_secs now_secs g)
              (λ c. first_match-matches phase cs c)) [
                | inl same ↦ inl (ground (arith, busy, towered, found, same))
                | inr (c, first, fires, done) ↦ inr (
                  busy,
                  towered,
                  (
                    cs,
                    c,
                    found,
                    first,
                    fires,
                    rw (check_acts rules now_secs g cs busy towered found) done,
                  ),
                )
              ]
      ]
    ]
  ]
