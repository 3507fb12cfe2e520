-- ===== src/Machine/Transition.antt =====
-- The bounded state log and the transition.
use xp_welly_llm_atc.Base.{
  suc, ◌-◌, ◌≤◌, ◌≡◌, refl, ap, ◌≢◌, ◌⊎◌, inl, inr, Bool-cases, ltb→lt, List, [], ◌∷◌, ◌++◌, String,
  arith, length, drop, ltb, length-append, length-drop,
}
use xp_welly_llm_atc.State.{AtcState, AtcState-discrete, StateHistoryEntry}
use xp_welly_llm_atc.Machine.{AtcMachineState, history_cap, trim_history, log_entry, transition_to}

-- The loop keeps the newest `history_cap` entries.
pub trim_history-drop :
    (es : List StateHistoryEntry) → trim_history es ≡ drop (length es - history_cap) es
unfolding trim_history
trim_history-drop [] = refl
trim_history-drop (e ∷ es) = elim (Bool-cases (ltb history_cap (suc (length es)))) [
  | inl long ↦
      let gap : suc (length es) - 8 ≡ suc (length es - 8) = omega (arith, ltb→lt _ _ long) in
      rw (long, gap) (trim_history-drop es)
  | inr short ↦ let gap : suc (length es) - 8 ≡ 0 = ground arith in rw (short, gap) refl
]

-- A transition to another state logs the state that is left, with its reason and time, behind the
-- log, of which the newest eight entries stay; a transition to the current state changes nothing.
pub transition_to_log :
    (s : AtcState) (reason : String) (g : AtcMachineState)
    → ((s ≡ g.state) × (transition_to s reason g ≡ g))
      ⊎ ((s ≢ g.state)
          × ((transition_to s reason g).state ≡ s)
          × ((transition_to s reason g).history
              ≡ drop (suc (length g.history) - history_cap) (g.history ++ log_entry reason g ∷ []))
          × (length (transition_to s reason g).history ≤ history_cap))
unfolding transition_to
transition_to_log s reason g =
    let log = g.history ++ log_entry reason g ∷ [] in
    elim (AtcState-discrete s g.state) [
      | yes e ↦ inl (e, ground arith)
      | no ne ↦ inr (
        ne,
        ground arith,
        ground (arith, trim_history-drop log, length-append g.history (log_entry reason g ∷ [])),
        ground (arith, trim_history-drop log, length-drop (length log - 8) log),
      )
    ]

pub trim_history-length : (es : List StateHistoryEntry) → length (trim_history es) ≤ history_cap
trim_history-length es =
    omega (arith, ap length (trim_history-drop es), length-drop (length es - 8) es)

-- What a transition leaves alone.
pub transition_to-state :
    (s : AtcState) (reason : String) (g : AtcMachineState)
    → ((transition_to s reason g).state ≡ s)
      × ((transition_to s reason g).assigned_runway ≡ g.assigned_runway)
      × ((transition_to s reason g).session_callsign ≡ g.session_callsign)
unfolding transition_to
transition_to-state s reason g = ground arith
