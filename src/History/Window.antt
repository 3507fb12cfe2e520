-- ===== src/History/Window.antt =====
-- The walks over the log, newest entry first, against what they look for.
use xp_welly_llm_atc.Base.{
  ℤ, ◌-ℤ◌, ◌≤ℤ◌, ltb_ℤ, leb_ℤ, Bool, true, false, ◌&&◌, ◌||◌, List, [], ◌∷◌, ◌++◌, any, All, ◌==◌,
  ◌≡◌, refl, ap, ◌↔◌, arith, Bool-cases, inl, inr, -ℤ_parts,
}
use mathlib.Core.List.{reverse}
use xp_welly_llm_atc.State.{AtcState, StateHistoryEntry, atc_state_eq}
use xp_welly_llm_atc.Machine.{AtcMachineState}
use xp_welly_llm_atc.History.{recent_in, was_recently_in, landed_since_departure, is_landing}

-- No entry is younger than the one before it.
abbrev pub NewestFirst : List StateHistoryEntry → Type 0
NewestFirst [] = Unit
NewestFirst (e ∷ es) = All (λ f. f.timestamp_secs ≤ℤ e.timestamp_secs) es × NewestFirst es

abbrev pub is_recent : AtcState → ℤ → ℤ → StateHistoryEntry → Bool
is_recent s max_age_secs now_secs e =
    leb_ℤ (now_secs -ℤ e.timestamp_secs) max_age_secs && e.state == s

old-All :
    (s : AtcState) (max_age_secs now_secs b : ℤ) (es : List StateHistoryEntry)
    → ltb_ℤ max_age_secs (now_secs -ℤ b) ≡ true
    → All (λ f. f.timestamp_secs ≤ℤ b) es
    → any (is_recent s max_age_secs now_secs) es ≡ false
old-All s m n b [] h a = refl
old-All s m n b (e ∷ es) h (le, a) =
    ground (arith, -ℤ_parts n b, -ℤ_parts n e.timestamp_secs, old-All s m n b es h a)

recent_in-any :
    (s : AtcState) (max_age_secs now_secs : ℤ) (es : List StateHistoryEntry)
    → NewestFirst es
    → recent_in s max_age_secs now_secs es ≡ any (is_recent s max_age_secs now_secs) es
unfolding recent_in
recent_in-any s m n [] o = refl
recent_in-any s m n (e ∷ es) (least, o) = elim (Bool-cases (ltb_ℤ m (n -ℤ e.timestamp_secs))) [
  | inl h ↦ ground (arith, h, old-All s m n e.timestamp_secs es h least)
  | inr h ↦ ground (arith, h, recent_in-any s m n es o)
]

-- Over a log in the order of time, the walk that stops at the first entry that is too old finds what
-- a search of the whole log finds: the state is the present one or that of a recent entry.
pub was_recently_in-any :
    (s : AtcState) (max_age_secs now_secs : ℤ) (g : AtcMachineState)
    → NewestFirst (reverse g.history)
    → was_recently_in s max_age_secs now_secs g
      ≡ (g.state == s || any (is_recent s max_age_secs now_secs) (reverse g.history))
unfolding was_recently_in
was_recently_in-any s m n g o = ground (arith, recent_in-any s m n (reverse g.history) o)

-- The log holds a landing, and no departure clearance after it.
abbrev pub Landed : List StateHistoryEntry → Type 0
Landed es =
    (newer : List StateHistoryEntry) × (e : StateHistoryEntry) × (older : List StateHistoryEntry)
    × (es ≡ newer ++ e ∷ older)
    × (is_landing e.state ≡ true)
    × All (λ f. (f.state == AtcState.departure_cleared) ≡ false) newer

Landed-found : (es : List StateHistoryEntry) → landed_since_departure es ≡ true → Landed es
unfolding landed_since_departure
Landed-found [] h = absurd (ground arith)
Landed-found (e ∷ es) h = elim (Bool-cases (e.state == AtcState.departure_cleared)) [
  | inl d ↦ absurd (ground (arith, h, d))
  | inr d ↦ elim (Bool-cases (is_landing e.state)) [
    | inl l ↦ ([], e, es, refl, l, tt)
    | inr l ↦
        let (newer, f, older, same, lf, ok) = Landed-found es (ground (arith, h, d, l)) in
        (e ∷ newer, f, older, ap (λ r. e ∷ r) same, lf, (d, ok))
  ]
]

landed_walk :
    (newer : List StateHistoryEntry) (e : StateHistoryEntry) (older : List StateHistoryEntry)
    → is_landing e.state ≡ true
    → All (λ f. (f.state == AtcState.departure_cleared) ≡ false) newer
    → landed_since_departure (newer ++ e ∷ older) ≡ true
unfolding landed_since_departure
landed_walk [] e older l ok = ground arith
landed_walk (f ∷ newer) e older l (d, ok) = ground (arith, d, landed_walk newer e older l ok)

-- The walk answers yes exactly where the log holds a landing with no departure clearance after it.
pub landed_since_departure-Landed :
    (es : List StateHistoryEntry) → (landed_since_departure es ≡ true) ↔ Landed es
landed_since_departure-Landed es =
    (Landed-found es, λ (newer, e, older, same, l, ok). rw same (landed_walk newer e older l ok))
