-- ===== src/Reminder/Timeout.antt =====
-- How long the silent count-down of a read-back takes.
use xp_welly_llm_atc.Base.{
  ◌+◌, ◌*◌, ◌≤◌, ℤ, pos, ◌+ℤ◌, ◌≤ℤ◌, ◌<ℤ◌, String, true, false, List, [], ◌∷◌, All, ◌≡◌, refl, ◌∙◌,
  arith, if◌then◌else◌, +ℤ_parts, -ℤ_parts,
}
use xp_welly_llm_atc.State.{AtcState, AtcState-discrete}
use xp_welly_llm_atc.State.Names.{state_name}
use xp_welly_llm_atc.Machine.{AtcMachineState, bump_gen, transition_to}
use xp_welly_llm_atc.Readback.{rb_clear}
use xp_welly_llm_atc.Reminder.{
  consume_readback_reminder, readback_timeout, readback_tick, is_ifr_inflight, is_ifr,
}

-- The machine after the polls at the given times.
unfoldable pub poll : List ℤ → AtcMachineState → AtcMachineState
poll [] g = g
poll (now ∷ nows) g = poll nows (consume_readback_reminder now g).0

-- The wait that began at `t0` is open: each of the silent ticks so far took 45 s.
abbrev Waiting : ℤ → AtcMachineState → Type 0
Waiting t0 g =
    (g.readback_pending ≡ true)
    × (g.readback_reminder_count ≤ 3)
    × (t0 +ℤ pos (45000 * g.readback_reminder_count) ≤ℤ g.readback_last_reminder_secs)

-- What a poll within the wait does.
consume_readback_reminder-waits :
    (t0 now : ℤ) (g : AtcMachineState)
    → Waiting t0 g
    → now <ℤ t0 +ℤ pos 180000
    → let h = (consume_readback_reminder now g).0 in
      Waiting t0 h × (h.state ≡ g.state) × (h.pending_clearances ≡ g.pending_clearances)
unfolding consume_readback_reminder readback_tick bump_gen
consume_readback_reminder-waits t0 now g (p, c, l) early =
    let n = g.readback_reminder_count in
    let last = g.readback_last_reminder_secs in
    ground (
      arith,
      +ℤ_parts t0 (pos (45000 * n)),
      +ℤ_parts t0 (pos (45000 * (n + 1))),
      +ℤ_parts t0 (pos 180000),
      -ℤ_parts now last,
    )

poll-Waiting :
    (t0 : ℤ) (nows : List ℤ) (g : AtcMachineState)
    → Waiting t0 g
    → All (λ now. now <ℤ t0 +ℤ pos 180000) nows
    → ((poll nows g).readback_pending ≡ true)
      × ((poll nows g).state ≡ g.state)
      × ((poll nows g).pending_clearances ≡ g.pending_clearances)
unfolding poll
poll-Waiting t0 [] g w early = (w.0, refl, refl)
poll-Waiting t0 (now ∷ nows) g w (early, later) =
    let (w', s, c) = consume_readback_reminder-waits t0 now g w early in
    ground (arith, poll-Waiting t0 nows (consume_readback_reminder now g).0 w' later, s, c)

-- A read-back that has just been armed at `t0` is not given up before `t0` + 180 s, however often the
-- count-down is polled: the state and the queue stay.
pub poll-keeps :
    (g : AtcMachineState) (nows : List ℤ)
    → g.readback_pending ≡ true
    → g.readback_reminder_count ≡ 0
    → All (λ now. now <ℤ g.readback_last_reminder_secs +ℤ pos 180000) nows
    → ((poll nows g).readback_pending ≡ true)
      × ((poll nows g).state ≡ g.state)
      × ((poll nows g).pending_clearances ≡ g.pending_clearances)
poll-keeps g nows p n early =
    let t0 = g.readback_last_reminder_secs in
    poll-Waiting t0 nows g
      (p, omega (arith, n), omega (arith, n, +ℤ_parts t0 (pos (45000 * g.readback_reminder_count))))
      early

-- The state in which a read-back that is given up leaves the machine, and the key of the reply.
abbrev pub given_up : AtcMachineState → AtcState × String
given_up g =
    let cur = state_name g.state g.departure_type in
    if is_ifr_inflight cur
    then (g.state, "")
    else (AtcState.idle, if is_ifr cur then "readback_cancel_ifr" else "readback_cancel")

tick :
    (now : ℤ) (g : AtcMachineState)
    → g.readback_pending ≡ true
    → g.readback_reminder_count + 1 ≤ 3
    → g.readback_last_reminder_secs +ℤ pos 45000 ≤ℤ now
    → let h = (consume_readback_reminder now g).0 in
      (h.readback_pending ≡ true)
      × (h.readback_reminder_count ≡ g.readback_reminder_count + 1)
      × (h.readback_last_reminder_secs ≡ now)
      × (h.state ≡ g.state)
      × (h.departure_type ≡ g.departure_type)
unfolding consume_readback_reminder readback_tick bump_gen
tick now g p n late =
    let last = g.readback_last_reminder_secs in
    ground (arith, +ℤ_parts last (pos 45000), -ℤ_parts now last)

timeout :
    (now : ℤ) (g : AtcMachineState)
    → g.readback_pending ≡ true
    → g.readback_reminder_count ≡ 3
    → g.readback_last_reminder_secs +ℤ pos 45000 ≤ℤ now
    → let (h, text) = consume_readback_reminder now g in
      (h.readback_pending ≡ false) × (h.pending_clearances ≡ []) × ((h.state, text) ≡ given_up g)
unfolding consume_readback_reminder readback_timeout rb_clear transition_to bump_gen
timeout now g p n late =
    let last = g.readback_last_reminder_secs in
    elim (AtcState-discrete AtcState.idle g.state) [
      | yes e ↦ ground (arith, +ℤ_parts last (pos 45000), -ℤ_parts now last)
      | no e ↦ ground (arith, +ℤ_parts last (pos 45000), -ℤ_parts now last)
    ]

-- Four polls at least 45 s apart, the first of them 45 s after the read-back was armed, give it up: an
-- IFR flight under way keeps its state, any other goes to IDLE and hears the cancellation.
pub poll-gives_up :
    (g : AtcMachineState) (n1 n2 n3 n4 : ℤ)
    → g.readback_pending ≡ true
    → g.readback_reminder_count ≡ 0
    → g.readback_last_reminder_secs +ℤ pos 45000 ≤ℤ n1
    → n1 +ℤ pos 45000 ≤ℤ n2
    → n2 +ℤ pos 45000 ≤ℤ n3
    → n3 +ℤ pos 45000 ≤ℤ n4
    → let (h, text) = consume_readback_reminder n4 (poll (n1 ∷ n2 ∷ n3 ∷ []) g) in
      (h.readback_pending ≡ false) × (h.pending_clearances ≡ []) × ((h.state, text) ≡ given_up g)
unfolding poll
poll-gives_up g n1 n2 n3 n4 p c l1 l2 l3 l4 =
    let g1 = (consume_readback_reminder n1 g).0 in
    let g2 = (consume_readback_reminder n2 g1).0 in
    let g3 = (consume_readback_reminder n3 g2).0 in
    let (p1, c1, t1, s1, d1) = tick n1 g p (omega (arith, c)) l1 in
    let (p2, c2, t2, s2, d2) = tick n2 g1 p1 (omega (arith, c, c1)) (rw t1 l2) in
    let (p3, c3, t3, s3, d3) = tick n3 g2 p2 (omega (arith, c, c1, c2)) (rw t2 l3) in
    let (p4, q4, out) = timeout n4 g3 p3 (omega (arith, c, c1, c2, c3)) (rw t3 l4) in
    let s : g3.state ≡ g.state = s3 ∙ s2 ∙ s1 in
    let d : g3.departure_type ≡ g.departure_type = d3 ∙ d2 ∙ d1 in (p4, q4, out ∙ rw (s, d) refl)
