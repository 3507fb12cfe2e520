-- ===== src/Snapshot/Guard.antt =====
-- The generation guards the restore.
use xp_welly_llm_atc.Base.{ℕ, String, true, false, ◌≡◌, ◌≢◌, arith, ◌==◌, nat_eq, if◌then◌else◌}
use xp_welly_llm_atc.Machine.{AtcMachineState, next_gen, transition_to}
use xp_welly_llm_atc.State.{AtcState}
use xp_welly_llm_atc.World.{World}
use xp_welly_llm_atc.Snapshot.{current_gen, capture_snapshot, restore_snapshot_if_gen}

pub next_gen-moves : (n : ℕ) → next_gen n ≢ n
next_gen-moves n e = absurd (omega arith)

-- A restore is accepted exactly at the generation it expects; refused, it changes nothing; accepted,
-- it brings back all that was captured but the generation, which moves on, so that no second restore
-- is accepted at the same expected generation.
pub restore_snapshot_if_gen_lem :
    (v w : World) (snap : AtcMachineState) (expected_gen : ℕ)
    → let (w', ok) = restore_snapshot_if_gen (capture_snapshot v) expected_gen w in
      (ok ≡ (current_gen w == expected_gen))
      × (w' ≡ (if ok then record w { g = record v.g { gen = next_gen w.g.gen } } else w))
      × ((restore_snapshot_if_gen snap
            (current_gen w)
            (restore_snapshot_if_gen (capture_snapshot v) (current_gen w) w).0).1
          ≡ false)
unfolding restore_snapshot_if_gen capture_snapshot current_gen
restore_snapshot_if_gen_lem v w snap expected_gen = ground (arith, next_gen-moves w.g.gen)

-- Over a transition to another state, the restore of a snapshot taken before it is refused where it
-- expects the generation of the capture, and leaves the transition; where it expects the generation read
-- after the transition, it takes the transition back, and only the generation moves on.
pub restore-transition_to :
    (w : World) (next : AtcState) (reason : String)
    → next ≢ w.g.state
    → let w' = record w { g = transition_to next reason w.g } in
      (restore_snapshot_if_gen (capture_snapshot w) (current_gen w) w' ≡ (w', false))
      × (restore_snapshot_if_gen (capture_snapshot w) (current_gen w') w'
          ≡ (record w { g = record w.g { gen = next_gen (current_gen w') } }, true))
unfolding restore_snapshot_if_gen capture_snapshot current_gen transition_to
restore-transition_to w next reason new = ground (arith, next_gen-moves w.g.gen)
