-- ===== src/Snapshot.antt =====
-- Snapshot and restore, the guard against a reply that was never spoken
-- (src/atc/atc_state_machine.cpp). A snapshot holds the machine state, not the statics around it.
pub mod Guard
use xp_welly_llm_atc.Base.{ℕ, Bool, true, false, not, ◌==◌, nat_eq, if◌then◌else◌}
use xp_welly_llm_atc.Machine.{AtcMachineState, next_gen}
use xp_welly_llm_atc.World.{World}

unfoldable pub capture_snapshot : World → AtcMachineState
capture_snapshot w = w.g

unfoldable pub current_gen : World → ℕ
current_gen w = w.g.gen

unfoldable pub restore_snapshot_if_gen : AtcMachineState → ℕ → World → World × Bool
restore_snapshot_if_gen snap expected_gen w =
    if not (w.g.gen == expected_gen)
    then (w, false)
    else (record w { g = record snap { gen = next_gen w.g.gen } }, true)
