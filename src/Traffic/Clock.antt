-- ===== src/Traffic/Clock.antt =====
-- The clock position of another aircraft.
use xp_welly_llm_atc.Base.{
  ℕ_discrete, ◌+◌, ℕ, ◌*◌, ◌%◌, ◌≤◌, ℤ, pos, negsuc, ◌+ℤ◌, ◌-ℤ◌, fmod, ◌≡◌, nat_eq, arith,
}
use xp_welly_llm_atc.Traffic.{clock_position, clock_of}

clock_of-range : (rel : ℤ) → (1 ≤ clock_of rel) × (clock_of rel ≤ 12)
unfolding clock_of
clock_of-range (pos n) = ground arith
clock_of-range (negsuc n) = ground arith

-- A clock position is one of the twelve hours, whatever the two angles are.
pub clock_position-range :
    (heading bearing : ℤ)
    → (1 ≤ clock_position heading bearing) × (clock_position heading bearing ≤ 12)
unfolding clock_position
clock_position-range heading bearing =
    clock_of-range (fmod (bearing -ℤ heading +ℤ pos 720000) 360000)

clock_of-hour : (k : ℕ) → 1 ≤ k → k ≤ 12 → clock_of (pos (30000 * k % 360000)) ≡ k
unfolding clock_of
clock_of-hour k l u = elim (ℕ_discrete k 12) [
  | yes e ↦ ground (arith, e)
  | no e ↦ ground (arith, e)
]

ahead_of : (heading : ℤ) (n : ℕ) → (heading +ℤ pos n) -ℤ heading +ℤ pos 720000 ≡ pos (n + 720000)
unfolding ◌+ℤ◌ ◌-ℤ◌
ahead_of (pos h) n = ground arith
ahead_of (negsuc h) n = ground arith

-- A bearing of `k` times 30 degrees to the right of the heading is `k` o'clock.
pub clock_position-hour :
    (heading : ℤ) (k : ℕ) → 1 ≤ k → k ≤ 12 → clock_position heading (heading +ℤ pos (30000 * k)) ≡ k
unfolding clock_position
clock_position-hour heading k l u =
    let turn : (30000 * k + 720000) % 360000 ≡ 30000 * k % 360000 = omega arith in
    rw (ahead_of heading (30000 * k), turn) (clock_of-hour k l u)
