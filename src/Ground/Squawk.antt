-- ===== src/Ground/Squawk.antt =====
-- The code of an IFR clearance (`generate_squawk`). C++ leaves the order of the four draws of a code
-- open; here they are drawn from the left.
use xp_welly_llm_atc.Base.{
  ℕ, zero, suc, ◌+◌, ◌*◌, ◌%◌, ◌≤◌, ◌<◌, ltb, Bool, true, false, ◌||◌, List, [], ◌∷◌, contains,
  nat_eq, ◌≡◌, ◌⊎◌, inl, inr, refl, arith, Bool-cases, if◌then◌else◌,
}

abbrev pub reserved : List ℕ
reserved = 7700 ∷ 7600 ∷ 7500 ∷ 7000 ∷ 2000 ∷ []

-- `rand() & 7`.
abbrev pub digit : (ℕ → ℕ) → ℕ → ℕ
digit rand i = rand i % 8

unfoldable pub draw : (ℕ → ℕ) → ℕ → ℕ
draw rand i =
    digit rand i * 1000 + digit rand (i + 1) * 100 + digit rand (i + 2) * 10 + digit rand (i + 3)

abbrev pub refused : ℕ → ℕ → ℕ → Bool
refused lo hi sq = ltb sq lo || ltb hi sq || contains reserved sq

-- The loop: `attempts` are left, `rolls` numbers have been drawn; 2341 is the fallback.
unfoldable pub squawk_from : (ℕ → ℕ) → ℕ → ℕ → ℕ → ℕ → ℕ × ℕ
unfolding draw
squawk_from rand lo hi zero rolls = (2341, rolls)
squawk_from rand lo hi (suc attempts) rolls =
    let again = squawk_from rand lo hi attempts (rolls + 4) in
    if refused lo hi (draw rand rolls) then again else (draw rand rolls, rolls + 4)

unfoldable pub generate_squawk : (ℕ → ℕ) → ℕ → ℕ → ℕ → ℕ × ℕ
unfolding squawk_from
generate_squawk rand lo hi rolls = squawk_from rand lo hi 50 rolls

-- A code of four octal digits.
abbrev pub IsOctal : ℕ → Type 0
IsOctal sq =
    (a : ℕ) × (b : ℕ) × (c : ℕ) × (d : ℕ) × (a < 8)
    × (b < 8)
    × (c < 8)
    × (d < 8)
    × (sq ≡ a * 1000 + b * 100 + c * 10 + d)

draw-IsOctal : (rand : ℕ → ℕ) (i : ℕ) → IsOctal (draw rand i)
unfolding draw
draw-IsOctal rand i = (
  digit rand i,
  digit rand (i + 1),
  digit rand (i + 2),
  digit rand (i + 3),
  omega arith,
  omega arith,
  omega arith,
  omega arith,
  omega arith,
)

squawk_from-range :
    (rand : ℕ → ℕ) (lo hi attempts rolls : ℕ)
    → IsOctal (squawk_from rand lo hi attempts rolls).0
      × (((squawk_from rand lo hi attempts rolls).0 ≡ 2341)
          ⊎ (refused lo hi (squawk_from rand lo hi attempts rolls).0 ≡ false))
      × ((squawk_from rand lo hi attempts rolls).1 ≤ rolls + attempts * 4)
unfolding squawk_from
squawk_from-range rand lo hi zero rolls =
    ((2, 3, 4, 1, omega arith, omega arith, omega arith, omega arith, refl), inl refl, omega arith)
squawk_from-range rand lo hi (suc n) rolls = elim (Bool-cases (refused lo hi (draw rand rolls))) [
  | inl bad ↦
      rw bad (let (o, k, m) = squawk_from-range rand lo hi n (rolls + 4) in (o, k, omega arith))
  | inr good ↦ rw good (draw-IsOctal rand rolls, inr good, omega arith)
]

or_false : (a b : Bool) → (a || b) ≡ false → (a ≡ false) × (b ≡ false)
or_false true b h = cc
or_false false b h = (refl, h)

not_ltb : (a b : ℕ) → ltb a b ≡ false → b ≤ a
not_ltb a b h = ground arith

refused-false :
    (lo hi sq : ℕ)
    → refused lo hi sq ≡ false
    → (lo ≤ sq) × (sq ≤ hi) × (contains reserved sq ≡ false)
refused-false lo hi sq h =
    let (outside, c) = or_false (ltb sq lo || ltb hi sq) (contains reserved sq) h in
    let (below, above) = or_false (ltb sq lo) (ltb hi sq) outside in
    (not_ltb sq lo below, not_ltb hi sq above, c)

-- The code of a clearance has four octal digits; it is the fallback 2341 or lies in the range of the
-- rules and is none of the reserved codes. At most 200 numbers are drawn for it.
pub generate_squawk-range :
    (rand : ℕ → ℕ) (lo hi rolls : ℕ)
    → IsOctal (generate_squawk rand lo hi rolls).0
      × (((generate_squawk rand lo hi rolls).0 ≡ 2341)
          ⊎ ((lo ≤ (generate_squawk rand lo hi rolls).0)
              × ((generate_squawk rand lo hi rolls).0 ≤ hi)
              × (contains reserved (generate_squawk rand lo hi rolls).0 ≡ false)))
      × ((generate_squawk rand lo hi rolls).1 ≤ rolls + 200)
unfolding generate_squawk
generate_squawk-range rand lo hi rolls =
    let (o, k, m) = squawk_from-range rand lo hi 50 rolls in
    (o, elim k [ inl e ↦ inl e | inr g ↦ inr (refused-false lo hi _ g) ], omega arith)
