-- ===== src/Airport/Choice.antt =====
-- Which stand an arrival is sent to.
use xp_welly_llm_atc.Base.{
  ℕ, ℤ, Bool, true, false, not, List, Option, none, some, ◌≡◌, ◌⊎◌, inl, inr, refl, arith,
  string_eq, Bool-cases, empty, IsWeakOrder, IsBest, Fails, select-IsBest,
}
use xp_welly_llm_atc.Airport.Stand.{
  EngineKind, ParkingStand, smaller, larger, usable, fits, or_else, pick, name_of, pick_ga_stand,
}

module _ (cos : ℤ → ℤ) (ac_lat ac_lon : ℤ) where
  smaller-IsWeakOrder : IsWeakOrder (smaller cos ac_lat ac_lon)
  unfolding smaller
  smaller-IsWeakOrder = record {
    irrefl = λ a. ground arith;
    trans = λ a b c h k. ground arith;
    weak = λ a b c h k. ground arith;
  }

  larger-IsWeakOrder : IsWeakOrder (larger cos ac_lat ac_lon)
  unfolding larger
  larger-IsWeakOrder = record {
    irrefl = λ a. ground arith;
    trans = λ a b c h k. ground arith;
    weak = λ a b c h k. ground arith;
  }

  -- The stand `o` is what one pass over the stands may pick.
  abbrev pub IsPick :
      List ParkingStand → ℕ → EngineKind → (ParkingStand → Bool) → Option ParkingStand → Type 0
  IsPick stands code engine eligible none = Fails (usable engine eligible) stands
  IsPick stands code engine eligible (some s) =
      IsBest (fits code engine eligible) (smaller cos ac_lat ac_lon) stands (some s)
      ⊎ (Fails (fits code engine eligible) stands
          × IsBest (usable engine eligible) (larger cos ac_lat ac_lon) stands (some s))

  module _ (stands : List ParkingStand) (code : ℕ) (engine : EngineKind) where
    or_else-IsPick :
        (eligible : ParkingStand → Bool) (fit fallback : Option ParkingStand)
        → IsBest (fits code engine eligible) (smaller cos ac_lat ac_lon) stands fit
        → IsBest (usable engine eligible) (larger cos ac_lat ac_lon) stands fallback
        → IsPick stands code engine eligible (or_else fit fallback)
    or_else-IsPick eligible none none h k = k
    or_else-IsPick eligible none (some s) h k = inr (h, k)
    or_else-IsPick eligible (some s) fallback h k = inl h

    -- One pass picks, of the eligible stands that take the engine and are large enough, one of the
    -- smallest size and, among those, none farther than another; where none is large enough, one of
    -- the largest size, and nothing only where no eligible stand takes the engine.
    pub pick-best :
        (eligible : ParkingStand → Bool)
        → IsPick stands code engine eligible (pick cos ac_lat ac_lon stands code engine eligible)
    unfolding pick
    pick-best eligible =
        or_else-IsPick eligible _ _
          (select-IsBest (fits code engine eligible) (smaller cos ac_lat ac_lon) smaller-IsWeakOrder
            stands)
          (select-IsBest (usable engine eligible) (larger cos ac_lat ac_lon) larger-IsWeakOrder
            stands)

    -- The stands of the first pass, and of the second.
    abbrev pub pass : Bool → ParkingStand → Bool
    pass true s = s.general_aviation
    pass false s = not s.op_airline

    -- The stand that an arrival is sent to is what the pass over the stands for general aviation may
    -- pick; only where that gives no name, it is what the pass over all but airline gates may pick, and
    -- then no name is given only where that pass picks a stand without a name or no stand of it takes the
    -- engine.
    pub pick_ga_stand-IsPick :
        let r = pick_ga_stand cos ac_lat ac_lon stands code engine in
        (first : Option ParkingStand) × IsPick stands code engine (pass true) first
        × (((empty (name_of first) ≡ false) × (r ≡ name_of first))
            ⊎ ((empty (name_of first) ≡ true)
                × ((second : Option ParkingStand) × IsPick stands code engine (pass false) second
                    × (r ≡ name_of second))))
    unfolding pick_ga_stand
    pick_ga_stand-IsPick =
        let first = pick cos ac_lat ac_lon stands code engine (pass true) in
        let second = pick cos ac_lat ac_lon stands code engine (pass false) in
        (
          first,
          pick-best (pass true),
          elim (Bool-cases (empty (name_of first))) [
            | inr named ↦ inl (named, rw named refl)
            | inl nameless ↦ inr (nameless, (second, pick-best (pass false), rw nameless refl))
          ],
        )
