-- ===== src/Shortcut/Nearest.antt =====
-- What the choice of a fix finds.
use xp_welly_llm_atc.Base.{
  ℕ, suc, ltb_ℤ, Bool, not, ◌&&◌, ◌||◌, List, [], ◌∷◌, Option, none, some, ◌≡◌, refl, arith,
  IsWeakOrder, IsBest, select, select-IsBest, beats_best, if◌then◌else◌,
}
use xp_welly_llm_atc.Shortcut.{
  Candidate, Pick, no_pick, Request, direct, worthwhile, pick_of, nearest_from, pick_nearest,
}

-- The candidates with their places in the list.
abbrev pub numbered : ℕ → List Candidate → List (ℕ × Candidate)
numbered i [] = []
numbered i (c ∷ cs) = (i, c) ∷ numbered (suc i) cs

module _ (q : Request) where
  abbrev pub passes : ℕ × Candidate → Bool
  passes (i, c) = worthwhile q c

  abbrev pub closer : ℕ × Candidate → ℕ × Candidate → Bool
  closer (i, c) (j, d) = ltb_ℤ (direct q c) (direct q d)

  -- What the function answers on a choice.
  abbrev pub pick_on : Option (ℕ × Candidate) → Pick
  pick_on none = no_pick
  pick_on (some (i, c)) = pick_of q i c

  closer-IsWeakOrder : IsWeakOrder closer
  closer-IsWeakOrder = record {
    irrefl = λ a. ground arith;
    trans = λ a b c h k. ground arith;
    weak = λ a b c h k. ground arith;
  }

  offer-pick_on :
      (i : ℕ) (c : Candidate) (o : Option (ℕ × Candidate))
      → (if worthwhile q c && (not (pick_on o).ok || ltb_ℤ (direct q c) (pick_on o).direct_nm)
          then pick_of q i c
          else pick_on o)
        ≡ pick_on (if passes (i, c) && beats_best closer (i, c) o then some (i, c) else o)
  offer-pick_on i c none = ground arith
  offer-pick_on i c (some (j, d)) = ground arith

  nearest_from-select :
      (i : ℕ) (o : Option (ℕ × Candidate)) (cs : List Candidate)
      → nearest_from q i (pick_on o) cs ≡ pick_on (select passes closer o (numbered i cs))
  unfolding nearest_from select
  nearest_from-select i o [] = refl
  nearest_from-select i o (c ∷ cs) = rw (offer-pick_on i c o) (nearest_from-select (suc i) _ cs)

  -- The loop answers with the place, the distance, the saving and the descent of a candidate that passes
  -- every gate and that no other passing candidate is closer than, and with the empty pick where none
  -- passes.
  pub pick_nearest-IsBest :
      (cands : List Candidate)
      → (o : Option (ℕ × Candidate)) × (pick_nearest q cands ≡ pick_on o)
        × IsBest passes closer (numbered 0 cands) o
  unfolding pick_nearest
  pick_nearest-IsBest cands = (
    select passes closer none (numbered 0 cands),
    nearest_from-select 0 none cands,
    select-IsBest passes closer closer-IsWeakOrder (numbered 0 cands),
  )
