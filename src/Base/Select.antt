-- ===== src/Base/Select.antt =====
-- The loop `for (x : xs) if (p(x) && (!best || beats(x, *best))) best = &x;`, and what it finds when
-- `beats` is a strict weak order.
use mathlib.Core.Path.{◌≡◌, refl, sym}
use mathlib.Core.Logic.{◌⊎◌, inl, inr}
use mathlib.Core.Bool.{Bool, true, false, ◌&&◌}
use mathlib.Core.Option.{Option, none, some}
use mathlib.Core.List.{List, [], ◌∷◌}
use xp_welly_llm_atc.Base.Tests.{Bool-cases, if◌then◌else◌}

module _ {A : Type 0} where
  pub record IsWeakOrder (beats : A → A → Bool) : Type 0 where
    pub irrefl : (a : A) → beats a a ≡ false
    pub trans : (a b c : A) → beats a b ≡ true → beats b c ≡ true → beats a c ≡ true
    pub weak : (a b c : A) → beats a b ≡ false → beats b c ≡ false → beats a c ≡ false

  abbrev pub beats_best : (A → A → Bool) → A → Option A → Bool
  beats_best beats x none = true
  beats_best beats x (some b) = beats x b

  unfoldable pub select : (A → Bool) → (A → A → Bool) → Option A → List A → Option A
  select p beats best [] = best
  select p beats best (x ∷ xs) =
      select p beats (if p x && beats_best beats x best then some x else best) xs

  -- `r` is one of the elements, and passes the test.
  abbrev pub Offers : (A → Bool) → A → List A → Type 0
  Offers p r [] = ⊥
  Offers p r (x ∷ xs) = ((x ≡ r) × (p x ≡ true)) ⊎ Offers p r xs

  -- No element that passes the test beats `r`.
  abbrev pub Unbeaten : (A → Bool) → (A → A → Bool) → A → List A → Type 0
  Unbeaten p beats r [] = Unit
  Unbeaten p beats r (x ∷ xs) = (p x ≡ true → beats x r ≡ false) × Unbeaten p beats r xs

  -- No element passes the test.
  abbrev pub Fails : (A → Bool) → List A → Type 0
  Fails p [] = Unit
  Fails p (x ∷ xs) = (p x ≡ false) × Fails p xs

  -- `o` is an element that passes the test and that none of these beats, or there is none to pass.
  abbrev pub IsBest : (A → Bool) → (A → A → Bool) → List A → Option A → Type 0
  IsBest p beats xs none = Fails p xs
  IsBest p beats xs (some r) = Offers p r xs × Unbeaten p beats r xs

  module _ (p : A → Bool) (beats : A → A → Bool) (order : IsWeakOrder beats) where
    open order use {irrefl, trans, weak}

    select-some :
        (b : A) (xs : List A)
        → (r : A) × (select p beats (some b) xs ≡ some r)
          × ((r ≡ b) ⊎ Offers p r xs)
          × (beats b r ≡ false)
          × Unbeaten p beats r xs
    unfolding select
    select-some b [] = (b, refl, inl refl, irrefl b, tt)
    select-some b (x ∷ xs) = elim (Bool-cases (p x)) [
      | inl px ↦ elim (Bool-cases (beats x b)) [
        | inl wins ↦
            rw (px, wins)
              (let (r, e, from, kept, rest) = select-some x xs in
                (
                  r,
                  e,
                  elim from [ inl q ↦ inr (inl (sym q, refl)) | inr o ↦ inr (inr o) ],
                  elim (Bool-cases (beats b r)) [
                    | inl worse ↦ (cc (trans x b r wins worse))
                    | inr fine ↦ fine
                  ],
                  ((λ _. kept), rest),
                ))
        | inr loses ↦
            rw (px, loses)
              (let (r, e, from, kept, rest) = select-some b xs in
                (
                  r,
                  e,
                  elim from [ inl q ↦ inl q | inr o ↦ inr (inr o) ],
                  kept,
                  ((λ _. weak x b r loses kept), rest),
                ))
      ]
      | inr npx ↦ rw npx (
          let (r, e, from, kept, rest) = select-some b xs in
          (r, e, elim from [ inl q ↦ inl q | inr o ↦ inr (inr o) ], kept, ((λ px. cc), rest)))
    ]

    skip-IsBest :
        (x : A) (xs : List A) (o : Option A)
        → p x ≡ false
        → IsBest p beats xs o
        → IsBest p beats (x ∷ xs) o
    skip-IsBest x xs none npx h = (npx, h)
    skip-IsBest x xs (some r) npx h = (inr h.0, ((λ px. cc), h.1))

    -- The loop finds the best element.
    pub select-IsBest : (xs : List A) → IsBest p beats xs (select p beats none xs)
    unfolding select
    select-IsBest [] = tt
    select-IsBest (x ∷ xs) = elim (Bool-cases (p x)) [
      | inl px ↦ rw px (
          let (r, e, from, kept, rest) = select-some x xs in
          rw e (elim from [ inl q ↦ inl (sym q, px) | inr o ↦ inr o ], ((λ _. kept), rest)))
      | inr npx ↦ rw npx (skip-IsBest x xs (select p beats none xs) npx (select-IsBest xs))
    ]
