-- ===== src/Base/Members.antt =====
-- Membership in a list of texts, as a Boolean test.
use mathlib.Core.Path.{◌≡◌, refl}
use mathlib.Core.Logic.{◌↔◌, inl, inr}
use mathlib.Core.Bool.{Bool, true, not, ◌&&◌, ◌||◌}
use mathlib.Core.List.{List, [], ◌∷◌, ◌++◌}
use native.Mathlib.Omega.{arith}
use xp_welly_llm_atc.Base.Tests.{Bool-cases}
use xp_welly_llm_atc.Base.Equality.{Eq, contains, ==_refl}
use xp_welly_llm_atc.Base.Lists.{any, all, remove_if}

module _ {ℓ} {A : Type ℓ} ⦃e : Eq A⦄ where
  -- `a` is one of the elements.
  abbrev pub In : A → List A → Type 0
  In a xs = contains xs a ≡ true

  pub contains-append :
      (a : A) (xs ys : List A) → contains (xs ++ ys) a ≡ (contains xs a || contains ys a)
  contains-append a [] ys = refl
  contains-append a (x ∷ xs) ys = ground (arith, contains-append a xs ys)

  pub contains-remove_if :
      (p : A → Bool) (a : A) (xs : List A)
      → contains (remove_if p xs) a ≡ (contains xs a && not (p a))
  contains-remove_if p a [] = refl
  contains-remove_if p a (x ∷ xs) = ground (arith, contains-remove_if p a xs)

  pub any-true : (p : A → Bool) (xs : List A) → any p xs ≡ true → (a : A) × In a xs × (p a ≡ true)
  any-true p [] h = cc
  any-true p (x ∷ xs) h = elim (Bool-cases (p x)) [
    | inl px ↦ (x, ground (arith, ==_refl x), px)
    | inr npx ↦ let (a, m, pa) = any-true p xs (ground arith) in (a, ground arith, pa)
  ]

  pub any_of_In : (p : A → Bool) (a : A) (xs : List A) → In a xs → p a ≡ true → any p xs ≡ true
  any_of_In p a [] m h = cc
  any_of_In p a (x ∷ xs) m h = ground (arith, any_of_In p a xs)

  pub all_iff : (p : A → Bool) (xs : List A) → (all p xs ≡ true) ↔ ((a : A) → In a xs → p a ≡ true)
  all_iff p [] = (λ h a m. cc, λ h. refl)
  all_iff p (x ∷ xs) = (
    λ h a m. ground (arith, (all_iff p xs).0 (ground arith) a),
    λ h.
        ground
          (arith, h x (ground (arith, ==_refl x)), (all_iff p xs).1 (λ a m. h a (ground arith))),
  )
