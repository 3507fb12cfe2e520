-- ===== src/Sector/Choice.antt =====
-- The pick is the best of the controllers offered.
use mathlib.Core.Option.{some-injective}
use xp_welly_llm_atc.Base.{
  ℕ, ◌<ℤ◌, Bool, true, false, ◌&&◌, ◌||◌, List, [], ◌∷◌, Option, none, some, bool_eq, ◌≡◌, refl,
  ◌⊎◌, inl, inr, arith, subst, sym, ◌∙◌,
}
use xp_welly_llm_atc.Sector.{
  Controller, is_tracon, is_ctr, fresh, beats, offer, pick_from, pick_next, controller_role_eq,
}

-- The controller stands in the list.
abbrev pub Offered : Controller → List (Option Controller) → Type 0
Offered c [] = ⊥
Offered c (x ∷ xs) = (x ≡ some c) ⊎ Offered c xs

-- The controller may be picked: a new frequency and the role of a TRACON or a centre.
abbrev pub eligible : List ℕ → Controller → Bool
eligible visited c = fresh visited c.freqs_khz && (is_tracon c || is_ctr c)

-- A TRACON comes before a centre; of one kind the higher floor comes first.
abbrev pub Outranks : Controller → Controller → Type 0
Outranks d c =
    ((is_tracon d ≡ true) × (is_tracon c ≡ false))
    ⊎ ((is_tracon d ≡ is_tracon c) × (c.floor_ft <ℤ d.floor_ft))

beats-offer :
    (d : Controller) (c b : Option Controller) (visited : List ℕ)
    → beats d b ≡ false
    → beats d (offer visited c b) ≡ false
unfolding beats offer
beats-offer d none b visited h = h
beats-offer d (some c) none visited h = ground arith
beats-offer d (some c) (some b) visited h = ground arith

offer-beats :
    (d : Controller) (b : Option Controller) (visited : List ℕ)
    → eligible visited d ≡ true
    → beats d (offer visited (some d) b) ≡ false
unfolding beats offer
offer-beats d none visited h = ground arith
offer-beats d (some b) visited h = ground arith

pick_from-beats :
    (d : Controller) (best : Option Controller) (cs : List (Option Controller)) (visited : List ℕ)
    → eligible visited d ≡ true
    → (beats d best ≡ false) ⊎ Offered d cs
    → beats d (pick_from visited best cs) ≡ false
unfolding pick_from
pick_from-beats d best [] visited e (inl h) = h
pick_from-beats d best [] visited e (inr m) = elim m [ ]
pick_from-beats d best (c ∷ cs) visited e (inl h) =
    pick_from-beats d (offer visited c best) cs visited e (inl (beats-offer d c best visited h))
pick_from-beats d best (c ∷ cs) visited e (inr (inl h)) =
    pick_from-beats d (offer visited c best) cs visited e
      (inl (rw h (offer-beats d best visited e)))
pick_from-beats d best (c ∷ cs) visited e (inr (inr h)) =
    pick_from-beats d (offer visited c best) cs visited e (inr h)

offer-source :
    (visited : List ℕ) (x best : Option Controller) (c : Controller)
    → offer visited x best ≡ some c
    → (best ≡ some c) ⊎ ((x ≡ some c) × (eligible visited c ≡ true))
unfolding offer beats
offer-source visited none best c h = inl h
offer-source visited (some x) none c h = ground arith
offer-source visited (some x) (some b) c h = ground arith

pick_from-source :
    (visited : List ℕ) (best : Option Controller) (cs : List (Option Controller)) (c : Controller)
    → pick_from visited best cs ≡ some c
    → (best ≡ some c) ⊎ (Offered c cs × (eligible visited c ≡ true))
unfolding pick_from
pick_from-source visited best [] c h = inl h
pick_from-source visited best (x ∷ cs) c h =
    elim (pick_from-source visited (offer visited x best) cs c h) [
      | inr (m, e) ↦ inr (inr m, e)
      | inl o ↦ elim (offer-source visited x best c o) [
        | inl b ↦ inl b
        | inr (m, e) ↦ inr (inl m, e)
      ]
    ]

-- The controller picked is one of those offered and eligible.
pub pick_next-eligible :
    (enclosing : List (Option Controller)) (visited : List ℕ) (c : Controller)
    → pick_next enclosing visited ≡ some c
    → Offered c enclosing × (eligible visited c ≡ true)
unfolding pick_next
pick_next-eligible enclosing visited c h = elim (pick_from-source visited none enclosing c h) [
  | inl n ↦ absurd (ground arith)
  | inr s ↦ s
]

unbeaten :
    (d : Controller) (r : Option Controller) (visited : List ℕ)
    → eligible visited d ≡ true
    → beats d r ≡ false
    → (c : Controller) × (r ≡ some c) × (¬ Outranks d c)
unfolding beats
unbeaten d none visited e h = absurd (ground arith)
unbeaten d (some c) visited e h = (
  c,
  refl,
  λ o. elim o [
    | inl k ↦ absurd (ground (arith, e, h, k))
    | inr k ↦ absurd (ground (arith, e, h, k))
  ],
)

pick_next-unbeaten :
    (enclosing : List (Option Controller)) (visited : List ℕ) (d : Controller)
    → Offered d enclosing
    → eligible visited d ≡ true
    → (c : Controller) × (pick_next enclosing visited ≡ some c) × (¬ Outranks d c)
unfolding pick_next
pick_next-unbeaten enclosing visited d m e =
    unbeaten d (pick_next enclosing visited) visited e
      (pick_from-beats d none enclosing visited e (inr m))

-- Where an eligible controller is offered, one is picked, which is itself one of those offered, of an
-- eligible role and with a first frequency not visited, and which no eligible controller offered outranks.
pub pick_next-best :
    (enclosing : List (Option Controller)) (visited : List ℕ) (d : Controller)
    → Offered d enclosing
    → eligible visited d ≡ true
    → (c : Controller) × (pick_next enclosing visited ≡ some c)
      × Offered c enclosing
      × (eligible visited c ≡ true)
      × ((k : Controller) → Offered k enclosing → eligible visited k ≡ true → ¬ Outranks k c)
pick_next-best enclosing visited d m e =
    let (c, picked, _) = pick_next-unbeaten enclosing visited d m e in
    let (offered, fit) = pick_next-eligible enclosing visited c picked in
    (
      c,
      picked,
      offered,
      fit,
      λ k n f.
          let (b, same, not_outranked) = pick_next-unbeaten enclosing visited k n f in
          subst (λ x. ¬ Outranks k x) (some-injective b c (sym same ∙ picked)) not_outranked,
    )
