-- ===== src/Sector/Approach.antt =====
-- The pick on approach is the most terminal of the controllers offered.
use mathlib.Core.Option.{some-injective}
use xp_welly_llm_atc.Base.{
  String, ℕ, ℤ, ltb_ℤ, ◌<ℤ◌, Bool, true, false, not, List, [], ◌∷◌, Option, none, some, ◌==◌,
  bool_eq, int_eq, ◌≡◌, ◌≢◌, refl, ◌⊎◌, inl, inr, arith, subst, sym, ◌∙◌, if◌then◌else◌,
}
use xp_welly_llm_atc.Context.{Geometry}
use xp_welly_llm_atc.Sector.{
  Controller, is_tracon, ceil_of, better_approach, offer_approach, pick_approach_from,
  facility_dist_to, pick_next_approach, controller_role_eq,
}
use xp_welly_llm_atc.Sector.Choice.{Offered, eligible}

-- One key after the other: where a key of two controllers agrees, the rest decides.
higher_first :
    (f1 f2 f3 : ℤ) (r12 r23 r13 : Bool)
    → (r23 ≡ true → r13 ≡ false → r12 ≡ false)
    → (if not (f2 == f3) then ltb_ℤ f3 f2 else r23) ≡ true
    → (if not (f1 == f3) then ltb_ℤ f3 f1 else r13) ≡ false
    → (if not (f1 == f2) then ltb_ℤ f2 f1 else r12) ≡ false
higher_first f1 f2 f3 r12 r23 r13 rest h k = ground arith

lower_first :
    (f1 f2 f3 : ℤ) (r12 r23 r13 : Bool)
    → (r23 ≡ true → r13 ≡ false → r12 ≡ false)
    → (if not (f2 == f3) then ltb_ℤ f2 f3 else r23) ≡ true
    → (if not (f1 == f3) then ltb_ℤ f1 f3 else r13) ≡ false
    → (if not (f1 == f2) then ltb_ℤ f1 f2 else r12) ≡ false
lower_first f1 f2 f3 r12 r23 r13 rest h k = ground arith

true_first :
    (t1 t2 t3 r12 r23 r13 : Bool)
    → (r23 ≡ true → r13 ≡ false → r12 ≡ false)
    → (if not (t2 == t3) then t2 else r23) ≡ true
    → (if not (t1 == t3) then t1 else r13) ≡ false
    → (if not (t1 == t2) then t1 else r12) ≡ false
true_first t1 t2 t3 r12 r23 r13 rest h k = ground arith

module _ (dist : Controller → ℤ) where
  -- A TRACON first, then the higher floor, then the lower ceiling, then the nearer facility.
  abbrev pub ServesBetter : Controller → Controller → Type 0
  ServesBetter d c =
      ((is_tracon d ≡ true) × (is_tracon c ≡ false))
      ⊎ ((is_tracon d ≡ is_tracon c)
          × ((c.floor_ft <ℤ d.floor_ft)
              ⊎ ((c.floor_ft ≡ d.floor_ft)
                  × ((ceil_of d <ℤ ceil_of c) ⊎ ((ceil_of d ≡ ceil_of c) × (dist d <ℤ dist c))))))

  better_trans :
      (d c b : Controller)
      → better_approach dist c (some b) ≡ true
      → better_approach dist d (some b) ≡ false
      → better_approach dist d (some c) ≡ false
  unfolding better_approach
  better_trans d c b = true_first (is_tracon d) (is_tracon c) (is_tracon b) _ _ _ (
      higher_first d.floor_ft c.floor_ft b.floor_ft _ _ _
        (lower_first (ceil_of d) (ceil_of c) (ceil_of b) _ _ _ (λ h k. ground arith)))

  never-none : (d : Controller) → better_approach dist d none ≢ false
  unfolding better_approach
  never-none d h = ground arith

  better-offer :
      (d : Controller) (c b : Option Controller) (visited : List ℕ)
      → better_approach dist d b ≡ false
      → better_approach dist d (offer_approach dist visited c b) ≡ false
  unfolding offer_approach
  better-offer d none b visited h = h
  better-offer d (some c) none visited h = absurd (never-none d h)
  better-offer d (some c) (some b) visited h = ground (arith, better_trans d c b)

  offer-better :
      (d : Controller) (b : Option Controller) (visited : List ℕ)
      → eligible visited d ≡ true
      → better_approach dist d (offer_approach dist visited (some d) b) ≡ false
  unfolding better_approach offer_approach
  offer-better d none visited h = ground arith
  offer-better d (some b) visited h = ground arith

  pick_approach_from-better :
      (d : Controller) (best : Option Controller) (cs : List (Option Controller)) (visited : List ℕ)
      → eligible visited d ≡ true
      → (better_approach dist d best ≡ false) ⊎ Offered d cs
      → better_approach dist d (pick_approach_from dist visited best cs) ≡ false
  unfolding pick_approach_from
  pick_approach_from-better d best [] visited e (inl h) = h
  pick_approach_from-better d best [] visited e (inr m) = elim m [ ]
  pick_approach_from-better d best (c ∷ cs) visited e (inl h) =
      pick_approach_from-better d (offer_approach dist visited c best) cs visited e
        (inl (better-offer d c best visited h))
  pick_approach_from-better d best (c ∷ cs) visited e (inr (inl h)) =
      pick_approach_from-better d (offer_approach dist visited c best) cs visited e
        (inl (rw h (offer-better d best visited e)))
  pick_approach_from-better d best (c ∷ cs) visited e (inr (inr h)) =
      pick_approach_from-better d (offer_approach dist visited c best) cs visited e (inr h)

  unbeaten :
      (d : Controller) (r : Option Controller)
      → better_approach dist d r ≡ false
      → (c : Controller) × (r ≡ some c) × (¬ ServesBetter d c)
  unfolding better_approach
  unbeaten d none h = absurd (ground arith)
  unbeaten d (some c) h = (
    c,
    refl,
    λ o. elim o [
      | inl k ↦ ground arith
      | inr (t, inl k) ↦ ground arith
      | inr (t, inr (f, inl k)) ↦ ground arith
      | inr (t, inr (f, inr k)) ↦ ground arith
    ],
  )

module _ (dist : Controller → ℤ) (visited : List ℕ) where
  offer-source :
      (x best : Option Controller) (c : Controller)
      → offer_approach dist visited x best ≡ some c
      → (best ≡ some c) ⊎ ((x ≡ some c) × (eligible visited c ≡ true))
  unfolding offer_approach better_approach
  offer-source none best c h = inl h
  offer-source (some x) none c h = ground arith
  offer-source (some x) (some b) c h = ground arith

  pick_approach_from-source :
      (best : Option Controller) (cs : List (Option Controller)) (c : Controller)
      → pick_approach_from dist visited best cs ≡ some c
      → (best ≡ some c) ⊎ (Offered c cs × (eligible visited c ≡ true))
  unfolding pick_approach_from
  pick_approach_from-source best [] c h = inl h
  pick_approach_from-source best (x ∷ cs) c h =
      elim (pick_approach_from-source (offer_approach dist visited x best) cs c h) [
        | inr (m, e) ↦ inr (inr m, e)
        | inl o ↦ elim (offer-source x best c o) [ inl b ↦ inl b | inr (m, e) ↦ inr (inl m, e) ]
      ]

  pick_approach_from-eligible :
      (cs : List (Option Controller)) (c : Controller)
      → pick_approach_from dist visited none cs ≡ some c
      → Offered c cs × (eligible visited c ≡ true)
  pick_approach_from-eligible cs c h = elim (pick_approach_from-source none cs c h) [
    | inl n ↦ absurd (ground arith)
    | inr s ↦ s
  ]

  pick_approach_from-unbeaten :
      (cs : List (Option Controller)) (d : Controller)
      → Offered d cs
      → eligible visited d ≡ true
      → (c : Controller) × (pick_approach_from dist visited none cs ≡ some c)
        × (¬ ServesBetter dist d c)
  pick_approach_from-unbeaten cs d m e =
      unbeaten dist d (pick_approach_from dist visited none cs)
        (pick_approach_from-better dist d none cs visited e (inr m))

module _ (geo : Geometry) (airport_pos_for : String → ℤ × ℤ) (dest_lat dest_lon : ℤ) where
  -- Where an eligible controller is offered, one is picked for the approach, which is itself one of those
  -- offered, of an eligible role and with a first frequency not visited, and which no eligible controller
  -- offered serves better than: TRACON, then floor, then ceiling, then the distance of the facility's
  -- airport.
  pub pick_next_approach-best :
      (enclosing : List (Option Controller)) (visited : List ℕ) (d : Controller)
      → Offered d enclosing
      → eligible visited d ≡ true
      → (c : Controller) × (pick_next_approach geo airport_pos_for enclosing visited dest_lat
            dest_lon
          ≡ some c)
        × Offered c enclosing
        × (eligible visited c ≡ true)
        × ((k : Controller)
            → Offered k enclosing
            → eligible visited k ≡ true
            → ¬ ServesBetter (facility_dist_to geo airport_pos_for dest_lat dest_lon) k c)
  unfolding pick_next_approach
  pick_next_approach-best enclosing visited d m e =
      let dist = facility_dist_to geo airport_pos_for dest_lat dest_lon in
      let (c, picked, _) = pick_approach_from-unbeaten dist visited enclosing d m e in
      let (offered, fit) = pick_approach_from-eligible dist visited enclosing c picked in
      (
        c,
        picked,
        offered,
        fit,
        λ k n f.
            let (b, same, unserved) = pick_approach_from-unbeaten dist visited enclosing k n f in
            subst (λ x. ¬ ServesBetter dist k x) (some-injective b c (sym same ∙ picked)) unserved,
      )
