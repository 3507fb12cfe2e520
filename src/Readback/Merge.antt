-- ===== src/Readback/Merge.antt =====
-- Merging a clearance into the queue: no slot stands in it twice, and what is kept.
use xp_welly_llm_atc.Base.{
  String, Bool, true, false, List, [], ◌∷◌, ◌++◌, map, remove_if, is_empty, contains, In,
  contains-append, contains-remove_if, any-true, any_of_In, ◌≡◌, ◌≢◌, ◌↔◌, ◌⊎◌, inl, inr, arith,
  All, Bool-cases, ◌==◌, ==_refl, string_eq,
}
use xp_welly_llm_atc.Machine.{AtcMachineState}
use xp_welly_llm_atc.Readback.{Verifier, rb_overlap_class, classes, shares_slot, evict, rb_merge}

In-map : (f : String → String) (a : String) (xs : List String) → In a xs → In (f a) (map f xs)
In-map f a [] m = cc
In-map f a (x ∷ xs) m = ground (arith, ==_refl (f x), In-map f a xs)

In-map-inverse :
    (f : String → String) (b : String) (xs : List String)
    → In b (map f xs)
    → (a : String) × In a xs × (f a ≡ b)
In-map-inverse f b [] m = cc
In-map-inverse f b (x ∷ xs) m = elim (Bool-cases (f x == b)) [
  | inl e ↦ (x, ground (arith, ==_refl x), ground arith)
  | inr ne ↦ let (a, ma, e) = In-map-inverse f b xs (ground arith) in (a, ground arith, e)
]

All-remove_if :
    (p : String → Bool) (P : String → Type 0) (xs : List String) → All P xs → All P (remove_if p xs)
All-remove_if p P [] h = tt
All-remove_if p P (x ∷ xs) h = ground (arith, All-remove_if p P xs h.1)

All-append : (P : String → Type 0) (xs ys : List String) → All P xs → All P ys → All P (xs ++ ys)
All-append P [] ys hx hy = hy
All-append P (x ∷ xs) ys hx hy = (hx.0, All-append P xs ys hx.1 hy)

is_empty-false : (xs : List String) → is_empty xs ≡ false → xs ≢ []
is_empty-false [] h = cc
is_empty-false (x ∷ xs) h = λ e. cc

module _ (v : Verifier) where
  -- Two clearances have no slot in common.
  abbrev pub Disjoint : String → String → Type 0
  Disjoint c d = (k : String) → In k (classes v c) → In k (classes v d) → ⊥

  -- No two clearances of the queue have a slot in common.
  abbrev pub Exclusive : List String → Type 0
  Exclusive [] = Unit
  Exclusive (c ∷ cs) = All (Disjoint c) cs × Exclusive cs

  shares_slot-true : (c d : String) → shares_slot v (classes v c) d ≡ true → ¬ Disjoint c d
  unfolding shares_slot
  shares_slot-true c d h apart =
      let (f, mf, hit) = any-true _ (v.fields_present d) h in
      apart (rb_overlap_class f) hit (In-map rb_overlap_class f (v.fields_present d) mf)

  shares_slot-false : (c d : String) → shares_slot v (classes v c) d ≡ false → Disjoint c d
  unfolding shares_slot
  shares_slot-false c d h k mc md =
      let (f, mf, e) = In-map-inverse rb_overlap_class k (v.fields_present d) md in
      let hit : contains (classes v c) (rb_overlap_class f) ≡ true = rw e mc in
      cc
        (any_of_In (λ f. contains (classes v c) (rb_overlap_class f)) f (v.fields_present d) mf hit)

  kept-Disjoint :
      (text : String) (pc : List String)
      → All (λ c. Disjoint c text) (remove_if (shares_slot v (classes v text)) pc)
  kept-Disjoint text [] = tt
  kept-Disjoint text (c ∷ pc) = elim (Bool-cases (shares_slot v (classes v text) c)) [
    | inl hit ↦ rw hit (kept-Disjoint text pc)
    | inr miss ↦ rw miss (λ k mc mt. shares_slot-false text c miss k mt mc, kept-Disjoint text pc)
  ]

  pub Exclusive-remove_if :
      (p : String → Bool) (pc : List String) → Exclusive pc → Exclusive (remove_if p pc)
  Exclusive-remove_if p [] h = tt
  Exclusive-remove_if p (c ∷ pc) h =
      ground (arith, Exclusive-remove_if p pc h.1, All-remove_if p (Disjoint c) pc h.0)

  Exclusive-snoc :
      (text : String) (pc : List String)
      → Exclusive pc
      → All (λ c. Disjoint c text) pc
      → Exclusive (pc ++ text ∷ [])
  Exclusive-snoc text [] h a = (tt, tt)
  Exclusive-snoc text (c ∷ pc) h a =
      (All-append (Disjoint c) pc (text ∷ []) h.0 (a.0, tt), Exclusive-snoc text pc h.1 a.1)

  -- The queue never holds two clearances for one slot: latest wins per slot.
  pub rb_merge-Exclusive :
      (text : String) (g : AtcMachineState)
      → Exclusive g.pending_clearances
      → Exclusive (rb_merge v text g).pending_clearances
  unfolding rb_merge evict
  rb_merge-Exclusive text g h = elim (Bool-cases (is_empty (v.fields_present text))) [
    | inl none_left ↦ rw none_left (tt, tt)
    | inr some_left ↦
        let pc = g.pending_clearances in
        rw some_left (
          Exclusive-snoc text (remove_if (shares_slot v (classes v text)) pc)
            (Exclusive-remove_if (shares_slot v (classes v text)) pc h) (kept-Disjoint text pc))
  ]

  -- After a merge the queue holds the new clearance and, where that has a verifiable field, exactly
  -- the earlier ones with no slot of it; where it has none, nothing else.
  pub rb_merge-content :
      (text d : String) (g : AtcMachineState)
      → In d (rb_merge v text g).pending_clearances ↔ (
          (d ≡ text) ⊎ ((v.fields_present text ≢ []) × In d g.pending_clearances × Disjoint text d))
  unfolding rb_merge evict
  rb_merge-content text d g =
      let pc = g.pending_clearances in
      let p = shares_slot v (classes v text) in
      let split = contains-append d (evict v text pc) (text ∷ []) in
      (
        λ m. elim (Bool-cases (text == d)) [
          | inl e ↦ inl (ground arith)
          | inr ne ↦ elim (Bool-cases (is_empty (v.fields_present text))) [
            | inl none_left ↦ absurd (ground (arith, split))
            | inr some_left ↦ inr (
              is_empty-false (v.fields_present text) some_left,
              ground (arith, split, contains-remove_if p d pc),
              shares_slot-false text d (ground (arith, split, contains-remove_if p d pc)),
            )
          ]
        ],
        λ h. elim h [
          | inl e ↦ ground (arith, split, ==_refl d)
          | inr (ne, m, apart) ↦ elim (Bool-cases (p d)) [
            | inl hit ↦ absurd (shares_slot-true text d hit apart)
            | inr miss ↦ elim (Bool-cases (is_empty (v.fields_present text))) [
              | inl none_left ↦ absurd (ground (arith, split))
              | inr some_left ↦ ground (arith, split, contains-remove_if p d pc)
            ]
          ]
        ],
      )
