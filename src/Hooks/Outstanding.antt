-- ===== src/Hooks/Outstanding.antt =====
-- What the hooks answer to a read-back, and how often they repeat it.
use xp_welly_llm_atc.Base.{
  String, Bool, true, false, List, [], ◌∷◌, none, some, ◌≡◌, refl, ◌≢◌, arith, ◌||◌, ◌↔◌,
  Bool-cases, inl, inr, contains, In, is_empty, ltb, string_eq, remove_if,
}
use xp_welly_llm_atc.Machine.{AtcMachineState, next_gen}
use xp_welly_llm_atc.Readback.{Verifier, Mismatch, rb_remove_matched, rb_clear}
use xp_welly_llm_atc.Readback.{insert_fields}
use xp_welly_llm_atc.Readback.Retire.{contains-insert_fields, AllRead, rb_remove_matched-content}
use xp_welly_llm_atc.World.{World}
use xp_welly_llm_atc.Snapshot.{current_gen, capture_snapshot, restore_snapshot_if_gen}
use xp_welly_llm_atc.Hooks.{owes, outstanding, attempts, judge, take_readback, hear_readback}

-- A read-back that asks for no correction leaves nothing pending.
judge-none :
    (ms : List Mismatch) (w : World) → (judge ms w).1 ≡ none → (judge ms w).0.g ≡ rb_clear w.g
unfolding judge
judge-none [] w e = refl
judge-none (m ∷ ms) w e = elim (Bool-cases (ltb (attempts w) 2)) [
  | inl h ↦ absurd (ground (arith, e, h))
  | inr h ↦ ground (arith, h)
]

judge-some :
    (ms : List Mismatch) (w : World) (m : Mismatch)
    → (judge ms w).1 ≡ some m
    → ((judge ms w).0.g ≡ w.g)
      × ((judge ms w).0.rb_last_cl ≡ w.g.last_clearance_text)
      × ((judge ms w).0.rb_fails ≡ 1)
unfolding judge
judge-some [] w m e = absurd (ground (arith, e))
judge-some (k ∷ ms) w m e = ground arith

judge-some-head :
    (ms : List Mismatch) (w : World) (m : Mismatch)
    → (judge ms w).1 ≡ some m
    → (rest : List Mismatch) × (ms ≡ m ∷ rest)
unfolding judge
judge-some-head [] w m e = absurd (ground (arith, e))
judge-some-head (k ∷ ms) w m e = (ms, ground (arith, e))

-- A second failure over the same text is accepted.
judge_again :
    (ms : List Mismatch) (w : World)
    → w.rb_last_cl ≡ w.g.last_clearance_text
    → w.rb_fails ≡ 1
    → (judge ms w).1 ≡ none
unfolding judge
judge_again [] w l f = refl
judge_again (m ∷ ms) w l f = ground arith

remove_if-head :
    (p : Mismatch → Bool) (ms rest : List Mismatch) (m : Mismatch)
    → remove_if p ms ≡ m ∷ rest
    → p m ≡ false
remove_if-head p [] rest m e = absurd (ground (arith, e))
remove_if-head p (k ∷ ms) rest m e = elim (Bool-cases (p k)) [
  | inl h ↦ remove_if-head p ms rest m (ground (arith, e, h))
  | inr h ↦ ground (arith, e, h)
]

module _ (v : Verifier) where
  take_readback-state : (t : String) (g : AtcMachineState) → (take_readback v t g).state ≡ g.state
  unfolding take_readback rb_remove_matched
  take_readback-state t g = refl

  take_readback-fields :
      (t k : String) (g : AtcMachineState)
      → contains (take_readback v t g).readback_ok_fields k
        ≡ (contains g.readback_ok_fields k || contains (v.matched_fields g.last_clearance_text t) k)
  unfolding take_readback rb_remove_matched
  take_readback-fields t k g =
      contains-insert_fields g.readback_ok_fields (v.matched_fields g.last_clearance_text t) k

  take_readback-gen : (t : String) (g : AtcMachineState) → (take_readback v t g).gen ≡ g.gen
  unfolding take_readback rb_remove_matched
  take_readback-gen t g = refl

  take_readback-content :
      (t d : String) (g : AtcMachineState)
      → In d (take_readback v t g).pending_clearances
        ↔ (In d g.pending_clearances × (¬ AllRead v (take_readback v t g).readback_ok_fields d))
  unfolding take_readback rb_remove_matched
  take_readback-content t d g = rb_remove_matched-content v d (record g {
    readback_ok_fields =
        insert_fields g.readback_ok_fields (v.matched_fields g.last_clearance_text t);
  })

  outstanding-head :
      (t : String) (g : AtcMachineState) (m : Mismatch) (rest : List Mismatch)
      → outstanding v t g ≡ m ∷ rest
      → contains g.readback_ok_fields m.field ≡ false
  outstanding-head t g m rest e = elim (Bool-cases (is_empty g.pending_clearances)) [
    | inl h ↦ absurd (ground (arith, e, h))
    | inr h ↦
        remove_if-head (λ m. contains g.readback_ok_fields m.field)
          (v.check g.last_clearance_text t) rest m (ground (arith, e, h))
  ]

  -- A read-back that is accepted leaves no clearance pending, in the same state.
  pub hear_readback-accepted :
      (t : String) (w : World)
      → (hear_readback v t w).1 ≡ none
      → ((hear_readback v t w).0.g.pending_clearances ≡ [])
        × ((hear_readback v t w).0.g.readback_pending ≡ false)
        × ((hear_readback v t w).0.g.state ≡ w.g.state)
  unfolding hear_readback rb_clear
  hear_readback-accepted t w e =
      let w' = record w { g = take_readback v t w.g } in
      elim (Bool-cases (owes w.g)) [
        | inl h ↦
            ground (arith, judge-none (outstanding v t w'.g) w', take_readback-state t w.g, e, h)
        | inr h ↦ ground (arith, h)
      ]

  hear_readback-corrected :
      (t : String) (w : World) (m : Mismatch)
      → (hear_readback v t w).1 ≡ some m
      → ((hear_readback v t w).0.g ≡ take_readback v t w.g)
        × ((hear_readback v t w).0.rb_last_cl ≡ (take_readback v t w.g).last_clearance_text)
        × ((hear_readback v t w).0.rb_fails ≡ 1)
        × (contains (take_readback v t w.g).readback_ok_fields m.field ≡ false)
  unfolding hear_readback
  hear_readback-corrected t w m e =
      let w' = record w { g = take_readback v t w.g } in
      elim (Bool-cases (owes w.g)) [
        | inl h ↦
            let f : (judge (outstanding v t w'.g) w').1 ≡ some m = ground (arith, e, h) in
            let (rest, out) = judge-some-head (outstanding v t w'.g) w' m f in
            ground (
              arith,
              judge-some (outstanding v t w'.g) w' m f,
              h,
              outstanding-head t w'.g m rest out,
            )
        | inr h ↦ absurd (ground (arith, e, h))
      ]

  -- A correction of `m` keeps the state, names a field that neither this transmission nor one before
  -- has matched, whether it was left out or stated wrongly, and leaves exactly those clearances in the queue that are not yet read back in full.
  pub hear_readback-correction :
      (t : String) (w : World) (m : Mismatch)
      → (hear_readback v t w).1 ≡ some m
      → let h = (hear_readback v t w).0.g in
        (h.state ≡ w.g.state)
        × (contains w.g.readback_ok_fields m.field ≡ false)
        × (contains (v.matched_fields w.g.last_clearance_text t) m.field ≡ false)
        × ((d : String)
            → In d h.pending_clearances
              ↔ (In d w.g.pending_clearances × (¬ AllRead v h.readback_ok_fields d)))
  hear_readback-correction t w m e =
      let (same, text, fails, owed) = hear_readback-corrected t w m e in
      (
        ground (arith, same, take_readback-state t w.g),
        ground (arith, owed, take_readback-fields t m.field w.g),
        ground (arith, owed, take_readback-fields t m.field w.g),
        λ d. rw same (take_readback-content t d w.g),
      )

  hear_readback-again :
      (t : String) (w : World)
      → w.rb_last_cl ≡ (take_readback v t w.g).last_clearance_text
      → w.rb_fails ≡ 1
      → (hear_readback v t w).1 ≡ none
  unfolding hear_readback
  hear_readback-again t w last fails =
      let w' = record w { g = take_readback v t w.g } in
      ground (arith, judge_again (outstanding v t w'.g) w' last fails)

  -- Two corrections in a row are never about the same outstanding text.
  pub hear_readback-twice :
      (t u : String) (w : World) (m k : Mismatch)
      → (hear_readback v t w).1 ≡ some m
      → (hear_readback v u (hear_readback v t w).0).1 ≡ some k
      → (hear_readback v u (hear_readback v t w).0).0.g.last_clearance_text
        ≢ (hear_readback v t w).0.g.last_clearance_text
  hear_readback-twice t u w m k e f same =
      let w1 = (hear_readback v t w).0 in
      let (old, last, fails, owed) = hear_readback-corrected t w m e in
      let new = hear_readback-corrected u w1 k f in
      absurd
        (ground (arith, f, hear_readback-again u w1 (ground (arith, same, old, last, new.0)) fails))

  -- A read-back that is answered with a correction does not move the generation, whatever it took out
  -- of the queue: a snapshot from before it is still restored, with the queue as it was.
  pub restore-hear_readback :
      (t : String) (w : World) (m : Mismatch)
      → (hear_readback v t w).1 ≡ some m
      → restore_snapshot_if_gen (capture_snapshot w) (current_gen w) (hear_readback v t w).0
        ≡ (record (hear_readback v t w).0 { g = record w.g { gen = next_gen w.g.gen } }, true)
  unfolding restore_snapshot_if_gen capture_snapshot current_gen
  restore-hear_readback t w m e =
      ground (arith, hear_readback-corrected t w m e, take_readback-gen t w.g)
