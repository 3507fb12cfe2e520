-- ===== src/Readback/Retire.antt =====
-- Retiring the clearances that have been read back, over one transmission or several.
use xp_welly_llm_atc.Base.{
  String, true, false, ◌||◌, List, [], ◌∷◌, is_empty, contains, In, contains-remove_if, all_iff,
  ◌≡◌, refl, ◌≢◌, ◌↔◌, inl, inr, arith, Bool-cases, ◌==◌, string_eq,
}
use xp_welly_llm_atc.Machine.{AtcMachineState}
use xp_welly_llm_atc.Readback.{Verifier, insert_field, insert_fields, all_read, rb_remove_matched}

contains-insert_field :
    (s : List String) (f k : String) → contains (insert_field s f) k ≡ (contains s k || f == k)
unfolding insert_field
contains-insert_field s f k = ground arith

pub contains-insert_fields :
    (s fs : List String) (k : String)
    → contains (insert_fields s fs) k ≡ (contains s k || contains fs k)
unfolding insert_fields
contains-insert_fields s [] k = ground arith
contains-insert_fields s (f ∷ fs) k =
    ground (arith, contains-insert_fields (insert_field s f) fs k, contains-insert_field s f k)

is_empty_iff : (xs : List String) → (is_empty xs ≡ false) ↔ (xs ≢ [])
is_empty_iff [] = (λ h. cc, λ h. absurd (h refl))
is_empty_iff (x ∷ xs) = (λ h e. cc, λ h. refl)

module _ (v : Verifier) where
  -- Every field of the clearance is among those done, and it has one.
  abbrev pub AllRead : List String → String → Type 0
  AllRead done c =
      (v.fields_present c ≢ []) × ((f : String) → In f (v.fields_present c) → In f done)

  pub all_read_iff : (done : List String) (c : String) → (all_read v done c ≡ true) ↔ AllRead done c
  unfolding all_read
  all_read_iff done c =
      let fs = v.fields_present c in
      (
        λ h. ((is_empty_iff fs).0 (ground arith), (all_iff (contains done) fs).0 (ground arith)),
        λ h. ground (arith, (is_empty_iff fs).1 h.0, (all_iff (contains done) fs).1 h.1),
      )

  -- Exactly the clearances that are not read back in full stay in the queue.
  pub rb_remove_matched-content :
      (d : String) (g : AtcMachineState)
      → In d (rb_remove_matched v g).pending_clearances
        ↔ (In d g.pending_clearances × (¬ AllRead g.readback_ok_fields d))
  unfolding rb_remove_matched
  rb_remove_matched-content d g =
      let done = g.readback_ok_fields in
      let cut = contains-remove_if (all_read v done) d g.pending_clearances in
      (
        λ m. (ground (arith, cut), λ r. ground (arith, cut, (all_read_iff done d).1 r)),
        λ (m, owed). elim (Bool-cases (all_read v done d)) [
          | inl r ↦ absurd (owed ((all_read_iff done d).0 r))
          | inr r ↦ ground (arith, cut)
        ],
      )
