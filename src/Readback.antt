-- ===== src/Readback.antt =====
-- The queue of clearances that await a read-back (src/atc/atc_state_machine.cpp, `rb_*`), over the
-- interface of the verifier, src/atc/readback_verifier.hpp.
pub mod Merge
pub mod Retire
pub mod Verify
pub mod Verbatim
use xp_welly_llm_atc.Base.{
  String, Bool, false, not, ◌&&◌, List, [], ◌∷◌, ◌++◌, map, pos, any, all, remove_if, is_empty,
  contains, ◌==◌, string_eq, empty, ◌+s◌, if◌then◌else◌,
}
use xp_welly_llm_atc.Machine.{AtcMachineState, bump_gen}

pub record Mismatch : Type 0 where
  pub field : String
  pub expected : String
  pub stated : String
  pub correction : String

-- What the state machine calls of the verifier.
pub record Verifier : Type 0 where
  pub check : String → String → List Mismatch
  pub matched_fields : String → String → List String
  pub fields_present : String → List String

-- `fl` and `alt` share one slot.
unfoldable pub rb_overlap_class : String → String
rb_overlap_class field = if field == "fl" then "alt" else field

-- The loop of `rb_rebuild_cache`: two blanks between the texts.
unfoldable pub join_from : String → List String → String
join_from joined [] = joined
join_from joined (c ∷ cs) = join_from ((if empty joined then joined else joined +s "  ") +s c) cs

abbrev pub rb_rebuild_cache : AtcMachineState → AtcMachineState
rb_rebuild_cache g = record g {
  last_clearance_text = join_from "" g.pending_clearances;
  readback_pending = not (is_empty g.pending_clearances);
}

unfoldable pub rb_clear : AtcMachineState → AtcMachineState
unfolding bump_gen
rb_clear g = record (bump_gen g) {
  readback_pending = false;
  pending_clearances = [];
  last_clearance_text = "";
  readback_ok_fields = [];
  readback_pending_since_secs = pos 0;
  readback_last_reminder_secs = pos 0;
  readback_reminder_count = 0;
}

unfoldable pub cancel_readback : AtcMachineState → AtcMachineState
unfolding rb_clear
cancel_readback g = if not g.readback_pending then g else rb_clear g

-- `readback_ok_fields_.insert(f)`.
unfoldable pub insert_field : List String → String → List String
insert_field s f = if contains s f then s else f ∷ s

unfoldable pub insert_fields : List String → List String → List String
insert_fields s [] = s
insert_fields s (f ∷ fs) = insert_fields (insert_field s f) fs

module _ (v : Verifier) where
  open v use {fields_present}

  -- The slots of a clearance.
  abbrev pub classes : String → List String
  classes c = map rb_overlap_class (fields_present c)

  unfoldable pub shares_slot : List String → String → Bool
  shares_slot kc c = any (λ f. contains kc (rb_overlap_class f)) (fields_present c)

  -- The pending list after the eviction for a new text.
  unfoldable pub evict : String → List String → List String
  evict text pc =
      if is_empty (fields_present text) then [] else remove_if (shares_slot (classes text)) pc

  unfoldable pub rb_merge : String → AtcMachineState → AtcMachineState
  unfolding bump_gen
  rb_merge text g = rb_rebuild_cache (record (bump_gen g) {
    pending_clearances = evict text g.pending_clearances ++ text ∷ [];
    readback_ok_fields = [];
    readback_pending_since_secs = g.last_now_secs;
    readback_last_reminder_secs = g.last_now_secs;
    readback_reminder_count = 0;
  })

  unfoldable pub arm_readback : String → AtcMachineState → AtcMachineState
  unfolding rb_merge
  arm_readback text g = rb_merge text g

  -- All the fields of a clearance have been read back. One with no field never is.
  unfoldable pub all_read : List String → String → Bool
  all_read done c = let fs = fields_present c in not (is_empty fs) && all (λ f. contains done f) fs

  unfoldable pub rb_remove_matched : AtcMachineState → AtcMachineState
  rb_remove_matched g = rb_rebuild_cache (record g {
    pending_clearances = remove_if (all_read g.readback_ok_fields) g.pending_clearances;
  })
