-- ===== src/Hooks/Verbatim.antt =====
-- The hooks over the verifier of src/atc/readback_verifier.cpp: a clearance read back word for word.
use Prim.Native.String.append
use xp_welly_llm_atc.Base.{
  String, false, [], ◌∷◌, none, ◌≡◌, ◌⊎◌, refl, arith, Bool-cases, inl, inr, string_eq,
}
use xp_welly_llm_atc.Machine.{AtcMachineState}
use xp_welly_llm_atc.Readback.{Verifier, all_read, join_from, rb_remove_matched}
use xp_welly_llm_atc.Readback.Verify.{Searches, verifier}
use xp_welly_llm_atc.Readback.Verbatim.{check-same}
use xp_welly_llm_atc.World.{World}
use xp_welly_llm_atc.Hooks.{outstanding, judge, take_readback, hear_readback}
use xp_welly_llm_atc.Hooks.Outstanding.{hear_readback-accepted}

module _ (x : Searches) where
  verifier-same : (c : String) → (verifier x).check c c ≡ []
  unfolding verifier
  verifier-same c = check-same x c

  -- A lone clearance leaves the queue or is what the queue still reads.
  take_readback-lone :
      (v : Verifier) (t c : String) (g : AtcMachineState)
      → g.pending_clearances ≡ c ∷ []
      → ((take_readback v t g).pending_clearances ≡ [])
        ⊎ (((take_readback v t g).pending_clearances ≡ c ∷ [])
            × ((take_readback v t g).last_clearance_text ≡ c))
  unfolding take_readback rb_remove_matched join_from string_eq
  take_readback-lone v t c g e =
      elim (Bool-cases (all_read v (take_readback v t g).readback_ok_fields c)) [
        | inl h ↦ inl (rw (e, h) refl)
        | inr h ↦ inr (rw (e, h) refl, rw (e, h) (append.nil c))
      ]

  outstanding-verbatim :
      (c : String) (g : AtcMachineState)
      → g.pending_clearances ≡ c ∷ []
      → outstanding (verifier x) c (take_readback (verifier x) c g) ≡ []
  outstanding-verbatim c g e = elim (take_readback-lone (verifier x) c c g e) [
    | inl none_left ↦ rw none_left refl
    | inr (left, text) ↦ rw (left, text, verifier-same c) refl
  ]

  -- A clearance that pends alone and is read back word for word is answered without a correction and
  -- leaves nothing pending, in the same state, whatever was read back before.
  pub hear_readback-verbatim :
      (c : String) (w : World)
      → w.g.pending_clearances ≡ c ∷ []
      → ((hear_readback (verifier x) c w).1 ≡ none)
        × ((hear_readback (verifier x) c w).0.g.pending_clearances ≡ [])
        × ((hear_readback (verifier x) c w).0.g.readback_pending ≡ false)
        × ((hear_readback (verifier x) c w).0.g.state ≡ w.g.state)
  unfolding hear_readback judge
  hear_readback-verbatim c w e =
      let none_owed : (hear_readback (verifier x) c w).1 ≡ none =
        ground (arith, outstanding-verbatim c w.g e) in
      let (queue, pending, state) = hear_readback-accepted (verifier x) c w none_owed in
      (none_owed, queue, pending, state)
