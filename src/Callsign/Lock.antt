-- ===== src/Callsign/Lock.antt =====
-- The callsign that the lock admits.
use xp_welly_llm_atc.Base.{
  String, true, false, Option, none, some, ◌≡◌, refl, ◌⊎◌, inl, inr, arith, Bool-cases, empty,
  string_eq,
}
use xp_welly_llm_atc.Callsign.{
  Word, word_eq, norm, last_two, words_conflict, conflict, locked_callsign,
}

words_conflict-sym : (a b : Option (Word × Word)) → words_conflict a b ≡ words_conflict b a
unfolding words_conflict
words_conflict-sym none none = refl
words_conflict-sym none (some b) = refl
words_conflict-sym (some a) none = refl
words_conflict-sym (some (ps, p)) (some (rs, r)) = ground arith

-- Whether two callsigns conflict does not depend on their order.
pub conflict-sym : (a b : String) → conflict a b ≡ conflict b a
unfolding conflict
conflict-sym a b = words_conflict-sym (last_two (norm a)) (last_two (norm b))

words_conflict_refl : (a : Option (Word × Word)) → words_conflict a a ≡ false
unfolding words_conflict
words_conflict_refl none = refl
words_conflict_refl (some (ps, p)) = ground arith

words_conflict-none : (a : Option (Word × Word)) → words_conflict a none ≡ false
unfolding words_conflict
words_conflict-none none = refl
words_conflict-none (some a) = refl

norm_empty : last_two (norm "") ≡ none
unfolding norm last_two
norm_empty = refl

conflict-empty : (a : String) → conflict a "" ≡ false
unfolding conflict
conflict-empty a = rw norm_empty (words_conflict-none (last_two (norm a)))

conflict-no_reference : (a b : String) → empty b ≡ true → conflict a b ≡ false
conflict-no_reference a b e = let e' : b ≡ "" = ground arith in rw e' (conflict-empty a)

conflict_refl : (a : String) → conflict a a ≡ false
unfolding conflict
conflict_refl a = words_conflict_refl (last_two (norm a))

-- What the lock admits is the callsign heard or the configured one, and it never conflicts with the
-- configured one.
pub locked_callsign_lem :
    (reference parsed : String)
    → ((locked_callsign reference parsed ≡ parsed) ⊎ (locked_callsign reference parsed ≡ reference))
      × (conflict (locked_callsign reference parsed) reference ≡ false)
unfolding locked_callsign
locked_callsign_lem reference parsed = elim (Bool-cases (empty reference)) [
  | inl e ↦ ground (arith, e, conflict-no_reference parsed reference e)
  | inr e ↦ elim (Bool-cases (conflict parsed reference)) [
    | inl c ↦ ground (arith, e, c, conflict_refl reference)
    | inr c ↦ ground (arith, e, c)
  ]
]
