-- ===== src/Readback/Verbatim.antt =====
-- How the three answers of the verifier (src/atc/readback_verifier.cpp) agree.
use xp_welly_llm_atc.Base.{
  ℕ, ltb, String, Bool, true, false, not, ◌&&◌, ◌||◌, List, [], ◌∷◌, ◌++◌, Option, none, some, ◌≡◌,
  refl, ap, ◌∙◌, arith, Bool-cases, inl, inr, All, contains, ◌==◌, ==_refl, nat_eq, string_eq,
  empty, if◌then◌else◌,
}
use xp_welly_llm_atc.Readback.{Mismatch}
use xp_welly_llm_atc.Readback.Verify.{
  Searches, within_100, desig_of, extract_runway_desig, readback_contains, check_runway, check_fl,
  check_alt, check_freq, check_squawk, check_speed, check, field_if, is_found, matched_fields,
  fields_present,
}

-- The six fields under their tests.
abbrev six : Bool → Bool → Bool → Bool → Bool → Bool → List String
six a b c d e f =
    field_if a "runway"
    ++ (field_if b "fl"
        ++ (field_if c "alt" ++ (field_if d "freq" ++ (field_if e "squawk" ++ field_if f "speed"))))

contains-if :
    (b : Bool) (f g : String) (fs : List String)
    → contains (field_if b f ++ fs) g ≡ (b && f == g || contains fs g)
contains-if true f g fs = refl
contains-if false f g fs = refl

contains-last : (b : Bool) (f g : String) → contains (field_if b f) g ≡ (b && f == g || false)
contains-last true f g = refl
contains-last false f g = refl

six-contains :
    (a b c d e f : Bool) (g : String)
    → contains (six a b c d e f) g ≡ (
        a && "runway" == g
        || (b && "fl" == g
            || (c && "alt" == g
                || (d && "freq" == g || (e && "squawk" == g || (f && "speed" == g || false))))))
six-contains a b c d e f g =
    contains-if a "runway" g _
    ∙ ap (λ (t : Bool). a && "runway" == g || t)
        (contains-if b "fl" g _
          ∙ ap (λ (t : Bool). b && "fl" == g || t)
              (contains-if c "alt" g _
                ∙ ap (λ (t : Bool). c && "alt" == g || t)
                    (contains-if d "freq" g _
                      ∙ ap (λ (t : Bool). d && "freq" == g || t)
                          (contains-if e "squawk" g _
                            ∙ ap (λ (t : Bool). e && "squawk" == g || t)
                                (contains-last f "speed" g)))))

-- The lists of the verifier hold each field under its own test.
six_fields :
    (a b c d e f : Bool)
    → (contains (six a b c d e f) "runway" ≡ a)
      × (contains (six a b c d e f) "fl" ≡ b)
      × (contains (six a b c d e f) "alt" ≡ c)
      × (contains (six a b c d e f) "freq" ≡ d)
      × (contains (six a b c d e f) "squawk" ≡ e)
      × (contains (six a b c d e f) "speed" ≡ f)
unfolding string_eq
six_fields a b c d e f = (
  six-contains a b c d e f "runway" ∙ ground arith,
  six-contains a b c d e f "fl" ∙ ground arith,
  six-contains a b c d e f "alt" ∙ ground arith,
  six-contains a b c d e f "freq" ∙ ground arith,
  six-contains a b c d e f "squawk" ∙ ground arith,
  six-contains a b c d e f "speed" ∙ ground arith,
)

module _ (x : Searches) where
  empty_text : empty "" ≡ true
  unfolding string_eq
  empty_text = refl

  check_runway-same : (s : String) → check_runway x s s ≡ []
  unfolding check_runway
  check_runway-same s = ground (arith, ==_refl s)

  check_fl-same : (rb : String) (n : ℕ) → check_fl x rb n n ≡ []
  unfolding check_fl
  check_fl-same rb n = ground (arith, ==_refl n)

  check_alt-same : (rb : String) (n m : ℕ) → check_alt x rb n m m ≡ []
  unfolding check_alt
  check_alt-same rb n m = ground arith

  check_freq-same : (s : String) → check_freq x s s ≡ []
  unfolding check_freq
  check_freq-same s = ground (arith, ==_refl s)

  check_squawk-same : (s : String) → check_squawk x s s ≡ []
  unfolding check_squawk
  check_squawk-same s = ground (arith, ==_refl s)

  check_speed-same : (cl rb : String) (n : ℕ) → check_speed x cl rb n n ≡ []
  unfolding check_speed
  check_speed-same cl rb n = ground (arith, ==_refl n)

  -- No correction is asked of a clearance read back word for word.
  pub check-same : (c : String) → check x c c ≡ []
  unfolding check
  check-same c = elim (Bool-cases (empty c)) [
    | inl e ↦ rw e refl
    | inr e ↦
        rw
          (
            e,
            check_runway-same (extract_runway_desig x (x.normalise c)),
            check_fl-same (x.normalise c) (x.fl (x.normalise c)),
            check_alt-same (x.normalise c) (x.fl (x.normalise c)) (x.alt_ft (x.normalise c)),
            check_freq-same (x.freq (x.normalise c)),
            check_squawk-same (x.squawk (x.normalise c)),
            check_speed-same (x.normalise c) (x.normalise c) (x.speed (x.normalise c)),
          )
          refl
  ]

-- What a mismatch says of the lists of the fields.
abbrev pub IsUnmatched : List String → List String → Mismatch → Type 0
IsUnmatched present matched m =
    (contains present m.field ≡ true) × (contains matched m.field ≡ false)

-- A mismatch in `f`, whose tests are `a` in the one list and `b` in the other.
abbrev IsIn : String → Bool → Bool → Mismatch → Type 0
IsIn f a b m = (m.field ≡ f) × (a ≡ true) × (b ≡ false)

All-if :
    {A : Type 0} (P : A → Type 0) (b : Bool) (a : A)
    → (b ≡ false → P a)
    → All P (if b then [] else a ∷ [])
All-if P true a p = tt
All-if P false a p = (p refl, tt)

All-append : {A : Type 0} (P : A → Type 0) (xs ys : List A) → All P xs → All P ys → All P (xs ++ ys)
All-append P [] ys p q = q
All-append P (a ∷ xs) ys p q = (p.0, All-append P xs ys p.1 q)

All-map :
    {A : Type 0} (P Q : A → Type 0) → ((a : A) → P a → Q a) → (xs : List A) → All P xs → All Q xs
All-map P Q f [] p = tt
All-map P Q f (a ∷ xs) p = (f a p.0, All-map P Q f xs p.1)

module _ (a b c d e f a' b' c' d' e' f' : Bool) where
  abbrev Unmatched : Mismatch → Type 0
  Unmatched = IsUnmatched (six a b c d e f) (six a' b' c' d' e' f')

  of_field :
      (g : String) (p p' : Bool)
      → contains (six a b c d e f) g ≡ p
      → contains (six a' b' c' d' e' f') g ≡ p'
      → (ms : List Mismatch) → All (IsIn g p p') ms
      → All Unmatched ms
  of_field g p p' h k ms = All-map (IsIn g p p') Unmatched (λ m q. rw q.0 (h ∙ q.1, k ∙ q.2)) ms

  of_fields :
      (r l t q s v : List Mismatch)
      → All (IsIn "runway" a a') r
      → All (IsIn "fl" b b') l
      → All (IsIn "alt" c c') t
      → All (IsIn "freq" d d') q
      → All (IsIn "squawk" e e') s
      → All (IsIn "speed" f f') v
      → All Unmatched (r ++ (l ++ (t ++ (q ++ (s ++ v)))))
  of_fields r l t q s v hr hl ht hq hs hv =
      let present = six_fields a b c d e f in
      let matched = six_fields a' b' c' d' e' f' in
      All-append _ r _ (of_field _ _ _ present.0 matched.0 r hr) (
        All-append _ l _ (of_field _ _ _ present.1 matched.1 l hl) (
          All-append _ t _ (of_field _ _ _ present.2 matched.2 t ht) (
            All-append _ q _ (of_field _ _ _ present.3 matched.3 q hq) (
              All-append _ s _ (of_field _ _ _ present.4 matched.4 s hs)
                (of_field _ _ _ present.5 matched.5 v hv)))))

module _ (x : Searches) where
  designated_found :
      (o : Option ℕ) (side : String) → empty (desig_of x o side) ≡ false → is_found o ≡ true
  unfolding desig_of
  designated_found none side h = ground (arith, empty_text)
  designated_found (some n) side h = refl

  check_runway-IsIn :
      (o : Option ℕ) (side r : String)
      → All
          (IsIn "runway" (is_found o) (not (empty (desig_of x o side)) && r == desig_of x o side))
          (check_runway x (desig_of x o side) r)
  unfolding check_runway
  check_runway-IsIn o side r =
      All-if _ (empty (desig_of x o side) || r == desig_of x o side) _
        (λ e. (refl, designated_found o side (ground arith), ground arith))

  check_fl-IsIn :
      (rb : String) (n m : ℕ) → All (IsIn "fl" (ltb 0 n) (ltb 0 n && m == n)) (check_fl x rb n m)
  unfolding check_fl
  check_fl-IsIn rb n m =
      All-if _ (not (ltb 0 n) || m == n || readback_contains x rb n) _
        (λ e. (refl, ground arith, ground arith))

  check_alt-IsIn :
      (rb : String) (fl n m : ℕ)
      → All
          (IsIn "alt"
            (not (ltb 0 fl) && ltb 0 n)
            (not (ltb 0 fl) && ltb 0 n && ltb 0 m && within_100 m n))
          (check_alt x rb fl n m)
  unfolding check_alt
  check_alt-IsIn rb fl n m =
      All-if _
        (ltb 0 fl || not (ltb 0 n) || (ltb 0 m && within_100 m n) || readback_contains x rb n) _
        (λ e. (refl, ground arith, ground arith))

  check_freq-IsIn :
      (s r : String)
      → All (IsIn "freq" (not (empty s)) (not (empty s) && r == s)) (check_freq x s r)
  unfolding check_freq
  check_freq-IsIn s r = All-if _ (empty s || r == s) _ (λ e. (refl, ground arith, ground arith))

  check_squawk-IsIn :
      (s r : String)
      → All (IsIn "squawk" (not (empty s)) (not (empty s) && r == s)) (check_squawk x s r)
  unfolding check_squawk
  check_squawk-IsIn s r = All-if _ (empty s || r == s) _ (λ e. (refl, ground arith, ground arith))

  check_speed-IsIn :
      (cl rb : String) (n m : ℕ)
      → All (IsIn "speed" (ltb 0 n) (ltb 0 n && m == n)) (check_speed x cl rb n m)
  unfolding check_speed
  check_speed-IsIn cl rb n m =
      All-if _ (not (ltb 0 n) || m == n || readback_contains x rb n) _
        (λ e. (refl, ground arith, ground arith))

  -- Every field that a read-back is corrected in is a field of the clearance that the same read-back does
  -- not count as read.
  pub check-IsUnmatched :
      (c r : String) → All (IsUnmatched (fields_present x c) (matched_fields x c r)) (check x c r)
  unfolding check matched_fields fields_present extract_runway_desig
  check-IsUnmatched c r = elim (Bool-cases (empty c || empty r)) [
    | inl e ↦ rw e tt
    | inr e ↦
        let k = x.normalise c in
        let h = x.normalise r in
        let some_text : empty c ≡ false = ground arith in
        rw (e, some_text)
          (of_fields _ _ _ _ _ _ _ _ _ _ _ _ _ _ _ _ _ _
            (check_runway-IsIn (x.runway k) (x.side k) (desig_of x (x.runway h) (x.side h)))
            (check_fl-IsIn h (x.fl k) (x.fl h))
            (check_alt-IsIn h (x.fl k) (x.alt_ft k) (x.alt_ft h))
            (check_freq-IsIn (x.freq k) (x.freq h)) (check_squawk-IsIn (x.squawk k) (x.squawk h))
            (check_speed-IsIn k h (x.speed k) (x.speed h)))
  ]
