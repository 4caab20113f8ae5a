-- ===== src/SignalArbitration/Decision/Disputes.antt =====
-- Opposite stances that both have strong or moderate evidence, and the conflicts that record them.
use ai_native_hedge_fund_ch.Prelude.{
  ℕ, ◌≡◌, ◌≢◌, refl, sym, ap, ◌∙◌, String, Bool, true, false, Option, some, List, [], ◌∷◌, ◌++◌,
  inl, inr, All, Elem, any, any_of_Elem, str_eq, eq_iff, Bool-cases, str_lt,
}
use ai_native_hedge_fund_ch.PyFloat.{Float}
use ai_native_hedge_fund_ch.Schemas.Enums.{ResearchStance, positive, negative, strong, moderate}
use ai_native_hedge_fund_ch.Portfolio.Inputs.{EvidenceAssessment}
use ai_native_hedge_fund_ch.SignalArbitration.Calibration.{ArbitrationCandidate, evidence_grade}
use ai_native_hedge_fund_ch.SignalArbitration.Conflicts.{
  SignalConflict, is_member, sorted_pair, is_well_supported, stances_oppose, pair_conflict,
  pair_conflicts, conflicts_with, all_pair_conflicts,
}
use ai_native_hedge_fund_ch.SignalArbitration.Decision.{blocks}
use ai_native_hedge_fund_ch.SignalArbitration.Decision.Order.{id_of}

-- One stance is positive and the other is negative.
pub data AreOpposite : ResearchStance → ResearchStance → Type 0 where
  up_down : AreOpposite positive negative
  down_up : AreOpposite negative positive

-- Strong or moderate evidence.
pub data IsBacked : Option EvidenceAssessment → Type 0 where
  by_strong : (a : EvidenceAssessment) → a.grade ≡ strong → IsBacked (some a)
  by_moderate : (a : EvidenceAssessment) → a.grade ≡ moderate → IsBacked (some a)

stances_oppose-of_AreOpposite : {a b : ResearchStance} → AreOpposite a b → stances_oppose a b ≡ true
unfolding stances_oppose
stances_oppose-of_AreOpposite up_down = refl
stances_oppose-of_AreOpposite down_up = refl

AreOpposite-sym : {a b : ResearchStance} → AreOpposite a b → AreOpposite b a
AreOpposite-sym up_down = down_up
AreOpposite-sym down_up = up_down

AreOpposite-irrefl : {a b : ResearchStance} → AreOpposite a b → a ≢ b
AreOpposite-irrefl up_down = λ e. cc
AreOpposite-irrefl down_up = λ e. cc

is_member_left : (a b : String) → is_member a (sorted_pair a b) ≡ true
is_member_left a b = elim (Bool-cases (str_lt b a)) [
  | inl l ↦
      rw l (any_of_Elem (λ y. str_eq a y) a (b ∷ a ∷ []) ((eq_iff a a).1 refl) (inr (inl refl)))
  | inr g ↦ rw g (any_of_Elem (λ y. str_eq a y) a (a ∷ b ∷ []) ((eq_iff a a).1 refl) (inl refl))
]

is_member_right : (a b : String) → is_member b (sorted_pair a b) ≡ true
is_member_right a b = elim (Bool-cases (str_lt b a)) [
  | inl l ↦ rw l (any_of_Elem (λ y. str_eq b y) b (b ∷ a ∷ []) ((eq_iff b b).1 refl) (inl refl))
  | inr g ↦
      rw g (any_of_Elem (λ y. str_eq b y) b (a ∷ b ∷ []) ((eq_iff b b).1 refl) (inr (inl refl)))
]

pub none_blocks :
    (id : String) (conflicts : List SignalConflict)
    → All (λ conflict. blocks id conflict ≡ false) conflicts
    → any (blocks id) conflicts ≡ false
none_blocks id [] h = refl
none_blocks id (x ∷ xs) h = rw h.0 (none_blocks id xs h.1)

module _ {A : Type 0} (p : A → Bool) where
  any_left : (xs ys : List A) → any p xs ≡ true → any p (xs ++ ys) ≡ true
  any_left [] ys h = cc
  any_left (x ∷ xs) ys h = elim (Bool-cases (p x)) [
    | inl t ↦ rw t refl
    | inr f ↦ rw f (any_left xs ys (rw f at h))
  ]

  pub any_right : (xs ys : List A) → any p ys ≡ true → any p (xs ++ ys) ≡ true
  any_right [] ys h = h
  any_right (x ∷ xs) ys h = elim (Bool-cases (p x)) [
    | inl t ↦ rw t refl
    | inr f ↦ rw f (any_right xs ys h)
  ]

module _ {F : Type 0} where
  -- Two candidates of opposite stances, both with strong or moderate evidence.
  pub record Dispute (c d : ArbitrationCandidate F) : Type 0 where
    pub opposite : AreOpposite c.signal.stance d.signal.stance
    pub left_backed : IsBacked c.evidence_assessment
    pub right_backed : IsBacked d.evidence_assessment

  supported-of_IsBacked :
      (c : ArbitrationCandidate F) {e : Option EvidenceAssessment}
      → c.evidence_assessment ≡ e
      → IsBacked e
      → is_well_supported (evidence_grade c) ≡ true
  unfolding evidence_grade
  supported-of_IsBacked c e (by_strong a g) = rw (e, g) refl
  supported-of_IsBacked c e (by_moderate a g) = rw (e, g) refl

  module _ (float : Float F) (make_id : String → List String → String) (as_of_time : Option ℕ) where
    pair_blocks :
        (c d : ArbitrationCandidate F) (x : String)
        → Dispute c d
        → is_member x (sorted_pair (id_of c) (id_of d)) ≡ true
        → any (blocks x) (pair_conflicts float make_id as_of_time c d) ≡ true
    unfolding pair_conflicts pair_conflict
    pair_blocks c d x h named =
        rw
          (
            stances_oppose-of_AreOpposite h.opposite,
            supported-of_IsBacked c refl h.left_backed,
            supported-of_IsBacked d refl h.right_backed,
          )
          (rw named refl)

    with_blocks :
        (c d : ArbitrationCandidate F) (x : String) (rest : List (ArbitrationCandidate F))
        → Elem d rest
        → Dispute c d
        → is_member x (sorted_pair (id_of c) (id_of d)) ≡ true
        → any (blocks x) (conflicts_with float make_id as_of_time c rest) ≡ true
    unfolding conflicts_with
    with_blocks c d x [] e h named = absurd e
    with_blocks c d x (y ∷ rest) (inl e) h named =
        any_left (blocks x) (pair_conflicts float make_id as_of_time c y)
          (conflicts_with float make_id as_of_time c rest) (rw (← e) (pair_blocks c d x h named))
    with_blocks c d x (y ∷ rest) (inr e) h named =
        any_right (blocks x) (pair_conflicts float make_id as_of_time c y)
          (conflicts_with float make_id as_of_time c rest) (with_blocks c d x rest e h named)

    -- A dispute of two candidates blocks either of them, wherever they stand.
    pub all_block :
        (c d : ArbitrationCandidate F) (cs : List (ArbitrationCandidate F))
        → Elem c cs
        → Elem d cs
        → Dispute c d
        → any (blocks (id_of c)) (all_pair_conflicts float make_id as_of_time cs) ≡ true
    unfolding all_pair_conflicts
    all_block c d [] e k h = absurd e
    all_block c d (y ∷ cs) (inl e) (inl k) h =
        absurd (AreOpposite-irrefl h.opposite (ap (λ z. z.signal.stance) (e ∙ sym k)))
    all_block c d (y ∷ cs) (inl e) (inr k) h =
        any_left (blocks (id_of c)) (conflicts_with float make_id as_of_time y cs)
          (all_pair_conflicts float make_id as_of_time cs)
          (rw (← e) (with_blocks c d (id_of c) cs k h (is_member_left (id_of c) (id_of d))))
    all_block c d (y ∷ cs) (inr e) (inl k) h =
        let turned : Dispute d c = record {
          opposite = AreOpposite-sym h.opposite;
          left_backed = h.right_backed;
          right_backed = h.left_backed;
        } in
        any_left (blocks (id_of c)) (conflicts_with float make_id as_of_time y cs)
          (all_pair_conflicts float make_id as_of_time cs)
          (rw (← k) (with_blocks d c (id_of c) cs e turned (is_member_right (id_of d) (id_of c))))
    all_block c d (y ∷ cs) (inr e) (inr k) h =
        any_right (blocks (id_of c)) (conflicts_with float make_id as_of_time y cs)
          (all_pair_conflicts float make_id as_of_time cs) (all_block c d cs e k h)
