-- ===== src/Portfolio/Limits/Within.antt =====
-- What the results of the constraint loop say about the limits.
use ai_native_hedge_fund_ch.Prelude.{
  String, ◌≡◌, Bool, true, false, Option, none, some, List, [], ◌∷◌, ◌++◌, ◌&&◌, arith, All,
  All-append, All-left, All-right, inl, inr, str_eq, str_eq_sym_false, All-find, and_true,
  HasDistinctKeys, Bool-cases,
}
use ai_native_hedge_fund_ch.Prelude.Int.{ℤ}
use ai_native_hedge_fund_ch.PyFloat.{Float}
use ai_native_hedge_fund_ch.Schemas.Enums.{
  ConstraintType, is_fail, same_type, same_type_eq, single_name,
}
use ai_native_hedge_fund_ch.Schemas.Portfolio.{PortfolioConstraint}
use ai_native_hedge_fund_ch.Portfolio.Limits.{
  ConstraintResult, constraint_by_type, projected_status, constraint_row, constraint_results,
}

module _ {F : Type 0} (float : Float F) where
  -- An active constraint with a metric and a hard limit is not exceeded.
  pub record Within (metric : ConstraintType → Option ℤ) (c : PortfolioConstraint F) : Type 0 where
    pub at_most :
        (observed : ℤ) (limit : F)
        → c.active ≡ true
        → metric c.constraint_type ≡ some observed
        → c.hard_limit ≡ some limit
        → float.gt (float.of_int observed) limit ≡ false

  module _ (metric : ConstraintType → Option ℤ) (result_id : String → String)
      (subject_type subject_id : String) where
    abbrev loop : List (PortfolioConstraint F) → List (ConstraintResult F)
    loop =
        constraint_results float (projected_status float) metric result_id subject_type subject_id

    abbrev key : PortfolioConstraint F → String
    key c = result_id c.portfolio_constraint_id

    -- The row of one constraint.
    abbrev row : PortfolioConstraint F → List (ConstraintResult F)
    row c =
        constraint_row float (projected_status float) (key c) subject_type subject_id
          c.portfolio_constraint_id c.active (metric c.constraint_type) c.hard_limit

    head-Within :
        (c : PortfolioConstraint F) → All (λ r. is_fail r.status ≡ false) (row c) → Within metric c
    unfolding constraint_row projected_status
    head-Within c h = record { at_most = λ observed limit a m l. ground arith }

    -- A loop without a failing result has every limit respected.
    pub Within-of_no_fail :
        (constraints : List (PortfolioConstraint F))
        → All (λ r. is_fail r.status ≡ false) (loop constraints)
        → All (Within metric) constraints
    unfolding constraint_results
    Within-of_no_fail [] h = tt
    Within-of_no_fail (c ∷ cs) h = (
      head-Within c (All-left (λ r. is_fail r.status ≡ false) (row c) (loop cs) h),
      Within-of_no_fail cs (All-right (λ r. is_fail r.status ≡ false) (row c) (loop cs) h),
    )

    row_fresh :
        (k id subject constraint_id : String) (active : Bool) (m : Option ℤ) (l : Option F)
        → str_eq k id ≡ false
        → All
            (λ r. str_eq k r.constraint_result_id ≡ false)
            (constraint_row float
              (projected_status float)
              id
              subject_type
              subject
              constraint_id
              active
              m
              l)
    unfolding constraint_row
    row_fresh k id subject constraint_id true (some m) (some l) h = (h, tt)
    row_fresh k id subject constraint_id _ _ _ h = tt

    row_distinct :
        (id subject constraint_id : String) (active : Bool) (m : Option ℤ) (l : Option F)
        → HasDistinctKeys
            (λ r. r.constraint_result_id)
            (constraint_row float
              (projected_status float)
              id
              subject_type
              subject
              constraint_id
              active
              m
              l)
    unfolding constraint_row
    row_distinct id subject constraint_id true (some m) (some l) = (tt, tt)
    row_distinct id subject constraint_id _ _ _ = tt

    -- A key that no constraint has is no result's key.
    loop_fresh :
        (k : String) (constraints : List (PortfolioConstraint F))
        → All (λ c. str_eq k (key c) ≡ false) constraints
        → All (λ r. str_eq k r.constraint_result_id ≡ false) (loop constraints)
    unfolding constraint_results
    loop_fresh k [] h = tt
    loop_fresh k (c ∷ cs) h =
        All-append (λ r. str_eq k r.constraint_result_id ≡ false) (row c) (loop cs)
          (row_fresh k (key c) subject_id c.portfolio_constraint_id c.active
            (metric c.constraint_type) c.hard_limit h.0)
          (loop_fresh k cs h.1)

    prepend_row :
        (c : PortfolioConstraint F) (active : Bool) (m : Option ℤ) (l : Option F)
        → (results : List (ConstraintResult F))
        → All (λ r. str_eq (key c) r.constraint_result_id ≡ false) results
        → HasDistinctKeys (λ r. r.constraint_result_id) results
        → HasDistinctKeys
            (λ r. r.constraint_result_id)
            (constraint_row float
                (projected_status float)
                (key c)
                subject_type
                subject_id
                c.portfolio_constraint_id
                active
                m
                l
              ++ results)
    unfolding constraint_row
    prepend_row c true (some m) (some l) results f d = (f, d)
    prepend_row c _ _ _ results f d = d

    -- Constraints with distinct result identifiers have results with distinct identifiers.
    pub loop_distinct :
        (constraints : List (PortfolioConstraint F))
        → HasDistinctKeys key constraints
        → HasDistinctKeys (λ r. r.constraint_result_id) (loop constraints)
    unfolding constraint_results
    loop_distinct [] d = tt
    loop_distinct (c ∷ cs) d =
        prepend_row c c.active (metric c.constraint_type) c.hard_limit (loop cs)
          (loop_fresh (key c) cs d.0) (loop_distinct cs d.1)

    row_of_no_metric :
        (P : ConstraintResult F → Type 0) (c : PortfolioConstraint F) (active : Bool)
        → (m : Option ℤ) (l : Option F) → m ≡ none
        → All P (
            constraint_row float
              (projected_status float)
              (key c)
              subject_type
              subject_id
              c.portfolio_constraint_id
              active
              m
              l)
    unfolding constraint_row
    row_of_no_metric P c true (some m) (some l) e = absurd (cc)
    row_of_no_metric P c _ _ _ e = tt

    -- The single-name constraint has no metric among these, so its identifier is no result's.
    pub single_name_fresh :
        (constraints : List (PortfolioConstraint F)) (single : PortfolioConstraint F)
        → metric single_name ≡ none
        → HasDistinctKeys key constraints
        → constraint_by_type constraints single_name ≡ some single
        → All (λ r. str_eq (key single) r.constraint_result_id ≡ false) (loop constraints)
    unfolding constraint_results constraint_by_type
    single_name_fresh [] single no_metric d e = cc
    single_name_fresh (c ∷ cs) single no_metric d e =
        let Fresh =
          λ (r : ConstraintResult F). str_eq (key single) r.constraint_result_id ≡ false in
        elim (Bool-cases (c.active && same_type c.constraint_type single_name)) [
          | inl found ↦
              let same : c ≡ single = cc (rw found at e) in
              let is_single = same_type_eq c.constraint_type single_name (and_true _ _ found).1 in
              All-append Fresh (row c) (loop cs)
                (row_of_no_metric Fresh c c.active (metric c.constraint_type) c.hard_limit
                  (rw is_single no_metric))
                (loop_fresh (key single) cs (rw (← same) d.0))
          | inr other ↦
              let later : constraint_by_type cs single_name ≡ some single = rw other at e in
              All-append Fresh (row c) (loop cs)
                (row_fresh (key single) (key c) subject_id c.portfolio_constraint_id c.active
                  (metric c.constraint_type) c.hard_limit
                  (str_eq_sym_false (key c) (key single)
                    (All-find (λ y. str_eq (key c) (key y) ≡ false)
                      (λ y. y.active && same_type y.constraint_type single_name) single cs d.0
                      later).0))
                (single_name_fresh cs single no_metric d.1 later)
        ]
