-- ===== src/PaperLedger/Daily/Book.antt =====
-- What a daily summary says of the book.
use ai_native_hedge_fund_ch.Prelude.{
  ℕ, ◌+◌, ◌≡◌, refl, sym, ap, ◌∙◌, String, true, false, Option, none, some, List, [], ◌∷◌, ◌&&◌,
  not, is_some, is_empty, inl, inr, arith, all, filter, length, ok, ok_injective, >>=-eq-ok,
  Bool-cases,
}
use ai_native_hedge_fund_ch.PyFloat.{Float}
use ai_native_hedge_fund_ch.PaperLedger.Records.{
  PaperPositionState, PnLPlaceholder, is_open, is_closed, is_cancelled, is_pending,
  validate_placeholder,
}
use ai_native_hedge_fund_ch.PaperLedger.Daily.{
  LedgerWorkspace, DailyPaperSummary, AggregateNote, mark_of, is_priced, aggregate_placeholder,
  priced_aggregate, accumulate, aggregate_open, aggregate_daily_placeholder,
  generate_daily_paper_summary,
}

module _ {F : Type 0} where
  abbrev pub pending_count : List (PaperPositionState F) → ℕ
  pending_count states = length (filter (λ s. is_pending s.state) states)

  counts :
      (states : List (PaperPositionState F))
      → length (filter (λ s. is_open s.state) states)
          + length (filter (λ s. is_closed s.state) states)
          + length (filter (λ s. is_cancelled s.state) states)
          + pending_count states
        ≡ length states
  counts [] = omega arith
  counts (s ∷ states) = ground (arith, counts states)

module _ {F : Type 0} (float : Float F) (marks : List (String × F)) where
  accumulate_complete :
      (states : List (PaperPositionState F)) (total : F)
      → is_empty (accumulate float marks total states).1 ≡ all (is_priced float marks) states
  unfolding accumulate
  accumulate_complete [] total = refl
  accumulate_complete (s ∷ states) total = elim (Bool-cases (is_priced float marks s)) [
    | inl t ↦ rw t (accumulate_complete states _)
    | inr f ↦ rw f refl
  ]

  -- There is an aggregate exactly for a book that is not empty and fully priced.
  abbrev IsAnswered : List (PaperPositionState F) → Option (PnLPlaceholder F) → Type 0
  IsAnswered states aggregate =
      is_some aggregate ≡ (not (is_empty states) && all (is_priced float marks) states)

  priced_is_some :
      (first : PaperPositionState F) (total : F)
      → {answer : Option (PnLPlaceholder F) × List AggregateNote}
      → priced_aggregate float marks first total ≡ ok answer
      → is_some answer.0 ≡ true
  unfolding priced_aggregate
  priced_is_some first total {answer} h =
      let (placeholder, valid, last) =
        >>=-eq-ok (validate_placeholder float (aggregate_placeholder float marks first total)) _
          h in
      let same : (some placeholder, []) ≡ answer = ok_injective last in
      ap (λ a. is_some a.0) (sym same)

  aggregate_open_full :
      (first : PaperPositionState F) (accumulated : F × List String)
      → is_empty accumulated.1 ≡ true
      → is_some first.entry_reference_price_usd ≡ true
      → is_some (mark_of marks first.symbol) ≡ true
      → aggregate_open float marks first accumulated
        ≡ priced_aggregate float marks first accumulated.0
  unfolding aggregate_open
  aggregate_open_full first accumulated full entry mark = rw (full, entry, mark) refl

  aggregate_open-IsAnswered :
      (first : PaperPositionState F) (rest : List (PaperPositionState F)) (total : F)
      → {answer : Option (PnLPlaceholder F) × List AggregateNote}
      → aggregate_open float marks first (accumulate float marks total (first ∷ rest)) ≡ ok answer
      → IsAnswered (first ∷ rest) answer.0
  unfolding aggregate_open
  aggregate_open-IsAnswered first rest total {answer} h =
      let accumulated = accumulate float marks total (first ∷ rest) in
      let complete = accumulate_complete (first ∷ rest) total in
      elim (Bool-cases (is_empty accumulated.1)) [
        | inr missing ↦
            let same = ok_injective (rw missing at h) in rw (← same) (rw (← complete) (sym missing))
        | inl full ↦
            let priced = sym complete ∙ full in
            let entry : is_some first.entry_reference_price_usd ≡ true = ground (arith, priced) in
            let mark : is_some (mark_of marks first.symbol) ≡ true = ground (arith, priced) in
            rw
              (priced_is_some first accumulated.0
                (sym (aggregate_open_full first accumulated full entry mark) ∙ h))
              (sym priced)
      ]

  aggregate-IsAnswered :
      (states : List (PaperPositionState F))
      {answer : Option (PnLPlaceholder F) × List AggregateNote}
      → aggregate_daily_placeholder float marks states ≡ ok answer
      → IsAnswered states answer.0
  unfolding aggregate_daily_placeholder
  aggregate-IsAnswered [] {answer} h =
      let same : (none, []) ≡ answer = ok_injective h in rw (← same) refl
  aggregate-IsAnswered (first ∷ rest) {answer} h = elim (Bool-cases (is_empty marks)) [
    | inl none_given ↦
        let same = ok_injective (rw none_given at h) in
        rw (← same)
          (ap (λ b. b && all (is_priced float marks) rest) (sym (unmarked marks none_given)))
    | inr given ↦ aggregate_open-IsAnswered first rest _ (rw given at h)
  ]
    where
      unmarked : (ms : List (String × F)) → is_empty ms ≡ true → is_priced float ms first ≡ false
      unmarked [] e = refl
      unmarked (m ∷ ms) e = absurd (cc)

  -- If the daily summary is made, then the positions it counts as open, closed and cancelled, with
  -- those that wait for a fill, are all positions of the workspace; and it gives an aggregate exactly
  -- if there are open positions and each of them has a mark, a quantity and an entry price.
  pub daily_book :
      (workspace : LedgerWorkspace F) (summary_date : ℕ) {summary : DailyPaperSummary F}
      → generate_daily_paper_summary float marks workspace summary_date ≡ ok summary
      → (summary.open_position_count
            + summary.closed_position_count
            + summary.cancelled_position_count
            + pending_count workspace.states
          ≡ length workspace.states)
        × (is_some summary.aggregate_pnl_placeholder ≡ (
            not (is_empty (filter (λ s. is_open s.state) workspace.states))
            && all (is_priced float marks) (filter (λ s. is_open s.state) workspace.states)))
  unfolding generate_daily_paper_summary
  daily_book workspace summary_date {summary} h =
      let open_states = filter (λ s. is_open s.state) workspace.states in
      let (answer, aggregated, last) =
        >>=-eq-ok (aggregate_daily_placeholder float marks open_states) _ h in
      let same = ok_injective last in
      rw (← same) (counts workspace.states, aggregate-IsAnswered open_states aggregated)
