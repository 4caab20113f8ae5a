-- ===== src/Backtesting/Simulation/Pending.antt =====
-- The dictionary of pending fills, and the fill that is due at a bar.
use ai_native_hedge_fund_ch.Prelude.{
  ℕ, suc, ◌+◌, ◌≤◌, ◌<◌, ◌≡◌, refl, sym, ap, String, false, Option, none, some, List, [], ◌∷◌, inl,
  inr, arith, All, All-filter, length, not, ◌==◌, Bool-cases, Option-cases,
}
use ai_native_hedge_fund_ch.PyFloat.{Float}
use ai_native_hedge_fund_ch.Timing.Calendar.{Zone}
use ai_native_hedge_fund_ch.Backtesting.Simulation.{
  SyntheticDailyPriceBar, BacktestConfig, LoadedBacktestInputs, DecisionAction, Simulation,
  PendingFill, settle, pending_at, without, bar_session_open, settle_due,
}

abbrev pub Pending : Type 0
Pending = List (ℕ × PendingFill)

-- No fill is due at the bar.
abbrev pub IsFree : ℕ → Pending → Type 0
IsFree index pending = All (λ entry. (entry.0 == index) ≡ false) pending

abbrev pub HasDistinctBars : Pending → Type 0
HasDistinctBars [] = Unit
HasDistinctBars (entry ∷ entries) = IsFree entry.0 entries × HasDistinctBars entries

pub pending_at-none :
    (index : ℕ) (pending : Pending) → pending_at index pending ≡ none → IsFree index pending
unfolding pending_at
pending_at-none index [] h = tt
pending_at-none index (entry ∷ entries) h = elim (Bool-cases (entry.0 == index)) [
  | inl t ↦ absurd (cc (rw t at h))
  | inr f ↦ (f, pending_at-none index entries (rw f at h))
]

pub without_free :
    (index : ℕ) (pending : Pending) → IsFree index pending → without index pending ≡ pending
unfolding without
without_free index [] h = refl
without_free index (entry ∷ entries) h =
    rw h.0 (ap (λ l. entry ∷ l) (without_free index entries h.1))

-- A fill that is due is the only one at its bar.
pub length-without :
    (index : ℕ) (pending : Pending) {pending_fill : PendingFill}
    → HasDistinctBars pending
    → pending_at index pending ≡ some pending_fill
    → length pending ≡ suc (length (without index pending))
unfolding pending_at without
length-without index [] d h = cc
length-without index (entry ∷ entries) d h = elim (Bool-cases (entry.0 == index)) [
  | inl t ↦
      let same : entry.0 ≡ index = ground (arith, t) in
      rw t (
        ap (λ l. suc (length l))
          (sym (unfold without in without_free index entries (rw (← same) d.0))))
  | inr f ↦ rw f (ap suc (length-without index entries d.1 (rw f at h)))
]

pub without-HasDistinctBars :
    (index : ℕ) (pending : Pending)
    → HasDistinctBars pending
    → HasDistinctBars (without index pending)
unfolding without
without-HasDistinctBars index [] d = tt
without-HasDistinctBars index (entry ∷ entries) d = elim (Bool-cases (entry.0 == index)) [
  | inl t ↦ rw t (without-HasDistinctBars index entries d.1)
  | inr f ↦ rw f (
    All-filter (λ other. (other.0 == entry.0) ≡ false) (λ other. not (other.0 == index)) entries
        d.0,
    without-HasDistinctBars index entries d.1,
  )
]

pub without-IsFree : (index : ℕ) (pending : Pending) → IsFree index (without index pending)
unfolding without
without-IsFree index [] = tt
without-IsFree index (entry ∷ entries) = elim (Bool-cases (entry.0 == index)) [
  | inl t ↦ rw t (without-IsFree index entries)
  | inr f ↦ rw f (f, without-IsFree index entries)
]

-- The bar numbers are from `low` on and below `high`.
abbrev pub IsBetween : ℕ → ℕ → Pending → Type 0
IsBetween low high pending = All (λ entry. (low ≤ entry.0) × (entry.0 < high)) pending

pub raise_low :
    (low high : ℕ) (pending : Pending)
    → IsFree low pending
    → IsBetween low high pending
    → IsBetween (low + 1) high pending
raise_low low high [] free h = tt
raise_low low high (entry ∷ entries) free h =
    ((ground (arith, free.0, h.0), h.0.1), raise_low low high entries free.1 h.1)

pub raise_high :
    (low high further : ℕ) (pending : Pending)
    → high ≤ further
    → IsBetween low high pending
    → IsBetween low further pending
raise_high low high further [] le h = tt
raise_high low high further (entry ∷ entries) le h =
    ((h.0.0, omega (arith, le, h.0)), raise_high low high further entries le h.1)

pub between-IsFree :
    (low high index : ℕ) (pending : Pending)
    → high ≤ index
    → IsBetween low high pending
    → IsFree index pending
between-IsFree low high index [] le h = tt
between-IsFree low high index (entry ∷ entries) le h =
    (ground (arith, le, h.0), between-IsFree low high index entries le h.1)

pub none_between : (index : ℕ) (pending : Pending) → IsBetween index index pending → pending ≡ []
none_between index [] h = refl
none_between index (entry ∷ entries) h = absurd (omega (arith, h.0))

module _ {F : Type 0} (float : Float F) (zone : Zone) (inputs : LoadedBacktestInputs F)
    (config : BacktestConfig F)
    (make_decision_id : ℕ → Option String → DecisionAction → String) where
  -- What holds without a fill and after one holds of the bar's first step.
  pub settle_due-cases :
      (P : Simulation F → Type 0) (index : ℕ) (bar : SyntheticDailyPriceBar F)
      → (state : Simulation F) → (pending_at index state.pending_fills ≡ none → P state)
      → ((pending_fill : PendingFill)
          → pending_at index state.pending_fills ≡ some pending_fill
          → P (
              settle float config.execution_assumption index
                (bar_session_open zone bar)
                bar.open_price
                pending_fill
                state))
      → P (settle_due float zone inputs config make_decision_id index bar state)
  unfolding settle_due
  settle_due-cases P index bar state idle due =
      elim (Option-cases (pending_at index state.pending_fills)) [
        | inl e ↦ rw (settle_due, e) (idle e)
        | inr (pending_fill, e) ↦ rw (settle_due, e) (due pending_fill e)
      ]
