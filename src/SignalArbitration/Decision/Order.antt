-- ===== src/SignalArbitration/Decision/Order.antt =====
-- The ranking of the candidates: a stable sort whose first three places compare whole numbers.
use ai_native_hedge_fund_ch.Prelude.{ℕ, ◌+◌, ◌*◌, ◌≤◌, ◌≡◌, String, true, false, arith, Refines}
use ai_native_hedge_fund_ch.PyFloat.{Float}
use ai_native_hedge_fund_ch.Schemas.Enums.{SignalStatus, EvidenceGrade}
use ai_native_hedge_fund_ch.Prelude.{Option}
use ai_native_hedge_fund_ch.SignalArbitration.Calibration.{ArbitrationCandidate, evidence_grade}
use ai_native_hedge_fund_ch.SignalArbitration.Conflicts.{
  validation_rank, signal_status_rank, evidence_grade_rank,
}
use ai_native_hedge_fund_ch.SignalArbitration.Decision.{precedes}

signal_status_rank_bound : (s : SignalStatus) → signal_status_rank s ≤ 3
unfolding signal_status_rank
signal_status_rank_bound SignalStatus.approved = omega arith
signal_status_rank_bound SignalStatus.candidate = omega arith
signal_status_rank_bound SignalStatus.rejected = omega arith
signal_status_rank_bound SignalStatus.expired = omega arith

evidence_grade_rank_bound : (g : Option EvidenceGrade) → evidence_grade_rank g ≤ 4
unfolding evidence_grade_rank
evidence_grade_rank_bound (Option.some EvidenceGrade.strong) = omega arith
evidence_grade_rank_bound (Option.some EvidenceGrade.moderate) = omega arith
evidence_grade_rank_bound (Option.some EvidenceGrade.weak) = omega arith
evidence_grade_rank_bound (Option.some EvidenceGrade.insufficient) = omega arith
evidence_grade_rank_bound Option.none = omega arith

module _ {F : Type 0} where
  -- Validation first, then status, then grade: the three ranks as the digits of one number.
  abbrev pub coarse_key : ArbitrationCandidate F → ℕ
  coarse_key c =
      validation_rank c.signal.validation_status * 20
      + signal_status_rank c.signal.status * 5
      + evidence_grade_rank (evidence_grade c)

  abbrev pub id_of : ArbitrationCandidate F → String
  id_of c = c.signal.signal_id

module _ {F : Type 0} (float : Float F) where
  precedes_key :
      (a b : ArbitrationCandidate F) → precedes float a b ≡ true → coarse_key a ≤ coarse_key b
  unfolding precedes
  precedes_key a b h =
      let sa = signal_status_rank_bound a.signal.status in
      let ga = evidence_grade_rank_bound (evidence_grade a) in ground arith

  not_precedes_key :
      (a b : ArbitrationCandidate F) → precedes float a b ≡ false → coarse_key b ≤ coarse_key a
  unfolding precedes
  not_precedes_key a b h =
      let sb = signal_status_rank_bound b.signal.status in
      let gb = evidence_grade_rank_bound (evidence_grade b) in ground arith

  pub precedes-Refines : Refines (precedes float) (coarse_key {F = F})
  precedes-Refines = (precedes_key, λ a b. not_precedes_key a b)
