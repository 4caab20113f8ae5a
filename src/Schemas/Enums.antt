-- ===== src/Schemas/Enums.antt =====
-- The string enumerations of libraries/schemas/base.py and libraries/schemas/research.py, with
-- the identity tests that the program makes on them.
use ai_native_hedge_fund_ch.Prelude.{
  ℕ, ◌≡◌, refl, sym, ap, ◌∙◌, Bool, true, false, eq_of_==, ◌==◌, if◌then◌else◌,
}

pub data ConstraintType : Type 0 where
  gross_exposure net_exposure single_name sector liquidity turnover beta : ConstraintType

pub data RiskCheckStatus : Type 0 where
  pass warn fail : RiskCheckStatus

pub data Severity : Type 0 where
  info low medium high critical : Severity

pub data PositionSide : Type 0 where
  long short flat : PositionSide

pub data PositionIdeaStatus : Type 0 where
  draft pending_review approved_for_portfolio rejected : PositionIdeaStatus

pub data PortfolioProposalStatus : Type 0 where
  draft pending_review approved rejected expired : PortfolioProposalStatus

pub data PaperTradeStatus : Type 0 where
  proposed approved rejected simulated cancelled : PaperTradeStatus

pub data ReviewOutcome : Type 0 where
  approve reject needs_revision escalate : ReviewOutcome

pub data QualityDecision : Type 0 where
  pass warn refuse quarantine : QualityDecision

pub data SignalStatus : Type 0 where
  candidate approved rejected expired : SignalStatus

pub data ResearchStance : Type 0 where
  positive negative mixed monitor : ResearchStance

pub data DerivedArtifactValidationStatus : Type 0 where
  unvalidated pending_validation partially_validated validated invalidated :
      DerivedArtifactValidationStatus

pub data EvidenceGrade : Type 0 where
  strong moderate weak insufficient : EvidenceGrade

type_code : ConstraintType → ℕ
type_code gross_exposure = 0
type_code net_exposure = 1
type_code single_name = 2
type_code sector = 3
type_code liquidity = 4
type_code turnover = 5
type_code beta = 6

-- `left is right` on constraint types.
unfoldable pub same_type : ConstraintType → ConstraintType → Bool
unfolding type_code
same_type a b = type_code a == type_code b

code_type : ℕ → ConstraintType
code_type n =
    if n == 0
    then gross_exposure
    else if n == 1
    then net_exposure
    else if n == 2
    then single_name
    else if n == 3
    then sector
    else if n == 4
    then liquidity
    else if n == 5
    then turnover
    else beta

code_type-type_code : (a : ConstraintType) → code_type (type_code a) ≡ a
unfolding code_type type_code
code_type-type_code gross_exposure = refl
code_type-type_code net_exposure = refl
code_type-type_code single_name = refl
code_type-type_code sector = refl
code_type-type_code liquidity = refl
code_type-type_code turnover = refl
code_type-type_code beta = refl

pub same_type_eq : (a b : ConstraintType) → same_type a b ≡ true → a ≡ b
unfolding same_type
same_type_eq a b h =
    sym (code_type-type_code a)
    ∙ ap code_type (eq_of_== (type_code a) (type_code b) h)
    ∙ code_type-type_code b

abbrev pub is_fail : RiskCheckStatus → Bool
is_fail fail = true
is_fail _ = false

abbrev pub is_pass : RiskCheckStatus → Bool
is_pass pass = true
is_pass _ = false

abbrev pub is_long : PositionSide → Bool
is_long long = true
is_long _ = false

abbrev pub is_short : PositionSide → Bool
is_short short = true
is_short _ = false

abbrev pub is_flat : PositionSide → Bool
is_flat flat = true
is_flat _ = false

abbrev pub is_approve : ReviewOutcome → Bool
is_approve approve = true
is_approve _ = false

abbrev pub is_validated : DerivedArtifactValidationStatus → Bool
is_validated validated = true
is_validated _ = false

stance_code : ResearchStance → ℕ
stance_code positive = 0
stance_code negative = 1
stance_code mixed = 2
stance_code monitor = 3

-- `left == right` on stances.
unfoldable pub same_stance : ResearchStance → ResearchStance → Bool
unfolding stance_code
same_stance a b = stance_code a == stance_code b
