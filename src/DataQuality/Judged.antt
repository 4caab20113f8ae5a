-- ===== src/DataQuality/Judged.antt =====
-- Groups of contract violations: a group is empty exactly if what it checks holds, and its first
-- violation blocks if it does not.
use ai_native_hedge_fund_ch.Prelude.{◌≡◌, refl, ap, ◌∙◌, Bool, true, false, List, [], ◌∷◌, ◌++◌}
use ai_native_hedge_fund_ch.DataQuality.{ContractViolation, when}

-- A list of violations starts with a blocking one.
abbrev pub StartsBlocking : List ContractViolation → Type 0
StartsBlocking [] = ⊥
StartsBlocking (v ∷ vs) = v.blocking ≡ true

pub data Judged (Good : Type 0) (vs : List ContractViolation) : Type 0 where
  clean : Good → vs ≡ [] → Judged Good vs
  broken : ¬ Good → StartsBlocking vs → Judged Good vs

starts_append : (vs ws : List ContractViolation) → StartsBlocking vs → StartsBlocking (vs ++ ws)
starts_append [] ws h = absurd h
starts_append (v ∷ vs) ws h = h

pub judge_both :
    {P Q : Type 0} {vs ws : List ContractViolation}
    → Judged P vs
    → Judged Q ws
    → Judged (P × Q) (vs ++ ws)
judge_both {ws = ws} (clean p e) (clean q e2) = clean (p, q) (ap (λ l. l ++ ws) e ∙ e2)
judge_both {ws = ws} (clean p e) (broken n h) = broken (λ g. n g.1) (rw e h)
judge_both {vs = vs} {ws = ws} (broken n h) second = broken (λ g. n g.0) (starts_append vs ws h)

-- One guard.
pub judge_when :
    (found : Bool) (v : ContractViolation)
    → v.blocking ≡ true
    → Judged (found ≡ false) (when found v)
judge_when true v b = broken (λ g. cc) b
judge_when false v b = clean refl refl

pub starts_with :
    (vs : List ContractViolation)
    → StartsBlocking vs
    → (v : ContractViolation) × (rest : List ContractViolation) × (vs ≡ v ∷ rest)
      × (v.blocking ≡ true)
starts_with [] h = absurd h
starts_with (v ∷ vs) h = (v, vs, refl, h)
