-- ===== src/Escalation.antt =====
-- audit_agent/escalation.py: the finding-based escalation triggers 3 to 7, first match wins.
pub mod Order
use araratsec_agent.Prelude.{
  ℕ, ◌-◌, ◌+◌, String, Bool, true, false, Option, none, some, List, [], ◌∷◌, ltb, leb, not, ◌&&◌,
  ◌||◌, ◌==◌, if◌then◌else◌,
}
use araratsec_agent.Prelude.Texts.{concat}
use araratsec_agent.Finding.{Finding, FindingStatus, PocStatus, Severity, severity_value}
use araratsec_agent.Severity.{rank}

-- The members of the kernel's `EscalationTrigger` that this function names.
pub data EscalationTrigger : Type 0 where
  critical_finding unverified_high mock_test contradicting_findings unknown_pattern :
      EscalationTrigger

-- The kernel's `EscalationResult`; `triggered` is always true here.
pub record EscalationResult : Type 0 where
  pub triggered : Bool
  pub trigger : EscalationTrigger
  pub detail : String

fire : EscalationTrigger → List String → EscalationResult
fire t parts = record { triggered = true; trigger = t; detail = concat parts }

-- `abs(a - b)`
abbrev pub abs_diff : ℕ → ℕ → ℕ
abs_diff a b = (a - b) + (b - a)

abbrev pub is_critical : Severity → Bool
is_critical Severity.critical = true
is_critical _ = false

abbrev pub is_high : Severity → Bool
is_high Severity.high = true
is_high _ = false

abbrev pub is_unverified : FindingStatus → Bool
is_unverified FindingStatus.unverified = true
is_unverified _ = false

abbrev pub is_mock_review : Option PocStatus → Bool
is_mock_review (some PocStatus.mock_review) = true
is_mock_review _ = false

-- `severity not in (Severity.informational, Severity.low)`
abbrev pub above_low : Severity → Bool
above_low Severity.informational = false
above_low Severity.low = false
above_low _ = true

abbrev pub is_none {ℓ} : {A : Type ℓ} → Option A → Bool
is_none none = true
is_none (some _) = false

-- The test of the loop of trigger 6.
unfoldable pub contradicts : Finding → Finding → Bool
contradicts f e =
    e.location == f.location
    && e.function_name == f.function_name
    && leb 2 (abs_diff (rank e.severity) (rank f.severity))

-- The loop over `existing_findings or []`
unfoldable pub first_contradiction : Finding → List Finding → Option EscalationResult
unfolding contradicts fire
first_contradiction f [] = none
first_contradiction f (e ∷ es) =
    if contradicts f e
    then some (
        fire contradicting_findings (
          "Contradicting severity at "
          ∷ f.location
          ∷ ": existing="
          ∷ severity_value e.severity
          ∷ ", new="
          ∷ severity_value f.severity
          ∷ []))
    else first_contradiction f es

-- Trigger 7.
unfoldable pub unknown_tag : Finding → Option EscalationResult
unfolding fire
unknown_tag f =
    if is_none f.bastet_tag && above_low f.severity
    then some (
        fire unknown_pattern
          ("No Bastet tag on " ∷ severity_value f.severity ∷ " finding " ∷ f.finding_id ∷ []))
    else none

-- Triggers 3 to 7 on a finding that is there.
unfoldable pub escalate_finding : Finding → List Finding → Option EscalationResult
unfolding fire
escalate_finding f existing =
    if is_critical f.severity
    then some (fire critical_finding ("Critical severity finding at " ∷ f.location ∷ []))
    else if is_high f.severity && is_unverified f.status
    then some (
        fire unverified_high
          ("Unverified high-severity finding " ∷ f.finding_id ∷ " at " ∷ f.location ∷ []))
    else if is_mock_review f.poc_status
    then some (
        fire mock_test
          ("PoC for " ∷ f.finding_id ∷ " uses mock patterns — human review required" ∷ []))
    else elim (first_contradiction f existing) [ some r ↦ some r | none ↦ unknown_tag f ]

unfoldable pub domain_escalation : Option Finding → List Finding → Option EscalationResult
unfolding escalate_finding
domain_escalation none existing = none
domain_escalation (some f) existing = escalate_finding f existing
