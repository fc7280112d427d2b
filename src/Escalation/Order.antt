-- ===== src/Escalation/Order.antt =====
-- Which trigger fires, as a condition on the finding alone.
use araratsec_agent.Prelude.{
  ◌≡◌, ◌≢◌, refl, ◌↔◌, ◌⊎◌, Bool, true, false, Option, none, some, List, [], ◌∷◌, any, All, ◌&&◌,
  arith, if◌then◌else◌,
}
use araratsec_agent.Finding.{Finding, FindingStatus, PocStatus, Severity}
use araratsec_agent.Severity.{has_mitigations, rank}
use araratsec_agent.Severity.Rules.{settled, check_severity_rules}
use araratsec_agent.Escalation.{
  EscalationTrigger, EscalationResult, critical_finding, unverified_high, mock_test,
  contradicting_findings, unknown_pattern, is_critical, is_high, is_unverified, is_mock_review,
  above_low, is_none, contradicts, first_contradiction, unknown_tag, domain_escalation,
}

abbrev pub trigger_of : Option EscalationResult → Option EscalationTrigger
trigger_of none = none
trigger_of (some r) = some r.trigger

-- The trigger, with trigger 6 as a test over the existing findings.
abbrev pub expected : Finding → List Finding → Option EscalationTrigger
expected f existing =
    if is_critical f.severity
    then some critical_finding
    else if is_high f.severity && is_unverified f.status
    then some unverified_high
    else if is_mock_review f.poc_status
    then some mock_test
    else if any (contradicts f) existing
    then some contradicting_findings
    else if is_none f.bastet_tag && above_low f.severity
    then some unknown_pattern
    else none

trigger-first_contradiction :
    (f : Finding) (es : List Finding)
    → trigger_of (first_contradiction f es)
      ≡ (if any (contradicts f) es then some contradicting_findings else none)
unfolding first_contradiction
trigger-first_contradiction f [] = refl
trigger-first_contradiction f (e ∷ es) = ground (arith, trigger-first_contradiction f es)

pub trigger-escalate :
    (f : Finding) (es : List Finding) → trigger_of (domain_escalation (some f) es) ≡ expected f es
unfolding domain_escalation unknown_tag
trigger-escalate f es = ground (arith, trigger-first_contradiction f es)

any-false {ℓ} :
    {A : Type ℓ} (p : A → Bool) (xs : List A) → (any p xs ≡ false) ↔ All (λ x. p x ≡ false) xs
any-false p [] = (λ _. tt, λ _. refl)
any-false p (x ∷ xs) = ground (arith, any-false p xs)

-- Nothing is escalated exactly for a finding that is not critical, is not an unverified high one,
-- has no proof of concept under mock review, contradicts none of the existing findings, and has a
-- tag or is low or informational.
pub escalation-none_iff :
    (f : Finding) (es : List Finding)
    → (domain_escalation (some f) es ≡ none) ↔ (
        (f.severity ≢ Severity.critical)
        × (f.severity ≡ Severity.high → f.status ≢ FindingStatus.unverified)
        × (f.poc_status ≢ some PocStatus.mock_review)
        × All (λ e. contradicts f e ≡ false) es
        × (f.bastet_tag ≡ none
            → (f.severity ≡ Severity.low) ⊎ (f.severity ≡ Severity.informational)))
escalation-none_iff f es = (
  λ h. (
    λ e. ground (arith, trigger-escalate f es),
    λ e u. ground (arith, trigger-escalate f es),
    λ e. ground (arith, trigger-escalate f es),
    (any-false (contradicts f) es).0 (ground (arith, trigger-escalate f es)),
    λ e. ground (arith, trigger-escalate f es),
  ),
  λ h. ground (arith, trigger-escalate f es, (any-false (contradicts f) es).1 h.3),
)

-- The settled severity of a mitigated finding fires neither the critical nor the unverified-high
-- trigger, whatever severity was reported.
pub escalation-settled :
    (f : Finding) (es : List Finding)
    → has_mitigations f ≡ true
    → let t = trigger_of (domain_escalation (some (record f { severity = settled f })) es) in
      (t ≢ some critical_finding) × (t ≢ some unverified_high)
escalation-settled f es m =
    let r = (check_severity_rules f).0 m in
    let t = trigger-escalate (record f { severity = settled f }) es in
    unfold rank in (λ e. ground (arith, r, t), λ e. ground (arith, r, t))
