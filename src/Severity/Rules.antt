-- ===== src/Severity/Rules.antt =====
-- The two rules of `check_severity`.
use araratsec_agent.Prelude.{◌≤◌, ◌<◌, ◌≡◌, true, false, arith}
use araratsec_agent.Finding.{Finding, Severity}
use araratsec_agent.Severity.{
  rank, check_severity, final, has_mitigations, active_preconditions, was_corrected,
}

-- The severity that a finding has after the correction.
abbrev pub settled : Finding → Severity
settled f = final (check_severity f)

-- The mitigation rule and the threshold rule, and that nothing else is changed. The settled
-- severity of a mitigated finding is at most medium, and it is the reported one unless that was
-- above medium, when it is medium. Without mitigations it is the reported one, unless at least four
-- preconditions are active and the reported one is below high, when it is high.
pub check_severity_rules :
    (f : Finding)
    → (has_mitigations f ≡ true
        → (rank (settled f) ≤ 2)
          × (rank f.severity ≤ 2 → settled f ≡ f.severity)
          × (2 < rank f.severity → settled f ≡ Severity.medium))
      × (has_mitigations f ≡ false
          → 4 ≤ active_preconditions f
          → (rank f.severity < 3 → settled f ≡ Severity.high)
            × (3 ≤ rank f.severity → settled f ≡ f.severity))
      × (has_mitigations f ≡ false → active_preconditions f < 4 → settled f ≡ f.severity)
unfolding check_severity final rank
check_severity_rules f = (
  λ m. (ground arith, λ h. ground arith, λ h. ground arith),
  λ m a. (λ h. ground arith, λ h. ground arith),
  λ m a. ground arith,
)

-- A second correction changes nothing: the settled severity needs no correction.
pub settled_idem :
    (f : Finding) → was_corrected (check_severity (record f { severity = settled f })) ≡ false
unfolding check_severity final rank was_corrected active_preconditions
settled_idem f = ground arith
