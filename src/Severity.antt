-- ===== src/Severity.antt =====
-- audit_agent/guardrails/severity.py: the deterministic correction of a finding's severity.
pub mod Rules
use araratsec_agent.Prelude.{
  ℕ, String, Bool, true, false, Option, none, some, [], ◌∷◌, length, count, ltb, leb, not, ◌&&◌,
  if◌then◌else◌,
}
use araratsec_agent.Prelude.Texts.{concat, join, decimal}
use araratsec_agent.Finding.{Finding, Severity, severity_value}

-- `_SEVERITY_RANK`, the `_RANK` of planner/stage3.py and `_severity_rank` of escalation.py
unfoldable pub rank : Severity → ℕ
rank Severity.informational = 0
rank Severity.low = 1
rank Severity.medium = 2
rank Severity.high = 3
rank Severity.critical = 4

pub record SeverityVerdict : Type 0 where
  pub original : Severity
  pub corrected : Option Severity
  pub correction_reason : Option String

unfoldable pub was_corrected : SeverityVerdict → Bool
was_corrected v = elim v.corrected [ none ↦ false | some _ ↦ true ]

unfoldable pub final : SeverityVerdict → Severity
final v = elim v.corrected [ none ↦ v.original | some s ↦ s ]

unfoldable pub active_preconditions : Finding → ℕ
active_preconditions f = count (λ e. e.1) f.preconditions

unfoldable pub has_mitigations : Finding → Bool
has_mitigations f = ltb 0 (length f.mitigations_present)

pub downgrade_reason : Finding → String
downgrade_reason f = concat (
    "Severity downgraded "
    ∷ severity_value f.severity
    ∷ " → medium: mitigations present ("
    ∷ join ", " f.mitigations_present
    ∷ "). SCB correction applied."
    ∷ [])

pub upgrade_reason : Finding → String
upgrade_reason f = concat (
    "Severity upgraded "
    ∷ severity_value f.severity
    ∷ " → high: "
    ∷ decimal (active_preconditions f)
    ∷ " active preconditions, no mitigations. Precondition threshold correction applied."
    ∷ [])

-- The logger calls are left out.
unfoldable pub check_severity : Finding → SeverityVerdict
unfolding has_mitigations
check_severity f =
    if has_mitigations f && ltb (rank Severity.medium) (rank f.severity)
    then record {
      original = f.severity;
      corrected = some Severity.medium;
      correction_reason = some (downgrade_reason f);
    }
    else if leb 4 (active_preconditions f) && not (has_mitigations f)
    then (if ltb (rank f.severity) (rank Severity.high)
        then record {
          original = f.severity;
          corrected = some Severity.high;
          correction_reason = some (upgrade_reason f);
        }
        else record { original = f.severity; corrected = none; correction_reason = none })
    else record { original = f.severity; corrected = none; correction_reason = none }
