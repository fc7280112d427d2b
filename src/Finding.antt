-- ===== src/Finding.antt =====
-- audit_agent/finding.py: the enums, and the record of one finding. A pydantic model is a record:
-- its fields hold what validation let through. `preconditions` has the keys as numbers (1 to 12).
pub mod Enums
use araratsec_agent.Prelude.{
  ℕ, String, ◌≡◌, refl, Bool, Option, none, some, List, [], ◌∷◌, find_first, arith, ◌==◌, eq_iff,
  if◌then◌else◌,
}

pub data Severity : Type 0 where
  critical high medium low informational : Severity

-- `FindingStatus`; the member `open` is a reserved word here
pub data FindingStatus : Type 0 where
  opened confirmed mock_review unverified false_positive : FindingStatus

pub data PocStatus : Type 0 where
  passed failed mock_review : PocStatus

pub data BastetTag : Type 0 where
  access_control missing_access_control incorrect_access_control reentrancy : BastetTag
  read_only_reentrancy cross_function_reentrancy arithmetic overflow_underflow precision_loss :
      BastetTag
  rounding_error oracle_manipulation price_manipulation flash_loan_attack frontrunning : BastetTag
  sandwich_attack mev logic_error incorrect_calculation wrong_assumption missing_check : BastetTag
  state_corruption incorrect_state_update missing_state_update denial_of_service gas_exhaustion :
      BastetTag
  unbounded_loop signature_replay missing_signature_verification signature_malleability : BastetTag
  uninitialized_variable missing_initialization upgradability storage_collision : BastetTag
  delegatecall_injection erc20_compliance fee_on_transfer rebasing_token unchecked_return_value :
      BastetTag
  arbitrary_external_call centralization_risk admin_privilege timestamp_dependence : BastetTag
  block_number_dependence hardcoded_address missing_event informational : BastetTag

pub record Finding : Type 0 where
  pub finding_id : String
  pub location : String
  pub function_name : String
  pub bastet_tag : Option BastetTag
  pub severity : Severity
  pub status : FindingStatus
  pub preconditions : List (ℕ × Bool)
  pub mitigations_present : List String
  pub poc_path : Option String
  pub poc_status : Option PocStatus
  pub combined_with : List String

-- `Severity.value`
abbrev pub severity_value : Severity → String
severity_value Severity.critical = "critical"
severity_value Severity.high = "high"
severity_value Severity.medium = "medium"
severity_value Severity.low = "low"
severity_value Severity.informational = "informational"

-- The members of `Severity` in the order of their declaration.
abbrev pub all_severities : List Severity
all_severities =
    Severity.critical ∷ Severity.high ∷ Severity.medium ∷ Severity.low ∷ Severity.informational ∷ []

-- `Severity(s)`; `none` is the `ValueError`
unfoldable pub severity_of : String → Option Severity
severity_of s = find_first (λ v. severity_value v == s) all_severities

-- `BastetTag.value`
abbrev pub tag_value : BastetTag → String
tag_value BastetTag.access_control = "access-control"
tag_value BastetTag.missing_access_control = "missing-access-control"
tag_value BastetTag.incorrect_access_control = "incorrect-access-control"
tag_value BastetTag.reentrancy = "reentrancy"
tag_value BastetTag.read_only_reentrancy = "read-only-reentrancy"
tag_value BastetTag.cross_function_reentrancy = "cross-function-reentrancy"
tag_value BastetTag.arithmetic = "arithmetic"
tag_value BastetTag.overflow_underflow = "overflow-underflow"
tag_value BastetTag.precision_loss = "precision-loss"
tag_value BastetTag.rounding_error = "rounding-error"
tag_value BastetTag.oracle_manipulation = "oracle-manipulation"
tag_value BastetTag.price_manipulation = "price-manipulation"
tag_value BastetTag.flash_loan_attack = "flash-loan-attack"
tag_value BastetTag.frontrunning = "frontrunning"
tag_value BastetTag.sandwich_attack = "sandwich-attack"
tag_value BastetTag.mev = "mev"
tag_value BastetTag.logic_error = "logic-error"
tag_value BastetTag.incorrect_calculation = "incorrect-calculation"
tag_value BastetTag.wrong_assumption = "wrong-assumption"
tag_value BastetTag.missing_check = "missing-check"
tag_value BastetTag.state_corruption = "state-corruption"
tag_value BastetTag.incorrect_state_update = "incorrect-state-update"
tag_value BastetTag.missing_state_update = "missing-state-update"
tag_value BastetTag.denial_of_service = "denial-of-service"
tag_value BastetTag.gas_exhaustion = "gas-exhaustion"
tag_value BastetTag.unbounded_loop = "unbounded-loop"
tag_value BastetTag.signature_replay = "signature-replay"
tag_value BastetTag.missing_signature_verification = "missing-signature-verification"
tag_value BastetTag.signature_malleability = "signature-malleability"
tag_value BastetTag.uninitialized_variable = "uninitialized-variable"
tag_value BastetTag.missing_initialization = "missing-initialization"
tag_value BastetTag.upgradability = "upgradability"
tag_value BastetTag.storage_collision = "storage-collision"
tag_value BastetTag.delegatecall_injection = "delegatecall-injection"
tag_value BastetTag.erc20_compliance = "erc20-compliance"
tag_value BastetTag.fee_on_transfer = "fee-on-transfer"
tag_value BastetTag.rebasing_token = "rebasing-token"
tag_value BastetTag.unchecked_return_value = "unchecked-return-value"
tag_value BastetTag.arbitrary_external_call = "arbitrary-external-call"
tag_value BastetTag.centralization_risk = "centralization-risk"
tag_value BastetTag.admin_privilege = "admin-privilege"
tag_value BastetTag.timestamp_dependence = "timestamp-dependence"
tag_value BastetTag.block_number_dependence = "block-number-dependence"
tag_value BastetTag.hardcoded_address = "hardcoded-address"
tag_value BastetTag.missing_event = "missing-event"
tag_value BastetTag.informational = "informational"

-- The members of `BastetTag` in the order of their declaration.
abbrev pub all_tags : List BastetTag
all_tags =
    BastetTag.access_control ∷ BastetTag.missing_access_control ∷ BastetTag.incorrect_access_control
    ∷ BastetTag.reentrancy ∷ BastetTag.read_only_reentrancy ∷ BastetTag.cross_function_reentrancy
    ∷ BastetTag.arithmetic ∷ BastetTag.overflow_underflow ∷ BastetTag.precision_loss
    ∷ BastetTag.rounding_error ∷ BastetTag.oracle_manipulation ∷ BastetTag.price_manipulation
    ∷ BastetTag.flash_loan_attack ∷ BastetTag.frontrunning ∷ BastetTag.sandwich_attack
    ∷ BastetTag.mev ∷ BastetTag.logic_error ∷ BastetTag.incorrect_calculation
    ∷ BastetTag.wrong_assumption ∷ BastetTag.missing_check ∷ BastetTag.state_corruption
    ∷ BastetTag.incorrect_state_update ∷ BastetTag.missing_state_update
    ∷ BastetTag.denial_of_service ∷ BastetTag.gas_exhaustion ∷ BastetTag.unbounded_loop
    ∷ BastetTag.signature_replay ∷ BastetTag.missing_signature_verification
    ∷ BastetTag.signature_malleability ∷ BastetTag.uninitialized_variable
    ∷ BastetTag.missing_initialization ∷ BastetTag.upgradability ∷ BastetTag.storage_collision
    ∷ BastetTag.delegatecall_injection ∷ BastetTag.erc20_compliance ∷ BastetTag.fee_on_transfer
    ∷ BastetTag.rebasing_token ∷ BastetTag.unchecked_return_value
    ∷ BastetTag.arbitrary_external_call ∷ BastetTag.centralization_risk ∷ BastetTag.admin_privilege
    ∷ BastetTag.timestamp_dependence ∷ BastetTag.block_number_dependence
    ∷ BastetTag.hardcoded_address ∷ BastetTag.missing_event ∷ BastetTag.informational ∷ []

-- `BastetTag(s)`; `none` is the `ValueError`
unfoldable pub tag_of : String → Option BastetTag
tag_of s = find_first (λ t. tag_value t == s) all_tags
