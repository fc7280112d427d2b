-- ===== src/Finding/Enums.antt =====
-- Parsing a member of an enum by its value, as a validated payload does.
use araratsec_agent.Prelude.{
  String, ◌≡◌, refl, some, List, [], ◌∷◌, find_first, ◌↔◌, arith, ◌==◌, eq_iff,
}
use araratsec_agent.Finding.{
  Severity, severity_value, severity_of, BastetTag, tag_value, tag_of, all_tags, all_severities,
}

-- A member that a search finds has the value that was asked for.
found-value {ℓ} :
    {A : Type ℓ} (value : A → String) (s : String) (xs : List A) (a : A)
    → find_first (λ x. value x == s) xs ≡ some a
    → value a ≡ s
found-value value s [] a h = cc
found-value value s (x ∷ xs) a h = ground (arith, eq_iff (value x) s, found-value value s xs a)

tag_of-tag_value : (t : BastetTag) → tag_of (tag_value t) ≡ some t
unfolding tag_of
tag_of-tag_value BastetTag.access_control = refl
tag_of-tag_value BastetTag.missing_access_control = refl
tag_of-tag_value BastetTag.incorrect_access_control = refl
tag_of-tag_value BastetTag.reentrancy = refl
tag_of-tag_value BastetTag.read_only_reentrancy = refl
tag_of-tag_value BastetTag.cross_function_reentrancy = refl
tag_of-tag_value BastetTag.arithmetic = refl
tag_of-tag_value BastetTag.overflow_underflow = refl
tag_of-tag_value BastetTag.precision_loss = refl
tag_of-tag_value BastetTag.rounding_error = refl
tag_of-tag_value BastetTag.oracle_manipulation = refl
tag_of-tag_value BastetTag.price_manipulation = refl
tag_of-tag_value BastetTag.flash_loan_attack = refl
tag_of-tag_value BastetTag.frontrunning = refl
tag_of-tag_value BastetTag.sandwich_attack = refl
tag_of-tag_value BastetTag.mev = refl
tag_of-tag_value BastetTag.logic_error = refl
tag_of-tag_value BastetTag.incorrect_calculation = refl
tag_of-tag_value BastetTag.wrong_assumption = refl
tag_of-tag_value BastetTag.missing_check = refl
tag_of-tag_value BastetTag.state_corruption = refl
tag_of-tag_value BastetTag.incorrect_state_update = refl
tag_of-tag_value BastetTag.missing_state_update = refl
tag_of-tag_value BastetTag.denial_of_service = refl
tag_of-tag_value BastetTag.gas_exhaustion = refl
tag_of-tag_value BastetTag.unbounded_loop = refl
tag_of-tag_value BastetTag.signature_replay = refl
tag_of-tag_value BastetTag.missing_signature_verification = refl
tag_of-tag_value BastetTag.signature_malleability = refl
tag_of-tag_value BastetTag.uninitialized_variable = refl
tag_of-tag_value BastetTag.missing_initialization = refl
tag_of-tag_value BastetTag.upgradability = refl
tag_of-tag_value BastetTag.storage_collision = refl
tag_of-tag_value BastetTag.delegatecall_injection = refl
tag_of-tag_value BastetTag.erc20_compliance = refl
tag_of-tag_value BastetTag.fee_on_transfer = refl
tag_of-tag_value BastetTag.rebasing_token = refl
tag_of-tag_value BastetTag.unchecked_return_value = refl
tag_of-tag_value BastetTag.arbitrary_external_call = refl
tag_of-tag_value BastetTag.centralization_risk = refl
tag_of-tag_value BastetTag.admin_privilege = refl
tag_of-tag_value BastetTag.timestamp_dependence = refl
tag_of-tag_value BastetTag.block_number_dependence = refl
tag_of-tag_value BastetTag.hardcoded_address = refl
tag_of-tag_value BastetTag.missing_event = refl
tag_of-tag_value BastetTag.informational = refl

-- A text is read as a Bastet tag exactly when it is that tag's value: every tag is read back from
-- its own value, and a text that is no tag's value is read as no tag.
pub tag_of_iff : (s : String) (t : BastetTag) → (tag_of s ≡ some t) ↔ (tag_value t ≡ s)
tag_of_iff s t = (
  λ h. found-value tag_value s all_tags t (unfold tag_of in h),
  λ e. rw (← e) (tag_of-tag_value t),
)

severity_of-severity_value : (v : Severity) → severity_of (severity_value v) ≡ some v
unfolding severity_of
severity_of-severity_value Severity.critical = refl
severity_of-severity_value _ = refl

pub severity_of_iff :
    (s : String) (v : Severity) → (severity_of s ≡ some v) ↔ (severity_value v ≡ s)
severity_of_iff s v = (
  λ h. found-value severity_value s all_severities v (unfold severity_of in h),
  λ e. rw (← e) (severity_of-severity_value v),
)
