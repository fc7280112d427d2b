-- ===== src/MockDetect.antt =====
-- audit_agent/guardrails/mock_detect.py: the marks of a test that proves nothing.
pub mod Patterns
use araratsec_agent.Prelude.{String, Bool, true, false, List, [], ◌∷◌, map, select}
use araratsec_agent.Prelude.Texts.{is_in}
use araratsec_agent.Finding.{FindingStatus}

-- `MOCK_PATTERNS`, pattern and label
abbrev pub mock_patterns : List (String × String)
mock_patterns =
    ("vm.mockCall", "mocked_external_call")
    ∷ ("vm.store(", "direct_storage_write")
    ∷ ("vm.etch(", "code_replacement")
    ∷ ("vm.assume(", "input_overconstraint")
    ∷ ("not implemented", "unimplemented_stub")
    ∷ ("assertTrue(true", "trivial_assertion")
    ∷ ("// TODO", "incomplete_marker")
    ∷ []

pub record TestQuality : Type 0 where
  pub is_mock : Bool
  pub flags : List String
  pub status : FindingStatus

abbrev pub quality : List String → TestQuality
quality [] = record { is_mock = false; flags = []; status = FindingStatus.confirmed }
quality (f ∷ fs) = record { is_mock = true; flags = f ∷ fs; status = FindingStatus.mock_review }

unfoldable pub check_test_realism : String → TestQuality
unfolding is_in
check_test_realism code = quality (map (λ e. e.1) (select (λ e. is_in e.0 code) mock_patterns))
