-- ===== src/MockDetect/Patterns.antt =====
-- When a test is confirmed.
use araratsec_agent.Prelude.{
  ◌≡◌, refl, ◌↔◌, String, true, false, List, [], ◌∷◌, map, select, All, arith,
}
use araratsec_agent.Prelude.Texts.{is_in}
use araratsec_agent.Finding.{FindingStatus}
use araratsec_agent.MockDetect.{mock_patterns, check_test_realism, quality}

labels-nil :
    (code : String) (ps : List (String × String))
    → (map (λ e. e.1) (select (λ e. is_in e.0 code) ps) ≡ []) ↔ All (λ e. is_in e.0 code ≡ false) ps
labels-nil code [] = (λ h. tt, λ h. refl)
labels-nil code (p ∷ ps) = ground (arith, labels-nil code ps)

status_iff : (fs : List String) → ((quality fs).status ≡ FindingStatus.confirmed) ↔ (fs ≡ [])
status_iff [] = ground arith
status_iff (f ∷ fs) = ground arith

flags_iff :
    (fs : List String) → ((quality fs).flags ≡ []) ↔ ((quality fs).status ≡ FindingStatus.confirmed)
flags_iff [] = ground arith
flags_iff (f ∷ fs) = ground arith

mock_iff :
    (fs : List String)
    → ((quality fs).is_mock ≡ true) ↔ ((quality fs).status ≡ FindingStatus.mock_review)
mock_iff [] = ground arith
mock_iff (f ∷ fs) = ground arith

-- The code of a test is confirmed, without a flag, exactly if it contains none of the patterns; in
-- every other case the finding goes to the review of mocks, with a flag.
pub check_test_realism-confirmed_iff :
    (code : String)
    → let q = check_test_realism code in
      ((q.status ≡ FindingStatus.confirmed) ↔ All (λ e. is_in e.0 code ≡ false) mock_patterns)
      × ((q.flags ≡ []) ↔ (q.status ≡ FindingStatus.confirmed))
      × ((q.is_mock ≡ true) ↔ (q.status ≡ FindingStatus.mock_review))
unfolding check_test_realism
check_test_realism-confirmed_iff code =
    let found = map (λ (e : String × String). e.1) (select (λ e. is_in e.0 code) mock_patterns) in
    let none_found = labels-nil code mock_patterns in
    let confirmed = status_iff found in
    (
      (λ h. none_found.0 (confirmed.0 h), λ h. confirmed.1 (none_found.1 h)),
      flags_iff found,
      mock_iff found,
    )
