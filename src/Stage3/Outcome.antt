-- ===== src/Stage3/Outcome.antt =====
-- What `run_stage3` returns, finding by finding.
use araratsec_agent.Prelude.{◌≤◌, ◌≡◌, ◌⊎◌, true, false, List, [], ◌∷◌, map, All, arith}
use araratsec_agent.Prelude.Dict.{Dict}
use araratsec_agent.Finding.{Finding, Severity}
use araratsec_agent.Severity.{rank, has_mitigations, check_severity, was_corrected, final}
use araratsec_agent.Severity.Rules.{settled, check_severity_rules}
use araratsec_agent.Sig.{StateInterferenceGraph}
use araratsec_agent.Stage3.Store.{Pointwise, Pointwise-refl}
use araratsec_agent.Stage3.Keeps.{Evolved, Evolved-refl, combine_groups-Evolved}
use araratsec_agent.Stage3.{correct, run_stage3, group_from}

-- `y` is what Stage 3 makes of the reported finding `x`: the same finding, whose severity is the
-- settled one, or critical where the settled one is high or critical and there is no mitigation.
pub record Synthesized (x y : Finding) : Type 0 where
  pub same_id : y.finding_id ≡ x.finding_id
  pub same_location : y.location ≡ x.location
  pub same_function : y.function_name ≡ x.function_name
  pub same_tag : y.bastet_tag ≡ x.bastet_tag
  pub same_status : y.status ≡ x.status
  pub same_preconditions : y.preconditions ≡ x.preconditions
  pub same_mitigations : y.mitigations_present ≡ x.mitigations_present
  pub same_poc_path : y.poc_path ≡ x.poc_path
  pub same_poc_status : y.poc_status ≡ x.poc_status
  pub severity_settled :
      (y.severity ≡ settled x)
      ⊎ ((y.severity ≡ Severity.critical) × (has_mitigations x ≡ false) × (3 ≤ rank (settled x)))

correct-severity : (x : Finding) → (correct x).severity ≡ settled x
unfolding correct check_severity was_corrected final
correct-severity x = ground arith

correct-Synthesized : (x y : Finding) → Evolved (correct x) y → Synthesized x y
unfolding correct has_mitigations
correct-Synthesized x y e = ground (arith, correct-severity x)

map-correct-Evolved :
    (xs ys : List Finding) → Pointwise Evolved (map correct xs) ys → Pointwise Synthesized xs ys
map-correct-Evolved [] [] p = tt
map-correct-Evolved [] (y ∷ ys) p = absurd p
map-correct-Evolved (x ∷ xs) [] p = absurd p
map-correct-Evolved (x ∷ xs) (y ∷ ys) p =
    (correct-Synthesized x y p.0, map-correct-Evolved xs ys p.1)

-- Stage 3 returns the findings in their order. Each keeps all its fields but the severity and the
-- links, and its severity is the settled one, or critical where the settled one is at least high
-- and the finding is unmitigated.
pub run_stage3-Synthesized :
    (findings : List Finding) (sigs : Dict StateInterferenceGraph)
    → Pointwise Synthesized findings (run_stage3 findings sigs).findings
unfolding run_stage3
run_stage3-Synthesized findings sigs = map-correct-Evolved findings _ (
    combine_groups-Evolved sigs (group_from 0 (map correct findings) []) (map correct findings)
      (map correct findings) [] (Pointwise-refl Evolved Evolved-refl (map correct findings)))

Synthesized-mitigated :
    (x y : Finding) → Synthesized x y → has_mitigations y ≡ true → rank y.severity ≤ 2
unfolding has_mitigations
Synthesized-mitigated x y s m = ground (arith, (check_severity_rules x).0)

Pointwise-mitigated :
    (xs ys : List Finding)
    → Pointwise Synthesized xs ys
    → All (λ y. has_mitigations y ≡ true → rank y.severity ≤ 2) ys
Pointwise-mitigated [] [] p = tt
Pointwise-mitigated [] (y ∷ ys) p = absurd p
Pointwise-mitigated (x ∷ xs) [] p = absurd p
Pointwise-mitigated (x ∷ xs) (y ∷ ys) p =
    (Synthesized-mitigated x y p.0, Pointwise-mitigated xs ys p.1)

-- No finding with a mitigation leaves Stage 3 above medium, whatever was reported and whatever it
-- interacts with.
pub run_stage3-mitigated :
    (findings : List Finding) (sigs : Dict StateInterferenceGraph)
    → All (λ y. has_mitigations y ≡ true → rank y.severity ≤ 2) (run_stage3 findings sigs).findings
run_stage3-mitigated findings sigs =
    Pointwise-mitigated findings _ (run_stage3-Synthesized findings sigs)
