-- ===== src/Tests/Findings.antt =====
-- The examples of findings: severity, escalation, interference, stage 3 and the taxonomy.
use araratsec_agent.Prelude.{
  ◌≤◌, ◌<◌, ◌≡◌, ◌≢◌, refl, ◌↔◌, ◌⊎◌, String, true, false, Option, none, some, List, [], ◌∷◌, All,
}
use araratsec_agent.Prelude.Dict.{lookup}
use araratsec_agent.Finding.{Finding, Severity, FindingStatus, PocStatus}
use araratsec_agent.Severity.{rank, has_mitigations, active_preconditions}
use araratsec_agent.Severity.Rules.{settled, check_severity_rules}
use araratsec_agent.Escalation.{domain_escalation, contradicts}
use araratsec_agent.Escalation.Order.{escalation-none_iff}
use araratsec_agent.Sig.{StateInterferenceGraph, get_filtered_pairs}
use araratsec_agent.Sig.Pairs.{PairIn, Before, fn_interfere, get_filtered_pairs_iff}
use araratsec_agent.Stage3.{run_stage3}
use araratsec_agent.Stage3.Store.{Pointwise}
use araratsec_agent.Stage3.Outcome.{Synthesized, run_stage3-Synthesized, run_stage3-mitigated}
use araratsec_agent.Taxonomy.{
  Event, Share, classify, closed, synthesis_causes, fold_nature, cause_nature, is_ok, model,
  tally_events, nature_counts, count_event, count_terminal, bump, bump_in, set_terminal,
  in_denominator, synth_for,
}
use araratsec_agent.Taxonomy.Shares.{total, classify-bounded}
use araratsec_agent.Taxonomy.Causes.{fold_nature-model}

-- A high, mitigated finding of one function of a contract.
abbrev drain : Finding
drain = record {
  finding_id = "HIGH-001";
  location = "Vault.sol:withdraw";
  function_name = "withdraw";
  bastet_tag = none;
  severity = Severity.critical;
  status = FindingStatus.opened;
  preconditions = (1, true) ∷ (2, true) ∷ [];
  mitigations_present = "nonReentrant" ∷ [];
  poc_path = none;
  poc_status = none;
  combined_with = [];
}

abbrev stale : Finding
stale = record drain {
  finding_id = "HIGH-002";
  location = "Vault.sol:deposit";
  severity = Severity.high;
  mitigations_present = [];
}

abbrev vault : StateInterferenceGraph
vault = record {
  functions =
      (
        "withdraw",
        record { name = "withdraw"; reads = []; writes = "balance" ∷ []; has_external_call = true },
      )
      ∷ (
        "deposit",
        record { name = "deposit"; reads = "balance" ∷ []; writes = []; has_external_call = false },
      )
      ∷ [];
}

check_severity_rules_example :
    (has_mitigations drain ≡ true
      → (rank (settled drain) ≤ 2)
        × (rank drain.severity ≤ 2 → settled drain ≡ drain.severity)
        × (2 < rank drain.severity → settled drain ≡ Severity.medium))
    × (has_mitigations drain ≡ false
        → 4 ≤ active_preconditions drain
        → (rank drain.severity < 3 → settled drain ≡ Severity.high)
          × (3 ≤ rank drain.severity → settled drain ≡ drain.severity))
    × (has_mitigations drain ≡ false
        → active_preconditions drain < 4
        → settled drain ≡ drain.severity)
check_severity_rules_example = check_severity_rules drain

escalation-none_iff_example : (domain_escalation (some drain) (stale ∷ []) ≡ none) ↔ (
    (drain.severity ≢ Severity.critical)
    × (drain.severity ≡ Severity.high → drain.status ≢ FindingStatus.unverified)
    × (drain.poc_status ≢ some PocStatus.mock_review)
    × All (λ e. contradicts drain e ≡ false) (stale ∷ [])
    × (drain.bastet_tag ≡ none
        → (drain.severity ≡ Severity.low) ⊎ (drain.severity ≡ Severity.informational)))
escalation-none_iff_example = escalation-none_iff drain (stale ∷ [])

abbrev spots : List String
spots = "Vault.sol:withdraw" ∷ "Vault.sol:deposit" ∷ []

get_filtered_pairs_iff_example :
    PairIn ("Vault.sol:withdraw", "Vault.sol:deposit") (get_filtered_pairs spots vault) ↔ (
      Before "Vault.sol:withdraw" "Vault.sol:deposit" spots
      × (fn_interfere vault "Vault.sol:withdraw" "Vault.sol:deposit" ≡ true))
get_filtered_pairs_iff_example =
    get_filtered_pairs_iff vault "Vault.sol:withdraw" "Vault.sol:deposit" spots

abbrev pair : List Finding
pair = drain ∷ stale ∷ []

run_stage3-Synthesized_example :
    Pointwise Synthesized pair (run_stage3 pair (("Vault.sol", vault) ∷ [])).findings
run_stage3-Synthesized_example = run_stage3-Synthesized pair (("Vault.sol", vault) ∷ [])

run_stage3-mitigated_example :
    All (λ y. has_mitigations y ≡ true → rank y.severity ≤ 2) (run_stage3 pair []).findings
run_stage3-mitigated_example = run_stage3-mitigated pair []

abbrev attempt : String → Event
attempt cause = record {
  run_id = some "run-1";
  model = some "m";
  terminal = true;
  event = none;
  level = some "finding_attempt";
  cause = some cause;
  finding_id = some "HIGH-001";
  finding_class = none;
}

abbrev failed_run : List Event
failed_run = attempt "model" ∷ []

abbrev failed_share : Share
failed_share = record { counts = record { infra = 0; synth = 0; own = 1 }; denom = 1 }

classify-bounded_example : total failed_share.counts ≤ failed_share.denom
unfolding classify tally_events nature_counts count_event count_terminal bump bump_in set_terminal
    in_denominator fold_nature cause_nature is_ok lookup synth_for
classify-bounded_example = classify-bounded failed_run false failed_share refl

abbrev synthesized_once : List (Option String)
synthesized_once = some "synthesized" ∷ []

fold_nature-model_example :
    All (λ c. is_ok (closed c synthesis_causes) ≡ true) synthesized_once
    × (cause_nature "model" ≡ some model)
unfolding fold_nature cause_nature is_ok lookup
fold_nature-model_example = fold_nature-model "model" synthesized_once refl
