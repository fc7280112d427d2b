-- ===== src/Tests/Planning.antt =====
-- The examples of the methodology service and of the discovery chunks.
use mathlib.Core.Bool.{false≢true}
use araratsec_agent.Prelude.{
  ℕ, ◌≤◌, ◌<◌, ◌≡◌, ◌≢◌, refl, ◌↔◌, String, true, false, none, some, List, [], ◌∷◌, map, any, All,
  length, arith, eq_iff,
}
use araratsec_agent.Prelude.Texts.{contains, before_colon, strip}
use araratsec_agent.Prelude.Dict.{lookup}
use araratsec_agent.Prelude.Result.{Result, ok, raise}
use araratsec_agent.Finding.{Finding, Severity, FindingStatus}
use araratsec_agent.Methodology.Models.{
  StageEvent, TransitionType, StageOutcome, AnalyzerOutcome, AnalyzerExecution, RoadmapProjection,
  MethodologyTransition, MemorySnapshot, ItemKind, Body, Payload, Fault, invalid_event, is_blank,
  required_fields,
}
use araratsec_agent.Methodology.Roadmap.{rows}
use araratsec_agent.Methodology.Roadmap.Latest.{
  row_of, or_else, last_decision, first_discovery, decision, discovery, row_of-rows,
}
use araratsec_agent.Methodology.Grounding.{grounding_map, is_grounded_in, get_false, supports}
use araratsec_agent.Methodology.Grounding.Agreement.{
  last_with_id, grounding_map-supports, is_grounded-grounding_map,
}
use araratsec_agent.Methodology.Service.{
  ActionType, Action, ApplyArgs, project, apply, or_empty, or_text, reject_bad_snapshot, unpack,
  Unpacked, draft_event, commit_event, imagine,
}
use araratsec_agent.Methodology.Service.Apply.{row_of-apply}
use araratsec_agent.Methodology.Service.Effects.{
  check_marks_analysed, skip_needs_reason, analysed_row, skipped_row,
}
use araratsec_agent.Cursor.{Chunk, chunk_size, ordered, partition_chunks, first_uncommitted_chunk}
use araratsec_agent.Cursor.Chunks.{join_groups, partition_chunks_complete}
use araratsec_agent.Cursor.Progress.{remaining, first_uncommitted_chunk_progress}

abbrev seen : StageEvent
seen = record {
  transition_type = TransitionType.discover;
  roadmap_revision = 0;
  chunk_id = some "c0";
  target = none;
  outcome = StageOutcome.ran;
  reason = none;
  as_of_sequence = 0;
  targets = "Vault.sol" ∷ "Token.sol" ∷ [];
  skipped_targets = [];
}

abbrev checked : StageEvent
checked = record seen {
  transition_type = TransitionType.check;
  chunk_id = none;
  target = some "Vault.sol";
  targets = [];
}

abbrev history : List StageEvent
history = seen ∷ checked ∷ []

row_of-rows_example :
    row_of "Vault.sol" (rows history)
    ≡ or_else (last_decision "Vault.sol" history) (first_discovery "Vault.sol" history)
row_of-rows_example = row_of-rows "Vault.sol" history

abbrev leak : Finding
leak = record {
  finding_id = "F-1";
  location = "Vault.sol:withdraw";
  function_name = "withdraw";
  bastet_tag = none;
  severity = Severity.high;
  status = FindingStatus.opened;
  preconditions = [];
  mitigations_present = [];
  poc_path = none;
  poc_status = none;
  combined_with = [];
}

abbrev slither : AnalyzerExecution
slither = record {
  analyzer_id = "slither";
  analyzer_version = "1";
  target = "Vault.sol";
  target_digest = "d";
  analyzer_outcome = AnalyzerOutcome.ran;
  result_truncated = "";
  finding_ids = "F-1" ∷ [];
}

abbrev leaks : List Finding
leaks = leak ∷ []

abbrev runs : List AnalyzerExecution
runs = slither ∷ []

grounding_map-supports_example :
    get_false (lookup "F-1" (grounding_map leaks runs)) ≡ elim (last_with_id "F-1" leaks) [
      | none ↦ false
      | some f ↦ any (supports "F-1" (before_colon f.location) none) runs
    ]
grounding_map-supports_example = grounding_map-supports leaks runs "F-1"

is_grounded-grounding_map_example :
    is_grounded_in leaks runs "F-1" none none ≡ get_false (lookup "F-1" (grounding_map leaks runs))
is_grounded-grounding_map_example = is_grounded-grounding_map leaks runs "F-1" (omega arith)

abbrev snapshot : MemorySnapshot
snapshot = record {
  session_id = "s";
  as_of_sequence = 2;
  measured_bytes = 0;
  items =
      record {
        record_id = "r1";
        log_sequence = 1;
        kind = ItemKind.dispatch_commit;
        body = Body.payloads (Payload.stage_event seen ∷ []);
      }
      ∷ [];
}

abbrev check_vault : Action
check_vault = record {
  action_type = ActionType.run_check;
  param_chunk_id = none;
  param_target = some "Vault.sol";
  param_reason = none;
}

abbrev no_args : ApplyArgs
no_args = record {
  report = none;
  executions = [];
  extra_findings = [];
  chunk_id = none;
  outcome = none;
  reason = none;
  gap_target = none;
}

abbrev or_start : Result Fault RoadmapProjection → RoadmapProjection
or_start (ok p) = p
or_start (raise e) = record { as_of_sequence = 0; targets = []; findings = []; empty_label = none }

abbrev or_seen : Result Fault MethodologyTransition → MethodologyTransition
or_seen (ok t) = t
or_seen (raise e) = record {
  stage_event = seen;
  executions = [];
  findings = [];
  projection = or_start (raise e);
}

vault_checked :
    apply snapshot check_vault no_args ≡ ok (or_seen (apply snapshot check_vault no_args))
unfolding apply project reject_bad_snapshot unpack required_fields draft_event commit_event imagine
vault_checked = refl

vault_projected : project snapshot ≡ ok (or_start (project snapshot))
unfolding project reject_bad_snapshot unpack required_fields
vault_projected = refl

abbrev transition : MethodologyTransition
transition = or_seen (apply snapshot check_vault no_args)

abbrev projection : RoadmapProjection
projection = or_start (project snapshot)

row_of-apply_example :
    row_of "Vault.sol" transition.projection.targets
    ≡ or_else (decision "Vault.sol" transition.stage_event) (
        or_else
          (row_of "Vault.sol" projection.targets)
          (discovery "Vault.sol" transition.stage_event))
row_of-apply_example =
    row_of-apply snapshot check_vault no_args transition projection "Vault.sol" vault_checked
      vault_projected

abbrev opened : Unpacked
opened = (seen ∷ [], [])

is_sound : reject_bad_snapshot snapshot ≡ ok tt
unfolding reject_bad_snapshot
is_sound = refl

is_opened : unpack snapshot ≡ ok opened
unfolding unpack required_fields
is_opened = refl

vault_named : ◌≢◌ {A = String} "Vault.sol" ""
vault_named e = false≢true ((eq_iff "Vault.sol" "").1 e)

token_named : ◌≢◌ {A = String} "Token.sol" ""
token_named e = false≢true ((eq_iff "Token.sol" "").1 e)

check_marks_analysed_example :
    (t : MethodologyTransition) × (apply snapshot check_vault no_args ≡ ok t)
    × (row_of "Vault.sol" t.projection.targets ≡ some (analysed_row "Vault.sol"))
check_marks_analysed_example =
    check_marks_analysed snapshot opened is_sound is_opened check_vault no_args "Vault.sol" refl
      refl vault_named

abbrev skip_token : Action
skip_token = record {
  action_type = ActionType.skip_target;
  param_chunk_id = none;
  param_target = some "Token.sol";
  param_reason = some " mock ";
}

skip_needs_reason_example :
    let why = strip (or_empty (or_text (some " mock ") none)) in
    (is_blank (some why) ≡ true → apply snapshot skip_token no_args ≡ raise invalid_event)
    × (is_blank (some why) ≡ false
        → (t : MethodologyTransition) × (apply snapshot skip_token no_args ≡ ok t)
          × (row_of "Token.sol" t.projection.targets ≡ some (skipped_row "Token.sol" why)))
skip_needs_reason_example =
    skip_needs_reason snapshot opened is_sound is_opened skip_token no_args "Token.sol" refl refl
      token_named

-- A digest for the examples: the first path.
abbrev first_path : ℕ → List String → String
first_path revision [] = ""
first_path revision (p ∷ ps) = p

abbrev listing : List String
listing = "b.sol" ∷ "a.sol" ∷ "c.sol" ∷ []

partition_chunks_complete_example :
    let groups = map (λ (c : Chunk). c.1) (partition_chunks first_path listing 0 2) in
    (join_groups groups ≡ ordered listing) × All (λ g. (0 < length g) × (length g ≤ 2)) groups
partition_chunks_complete_example = partition_chunks_complete first_path listing 0 2 (omega arith)

abbrev swapped : List String
swapped = "a.sol" ∷ "b.sol" ∷ "c.sol" ∷ []

first_uncommitted_chunk_progress_example :
    let cs = partition_chunks first_path listing 0 chunk_size in
    ((first_uncommitted_chunk first_path listing [] 0 ≡ none)
      ↔ All (λ (c : Chunk). contains c.0 [] ≡ true) cs)
    × ((c : Chunk)
        → first_uncommitted_chunk first_path listing [] 0 ≡ some c
        → (contains c.0 [] ≡ false) × (remaining (c.0 ∷ []) cs < remaining [] cs))
first_uncommitted_chunk_progress_example = first_uncommitted_chunk_progress first_path listing [] 0
