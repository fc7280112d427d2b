-- ===== src/Methodology/Service.antt =====
-- audit_agent/methodology/service.py: `project`, `apply`, `is_grounded` and their helpers. The
-- service has no state: a method is a function of the snapshot, and an exception is a `Fault`.
pub mod Apply
pub mod Imagined
pub mod Effects
use araratsec_agent.Prelude.{
  ℕ, suc, ◌+◌, String, Bool, true, false, Option, none, some, List, [], ◌∷◌, ◌++◌, map, any, length,
  ltb, ◌&&◌, find_first, if◌then◌else◌, ◌==◌,
}
use araratsec_agent.Prelude.Texts.{contains, is_empty, strip}
use araratsec_agent.Prelude.Dict.{Dict, lookup}
use araratsec_agent.Prelude.Result.{Result, ok, raise, ◌>>=◌}
use araratsec_agent.Finding.{Finding, tag_value, severity_value}
use araratsec_agent.Methodology.Models.{
  Fault, snapshot_rejected, unsupported_action, TransitionType, StageOutcome, StageEvent,
  AnalyzerExecution, RoadmapProjection, ProjectedFinding, MethodologyTransition, required_fields,
  Payload, stage_event, analyzer_execution, Body, absent, payloads, single, opaque, ItemKind,
  SnapshotItem, MemorySnapshot, is_falsy,
}
use araratsec_agent.Methodology.Roadmap.{rows}
use araratsec_agent.Methodology.Grounding.{grounding_map, get_false, has_run, is_grounded_in}
use araratsec_agent.Stage3.{run_stage3, Stage3Result}

-- `_reject_bad_snapshot`
unfoldable pub reject_bad_snapshot : MemorySnapshot → Result Fault (Unit {0})
reject_bad_snapshot s =
    if any (λ item. ltb s.as_of_sequence item.log_sequence) s.items
    then raise snapshot_rejected
    else ok tt

-- The last test of `_payload_bodies`, on a body that is itself a payload.
abbrev pub known_payload : Payload → List Payload
known_payload (stage_event e) = stage_event e ∷ []
known_payload (analyzer_execution x) = analyzer_execution x ∷ []
known_payload Payload.other = []

abbrev bodies_of : ItemKind → Body → List Payload
bodies_of ItemKind.dispatch_commit (payloads ps) = ps
bodies_of ItemKind.dispatch_commit (single p) = p ∷ []
bodies_of kind (single p) = known_payload p
bodies_of kind body = []

-- `_payload_bodies`
unfoldable pub payload_bodies : SnapshotItem → List Payload
payload_bodies item = bodies_of item.kind item.body

abbrev pub Unpacked : Type 0
Unpacked = List StageEvent × List AnalyzerExecution

-- The inner loop of `_unpack`: a stage event is validated when it is read.
pub unpack_payloads : List Payload → Unpacked → Result Fault Unpacked
unpack_payloads [] acc = ok acc
unpack_payloads (stage_event e ∷ ps) (es, xs) =
    required_fields e >>= λ e'. unpack_payloads ps (es ++ e' ∷ [], xs)
unpack_payloads (analyzer_execution x ∷ ps) (es, xs) = unpack_payloads ps (es, xs ++ x ∷ [])
unpack_payloads (Payload.other ∷ ps) acc = unpack_payloads ps acc

pub unpack_items : List SnapshotItem → Unpacked → Result Fault Unpacked
unfolding unpack_payloads payload_bodies
unpack_items [] acc = ok acc
unpack_items (item ∷ items) acc =
    unpack_payloads (payload_bodies item) acc >>= λ acc'. unpack_items items acc'

-- `_unpack`
unfoldable pub unpack : MemorySnapshot → Result Fault Unpacked
unfolding unpack_items
unpack s = unpack_items s.items ([], [])

-- A finding item with a body that validates; `except: continue` drops the others.
abbrev finding_of : ItemKind → Body → Option Finding
finding_of ItemKind.finding (Body.finding f) = some f
finding_of kind body = none

pub findings_in : List SnapshotItem → List Finding
findings_in [] = []
findings_in (item ∷ items) = elim (finding_of item.kind item.body) [
  | none ↦ findings_in items
  | some f ↦ f ∷ findings_in items
]

-- `_findings`
unfoldable pub findings_of : MemorySnapshot → List Finding
unfolding findings_in
findings_of s = findings_in s.items

-- `e.transition_type == "synthesize" and e.outcome == "empty"`
abbrev pub is_empty_synthesis : StageEvent → Bool
is_empty_synthesis e =
    (elim e.transition_type [ TransitionType.synthesize ↦ true | _ ↦ false ])
    && (elim e.outcome [ StageOutcome.empty ↦ true | _ ↦ false ])

abbrev pub empty_text : Option String
empty_text = some "empty: no findings to synthesize"

abbrev tags_of : Finding → List String
tags_of f = elim f.bastet_tag [ none ↦ [] | some t ↦ tag_value t ∷ [] ]

-- `next((e.analyzer_id for e in executions if …), None)`
abbrev analyzer_for : List AnalyzerExecution → String → Option String
analyzer_for xs fid = elim (find_first (λ x. contains fid x.finding_ids && has_run x) xs) [
  | none ↦ none
  | some x ↦ some x.analyzer_id
]

pub project_finding : Dict Bool → List AnalyzerExecution → Finding → ProjectedFinding
project_finding grounded xs f = record {
  finding_id = f.finding_id;
  location = f.location;
  severity = severity_value f.severity;
  tags = tags_of f;
  preconditions = f.preconditions;
  notes = "";
  grounded = get_false (lookup f.finding_id grounded);
  analyzer_id = analyzer_for xs f.finding_id;
}

-- The projection of what a snapshot unpacks to.
unfoldable pub projection_of : ℕ → List Finding → Unpacked → RoadmapProjection
unfolding project_finding
projection_of seq fs (es, xs) = record {
  as_of_sequence = seq;
  targets = rows es;
  findings = map (project_finding (grounding_map fs xs) xs) fs;
  empty_label = if any is_empty_synthesis es then empty_text else none;
}

unfoldable pub project : MemorySnapshot → Result Fault RoadmapProjection
project s = reject_bad_snapshot s >>= λ _.
    unpack s >>= λ unpacked. ok (projection_of s.as_of_sequence (findings_of s) unpacked)

-- The item that `_imagine` appends: the payloads of the transition, committed.
abbrev pub imagined_item : MemorySnapshot → StageEvent → List AnalyzerExecution → SnapshotItem
imagined_item s e xs = record {
  record_id = "imagined";
  log_sequence = suc s.as_of_sequence;
  kind = ItemKind.dispatch_commit;
  body = payloads (stage_event e ∷ map analyzer_execution xs);
}

-- `_imagine`
unfoldable pub imagine : MemorySnapshot → StageEvent → List AnalyzerExecution → MemorySnapshot
imagine s e xs = record s {
  as_of_sequence = suc s.as_of_sequence;
  items = s.items ++ imagined_item s e xs ∷ [];
}

-- The kernel's `Action`, as far as `apply` reads it: the type and three text parameters.
pub data ActionType : Type 0 where
  run_discovery run_check skip_target run_synthesis gap other : ActionType

pub record Action : Type 0 where
  pub action_type : ActionType
  pub param_chunk_id : Option String
  pub param_target : Option String
  pub param_reason : Option String

-- `Stage1Report`, as far as `apply` reads it.
pub record Stage1Report : Type 0 where
  pub priority_targets : List String
  pub skipped_targets : List String

-- The keyword arguments of `apply`.
pub record ApplyArgs : Type 0 where
  pub report : Option Stage1Report
  pub executions : List AnalyzerExecution
  pub extra_findings : List Finding
  pub chunk_id : Option String
  pub outcome : Option StageOutcome
  pub reason : Option String
  pub gap_target : Option String

-- `a or b`, on optional texts
abbrev pub or_text : Option String → Option String → Option String
or_text a b = if is_falsy a then b else a

-- `str(x or "")`
abbrev pub or_empty : Option String → String
or_empty none = ""
or_empty (some s) = s

abbrev zeros : String
zeros = "0000000000000000000000000000000000000000000000000000000000000000"

abbrev priority_of : Option Stage1Report → List String
priority_of none = []
priority_of (some r) = r.priority_targets

abbrev skipped_of : Option Stage1Report → List String
skipped_of none = []
skipped_of (some r) = r.skipped_targets

abbrev pub outcome_or_ran : Option StageOutcome → StageOutcome
outcome_or_ran none = StageOutcome.ran
outcome_or_ran (some o) = o

abbrev pub gap_reason : String
gap_reason = "path is outside the bound include set"

-- The fields that every branch of `apply` fills alike.
abbrev event_with :
    MemorySnapshot
    → ℕ
    → TransitionType
    → Option String
    → Option String
    → StageOutcome
    → Option String
    → StageEvent
event_with s revision kind chunk named outcome why = record {
  transition_type = kind;
  roadmap_revision = revision;
  chunk_id = chunk;
  target = named;
  outcome = outcome;
  reason = why;
  as_of_sequence = s.as_of_sequence;
  targets = [];
  skipped_targets = [];
}

-- The event that each branch of `apply` builds, before its validation.
abbrev pub discover_event : MemorySnapshot → ℕ → Action → ApplyArgs → StageEvent
discover_event s n a k =
    let e =
      event_with s n TransitionType.discover
        (or_text (or_text k.chunk_id a.param_chunk_id) (some zeros)) none StageOutcome.ran none in
    record e { targets = priority_of k.report; skipped_targets = skipped_of k.report }

abbrev pub check_event : MemorySnapshot → ℕ → Action → ApplyArgs → StageEvent
check_event s n a k =
    event_with s n TransitionType.check none (some (or_empty a.param_target))
      (outcome_or_ran k.outcome) none

abbrev pub skip_event : MemorySnapshot → ℕ → Action → ApplyArgs → StageEvent
skip_event s n a k =
    event_with s n TransitionType.skip none (some (or_empty a.param_target)) StageOutcome.skipped
      (some (strip (or_empty (or_text a.param_reason k.reason))))

abbrev pub synthesis_event : MemorySnapshot → ℕ → StageOutcome → StageEvent
synthesis_event s n outcome = event_with s n TransitionType.synthesize none none outcome none

abbrev pub gap_event : MemorySnapshot → ℕ → Action → ApplyArgs → StageEvent
gap_event s n a k =
    event_with s n TransitionType.gap none (some (or_empty (or_text k.gap_target a.param_target)))
      StageOutcome.did_not_run (or_text k.reason (some gap_reason))

-- The findings that a synthesis returns, and its outcome.
unfoldable pub synthesis : List Finding → List Finding × StageOutcome
synthesis [] = ([], StageOutcome.empty)
synthesis (f ∷ fs) = ((run_stage3 (f ∷ fs) []).findings, StageOutcome.ran)

-- The branch ladder of `apply`: the event before its validation, and the findings.
unfoldable pub draft_event :
    MemorySnapshot → ℕ → Action → ApplyArgs → Result Fault (StageEvent × List Finding)
unfolding synthesis
draft_event s n a k = elim a.action_type [
  | ActionType.run_discovery ↦ ok (discover_event s n a k, k.extra_findings)
  | ActionType.run_check ↦ ok (check_event s n a k, k.extra_findings)
  | ActionType.skip_target ↦ ok (skip_event s n a k, k.extra_findings)
  | ActionType.run_synthesis ↦
      (let (fs, outcome) = synthesis (findings_of s ++ k.extra_findings) in
        ok (synthesis_event s n outcome, fs))
  | ActionType.gap ↦ ok (gap_event s n a k, k.extra_findings)
  | ActionType.other ↦
      if is_falsy k.gap_target
      then raise unsupported_action
      else ok (gap_event s n a k, k.extra_findings)
]

-- `model_copy(update={"empty_label": …})` after an empty synthesis
abbrev pub relabel : StageEvent → RoadmapProjection → RoadmapProjection
relabel e p = if is_empty_synthesis e then record p { empty_label = empty_text } else p

-- The end of `apply`, from the validated event on.
unfoldable pub commit_event :
    MemorySnapshot
    → List AnalyzerExecution
    → StageEvent
    → List Finding
    → Result Fault MethodologyTransition
commit_event s xs e fs = project (imagine s e xs) >>= λ p.
    ok (record { stage_event = e; executions = xs; findings = fs; projection = relabel e p })

unfoldable pub apply : MemorySnapshot → Action → ApplyArgs → Result Fault MethodologyTransition
apply s a k = reject_bad_snapshot s >>= λ _. unpack s >>= λ unpacked.
    draft_event s (length unpacked.0) a k >>= λ drafted.
    required_fields drafted.0 >>= λ e. commit_event s k.executions e drafted.1

-- `is_grounded`
unfoldable pub is_grounded :
    MemorySnapshot → String → Option String → Option String → Result Fault Bool
is_grounded s fid target digest = reject_bad_snapshot s >>= λ _.
    unpack s >>= λ unpacked. ok (is_grounded_in (findings_of s) unpacked.1 fid target digest)
