-- ===== src/Methodology/Models.antt =====
-- audit_agent/methodology/models.py, and the kernel's snapshot as far as the reducer reads it. A
-- JSON payload is the record that it dumps: decoding a text is the kernel's part. A stage event
-- that comes from a snapshot is raw until its validator has run.
use araratsec_agent.Prelude.{
  ℕ, String, Bool, true, false, Option, none, some, List, ◌&&◌, if◌then◌else◌,
}
use araratsec_agent.Prelude.Texts.{is_empty, strip}
use araratsec_agent.Prelude.Result.{Result, ok, raise}
use araratsec_agent.Finding.{Finding}

pub data TransitionType : Type 0 where
  discover check synthesize skip gap : TransitionType

pub data StageOutcome : Type 0 where
  ran did_not_run timeout skipped empty : StageOutcome

pub data AnalyzerOutcome : Type 0 where
  ran did_not_run timeout : AnalyzerOutcome

pub data RoadmapState : Type 0 where
  pending analysed skipped gap : RoadmapState

pub record StageEvent : Type 0 where
  pub transition_type : TransitionType
  pub roadmap_revision : ℕ
  pub chunk_id : Option String
  pub target : Option String
  pub outcome : StageOutcome
  pub reason : Option String
  pub as_of_sequence : ℕ
  pub targets : List String
  pub skipped_targets : List String

pub record AnalyzerExecution : Type 0 where
  pub analyzer_id : String
  pub analyzer_version : String
  pub target : String
  pub target_digest : String
  pub analyzer_outcome : AnalyzerOutcome
  pub result_truncated : String
  pub finding_ids : List String

pub record RoadmapRow : Type 0 where
  pub target : String
  pub state : RoadmapState
  pub reason : Option String
  pub chunk_id : Option String

pub record ProjectedFinding : Type 0 where
  pub finding_id : String
  pub location : String
  pub severity : String
  pub tags : List String
  pub preconditions : List (ℕ × Bool)
  pub notes : String
  pub grounded : Bool
  pub analyzer_id : Option String

pub record RoadmapProjection : Type 0 where
  pub as_of_sequence : ℕ
  pub targets : List RoadmapRow
  pub findings : List ProjectedFinding
  pub empty_label : Option String

pub record MethodologyTransition : Type 0 where
  pub stage_event : StageEvent
  pub executions : List AnalyzerExecution
  pub findings : List Finding
  pub projection : RoadmapProjection

-- `SnapshotRejected`, pydantic's `ValidationError`, and the `ValueError` of `apply`
pub data Fault : Type 0 where
  snapshot_rejected invalid_event unsupported_action : Fault

-- `not x` on an optional text
abbrev pub is_falsy : Option String → Bool
is_falsy none = true
is_falsy (some s) = is_empty s

-- `(x or "").strip()` is empty
abbrev pub is_blank : Option String → Bool
is_blank none = true
is_blank (some s) = is_empty (strip s)

abbrev is_discover : TransitionType → Bool
is_discover discover = true
is_discover _ = false

-- `transition_type in ("check", "skip", "gap")`
abbrev needs_target : TransitionType → Bool
needs_target check = true
needs_target skip = true
needs_target gap = true
needs_target _ = false

-- `transition_type in ("skip", "gap")`
abbrev pub needs_reason : TransitionType → Bool
needs_reason skip = true
needs_reason gap = true
needs_reason _ = false

-- The validator `_required_fields`, which runs when an event is built and when one is read.
unfoldable pub required_fields : StageEvent → Result Fault StageEvent
required_fields e =
    if is_discover e.transition_type && is_falsy e.chunk_id
    then raise invalid_event
    else if needs_target e.transition_type && is_falsy e.target
    then raise invalid_event
    else if needs_reason e.transition_type && is_blank e.reason
    then raise invalid_event
    else ok e

-- A dict among the payloads, by its "kind".
pub data Payload : Type 0 where
  stage_event : StageEvent → Payload
  analyzer_execution : AnalyzerExecution → Payload
  other : Payload

-- The body of a snapshot item: none, a dict whose "payloads" is a list, a dict that is itself a
-- payload, a dict that validates as a `Finding`, or any other dict.
pub data Body : Type 0 where
  absent : Body
  payloads : List Payload → Body
  single : Payload → Body
  finding : Finding → Body
  opaque : Body

pub data ItemKind : Type 0 where
  dispatch_commit finding other : ItemKind

pub record SnapshotItem : Type 0 where
  pub record_id : String
  pub log_sequence : ℕ
  pub kind : ItemKind
  pub body : Body

pub record MemorySnapshot : Type 0 where
  pub session_id : String
  pub as_of_sequence : ℕ
  pub measured_bytes : ℕ
  pub items : List SnapshotItem
