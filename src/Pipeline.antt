-- ===== src/Pipeline.antt =====
-- audit_agent/pipeline.py: the batch driver. The kernel's memory and its executor are parameters:
-- an action gives a result and the memory after it. A run returns that memory and the report that it
-- writes; progress messages and saved sessions are left out.
pub mod Stages
use araratsec_agent.Prelude.{
  ℕ, String, Bool, true, false, Option, none, some, List, [], ◌∷◌, ◌++◌, map, length, select,
  if◌then◌else◌,
}
use araratsec_agent.Prelude.Result.{Result, ok, raise, ◌>>=◌}
use araratsec_agent.Methodology.Models.{
  Fault, RoadmapState, RoadmapRow, RoadmapProjection, ProjectedFinding, MemorySnapshot,
}
use araratsec_agent.Methodology.Service.{Action, ActionType, Stage1Report, project}
use araratsec_agent.Methodology.Adapters.{DispatchStatus, DispatchResult}
use araratsec_agent.Report.{generate_report}
use araratsec_agent.Report

-- The kernel.
pub record Kernel (M : Type 0) : Type 0 where
  pub snapshot : M → MemorySnapshot
  pub execute : M → Action → DispatchResult × M
  pub upper : String → String
  pub generated_at : String
  pub project_id : String

pub data Outcome : Type 0 where
  -- the target that is waited for
  paused : String → Outcome
  -- the report, and the number of its findings
  done : String → ℕ → Outcome

-- `PipelineResult`, with the memory at the end.
pub record PipelineResult (M : Type 0) : Type 0 where
  pub status : Outcome
  pub memory : M

abbrev pub discovery : Action
discovery = record {
  action_type = ActionType.run_discovery;
  param_chunk_id = none;
  param_target = none;
  param_reason = none;
}

abbrev pub check : String → Action
check target = record {
  action_type = ActionType.run_check;
  param_chunk_id = none;
  param_target = some target;
  param_reason = none;
}

abbrev pub synthesis : Action
synthesis = record {
  action_type = ActionType.run_synthesis;
  param_chunk_id = none;
  param_target = none;
  param_reason = none;
}

abbrev is_pending : RoadmapRow → Bool
is_pending row = elim row.state [ RoadmapState.pending ↦ true | _ ↦ false ]

abbrev is_skipped : RoadmapRow → Bool
is_skipped row = elim row.state [ RoadmapState.skipped ↦ true | _ ↦ false ]

-- `[row.target for row in projection.targets if row.state == "pending"]`
unfoldable pub pending_targets : RoadmapProjection → List String
pending_targets p = map (λ row. row.target) (select is_pending p.targets)

abbrev or_empty : Option String → String
or_empty none = ""
or_empty (some s) = s

-- One of the `finding_dicts`, and the report on the targets.
abbrev finding_dict : ProjectedFinding → Report.Payload
finding_dict f = record {
  finding_id = some f.finding_id;
  severity = some f.severity;
  status = none;
  location = some f.location;
  function_name = none;
  bastet_tag = none;
  engine = none;
  notes = some f.notes;
  notes_flags = [];
  mitigations_present = [];
  combined_with = [];
}

abbrev stage1_of : RoadmapProjection → Stage1Report
stage1_of p = record {
  priority_targets = map (λ row. row.target) p.targets;
  skipped_targets = map (λ row. row.target) (select is_skipped p.targets);
}

-- Where the loop over the targets ends.
pub record Checked (M : Type 0) : Type 0 where
  pub stopped : Option String
  pub memory : M

abbrev pub waits : DispatchResult → Bool
waits r = elim r.status [ DispatchStatus.pending ↦ true | _ ↦ false ]

module _ {M : Type 0} (kernel : Kernel M) where
  -- The loop over the pending targets.
  pub check_targets : List String → M → Checked M
  check_targets [] m = record { stopped = none; memory = m }
  check_targets (target ∷ targets) m =
      let (r, m') = kernel.execute m (check target) in
      let rest = check_targets targets m' in
      if waits r then record { stopped = some target; memory = m' } else rest

  -- The report of a run over a projection.
  abbrev pub report_on : RoadmapProjection → String
  report_on p =
      generate_report kernel.upper kernel.project_id (map finding_dict p.findings)
        (some (stage1_of p)) kernel.generated_at []

  -- The end of a run: the report is written.
  abbrev pub finished : M → RoadmapProjection → PipelineResult M
  finished m p = record { status = done (report_on p) (length p.findings); memory = m }

  -- From the synthesis on.
  unfoldable pub finish : M → Result Fault (PipelineResult M)
  unfolding project generate_report
  finish m =
      let m' = (kernel.execute m synthesis).1 in
      project (kernel.snapshot m') >>= λ p. ok (finished m' p)

  abbrev pub conclude : Checked M → Result Fault (PipelineResult M)
  conclude c = elim c.stopped [
    | some target ↦ ok (record { status = paused target; memory = c.memory })
    | none ↦ finish c.memory
  ]

  -- `_continue`
  unfoldable pub continue_audit : M → Result Fault (PipelineResult M)
  unfolding project pending_targets check_targets finish
  continue_audit m =
      project (kernel.snapshot m) >>= λ p. conclude (check_targets (pending_targets p) m)

  -- `start_audit`
  unfoldable pub start_audit : M → Result Fault (PipelineResult M)
  unfolding continue_audit
  start_audit m = continue_audit (kernel.execute m discovery).1
