-- ===== src/Methodology/Adapters.antt =====
-- audit_agent/methodology/adapters.py: the handlers between the kernel's dispatch and the service.
-- The kernel's calls are parameters, and what a handler returns is a value.
pub mod Texts
pub mod Checks
pub mod Discovery
use araratsec_agent.Prelude.{
  ℕ, suc, String, Bool, true, false, Option, none, some, List, [], ◌∷◌, ◌++◌, map, select,
  find_first, not, ◌==◌, ◌&&◌, if◌then◌else◌,
}
use araratsec_agent.Prelude.Texts.{concat, is_empty, strip, before_colon}
use araratsec_agent.Prelude.Result.{Result, ok, raise, ◌>>=◌}
use araratsec_agent.Cursor.{Chunk, chunk_size, partition_chunks, first_uncommitted_chunk}
use araratsec_agent.Relay.{Adapter, ingest_response, RelayIngestResult}
use araratsec_agent.ToolSurface.{Wrap}
use araratsec_agent.Methodology.Models.{
  Fault, TransitionType, StageOutcome, StageEvent, AnalyzerExecution, MethodologyTransition,
  Payload, stage_event, analyzer_execution, Body, absent, payloads, single, opaque, ItemKind,
  SnapshotItem, MemorySnapshot, is_falsy,
}
use araratsec_agent.Methodology.Service.{
  Action, ActionType, Stage1Report, ApplyArgs, apply, or_empty, gap_reason,
}
use araratsec_agent.Methodology.Analyzers.{Machine, RunFault, Analyzed, run_analyzers}
use araratsec_agent.Methodology.Adapters.Texts.{render_body, transition_text}

-- An exception that a handler does not catch.
pub data Uncaught : Type 0 where
  service : Fault → Uncaught
  analyzers : RunFault → Uncaught

abbrev pub from_service : {A : Type 0} → Result Fault A → Result Uncaught A
from_service (ok x) = ok x
from_service (raise e) = raise (service e)

abbrev pub from_analyzers : {A : Type 0} → Result RunFault A → Result Uncaught A
from_analyzers (ok x) = ok x
from_analyzers (raise e) = raise (analyzers e)

pub data DispatchStatus : Type 0 where
  ran pending error : DispatchStatus

-- The kernel's `DispatchResult`; `pending` is the correlation id of the response that it waits for.
pub record DispatchResult : Type 0 where
  pub status : DispatchStatus
  pub body : String
  pub payloads : List Payload
  pub pending : Option String

-- The scope policy, where the context has one: its include set, and its files with `is_file`.
pub record Policy : Type 0 where
  pub include : Option (List String)
  pub files : List (String × Bool)

-- The context, the snapshot of the factory, the relay directory and the kernel's calls. `walk` is the
-- sorted listing of the root with `is_file`.
pub record Env : Type 1 where
  pub machine : Machine
  pub snapshot : MemorySnapshot
  pub policy : Option Policy
  pub walk : List (String × Bool)
  pub path_is_included : String → List String → Bool
  pub wrap_data : Wrap
  pub chunk_digest : ℕ → List String → String
  pub run_stage1 : List String → Stage1Report
  pub has_relay_dir : Bool
  pub operation_id : Option String
  pub read_file : String → Option String
  pub adapter : Adapter
  pub response : String → Option String

-- methodology/include.py
abbrev pub audit_include : List String
audit_include =
    "contracts/**" ∷ "src/**" ∷ "lib/**" ∷ "foundry.toml" ∷ "remappings.txt" ∷ "hardhat.config.js"
    ∷ "hardhat.config.ts" ∷ []

abbrev or_default : Option (List String) → List String
or_default none = audit_include
or_default (some []) = audit_include
or_default (some (p ∷ ps)) = p ∷ ps

abbrev bound_include : Option Policy → List String
bound_include none = audit_include
bound_include (some policy) = or_default policy.include

-- `_committed_chunk_ids`: the payloads of an item, whatever the list holds.
abbrev pub item_bodies : ItemKind → Body → List Payload
item_bodies ItemKind.dispatch_commit (payloads ps) = ps
item_bodies kind (single p) = p ∷ []
item_bodies kind body = []

abbrev chunk_of : Payload → List String
chunk_of (stage_event e) = elim e.transition_type [
  | TransitionType.discover ↦ if is_falsy e.chunk_id then [] else or_empty e.chunk_id ∷ []
  | _ ↦ []
]
chunk_of (analyzer_execution x) = []
chunk_of Payload.other = []

pub chunks_of : List Payload → List String
chunks_of [] = []
chunks_of (p ∷ ps) = chunk_of p ++ chunks_of ps

pub item_chunks : List SnapshotItem → List String
unfolding chunks_of
item_chunks [] = []
item_chunks (item ∷ items) = chunks_of (item_bodies item.kind item.body) ++ item_chunks items

unfoldable pub committed_chunk_ids : MemorySnapshot → List String
unfolding item_chunks
committed_chunk_ids s = item_chunks s.items

-- `_file_of`
unfoldable pub file_of : String → String
unfolding before_colon
file_of target = before_colon target

abbrev pub no_args : ApplyArgs
no_args = record {
  report = none;
  executions = [];
  extra_findings = [];
  chunk_id = none;
  outcome = none;
  reason = none;
  gap_target = none;
}

abbrev pub gap_action : String → Action
gap_action rel = record {
  action_type = ActionType.gap;
  param_chunk_id = none;
  param_target = some rel;
  param_reason = none;
}

abbrev pub gap_args : String → ApplyArgs
gap_args rel = record no_args { reason = some gap_reason; gap_target = some rel }

-- The request that `_maybe_relay` leaves, and the id that it waits for.
pub record Relayed : Type 0 where
  pub target : String
  pub context : String
  pub request_id : String
  pub pending : Option String

abbrev empty_digest : String
empty_digest = "e3b0c44298fc1c149afbf4c8996fb92427ae41e4649b934ca495991b7852b855"

abbrev first_chunk : List Chunk → Chunk
first_chunk [] = (empty_digest, [])
first_chunk (c ∷ cs) = c

module _ (env : Env) where
  open env use {
    machine, snapshot, policy, walk, path_is_included, wrap_data, chunk_digest, run_stage1,
    has_relay_dir, operation_id, read_file, adapter, response,
  }

  -- `_outside_include`
  unfoldable pub outside_include : String → Bool
  outside_include rel = not (path_is_included rel (bound_include policy))

  -- `_included_relpaths`
  unfoldable pub included_relpaths : List String
  included_relpaths = elim policy [
    | none ↦
        map (λ (f : String × Bool). f.0)
          (select (λ (f : String × Bool). f.1 && path_is_included f.0 audit_include) walk)
    | some p ↦ map (λ (f : String × Bool). f.0) (select (λ (f : String × Bool). f.1) p.files)
  ]

  -- `_result_from_transition` without and with a wait
  unfoldable pub result_from_transition : MethodologyTransition → DispatchResult
  unfolding render_body
  result_from_transition t = record {
    status = DispatchStatus.ran;
    body = wrap_data (render_body t) (transition_text t.stage_event.transition_type) "";
    payloads = stage_event t.stage_event ∷ map analyzer_execution t.executions;
    pending = none;
  }

  unfoldable pub pending_from_transition : MethodologyTransition → String → DispatchResult
  pending_from_transition t correlation_id = record {
    status = DispatchStatus.pending;
    body =
        wrap_data "awaiting external_response" (transition_text t.stage_event.transition_type) "";
    payloads = [];
    pending = some correlation_id;
  }

  abbrev error_result : String → String → DispatchResult
  error_result why tool = record {
    status = DispatchStatus.error;
    body = wrap_data why tool "";
    payloads = [];
    pending = none;
  }

  -- `_result_from_transition(_service.apply(…), ctx)`
  unfoldable pub applied : Action → ApplyArgs → Result Uncaught DispatchResult
  unfolding apply result_from_transition
  applied a k = from_service (apply snapshot a k) >>= λ t. ok (result_from_transition t)

  -- The transition that both handlers record for a path outside of the include set.
  abbrev pub gap : String → Result Uncaught DispatchResult
  gap rel = applied (gap_action rel) (gap_args rel)

  -- The chunk that `run_discovery` takes; `none` is an unknown request.
  unfoldable pub chosen_chunk : Option String → Option Chunk
  unfolding partition_chunks first_uncommitted_chunk committed_chunk_ids
  chosen_chunk requested =
      let chunks = partition_chunks chunk_digest included_relpaths 0 chunk_size in
      if is_falsy requested
      then elim (first_uncommitted_chunk chunk_digest included_relpaths
          (committed_chunk_ids snapshot) 0) [ none ↦ some (first_chunk chunks) | some c ↦ some c ]
      else find_first (λ (c : Chunk). c.0 == or_empty requested) chunks

  abbrev report_of : List String → Stage1Report
  report_of [] = record { priority_targets = []; skipped_targets = [] }
  report_of (p ∷ ps) = run_stage1 (p ∷ ps)

  -- `run_discovery` from the chunk on
  unfoldable pub discover_chunk : Action → Chunk → Result Uncaught DispatchResult
  unfolding applied
  discover_chunk a c = elim (find_first outside_include c.1) [
    | some rel ↦ gap rel
    | none ↦ applied a (record no_args {
      report = some (report_of (select machine.exists (map machine.absolute c.1)));
      chunk_id = some c.0;
    })
  ]

  unfoldable pub run_discovery : Action → Result Uncaught DispatchResult
  unfolding chosen_chunk discover_chunk
  run_discovery a = elim (chosen_chunk a.param_chunk_id) [
    | none ↦ ok (
        error_result (concat ("unknown chunk_id " ∷ or_empty a.param_chunk_id ∷ []))
          "run_discovery")
    | some c ↦ discover_chunk a c
  ]

  -- `_maybe_relay`
  abbrev context_or : String → Option String → String
  context_or target none = target
  context_or target (some text) = text

  unfoldable pub maybe_relay : String → Relayed
  unfolding file_of ingest_response
  maybe_relay target =
      let request_id = or_empty operation_id in
      record {
        target = target;
        context = context_or target (read_file (file_of target));
        request_id = request_id;
        pending =
            if (ingest_response adapter request_id none (response request_id)).needs_resend
            then some request_id
            else none;
      }

  -- `run_check` behind the relay
  unfoldable pub check_analyzed : Action → String → Result Uncaught DispatchResult
  unfolding run_analyzers applied
  check_analyzed a file_rel = from_analyzers (run_analyzers machine file_rel) >>= λ r.
      applied a (record no_args {
        executions = r.executions;
        extra_findings = r.findings;
        outcome = some r.worst;
      })

  abbrev check_pending : Action → String → Result Uncaught DispatchResult
  check_pending a correlation_id =
      from_service (apply snapshot a (record no_args { outcome = some StageOutcome.ran })) >>= λ t.
      ok (pending_from_transition t correlation_id)

  abbrev relay_is_on : Bool
  relay_is_on = has_relay_dir && not (is_falsy operation_id)

  -- The response that a check of the target waits for.
  unfoldable pub awaited : String → Option String
  unfolding maybe_relay
  awaited target = if relay_is_on then (maybe_relay target).pending else none

  unfoldable pub run_check : Action → Result Uncaught DispatchResult
  unfolding outside_include file_of applied awaited check_analyzed apply pending_from_transition
  run_check a =
      let target = or_empty a.param_target in
      let file_rel = file_of target in
      if outside_include file_rel then gap file_rel else elim (awaited target) [
        | some correlation_id ↦ check_pending a correlation_id
        | none ↦ check_analyzed a file_rel
      ]

  unfoldable pub run_synthesis : Action → Result Uncaught DispatchResult
  unfolding applied
  run_synthesis a = applied a no_args

  unfoldable pub skip_target : Action → Result Uncaught DispatchResult
  unfolding applied strip
  skip_target a =
      if is_empty (strip (or_empty a.param_target))
      then ok (error_result "skip_target requires non-empty target and reason" "skip_target")
      else if is_empty (strip (or_empty a.param_reason))
      then ok (error_result "skip_target requires non-empty target and reason" "skip_target")
      else applied a no_args
