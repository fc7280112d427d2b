-- ===== src/Dispatch.antt =====
-- audit_agent/dispatch.py: what the kernel's loop delegates to. The kernel's calls are parameters.
pub mod Closed
use Prim.Native.Char.{Char}
use araratsec_agent.Prelude.{
  ℕ, String, Bool, true, false, Option, none, some, List, [], ◌∷◌, ◌==◌, if◌then◌else◌, not,
}
use araratsec_agent.Prelude.Texts.{concat, is_empty}
use araratsec_agent.Prelude.Dict.{Dict, lookup}
use araratsec_agent.Prelude.Result.{Result, ok, raise, ◌>>=◌}
use araratsec_agent.Finding.{Finding, FindingStatus, severity_of}
use araratsec_agent.ToolSurface.{unavailable_payload}
use araratsec_agent.ToolSurface.Table.{Executor, SurfaceEntry, agent_tool_surface}
use araratsec_agent.ToolSurface.Executors.{
  Tools, ToolAction, exec_read_file, exec_search_code, exec_analyze_transactions, exec_run_slither,
  exec_run_mythril, exec_fail_closed,
}
use araratsec_agent.Methodology.Service.{Action, ActionType}
use araratsec_agent.Methodology.Adapters.{
  Env, Uncaught, DispatchStatus, DispatchResult, run_discovery, run_check, run_synthesis,
  skip_target,
}
use araratsec_agent.WriteExecute.{
  TestRun, Ran, TestResult, PoCResult, ToolRefusal, write_poc, run_tests,
}

-- What an executor returns: a result, a text, or another object with its `str`.
pub data Raw : Type 0 where
  result : DispatchResult → Raw
  text : String → Raw
  object : String → Raw

-- An exception that leaves the dispatch: one of a handler, or the `ValueError` of an `int`.
pub data Escaped : Type 0 where
  handler : Uncaught → Escaped
  bad_int : String → Escaped
  wrong_type : String → Escaped

abbrev plain : DispatchStatus → String → DispatchResult
plain status body = record { status = status; body = body; payloads = []; pending = none }

-- `_as_result`
unfoldable pub as_result : String → Raw → DispatchResult
as_result fallback_body (result r) = r
as_result fallback_body (text s) = plain DispatchStatus.ran s
as_result fallback_body (object s) =
    plain DispatchStatus.error (if is_empty fallback_body then s else fallback_body)

abbrev kind_of : String → ActionType
kind_of at =
    if at == "run_discovery"
    then ActionType.run_discovery
    else if at == "run_check"
    then ActionType.run_check
    else if at == "skip_target"
    then ActionType.skip_target
    else if at == "run_synthesis"
    then ActionType.run_synthesis
    else if at == "gap"
    then ActionType.gap
    else ActionType.other

-- The action as the reducer reads it.
unfoldable pub reducer_action : ToolAction → Action
unfolding lookup
reducer_action action = record {
  action_type = kind_of action.action_type;
  param_chunk_id = lookup "chunk_id" action.params;
  param_target = lookup "target" action.params;
  param_reason = lookup "reason" action.params;
}

abbrev handled : Result Uncaught DispatchResult → Result Escaped Raw
handled (ok r) = ok (result r)
handled (raise e) = raise (handler e)

abbrev answered : Result String String → Result Escaped Raw
answered (ok s) = ok (text s)
answered (raise e) = raise (bad_int e)

abbrev analyzed : Result String String → Result Escaped Raw
analyzed (ok s) = ok (text s)
analyzed (raise e) = raise (wrong_type e)

-- The `PoCStatusEvent`.
pub record PoCStatusEvent : Type 0 where
  pub finding_id : String
  pub status : String
  pub poc_path : Option String

abbrev pub finding_id_of : ToolAction → String
finding_id_of action = elim (lookup "finding_id" action.params) [ none ↦ "UNKNOWN" | some f ↦ f ]

module _ (tools : Tools) (env : Env) where
  -- The call of an entry's executor.
  unfoldable pub execute : Executor → ToolAction → Result Escaped Raw
  unfolding reducer_action exec_read_file exec_search_code exec_analyze_transactions
      exec_run_slither exec_run_mythril exec_fail_closed run_discovery run_check run_synthesis
      skip_target
  execute Executor.read_file action = ok (text (exec_read_file tools action))
  execute Executor.search_code action = ok (text (exec_search_code tools action))
  execute Executor.run_slither action = analyzed (exec_run_slither tools action)
  execute Executor.run_mythril action = analyzed (exec_run_mythril tools action)
  execute Executor.analyze_transactions action = answered (exec_analyze_transactions tools action)
  execute Executor.run_discovery action = handled (run_discovery env (reducer_action action))
  execute Executor.run_check action = handled (run_check env (reducer_action action))
  execute Executor.run_synthesis action = handled (run_synthesis env (reducer_action action))
  execute Executor.skip_target action = handled (skip_target env (reducer_action action))
  execute Executor.fail_closed action = ok (text (exec_fail_closed tools action))

  -- The body of a write or an execution without a confirmation.
  abbrev pub refusal : String → String
  refusal at = tools.wrap_data "WRITE_EXECUTE cannot run from dispatch; confirmation required" at ""

  abbrev run_entry : SurfaceEntry → ToolAction → Result Escaped DispatchResult
  run_entry entry action =
      if not entry.available
      then ok (
          as_result "" (
            text (
              unavailable_payload tools.wrap_data action.action_type entry.missing_precondition
                "")))
      else elim entry.executor [
        | none ↦ ok (as_result "" (text (refusal action.action_type)))
        | some e ↦ (execute e action >>= λ raw. ok (as_result "" raw))
      ]

  unfoldable pub dispatch : ToolAction → Result Escaped DispatchResult
  unfolding lookup as_result unavailable_payload execute
  dispatch action = elim (lookup action.action_type agent_tool_surface) [
    | none ↦ ok (
        as_result "" (
          text (
            tools.wrap_data
              (concat ("TOOL ERROR: unknown action " ∷ tools.repr action.action_type ∷ []))
              action.action_type "")))
    | some entry ↦ run_entry entry action
  ]

  module _ (is_alnum : Char → Bool) (sandbox : TestRun → Result String Ran) where
    -- The summary of a run of the tests, and its event.
    abbrev pub tests_text : String → Result String TestResult → String × Option PoCStatusEvent
    tests_text finding_id (raise e) = (
      concat ("run_tests could not execute: " ∷ e ∷ []),
      some (record { finding_id = finding_id; status = "errored"; poc_path = none }),
    )
    tests_text finding_id (ok r) = (
      concat (
          (if r.passed then "forge test PASSED (exit " else "forge test FAILED (exit ")
          ∷ r.exit_code
          ∷ ")"
          ∷ []),
      some (record {
        finding_id = finding_id;
        status = if r.passed then "passed" else "failed";
        poc_path = none;
      }),
    )

    -- The directory of `_poc_dir`.
    abbrev pub poc_dir : String
    poc_dir = concat (tools.machine.scope_root ∷ "/audit/poc" ∷ [])

    abbrev written_text :
        String → Result ToolRefusal PoCResult → Result ToolRefusal (String × Option PoCStatusEvent)
    written_text finding_id (raise e) = raise e
    written_text finding_id (ok r) = ok (
      concat ("PoC written to " ∷ r.path ∷ []),
      some (record { finding_id = finding_id; status = "written"; poc_path = some r.path }),
    )

    -- What a confirmed action ends with: an escaped exception, or the text and the event.
    pub data Failure : Type 0 where
      refused : ToolRefusal → Failure
      escaped : Escaped → Failure

    abbrev of_refusal :
        Result ToolRefusal (String × Option PoCStatusEvent)
        → Result Failure (String × Option PoCStatusEvent)
    of_refusal (ok r) = ok r
    of_refusal (raise e) = raise (refused e)

    abbrev of_dispatch :
        Result Escaped DispatchResult → Result Failure (String × Option PoCStatusEvent)
    of_dispatch (ok r) = ok (r.body, none)
    of_dispatch (raise e) = raise (escaped e)

    unfoldable pub execute_confirmed : ToolAction → Result Failure (String × Option PoCStatusEvent)
    unfolding lookup write_poc run_tests dispatch
    execute_confirmed action =
        let finding_id = finding_id_of action in
        if action.action_type == "write_poc"
        then of_refusal (
            written_text finding_id
              (write_poc is_alnum tools.repr finding_id poc_dir "foundry" none))
        else if action.action_type == "run_tests"
        then ok (
            tests_text finding_id
              (run_tests sandbox (lookup "test_path" action.params) (some "audit/poc") none false))
        else of_dispatch (dispatch action)

-- The payload of a finding that the model reports.
pub record FindingPayload : Type 0 where
  pub finding_id : String
  pub location : String
  pub function_name : String
  pub severity : String
  pub preconditions : List (ℕ × Bool)
  pub mitigations_present : List String

-- `persist_finding`, with pydantic's validation of the fields as a test
unfoldable pub persist_finding : (FindingPayload → Bool) → Option FindingPayload → Option Finding
unfolding severity_of
persist_finding validates none = none
persist_finding validates (some p) = elim (severity_of p.severity) [
  | none ↦ none
  | some severity ↦
      if validates p
      then some (record {
        finding_id = p.finding_id;
        location = p.location;
        function_name = p.function_name;
        bastet_tag = none;
        severity = severity;
        status = FindingStatus.opened;
        preconditions = p.preconditions;
        mitigations_present = p.mitigations_present;
        poc_path = none;
        poc_status = none;
        combined_with = [];
      })
      else none
]
