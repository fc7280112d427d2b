-- ===== src/Dispatch/Closed.antt =====
-- Dispatch writes and executes nothing, and a confirmed run reports what the sandbox said.
use Prim.Native.Char.{Char}
use araratsec_agent.Prelude.{
  ◌≡◌, refl, ap, ◌↔◌, ◌⊎◌, inl, inr, String, Bool, true, false, Option, none, some, List, [], arith,
  if◌then◌else◌, ◌==◌,
}
use araratsec_agent.Prelude.Dict.{Dict, lookup}
use araratsec_agent.Prelude.Result.{Result, ok, raise, ◌>>=◌, ok-injective}
use araratsec_agent.Actions.{AuditActionType, action_value, action_class, write_execute}
use araratsec_agent.Finding.{Finding, FindingStatus, severity_value}
use araratsec_agent.Finding.Enums.{severity_of_iff}
use araratsec_agent.ToolSurface.{unavailable_payload}
use araratsec_agent.ToolSurface.Executors.{Tools, ToolAction, exec_fail_closed}
use araratsec_agent.Methodology.Adapters.{Env, DispatchStatus, DispatchResult}
use araratsec_agent.WriteExecute.{TestRun, Ran, TestResult, test_run, run_tests}
use araratsec_agent.Dispatch.{
  dispatch, execute, as_result, refusal, execute_confirmed, PoCStatusEvent, FindingPayload,
  persist_finding, tests_text, finding_id_of,
}

-- A text that records nothing.
abbrev pub only_text : String → DispatchResult
only_text body = record { status = DispatchStatus.ran; body = body; payloads = []; pending = none }

module _ (tools : Tools) (env : Env) where
  -- Without a confirmation, an action of a class that writes or executes ends with a text alone and no
  -- payload, whatever the tools and the handlers would return: the text is the refusal, or the report
  -- that the tool is unavailable.
  pub dispatch-write_execute :
      (a : AuditActionType) (params : Dict String) (focus : Option (List String))
      → action_class a ≡ write_execute
      → (body : String) × (dispatch tools env
            (record { action_type = action_value a; params = params; focus = focus })
          ≡ ok (only_text body))
        × ((body ≡ refusal tools env (action_value a))
            ⊎ (body
                ≡ unavailable_payload tools.wrap_data
                    (action_value a)
                    "deploy_test_contract has no agent-path executor"
                    ""))
  unfolding dispatch execute action_class as_result exec_fail_closed lookup
  dispatch-write_execute AuditActionType.write_poc params focus h = (_, refl, inl refl)
  dispatch-write_execute AuditActionType.run_tests params focus h = (_, refl, inl refl)
  dispatch-write_execute AuditActionType.deploy_test_contract params focus h = (_, refl, inr refl)
  dispatch-write_execute AuditActionType.build_graph params focus h = cc
  dispatch-write_execute AuditActionType.run_slither params focus h = cc
  dispatch-write_execute AuditActionType.run_mythril params focus h = cc
  dispatch-write_execute AuditActionType.analyze_transactions params focus h = cc
  dispatch-write_execute AuditActionType.decompile_bytecode params focus h = cc
  dispatch-write_execute AuditActionType.run_discovery params focus h = cc
  dispatch-write_execute AuditActionType.run_check params focus h = cc
  dispatch-write_execute AuditActionType.run_synthesis params focus h = cc
  dispatch-write_execute AuditActionType.skip_target params focus h = cc

-- What a confirmed run of the tests asks of the sandbox.
abbrev pub asked : Option String → TestRun
asked test_path = test_run test_path (some "audit/poc") none false

-- What `run_tests` returns for an answer.
abbrev test_result : Ran → TestResult
test_result r = record {
  passed = r.is_ok;
  exit_code = r.exit_code;
  stdout = r.stdout;
  stderr = r.stderr;
}

module _ (tools : Tools) (env : Env) (is_alnum : Char → Bool)
    (sandbox : TestRun → Result String Ran) where
  passed-true : (b : Bool) → ◌≡◌ {A = String} (if b then "passed" else "failed") "passed" → b ≡ true
  passed-true true h = refl
  passed-true false h = ap (λ s. s == "passed") h

  errored : ◌≡◌ {A = String} "errored" "passed" → ⊥
  errored h = let e : ◌≡◌ {A = Bool} false true = ap (λ s. s == "passed") h in cc

  tests_text-passed :
      (finding_id : String) (q : Result String Ran)
      → (text : String) × (event : PoCStatusEvent) × (tests_text tools env is_alnum sandbox
            finding_id
            (q >>= λ r. ok (test_result r))
          ≡ (text, some event))
        × (event.finding_id ≡ finding_id)
        × ((event.status ≡ "passed") ↔ ((r : Ran) × (q ≡ ok r) × (r.is_ok ≡ true)))
  tests_text-passed finding_id (ok r) = (
    _,
    _,
    refl,
    refl,
    (λ h. (r, refl, passed-true r.is_ok h), λ h. rw (ok-injective h.1, h.2) refl),
  )
  tests_text-passed finding_id (raise e) = (_, _, refl, refl, (λ h. absurd (errored h), λ h. cc))

  -- A confirmed run of the tests always reports an event about the finding, and the event says `passed`
  -- exactly when the sandbox answers the question that the run asks, and says that the command went
  -- well; the question allows no network and carries no variable.
  pub execute_confirmed-run_tests :
      (params : Dict String) (focus : Option (List String))
      → let action : ToolAction = record {
        action_type = "run_tests";
        params = params;
        focus = focus;
      } in
        let question = asked (lookup "test_path" params) in
        (text : String) × (event : PoCStatusEvent) × (execute_confirmed tools env is_alnum sandbox
            action
          ≡ ok (text, some event))
        × (event.finding_id ≡ finding_id_of action)
        × ((event.status ≡ "passed") ↔ ((r : Ran) × (sandbox question ≡ ok r) × (r.is_ok ≡ true)))
        × (question.network ≡ "none")
        × (question.env ≡ [])
  unfolding execute_confirmed run_tests lookup test_run
  execute_confirmed-run_tests params focus =
      let (text, event, e, named, passed) =
        tests_text-passed
          (finding_id_of (record { action_type = "run_tests"; params = params; focus = focus }))
          (sandbox (asked (lookup "test_path" params))) in
      (text, event, ap ok e, named, passed, refl, refl)

-- A reported finding is kept only with a severity that the enum knows, as it is reported; it is open,
-- and carries neither a tag nor a proof of concept.
pub persist_finding-open :
    (validates : FindingPayload → Bool) (p : FindingPayload) (f : Finding)
    → persist_finding validates (some p) ≡ some f
    → (severity_value f.severity ≡ p.severity)
      × (f.status ≡ FindingStatus.opened)
      × (f.finding_id ≡ p.finding_id)
      × (f.poc_status ≡ none)
unfolding persist_finding
persist_finding-open validates p f h = ground (arith, severity_of_iff p.severity f.severity)
