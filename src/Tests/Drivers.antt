-- ===== src/Tests/Drivers.antt =====
-- The examples of the dispatch and of the batch driver.
use araratsec_agent.Prelude.{◌≡◌, refl, ◌↔◌, ◌⊎◌, String, true, none, some, [], ◌∷◌}
use araratsec_agent.Prelude.Dict.{lookup}
use araratsec_agent.Prelude.Result.{Result, ok, raise}
use araratsec_agent.Actions.{AuditActionType, action_value, action_class, write_execute}
use araratsec_agent.ToolSurface.{unavailable_payload}
use araratsec_agent.ToolSurface.Executors.{Tools, ToolAction}
use araratsec_agent.Onchain.{onchain_error}
use araratsec_agent.Methodology.Models.{
  MemorySnapshot, RoadmapProjection, ItemKind, Body, Payload, TransitionType, StageOutcome, Fault,
}
use araratsec_agent.Methodology.Service.{project}
use araratsec_agent.Methodology.Adapters.{DispatchStatus, DispatchResult}
use araratsec_agent.WriteExecute.{TestRun, Ran}
use araratsec_agent.Dispatch.{dispatch, refusal, execute_confirmed, PoCStatusEvent, finding_id_of}
use araratsec_agent.Dispatch.Closed.{
  only_text, asked, dispatch-write_execute, execute_confirmed-run_tests,
}
use araratsec_agent.Pipeline.{Kernel, Outcome, PipelineResult}
use araratsec_agent.Tests.Sessions.{desk, env, empty_snapshot}

abbrev tools : Tools
tools = record {
  machine = desk;
  wrap_data = λ content tool path. content;
  read_file = λ path. raise "missing";
  search_code = λ pattern root. ok [];
  make_fetcher = raise (onchain_error "no key");
  int_of = λ s. raise s;
  lower = λ s. s;
  repr = λ s. s;
}

tests_execute : action_class AuditActionType.run_tests ≡ write_execute
unfolding action_class
tests_execute = refl

dispatch-write_execute_example :
    (body : String) × (dispatch tools env
        (record { action_type = action_value AuditActionType.run_tests; params = []; focus = none })
      ≡ ok (only_text body))
    × ((body ≡ refusal tools env (action_value AuditActionType.run_tests))
        ⊎ (body
            ≡ unavailable_payload tools.wrap_data
                (action_value AuditActionType.run_tests)
                "deploy_test_contract has no agent-path executor"
                ""))
dispatch-write_execute_example =
    dispatch-write_execute tools env AuditActionType.run_tests [] none tests_execute

abbrev green : TestRun → Result String Ran
green question = ok (record { is_ok = true; exit_code = "0"; stdout = ""; stderr = "" })

abbrev run_f1 : ToolAction
run_f1 = record { action_type = "run_tests"; params = ("finding_id", "F1") ∷ []; focus = none }

execute_confirmed-run_tests_example :
    (text : String) × (event : PoCStatusEvent) × (execute_confirmed tools env
        (λ c. true)
        green
        run_f1
      ≡ ok (text, some event))
    × (event.finding_id ≡ finding_id_of run_f1)
    × ((event.status ≡ "passed") ↔ (
        (r : Ran) × (green (asked (lookup "test_path" run_f1.params)) ≡ ok r) × (r.is_ok ≡ true)))
    × ((asked (lookup "test_path" run_f1.params)).network ≡ "none")
    × ((asked (lookup "test_path" run_f1.params)).env ≡ [])
execute_confirmed-run_tests_example =
    execute_confirmed-run_tests tools env (λ c. true) green run_f1.params none

-- A memory with one target to check, and a kernel that waits for every check.
abbrev one_target : MemorySnapshot
one_target = record empty_snapshot {
  items =
      record {
        record_id = "r0";
        log_sequence = 0;
        kind = ItemKind.other;
        body = Body.single (
            Payload.stage_event (record {
              transition_type = TransitionType.discover;
              roadmap_revision = 0;
              chunk_id = some "c0";
              target = none;
              outcome = StageOutcome.ran;
              reason = none;
              as_of_sequence = 0;
              targets = "src/Vault.sol:drain" ∷ [];
              skipped_targets = [];
            }));
      }
      ∷ [];
}

abbrev waiting : DispatchResult
waiting = record { status = DispatchStatus.pending; body = ""; payloads = []; pending = some "op" }

abbrev batch : Kernel MemorySnapshot
batch = record {
  snapshot = λ m. m;
  execute = λ m a. (waiting, m);
  upper = λ s. s;
  generated_at = "now";
  project_id = "p";
}

abbrev or_start : Result Fault RoadmapProjection → RoadmapProjection
or_start (ok p) = p
or_start (raise e) = record { as_of_sequence = 0; targets = []; findings = []; empty_label = none }

abbrev roadmap : RoadmapProjection
roadmap = or_start (project one_target)

abbrev halted : PipelineResult MemorySnapshot
halted = record { status = Outcome.paused "src/Vault.sol:drain"; memory = one_target }
