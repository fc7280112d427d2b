-- ===== src/ToolSurface/Table.antt =====
-- `AGENT_TOOL_SURFACE`: the tools that a model is offered, and what runs each of them.
pub mod Closed
use araratsec_agent.Prelude.{String, Bool, true, false, Option, none, some, List, [], ◌∷◌, select}
use araratsec_agent.Prelude.Dict.{Dict}

-- The functions that stand in the table, by name.
pub data Executor : Type 0 where
  read_file search_code run_slither run_mythril analyze_transactions : Executor
  run_discovery run_check run_synthesis skip_target fail_closed : Executor

pub record SurfaceEntry : Type 0 where
  pub required_params : List String
  pub executor : Option Executor
  pub offered : Bool
  pub available : Bool
  pub missing_precondition : String
  pub valid_params : Dict String
  pub summary : String

abbrev pub agent_tool_surface : Dict SurfaceEntry
agent_tool_surface =
    (
      "read_file",
      record {
        required_params = "path" ∷ [];
        executor = some read_file;
        offered = true;
        available = true;
        missing_precondition = "";
        valid_params = ("path", "Vault.sol") ∷ [];
        summary = "read a source file.";
      },
    )
    ∷ (
      "search_code",
      record {
        required_params = "pattern" ∷ [];
        executor = some search_code;
        offered = true;
        available = true;
        missing_precondition = "";
        valid_params = ("pattern", "withdraw") ∷ [];
        summary = "find where something is defined/used.";
      },
    )
    ∷ (
      "run_slither",
      record {
        required_params = "target" ∷ [];
        executor = some run_slither;
        offered = true;
        available = true;
        missing_precondition = "";
        valid_params = ("target", "Vault.sol") ∷ [];
        summary = "run Slither static analysis in the sandbox.";
      },
    )
    ∷ (
      "run_discovery",
      record {
        required_params = [];
        executor = some run_discovery;
        offered = true;
        available = true;
        missing_precondition = "";
        valid_params = [];
        summary = "discover the next include-set chunk of priority targets.";
      },
    )
    ∷ (
      "run_check",
      record {
        required_params = "target" ∷ [];
        executor = some run_check;
        offered = true;
        available = true;
        missing_precondition = "";
        valid_params = ("target", "Vault.sol") ∷ [];
        summary = "check one priority target with offered analyzers.";
      },
    )
    ∷ (
      "run_synthesis",
      record {
        required_params = [];
        executor = some run_synthesis;
        offered = true;
        available = true;
        missing_precondition = "";
        valid_params = [];
        summary = "synthesize findings and project the roadmap.";
      },
    )
    ∷ (
      "skip_target",
      record {
        required_params = "target" ∷ "reason" ∷ [];
        executor = some skip_target;
        offered = true;
        available = true;
        missing_precondition = "";
        valid_params = ("target", "Vault.sol:withdraw") ∷ ("reason", "out of scope") ∷ [];
        summary = "record a skip event with a reason (roadmap only).";
      },
    )
    ∷ (
      "run_mythril",
      record {
        required_params = "target" ∷ [];
        executor = some run_mythril;
        offered = true;
        available = true;
        missing_precondition = "";
        valid_params = ("target", "Vault.sol") ∷ [];
        summary = "run Mythril symbolic execution in the sandbox.";
      },
    )
    ∷ (
      "analyze_transactions",
      record {
        required_params = "address" ∷ [];
        executor = some analyze_transactions;
        offered = false;
        available = true;
        missing_precondition = "";
        valid_params = ("address", "0xabababababababababababababababababababab") ∷ [];
        summary = "fetch on-chain transactions (unoffered: no wall-clock deadline).";
      },
    )
    ∷ (
      "write_poc",
      record {
        required_params = "finding_id" ∷ [];
        executor = some fail_closed;
        offered = false;
        available = true;
        missing_precondition = "";
        valid_params = ("finding_id", "F1") ∷ [];
        summary = "write a PoC after out-of-band confirmation.";
      },
    )
    ∷ (
      "run_tests",
      record {
        required_params = "finding_id" ∷ [];
        executor = some fail_closed;
        offered = false;
        available = true;
        missing_precondition = "";
        valid_params = ("finding_id", "F1") ∷ [];
        summary = "run Foundry tests after out-of-band confirmation.";
      },
    )
    ∷ (
      "build_graph",
      record {
        required_params = [];
        executor = none;
        offered = false;
        available = false;
        missing_precondition = "no sandbox adapter for host subprocess";
        valid_params = [];
        summary = "build a call/data-flow graph (unavailable: host subprocess).";
      },
    )
    ∷ (
      "decompile_bytecode",
      record {
        required_params = "address" ∷ [];
        executor = none;
        offered = false;
        available = false;
        missing_precondition = "decompile_bytecode is dry-run only; no executable route";
        valid_params = ("address", "0xabababababababababababababababababababab") ∷ [];
        summary = "decompile bytecode (unavailable: no production runner).";
      },
    )
    ∷ (
      "deploy_test_contract",
      record {
        required_params = "network" ∷ [];
        executor = none;
        offered = false;
        available = false;
        missing_precondition = "deploy_test_contract has no agent-path executor";
        valid_params = ("network", "anvil") ∷ [];
        summary = "deploy to anvil (unavailable: no agent-path executor).";
      },
    )
    ∷ []

-- `offered_entries`
unfoldable pub offered_entries : List (String × SurfaceEntry)
offered_entries = select (λ e. e.1.offered) agent_tool_surface
