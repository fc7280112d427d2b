-- ===== src/WriteExecute.antt =====
-- audit_agent/tools/write_execute.py: the tools that run behind a confirmation. The file that
-- `write_poc` writes is part of its result; the sandbox, a generator, a deployer and `str.isalnum`
-- are parameters.
pub mod Names
use Prim.Native.Char.{Char, code}
use Prim.Native.String.{String}
use araratsec_agent.Prelude.{
  ℕ, Bool, true, false, Option, none, some, List, [], ◌∷◌, ◌++◌, not, ◌==◌, if◌then◌else◌,
}
use araratsec_agent.Prelude.Texts.{concat, contains, is_empty}
use araratsec_agent.Prelude.Result.{Result, ok, raise, ◌>>=◌}

abbrev pub allowed_deploy_networks : List String
allowed_deploy_networks = "anvil" ∷ "localhost" ∷ []

pub record PoCResult : Type 0 where
  pub finding_id : String
  pub path : String
  pub framework : String
  -- the text that is written to the path
  pub written : String

pub record TestResult : Type 0 where
  pub passed : Bool
  pub exit_code : String
  pub stdout : String
  pub stderr : String

pub record DeployResult : Type 0 where
  pub network : String
  pub address : Option String
  pub success : Bool
  pub detail : String

-- `ValueError` and `DeployTargetError`
pub data ToolRefusal : Type 0 where
  value_error : String → ToolRefusal
  deploy_target_error : String → ToolRefusal

-- `_FOUNDRY_STUB`
abbrev stub_lines : String → String → List String
stub_lines finding_id ident =
    "// SPDX-License-Identifier: MIT\npragma solidity ^0.8.20;\n\nimport {Test} from \"forge-std/Test.sol\";\n\n/// @notice PoC for finding "
    ∷ finding_id
    ∷ "\n/// Auto-generated stub — fill in the exploit path, then run via the sandbox.\ncontract PoC_"
    ∷ ident ∷ " is Test {\n    function setUp() public {}\n\n    function test_exploit_" ∷ ident
    ∷ "() public {\n        // TODO: reproduce finding " ∷ finding_id
    ∷ "\n        // 1. set up the vulnerable state\n        // 2. execute the attacker-controlled path\n        // 3. assert the broken invariant\n        revert(\"PoC not implemented\");\n    }\n}\n"
    ∷ []

module _ (is_alnum : Char → Bool) where
  -- `_ident`
  unfoldable pub ident : String → String
  ident String.[] = ""
  ident (String.◌∷◌ c s) = if is_alnum c then String.◌∷◌ c (ident s) else String.◌∷◌ "_" (ident s)

  -- `f"{ident}.t.sol"`
  abbrev pub file_name : String → String
  file_name finding_id = concat (ident finding_id ∷ ".t.sol" ∷ [])

  unfoldable pub write_poc :
      (repr : String → String)
      → String
      → String
      → String
      → Option (String → String)
      → Result ToolRefusal PoCResult
  unfolding ident
  write_poc repr finding_id poc_dir framework generator =
      if framework == "foundry"
      then ok (record {
        finding_id = finding_id;
        path = concat (poc_dir ∷ "/" ∷ file_name finding_id ∷ []);
        framework = framework;
        written = elim generator [
          | none ↦ concat (stub_lines finding_id (ident finding_id))
          | some generate ↦ generate finding_id
        ];
      })
      else raise (value_error (concat ("Unsupported framework: " ∷ repr framework ∷ [])))

-- What the sandbox is asked to run, and in which network.
pub record TestRun : Type 0 where
  pub command : String
  pub network : String
  pub env : List (String × String)

abbrev given : Option String → Bool
given none = false
given (some s) = not (is_empty s)

abbrev text_of : Option String → String
text_of none = ""
text_of (some s) = s

unfoldable pub test_run : Option String → Option String → Option String → Bool → TestRun
test_run test_path foundry_test_dir fork_rpc trace =
    let forking = given fork_rpc in
    let inner = concat (
      (if forking then "forge test" else "forge test --offline")
      ∷ (if trace then " -vvv" else "")
      ∷ (if given test_path then concat (" --match-path " ∷ text_of test_path ∷ []) else "")
      ∷ []) in
    record {
      command =
          if given foundry_test_dir
          then concat ("FOUNDRY_TEST=" ∷ text_of foundry_test_dir ∷ " " ∷ inner ∷ [])
          else inner;
      network = if forking then "bridge" else "none";
      env = if forking then ("MAINNET_RPC_URL", text_of fork_rpc) ∷ [] else [];
    }

-- What the sandbox answers.
pub record Ran : Type 0 where
  pub is_ok : Bool
  pub exit_code : String
  pub stdout : String
  pub stderr : String

-- `run_tests`; a raised text is a `SandboxError`
unfoldable pub run_tests :
    (TestRun → Result String Ran)
    → Option String
    → Option String
    → Option String
    → Bool
    → Result String TestResult
unfolding test_run
run_tests sandbox test_path foundry_test_dir fork_rpc trace =
    sandbox (test_run test_path foundry_test_dir fork_rpc trace) >>= λ r.
    ok (record { passed = r.is_ok; exit_code = r.exit_code; stdout = r.stdout; stderr = r.stderr })

unfoldable pub deploy_test_contract :
    (repr : String → String) → String → Option DeployResult → Result ToolRefusal DeployResult
deploy_test_contract repr network deployer =
    if contains network allowed_deploy_networks
    then elim deployer [
      | none ↦ ok (record {
        network = network;
        address = none;
        success = false;
        detail = "no deployer configured (dry run)";
      })
      | some deployed ↦ ok deployed
    ]
    else raise (
        deploy_target_error (
          concat (
            "deploy_test_contract only allowed on ['anvil', 'localhost'], got "
            ∷ repr network
            ∷ [])))
