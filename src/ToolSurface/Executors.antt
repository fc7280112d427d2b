-- ===== src/ToolSurface/Executors.antt =====
-- The executors of the chat tools in agent_tool_surface.py. The kernel's file tools, the making of a
-- fetcher and `int` of a text are parameters; `raise` is an exception that leaves the executor.
use araratsec_agent.Prelude.{ℕ, String, true, Option, none, some, List, [], ◌∷◌, map, if◌then◌else◌}
use araratsec_agent.Prelude.Int.{ℤ, pos}
use araratsec_agent.Prelude.Texts.{concat, join, is_empty, decimal, splitlines}
use araratsec_agent.Prelude.Dict.{Dict, lookup}
use araratsec_agent.Prelude.Result.{Result, ok, raise, ◌>>=◌}
use araratsec_agent.StaticAnalysis.{
  ToolError, tool_error, sandbox_error, sandbox_timeout, Raised, caught, crashed, MythrilFinding,
  run_mythril,
}
use araratsec_agent.StaticAnalysis.Slither.{SlitherFinding, run_slither}
use araratsec_agent.Onchain.{
  OnChainError, onchain_error, Tx, TransactionAnalysis, analyze_transactions,
}
use araratsec_agent.ToolSurface.{Wrap, render_tool_result, ran_payload}
use araratsec_agent.Methodology.Analyzers.{Machine}

-- The kernel's `Action`: a focus is the only parameter that is no text.
pub record ToolAction : Type 0 where
  pub action_type : String
  pub params : Dict String
  pub focus : Option (List String)

pub record Hit : Type 0 where
  pub file : String
  pub line : ℕ
  pub text : String

pub record Tools : Type 0 where
  pub machine : Machine
  pub wrap_data : Wrap
  pub read_file : String → Result String String
  pub search_code : String → String → Result String (List Hit)
  pub make_fetcher : Result OnChainError (String → ℤ → ℤ → Result OnChainError (List Tx))
  pub int_of : String → Result String ℤ
  pub lower : String → String
  pub repr : String → String

-- `str(params.get(k, d))`
abbrev get_or : String → String → Dict String → String
get_or k d params = elim (lookup k params) [ none ↦ d | some v ↦ v ]

-- `"\n".join(…) or d`
abbrev joined_or : String → List String → String
joined_or d lines = if is_empty (join "\n" lines) then d else join "\n" lines

module _ (tools : Tools) where
  open tools use {machine, wrap_data, read_file, search_code, make_fetcher, int_of, lower, repr}

  abbrev error_with : String → String → String → String → String
  error_with status cause tool path =
      render_tool_result wrap_data
        (record {
          status = status;
          tool = tool;
          cause = cause;
          retryable = true;
          counts = none;
          body = "";
        })
        path

  -- `_payload_from_error`
  unfoldable pub payload_from_error : ToolError → String → String → String
  unfolding render_tool_result
  payload_from_error (sandbox_timeout e) tool path = error_with "timeout" e tool path
  payload_from_error (sandbox_error e) tool path = error_with "did_not_run" e tool path
  payload_from_error (tool_error e) tool path = error_with "did_not_run" e tool path

  abbrev missing_param : String → String → String
  missing_param k tool =
      wrap_data (concat ("TOOL ERROR: missing required param '" ∷ k ∷ "'" ∷ [])) tool ""

  -- `_exec_read_file`
  unfoldable pub exec_read_file : ToolAction → String
  unfolding lookup
  exec_read_file action = elim (lookup "path" action.params) [
    | none ↦ missing_param "path" "read_file"
    | some path ↦ elim (read_file path) [
      | ok content ↦ wrap_data content "read_file" path
      | raise e ↦ wrap_data (concat ("TOOL ERROR: " ∷ e ∷ [])) "read_file" ""
    ]
  ]

  abbrev hit_line : Hit → String
  hit_line h = concat (h.file ∷ ":" ∷ decimal h.line ∷ ": " ∷ h.text ∷ [])

  -- `_exec_search_code`
  unfoldable pub exec_search_code : ToolAction → String
  unfolding lookup decimal
  exec_search_code action =
      let root = get_or "root" machine.scope_root action.params in
      elim (lookup "pattern" action.params) [
        | none ↦ missing_param "pattern" "search_code"
        | some pattern ↦ elim (search_code pattern root) [
          | ok hits ↦ wrap_data (joined_or "(no matches)" (map hit_line hits)) "search_code" root
          | raise e ↦ wrap_data (concat ("TOOL ERROR: " ∷ e ∷ [])) "search_code" ""
        ]
      ]

  -- `int(params.get(k, 0))`
  abbrev int_param : String → Dict String → Result String ℤ
  int_param k params = elim (lookup k params) [ none ↦ ok (pos 0) | some v ↦ int_of v ]

  abbrev analysis_error : OnChainError → ToolError
  analysis_error (onchain_error e) = tool_error e

  abbrev analysis_text : String → Result OnChainError TransactionAnalysis → String
  analysis_text address (raise e) =
      payload_from_error (analysis_error e) "analyze_transactions" address
  analysis_text address (ok res) =
      ran_payload wrap_data "analyze_transactions"
        (splitlines (joined_or "(no notable transactions)" res.notes)) address

  abbrev analyze_with :
      ToolAction → String → (String → ℤ → ℤ → Result OnChainError (List Tx)) → Result String String
  analyze_with action address fetcher = int_param "from_block" action.params >>= λ from_block.
      int_param "to_block" action.params >>= λ to_block. ok (
        analysis_text address
          (analyze_transactions lower repr address from_block to_block fetcher action.focus))

  -- `_exec_analyze_transactions`
  unfoldable pub exec_analyze_transactions : ToolAction → Result String String
  unfolding lookup analyze_transactions payload_from_error ran_payload splitlines
  exec_analyze_transactions action = elim make_fetcher [
    | raise e ↦ ok (
        payload_from_error (analysis_error e) "analyze_transactions"
          (get_or "address" "" action.params))
    | ok fetcher ↦ elim (lookup "address" action.params) [
      | none ↦ ok (payload_from_error (tool_error "'address'") "analyze_transactions" "")
      | some address ↦ analyze_with action address fetcher
    ]
  ]

  -- An `AttributeError` or a `TypeError`, which the executors do not catch.
  abbrev wrong_type : String
  wrong_type = "a read into a decoded value of another type"

  abbrev slither_text : String → Result Raised (List SlitherFinding) → Result String String
  slither_text target (raise crashed) = raise wrong_type
  slither_text target (raise (caught e)) = ok (payload_from_error e "run_slither" target)
  slither_text target (ok fs) = ok (
      ran_payload wrap_data "run_slither"
        (map (λ f. concat (f.check ∷ ": " ∷ f.description ∷ [])) fs) target)

  -- `_exec_run_slither`
  unfoldable pub exec_run_slither : ToolAction → Result String String
  unfolding lookup payload_from_error ran_payload run_slither
  exec_run_slither action =
      let target = get_or "target" "" action.params in
      slither_text target (
        run_slither machine.run machine.decode_slither (machine.relative_to_root target)
          machine.scope_root target)

  abbrev mythril_text : String → Result Raised (List MythrilFinding) → Result String String
  mythril_text target (raise crashed) = raise wrong_type
  mythril_text target (raise (caught e)) = ok (payload_from_error e "run_mythril" target)
  mythril_text target (ok fs) = ok (
      ran_payload wrap_data "run_mythril"
        (map (λ f. concat (f.title ∷ ": " ∷ f.description ∷ [])) fs) target)

  -- `_exec_run_mythril`
  unfoldable pub exec_run_mythril : ToolAction → Result String String
  unfolding lookup payload_from_error ran_payload run_mythril
  exec_run_mythril action =
      let target = get_or "target" "" action.params in
      mythril_text target (
        run_mythril machine.run machine.decode_mythril (machine.relative_to_root target)
          machine.scope_root target)

  -- `_fail_closed_write_execute`
  unfoldable pub exec_fail_closed : ToolAction → String
  exec_fail_closed action =
      wrap_data "WRITE_EXECUTE cannot run from dispatch; confirmation required" action.action_type
        ""
