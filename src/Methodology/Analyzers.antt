-- ===== src/Methodology/Analyzers.antt =====
-- audit_agent/methodology/adapters.py: `_run_analyzers`. The file system, the sandbox, the decoding
-- of JSON, the digest, and `str` of a finding are parameters.
pub mod Outcomes
use araratsec_agent.Prelude.{
  ℕ, zero, suc, String, Bool, true, false, Option, none, some, List, [], ◌∷◌, ◌++◌, map, length,
  if◌then◌else◌,
}
use araratsec_agent.Prelude.Texts.{join, is_empty, decimal, take_chars}
use araratsec_agent.Prelude.Dict.{Dict, lookup}
use araratsec_agent.Prelude.Result.{Result, ok, raise, ◌>>=◌}
use araratsec_agent.Cursor.{posix}
use araratsec_agent.Finding.{Finding}
use araratsec_agent.Methodology.Models.{AnalyzerExecution, AnalyzerOutcome, StageOutcome}
use araratsec_agent.StaticAnalysis.{
  ToolError, tool_error, sandbox_error, sandbox_timeout, Raised, caught, crashed, Parsed, Run,
  MythrilJson, MythrilFinding, run_mythril,
}
use araratsec_agent.StaticAnalysis.Slither.{
  Report, SlitherFinding, BadSeverity, run_slither, slither_to_findings,
}
use araratsec_agent.ToolSurface.Table.{SurfaceEntry, agent_tool_surface}

-- What the adapters read of the machine that they run on. Paths are texts, and a file is its bytes.
pub record Machine : Type 0 where
  pub scope_root : String
  pub absolute : String → String
  pub exists : String → Bool
  pub read_bytes : String → Option (List ℕ)
  pub relative_to_root : String → Option String
  pub encode : String → List ℕ
  pub sha256 : List ℕ → String
  pub sandbox_has_run : Bool
  pub run : Run
  pub decode_slither : String → Result String (Parsed Report)
  pub decode_mythril : String → Result String (Parsed MythrilJson)
  pub show_slither : SlitherFinding → String
  pub show_mythril : MythrilFinding → String

pub data Analyzer : Type 0 where
  slither mythril : Analyzer

abbrev pub analyzer_id : Analyzer → String
analyzer_id slither = "run_slither"
analyzer_id mythril = "run_mythril"

-- `SLITHER_VERSION`, `MYTHRL_VERSION`
abbrev pub analyzer_version : Analyzer → String
analyzer_version slither = "slither-sandbox"
analyzer_version mythril = "mythril-sandbox"

abbrev pub runners : List Analyzer
runners = slither ∷ mythril ∷ []

-- What the loop does not catch: a severity that the enum does not know, and a read into a decoded
-- value of another type.
pub data RunFault : Type 0 where
  severity : BadSeverity → RunFault
  wrong_type : RunFault

abbrev pub from_conversion : {A : Type 0} → Result BadSeverity A → Result RunFault A
from_conversion (ok x) = ok x
from_conversion (raise e) = raise (severity e)

-- What one run gives, and what the loop gathers.
pub record Attempt : Type 0 where
  pub outcome : AnalyzerOutcome
  pub body : String
  pub converted : List Finding

pub record Analyzed : Type 0 where
  pub executions : List AnalyzerExecution
  pub findings : List Finding
  pub worst : StageOutcome

abbrev pub stage_outcome : AnalyzerOutcome → StageOutcome
stage_outcome AnalyzerOutcome.ran = StageOutcome.ran
stage_outcome AnalyzerOutcome.did_not_run = StageOutcome.did_not_run
stage_outcome AnalyzerOutcome.timeout = StageOutcome.timeout

-- `if outcome != "ran" and worst == "ran": worst = outcome`
abbrev pub worse : StageOutcome → AnalyzerOutcome → StageOutcome
worse StageOutcome.ran outcome = stage_outcome outcome
worse worst outcome = worst

-- `"\n".join(str(f) for f in raw_findings) or "(no findings)"`
abbrev or_none : String → String
or_none body = if is_empty body then "(no findings)" else body

abbrev failed_attempt : ToolError → Attempt
failed_attempt (sandbox_timeout e) = record {
  outcome = AnalyzerOutcome.timeout;
  body = e;
  converted = [];
}
failed_attempt (sandbox_error e) = record {
  outcome = AnalyzerOutcome.did_not_run;
  body = e;
  converted = [];
}
failed_attempt (tool_error e) = record {
  outcome = AnalyzerOutcome.did_not_run;
  body = e;
  converted = [];
}

abbrev pub missing : Option SurfaceEntry → Bool
missing none = true
missing (some entry) = elim entry.executor [ none ↦ true | some e ↦ false ]

module _ (machine : Machine) where
  open machine use {
    scope_root, absolute, exists, read_bytes, relative_to_root, encode, sha256, sandbox_has_run,
    run, decode_slither, decode_mythril, show_slither, show_mythril,
  }

  -- `_target_digest`
  unfoldable pub target_digest : String → String → String
  unfolding posix decimal
  target_digest path rel = elim (read_bytes path) [
    | none ↦ sha256 (encode (posix rel) ++ 0 ∷ 48 ∷ 0 ∷ [])
    | some data_bytes ↦
        sha256 (encode (posix rel) ++ 0 ∷ (encode (decimal (length data_bytes)) ++ 0 ∷ data_bytes))
  ]

  abbrev pub slither_ran : List SlitherFinding → List Finding → Attempt
  slither_ran raw converted = record {
    outcome = AnalyzerOutcome.ran;
    body = or_none (join "\n" (map show_slither raw));
    converted = converted;
  }

  unfoldable pub slither_attempt :
      String → Result Raised (List SlitherFinding) → Result RunFault Attempt
  unfolding slither_to_findings
  slither_attempt file_rel (raise crashed) = raise wrong_type
  slither_attempt file_rel (raise (caught e)) = ok (failed_attempt e)
  slither_attempt file_rel (ok raw) =
      from_conversion (slither_to_findings raw file_rel) >>= λ converted.
      ok (slither_ran raw converted)

  pub mythril_attempt : Result Raised (List MythrilFinding) → Result RunFault Attempt
  mythril_attempt (raise crashed) = raise wrong_type
  mythril_attempt (raise (caught e)) = ok (failed_attempt e)
  mythril_attempt (ok raw) = ok (record {
    outcome = AnalyzerOutcome.ran;
    body = or_none (join "\n" (map show_mythril raw));
    converted = [];
  })

  -- The `try` of the loop: what a runner returns on the target.
  unfoldable pub attempt : Analyzer → String → String → Result RunFault Attempt
  unfolding slither_attempt mythril_attempt run_slither run_mythril
  attempt slither file_rel target =
      slither_attempt file_rel
        (run_slither run decode_slither (relative_to_root target) scope_root target)
  attempt mythril file_rel target =
      mythril_attempt (run_mythril run decode_mythril (relative_to_root target) scope_root target)

  -- An execution that did not come to a run.
  abbrev pub refused : Analyzer → String → String → String → Analyzed → Analyzed
  refused a file_rel digest why acc = record {
    executions =
        acc.executions
        ++ record {
          analyzer_id = analyzer_id a;
          analyzer_version = analyzer_version a;
          target = file_rel;
          target_digest = digest;
          analyzer_outcome = AnalyzerOutcome.did_not_run;
          result_truncated = why;
          finding_ids = [];
        }
          ∷ [];
    findings = acc.findings;
    worst = StageOutcome.did_not_run;
  }

  abbrev pub attempted : Analyzer → String → String → Attempt → Analyzed → Analyzed
  attempted a file_rel digest t acc = record {
    executions =
        acc.executions
        ++ record {
          analyzer_id = analyzer_id a;
          analyzer_version = analyzer_version a;
          target = file_rel;
          target_digest = digest;
          analyzer_outcome = t.outcome;
          result_truncated = take_chars 512 t.body;
          finding_ids = map (λ f. f.finding_id) t.converted;
        }
          ∷ [];
    findings = acc.findings ++ t.converted;
    worst = worse acc.worst t.outcome;
  }

  unfoldable pub analyze_one :
      String → String → String → Analyzer → Analyzed → Result RunFault Analyzed
  unfolding attempt lookup take_chars
  analyze_one file_rel target digest a acc =
      if missing (lookup (analyzer_id a) agent_tool_surface)
      then ok (refused a file_rel digest "executor missing" acc)
      else if sandbox_has_run
      then (attempt a file_rel target >>= λ t. ok (attempted a file_rel digest t acc))
      else ok (refused a file_rel digest "sandbox has no run()" acc)

  unfoldable pub analyze_all :
      String → String → String → List Analyzer → Analyzed → Result RunFault Analyzed
  unfolding analyze_one
  analyze_all file_rel target digest [] acc = ok acc
  analyze_all file_rel target digest (a ∷ more) acc =
      analyze_one file_rel target digest a acc >>= λ acc'.
      analyze_all file_rel target digest more acc'

  -- `_run_analyzers`
  unfoldable pub run_analyzers : String → Result RunFault Analyzed
  unfolding analyze_all target_digest
  run_analyzers file_rel =
      let path = absolute file_rel in
      let target = if exists path then path else file_rel in
      let digest = target_digest (if exists path then path else scope_root) file_rel in
      analyze_all file_rel target digest runners
        (record { executions = []; findings = []; worst = StageOutcome.ran })
