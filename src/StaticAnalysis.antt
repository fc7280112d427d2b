-- ===== src/StaticAnalysis.antt =====
-- audit_agent/tools/static_analysis.py: the outputs of Slither and Mythril as findings. The sandbox,
-- the decoding of JSON and the resolving of paths are parameters. What is decoded may have another
-- type than the code expects wherever the code reads into it; a field that is only passed on is a text
-- or missing.
pub mod Slither
pub mod Formed
pub mod Converted
use Prim.Native.String.{String}
use araratsec_agent.Prelude.{
  ℕ, zero, suc, Bool, true, false, Option, none, some, List, [], ◌∷◌, ◌++◌, find_first, ltb, eqb,
  select, not, ◌==◌, ◌||◌, if◌then◌else◌,
}
use araratsec_agent.Prelude.Texts.{concat, join, is_empty, strip, decimal, take_chars}
use araratsec_agent.Prelude.Result.{Result, ok, raise, ◌>>=◌}

-- `SlitherError` or `MythrilError`, and what the sandbox raises.
pub data ToolError : Type 0 where
  tool_error : String → ToolError
  sandbox_error : String → ToolError
  sandbox_timeout : String → ToolError

-- What leaves a runner: one of these, or the `AttributeError` or `TypeError` of a read into a decoded
-- value of another type.
pub data Raised : Type 0 where
  caught : ToolError → Raised
  crashed : Raised

abbrev pub from_tool : {A : Type 0} → Result ToolError A → Result Raised A
from_tool (ok x) = ok x
from_tool (raise e) = raise (caught e)

-- A value that JSON gives: of the type that the code expects, or another one, with its truth value; a
-- missing key and `null` are false.
pub data Parsed (A : Type 0) : Type 0 where
  parsed : A → Parsed A
  other : Bool → Parsed A

-- `v.get(…)`, or the step of a loop that reads `v.get(…)`: only on the expected type
abbrev pub expect : {A : Type 0} → Parsed A → Result Raised A
expect (parsed x) = ok x
expect (other b) = raise crashed

-- `v or d`, which is then read as the expected type
abbrev pub or_default : {A : Type 0} → A → Parsed A → Result Raised A
or_default d (parsed x) = ok x
or_default d (other false) = ok d
or_default d (other true) = raise crashed

pub record Output : Type 0 where
  pub stdout : String
  pub stderr : String

-- The sandbox: an image and a command.
abbrev pub Run : Type 0
Run = String → List String → Result ToolError Output

-- `stdout` where it is not blank.
abbrev pub printed : String → Output → Result ToolError String
printed name out =
    if is_empty (strip out.stdout)
    then raise (
        tool_error (
          concat
            (name ∷ " produced no JSON output (stderr: " ∷ take_chars 300 out.stderr ∷ ")" ∷ [])))
    else ok out.stdout

-- `target.relative_to(audit_root)`, both resolved; `none` where it is not under the root
abbrev pub relative : Option String → String → String → Result ToolError String
relative none audit_root target =
    raise (tool_error (concat ("target " ∷ target ∷ " is outside audit root " ∷ audit_root ∷ [])))
relative (some rel) audit_root target = ok rel

-- One issue of Mythril's JSON; `none` is a missing key.
pub record Issue : Type 0 where
  pub title : Option String
  pub swc_id : Option String
  pub severity : Option String
  pub function : Option String
  pub description : Parsed String
  pub description_head : Option String
  pub description_tail : Option String

pub record MythrilJson : Type 0 where
  pub success : Option Bool
  pub error : Option String
  pub issues : Parsed (List (Parsed Issue))

pub record MythrilFinding : Type 0 where
  pub title : String
  pub swc_id : String
  pub severity : String
  pub function : String
  pub description : String

abbrev pub or_empty : Option String → String
or_empty none = ""
or_empty (some s) = s

abbrev pub failed : MythrilJson → Bool
failed j = elim j.success [ some false ↦ true | _ ↦ not (is_empty (or_empty j.error)) ]

-- `str(data.get("error"))[:200]`
abbrev error_text : Option String → String
error_text none = "None"
error_text (some e) = e

abbrev describe : Issue → String → String
describe i description =
    if is_empty description
    then join " " (
        select (λ p. not (is_empty p))
          (or_empty i.description_head ∷ or_empty i.description_tail ∷ []))
    else description

unfoldable pub issue_finding : Parsed Issue → Result Raised MythrilFinding
unfolding strip
issue_finding v = expect v >>= λ i. or_default "" i.description >>= λ description. ok (record {
  title = or_empty i.title;
  swc_id = or_empty i.swc_id;
  severity = or_empty i.severity;
  function = or_empty i.function;
  description = strip (describe i description);
})

unfoldable pub issue_findings : List (Parsed Issue) → Result Raised (List MythrilFinding)
unfolding issue_finding
issue_findings [] = ok []
issue_findings (i ∷ is) = issue_finding i >>= λ f. issue_findings is >>= λ fs. ok (f ∷ fs)

abbrev pub mythril_issues : MythrilJson → Result Raised (List MythrilFinding)
mythril_issues j =
    if failed j
    then raise (
        caught (
          tool_error
            (concat ("mythril analysis failed: " ∷ take_chars 200 (error_text j.error) ∷ []))))
    else (or_default [] j.issues >>= λ is. issue_findings is)

-- `parse_mythril_json`, on what `json.loads` gives
unfoldable pub parse_mythril_json :
    Result String (Parsed MythrilJson) → Result Raised (List MythrilFinding)
unfolding issue_findings
parse_mythril_json (raise e) =
    raise (caught (tool_error (concat ("could not parse mythril JSON: " ∷ e ∷ []))))
parse_mythril_json (ok v) = expect v >>= λ j. mythril_issues j

-- `run_mythril` with the default version of solc and no depth
unfoldable pub run_mythril :
    Run
    → (String → Result String (Parsed MythrilJson))
    → Option String
    → String
    → String
    → Result Raised (List MythrilFinding)
unfolding parse_mythril_json
run_mythril run decode rel audit_root target = from_tool (relative rel audit_root target) >>= λ r.
    from_tool (
      run "mythril-sandbox" (
        "analyze"
        ∷ concat ("/audit/contracts/" ∷ r ∷ [])
        ∷ "-o"
        ∷ "json"
        ∷ "--solv"
        ∷ "0.8.20"
        ∷ []))
    >>= λ out. from_tool (printed "mythril" out) >>= λ stdout. parse_mythril_json (decode stdout)
