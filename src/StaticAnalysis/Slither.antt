-- ===== src/StaticAnalysis/Slither.antt =====
-- Slither's output as findings.
use Prim.Native.String.{String}
use araratsec_agent.Prelude.{
  ℕ, zero, suc, Bool, false, Option, none, some, List, [], ◌∷◌, ltb, ◌==◌, if◌then◌else◌,
}
use araratsec_agent.Prelude.Texts.{concat, is_empty, strip, decimal}
use araratsec_agent.Prelude.Dict.{Dict, lookup}
use araratsec_agent.Prelude.Result.{Result, ok, raise, ◌>>=◌}
use araratsec_agent.Finding.{Finding, Severity, FindingStatus, BastetTag, severity_of}
use araratsec_agent.StaticAnalysis.{
  tool_error, Raised, caught, crashed, from_tool, Parsed, parsed, other, expect, or_default, Run,
  printed, relative, or_empty,
}

-- An element of a detector's report; the source mapping is its lines, where it has them.
pub record Element : Type 0 where
  pub kind : Option String
  pub name : Option String
  pub source_mapping : Parsed (List ℕ)

pub record Detector : Type 0 where
  pub check : Option String
  pub impact : Option String
  pub confidence : Option String
  pub description : Parsed String
  pub elements : Parsed (List (Parsed Element))

pub record Results : Type 0 where
  pub detectors : Parsed (List (Parsed Detector))

pub record Report : Type 0 where
  pub results : Parsed Results

abbrev pub no_results : Results
no_results = record { detectors = other false }

pub record SlitherFinding : Type 0 where
  pub check : String
  pub impact : String
  pub confidence : String
  pub description : String
  pub function : String
  pub line : Option ℕ

abbrev pub impact_to_severity : Dict String
impact_to_severity =
    ("High", "high")
    ∷ ("Medium", "medium")
    ∷ ("Low", "low")
    ∷ ("Informational", "informational")
    ∷ ("Optimization", "informational")
    ∷ []

-- `SLITHER_CHECK_TO_TAG`
abbrev pub check_to_tag : Dict BastetTag
check_to_tag =
    ("reentrancy-eth", BastetTag.reentrancy)
    ∷ ("reentrancy-no-eth", BastetTag.reentrancy)
    ∷ ("reentrancy-benign", BastetTag.reentrancy)
    ∷ ("reentrancy-events", BastetTag.reentrancy)
    ∷ ("arbitrary-send-eth", BastetTag.arbitrary_external_call)
    ∷ ("unchecked-transfer", BastetTag.unchecked_return_value)
    ∷ ("unchecked-lowlevel", BastetTag.unchecked_return_value)
    ∷ ("unchecked-send", BastetTag.unchecked_return_value)
    ∷ ("tx-origin", BastetTag.access_control)
    ∷ ("suicidal", BastetTag.access_control)
    ∷ ("controlled-delegatecall", BastetTag.delegatecall_injection)
    ∷ ("delegatecall-loop", BastetTag.delegatecall_injection)
    ∷ ("weak-prng", BastetTag.timestamp_dependence)
    ∷ ("timestamp", BastetTag.timestamp_dependence)
    ∷ ("incorrect-equality", BastetTag.logic_error)
    ∷ ("missing-zero-check", BastetTag.missing_check)
    ∷ []

-- `SlitherFinding.severity`
unfoldable pub slither_severity : String → String
unfolding lookup
slither_severity impact = elim (lookup impact impact_to_severity) [
  | none ↦ "informational"
  | some s ↦ s
]

abbrev pub is_function : Element → Bool
is_function e = elim e.kind [ none ↦ false | some k ↦ k == "function" ]

abbrev head_line : List ℕ → Option ℕ
head_line [] = none
head_line (l ∷ ls) = some l

-- `next((e for e in elements if e.get("type") == "function"), None)`
unfoldable pub function_element : List (Parsed Element) → Result Raised (Option Element)
function_element [] = ok none
function_element (other b ∷ es) = raise crashed
function_element (parsed e ∷ es) =
    let rest = function_element es in if is_function e then ok (some e) else rest

-- `((el.get("source_mapping") or {}).get("lines") or [])`, and its first line
abbrev pub element_line : Element → Result Raised (Option ℕ)
element_line e = or_default [] e.source_mapping >>= λ lines. ok (head_line lines)

-- `elements[0] if elements else None`, and its line
abbrev pub first_line : List (Parsed Element) → Result Raised (Option ℕ)
first_line [] = ok none
first_line (v ∷ es) = expect v >>= λ e. element_line e

abbrev pub named_line : List (Parsed Element) → Option Element → Result Raised (String × Option ℕ)
named_line elements none = first_line elements >>= λ line. ok ("", line)
named_line elements (some e) = element_line e >>= λ line. ok (or_empty e.name, line)

-- `_element_function_line`
unfoldable pub element_function_line : List (Parsed Element) → Result Raised (String × Option ℕ)
unfolding function_element
element_function_line elements = function_element elements >>= λ e. named_line elements e

abbrev pub slither_record : Detector → String × Option ℕ → String → SlitherFinding
slither_record d (function, line) description = record {
  check = or_empty d.check;
  impact = or_empty d.impact;
  confidence = or_empty d.confidence;
  description = strip description;
  function = function;
  line = line;
}

unfoldable pub detector_finding : Parsed Detector → Result Raised SlitherFinding
unfolding element_function_line strip
detector_finding v = expect v >>= λ d. or_default [] d.elements >>= λ elements.
    element_function_line elements >>= λ place.
    or_default "" d.description >>= λ description. ok (slither_record d place description)

unfoldable pub detector_findings : List (Parsed Detector) → Result Raised (List SlitherFinding)
unfolding detector_finding
detector_findings [] = ok []
detector_findings (d ∷ ds) = detector_finding d >>= λ f. detector_findings ds >>= λ fs. ok (f ∷ fs)

-- `parse_slither_json`, on what `json.loads` gives
unfoldable pub parse_slither_json :
    Result String (Parsed Report) → Result Raised (List SlitherFinding)
unfolding detector_findings
parse_slither_json (raise e) =
    raise (caught (tool_error (concat ("could not parse slither JSON: " ∷ e ∷ []))))
parse_slither_json (ok v) = expect v >>= λ report.
    or_default no_results report.results >>= λ results.
    or_default [] results.detectors >>= λ detectors. detector_findings detectors

-- `run_slither` without a choice of detectors
unfoldable pub run_slither :
    Run
    → (String → Result String (Parsed Report))
    → Option String
    → String
    → String
    → Result Raised (List SlitherFinding)
unfolding parse_slither_json
run_slither run decode rel audit_root target = from_tool (relative rel audit_root target) >>= λ r.
    from_tool (run "slither-sandbox" (concat ("/audit/contracts/" ∷ r ∷ []) ∷ "--json" ∷ "-" ∷ []))
    >>= λ out. from_tool (printed "slither" out) >>= λ stdout. parse_slither_json (decode stdout)

-- `f"{i:03d}"`
unfoldable pub pad3 : ℕ → String
unfolding decimal
pad3 n =
    if ltb n 10
    then concat ("00" ∷ decimal n ∷ [])
    else if ltb n 100
    then concat ("0" ∷ decimal n ∷ [])
    else decimal n

-- `f"{file_rel}:{sf.line}" if sf.line else file_rel`
unfoldable pub line_location : String → Option ℕ → String
unfolding decimal
line_location file_rel none = file_rel
line_location file_rel (some zero) = file_rel
line_location file_rel (some (suc n)) = concat (file_rel ∷ ":" ∷ decimal (suc n) ∷ [])

-- The `ValueError` of `Severity(…)`.
pub data BadSeverity : Type 0 where
  bad_severity : String → BadSeverity

-- `Severity(s)`, behind the search for `s`
abbrev known_severity : String → Option Severity → Result BadSeverity Severity
known_severity s none = raise (bad_severity s)
known_severity s (some v) = ok v

-- The `Finding` that is built for a severity.
unfoldable pub finding_of : ℕ → String → SlitherFinding → Severity → Finding
unfolding pad3 line_location lookup
finding_of i file_rel sf severity = record {
  finding_id = concat ("SLITHER-" ∷ pad3 i ∷ []);
  location = line_location file_rel sf.line;
  function_name = if is_empty sf.function then "unknown" else sf.function;
  bastet_tag = lookup sf.check check_to_tag;
  severity = severity;
  status = FindingStatus.opened;
  preconditions = [];
  mitigations_present = [];
  poc_path = none;
  poc_status = none;
  combined_with = [];
}

unfoldable pub slither_finding : ℕ → String → SlitherFinding → Result BadSeverity Finding
slither_finding i file_rel sf =
    let s = slither_severity sf.impact in
    known_severity s (severity_of s) >>= λ severity. ok (finding_of i file_rel sf severity)

-- The loop of `slither_to_findings`, from the number of the first finding on.
unfoldable pub slither_findings_from :
    ℕ → String → List SlitherFinding → Result BadSeverity (List Finding)
unfolding slither_finding
slither_findings_from i file_rel [] = ok []
slither_findings_from i file_rel (sf ∷ sfs) = slither_finding i file_rel sf >>= λ f.
    slither_findings_from (suc i) file_rel sfs >>= λ fs. ok (f ∷ fs)

unfoldable pub slither_to_findings :
    List SlitherFinding → String → Result BadSeverity (List Finding)
unfolding slither_findings_from
slither_to_findings sfs file_rel = slither_findings_from 1 file_rel sfs
