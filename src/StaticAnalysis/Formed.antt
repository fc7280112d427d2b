-- ===== src/StaticAnalysis/Formed.antt =====
-- What a decoded report has to be for its reading to end in findings or in an error of the tool.
use araratsec_agent.Prelude.{
  ◌≡◌, refl, String, true, false, Option, none, some, List, [], ◌∷◌, All, Bool-cases, inl, inr,
  arith,
}
use araratsec_agent.Prelude.Texts.{concat}
use mathlib.Core.Path.{subst}
use araratsec_agent.Prelude.Result.{Result, ok, raise, ◌>>=◌}
use araratsec_agent.StaticAnalysis.{
  ToolError, Raised, caught, crashed, from_tool, Parsed, parsed, other, expect, or_default, Issue,
  MythrilJson, failed, issue_finding, issue_findings, mythril_issues, parse_mythril_json, Run,
  Output, run_mythril, printed, relative,
}
use araratsec_agent.StaticAnalysis.Slither.{
  Element, Detector, Report, no_results, is_function, function_element, element_line, first_line,
  named_line, element_function_line, detector_finding, detector_findings, parse_slither_json,
  run_slither,
}

-- The value has the expected type, and the property.
abbrev pub Is : {A : Type 0} → (A → Type 0) → Parsed A → Type 0
Is P (parsed x) = P x
Is P (other b) = ⊥

-- The value has the expected type and the property, or it is missing or false.
abbrev pub MayBe : {A : Type 0} → (A → Type 0) → Parsed A → Type 0
MayBe P (parsed x) = P x
MayBe P (other b) = b ≡ false

abbrev Any : {A : Type 0} → A → Type 0
Any x = Unit

abbrev pub IsElement : Element → Type 0
IsElement e = MayBe Any e.source_mapping

abbrev pub IsDetector : Detector → Type 0
IsDetector d = MayBe (All (Is IsElement)) d.elements × MayBe Any d.description

-- The decoded value is an object; its results are one, if it has any; their detectors are a list of
-- objects, if they have any; and so on for the elements and the source mappings.
abbrev pub IsReport : Parsed Report → Type 0
IsReport =
    Is (λ report. MayBe (λ results. MayBe (All (Is IsDetector)) results.detectors) report.results)

abbrev pub IsAnalysis : Parsed MythrilJson → Type 0
IsAnalysis = Is (λ j. MayBe (All (Is (λ (i : Issue). MayBe Any i.description))) j.issues)

-- A result that is none of a crash.
abbrev pub NotCrashed : {A : Type 0} → Result Raised A → Type 0
NotCrashed (ok x) = Unit
NotCrashed (raise (caught e)) = Unit
NotCrashed (raise crashed) = ⊥

module _ {A B : Type 0} where
  NotCrashed-bind :
      (r : Result Raised A) (f : A → Result Raised B)
      → NotCrashed r
      → ((x : A) → r ≡ ok x → NotCrashed (f x))
      → NotCrashed (r >>= f)
  NotCrashed-bind (ok x) f h k = k x refl
  NotCrashed-bind (raise (caught e)) f h k = tt
  NotCrashed-bind (raise crashed) f h k = absurd h

  expect-bind :
      (P : A → Type 0) (v : Parsed A) (f : A → Result Raised B)
      → Is P v
      → ((x : A) → P x → NotCrashed (f x))
      → NotCrashed (expect v >>= f)
  expect-bind P (parsed x) f h k = k x h
  expect-bind P (other b) f h k = absurd h

  or_default-bind :
      (P : A → Type 0) (d : A) (v : Parsed A) (f : A → Result Raised B)
      → MayBe P v
      → P d
      → ((x : A) → P x → NotCrashed (f x))
      → NotCrashed (or_default d v >>= f)
  or_default-bind P d (parsed x) f h p k = k x h
  or_default-bind P d (other false) f h p k = k d p
  or_default-bind P d (other true) f h p k = cc

NotCrashed-from_tool : {A : Type 0} (r : Result ToolError A) → NotCrashed (from_tool r)
NotCrashed-from_tool (ok x) = tt
NotCrashed-from_tool (raise e) = tt

element_line-NotCrashed : (e : Element) → IsElement e → NotCrashed (element_line e)
element_line-NotCrashed e h = or_default-bind Any [] e.source_mapping _ h tt (λ lines p. tt)

-- The search for a function does not crash, and finds an element that can be read.
abbrev Found : Result Raised (Option Element) → Type 0
Found (ok none) = Unit
Found (ok (some e)) = IsElement e
Found (raise (caught e)) = Unit
Found (raise crashed) = ⊥

function_element-Found :
    (es : List (Parsed Element)) → All (Is IsElement) es → Found (function_element es)
unfolding function_element
function_element-Found [] h = tt
function_element-Found (other b ∷ es) h = absurd h.0
function_element-Found (parsed e ∷ es) h = elim (Bool-cases (is_function e)) [
  | inl found ↦ rw found h.0
  | inr more ↦ rw more (function_element-Found es h.1)
]

named_line-NotCrashed :
    (es : List (Parsed Element)) (r : Result Raised (Option Element))
    → All (Is IsElement) es
    → Found r
    → NotCrashed (r >>= λ e. named_line es e)
named_line-NotCrashed [] (ok none) h f = tt
named_line-NotCrashed (v ∷ es) (ok none) h f =
    NotCrashed-bind (first_line (v ∷ es)) _ (expect-bind IsElement v _ h.0 element_line-NotCrashed)
      (λ line e. tt)
named_line-NotCrashed es (ok (some e)) h f =
    NotCrashed-bind (element_line e) _ (element_line-NotCrashed e f) (λ line e'. tt)
named_line-NotCrashed es (raise (caught e)) h f = tt
named_line-NotCrashed es (raise crashed) h f = absurd f

detector_finding-NotCrashed :
    (v : Parsed Detector) → Is IsDetector v → NotCrashed (detector_finding v)
unfolding detector_finding element_function_line
detector_finding-NotCrashed v h = expect-bind IsDetector v _ h (λ d p.
    or_default-bind (All (Is IsElement)) [] d.elements _ p.0 tt (λ es q.
      NotCrashed-bind (function_element es >>= λ e. named_line es e) _
        (named_line-NotCrashed es (function_element es) q (function_element-Found es q))
        (λ place e. or_default-bind Any "" d.description _ p.1 tt (λ description t. tt))))

detector_findings-NotCrashed :
    (vs : List (Parsed Detector)) → All (Is IsDetector) vs → NotCrashed (detector_findings vs)
unfolding detector_findings
detector_findings-NotCrashed [] h = tt
detector_findings-NotCrashed (v ∷ vs) h =
    NotCrashed-bind (detector_finding v) _ (detector_finding-NotCrashed v h.0) (λ f e.
      NotCrashed-bind (detector_findings vs) _ (detector_findings-NotCrashed vs h.1) (λ fs e'. tt))

parse_slither_json-NotCrashed :
    (r : Result String (Parsed Report))
    → ((v : Parsed Report) → r ≡ ok v → IsReport v)
    → NotCrashed (parse_slither_json r)
unfolding parse_slither_json
parse_slither_json-NotCrashed (raise e) h = tt
parse_slither_json-NotCrashed (ok v) h =
    expect-bind
      (λ report. MayBe (λ results. MayBe (All (Is IsDetector)) results.detectors) report.results) v
      _ (h v refl)
      (λ report p.
        or_default-bind (λ results. MayBe (All (Is IsDetector)) results.detectors) no_results
          report.results _ p refl
          (λ results q.
            or_default-bind (All (Is IsDetector)) [] results.detectors _ q tt
              detector_findings-NotCrashed))

abbrev IsIssue : Issue → Type 0
IsIssue i = MayBe Any i.description

issue_findings-NotCrashed :
    (vs : List (Parsed Issue)) → All (Is IsIssue) vs → NotCrashed (issue_findings vs)
unfolding issue_findings issue_finding
issue_findings-NotCrashed [] h = tt
issue_findings-NotCrashed (v ∷ vs) h =
    NotCrashed-bind (issue_finding v) _
      (expect-bind IsIssue v _ h.0
        (λ i p. or_default-bind Any "" i.description _ p tt (λ description t. tt)))
      (λ f e.
        NotCrashed-bind (issue_findings vs) _ (issue_findings-NotCrashed vs h.1) (λ fs e'. tt))

mythril_issues-NotCrashed :
    (j : MythrilJson) → MayBe (All (Is IsIssue)) j.issues → NotCrashed (mythril_issues j)
mythril_issues-NotCrashed j h = elim (Bool-cases (failed j)) [
  | inl e ↦ rw e tt
  | inr e ↦ rw e (or_default-bind (All (Is IsIssue)) [] j.issues _ h tt issue_findings-NotCrashed)
]

parse_mythril_json-NotCrashed :
    (r : Result String (Parsed MythrilJson))
    → ((v : Parsed MythrilJson) → r ≡ ok v → IsAnalysis v)
    → NotCrashed (parse_mythril_json r)
unfolding parse_mythril_json
parse_mythril_json-NotCrashed (raise e) h = tt
parse_mythril_json-NotCrashed (ok v) h =
    expect-bind (λ j. MayBe (All (Is IsIssue)) j.issues) v _ (h v refl) mythril_issues-NotCrashed

printed-stdout :
    (name : String) (out : Output) (text : String)
    → from_tool (printed name out) ≡ ok text
    → out.stdout ≡ text
printed-stdout name out text h = ground arith

from_tool-ok : {A : Type 0} (r : Result ToolError A) (x : A) → from_tool r ≡ ok x → r ≡ ok x
from_tool-ok (ok y) x h = ground arith
from_tool-ok (raise e) x h = ground arith

-- What both runners do with the sandbox: where the decoding of what it printed is none of a crash, the
-- runner does not crash.
module _ {A J : Type 0} (run : Run) (image name : String) (command : String → List String)
    (decode : String → Result String J) (parse : Result String J → Result Raised A)
    (rel : Option String) (audit_root target : String) where
  abbrev runner : Result Raised A
  runner = from_tool (relative rel audit_root target) >>= λ r.
      from_tool (run image (command r)) >>= λ out.
      from_tool (printed name out) >>= λ stdout. parse (decode stdout)

  runner-NotCrashed :
      ((out : Output) (r : String)
        → run image (command r) ≡ ok out
        → NotCrashed (parse (decode out.stdout)))
      → NotCrashed runner
  runner-NotCrashed k =
      NotCrashed-bind (from_tool (relative rel audit_root target)) _ (NotCrashed-from_tool _)
        (λ r e.
          NotCrashed-bind (from_tool (run image (command r))) _ (NotCrashed-from_tool _) (λ out e'.
            NotCrashed-bind (from_tool (printed name out)) _ (NotCrashed-from_tool _) (λ stdout e''.
              subst (λ t. NotCrashed (parse (decode t))) (printed-stdout name out stdout e'')
                (k out r (from_tool-ok (run image (command r)) out e')))))

-- Whatever an analyzer prints in the sandbox is no JSON at all or has the form of its report.
pub record Prints {J : Type 0} (run : Run) (image : String) (decode : String → Result String J)
    (IsForm : J → Type 0) : Type 0 where
  pub formed :
      (command : List String) (out : Output) (v : J)
      → run image command ≡ ok out
      → decode out.stdout ≡ ok v
      → IsForm v

module _ (run : Run) (rel : Option String) (audit_root target : String) where
  pub run_slither-NotCrashed :
      (decode : String → Result String (Parsed Report))
      → Prints run "slither-sandbox" decode IsReport
      → NotCrashed (run_slither run decode rel audit_root target)
  unfolding run_slither
  run_slither-NotCrashed decode h =
      runner-NotCrashed run "slither-sandbox" "slither"
        (λ r. concat ("/audit/contracts/" ∷ r ∷ []) ∷ "--json" ∷ "-" ∷ []) decode parse_slither_json
        rel audit_root target
        (λ out r e. parse_slither_json-NotCrashed (decode out.stdout) (λ v. h.formed _ out v e))

  pub run_mythril-NotCrashed :
      (decode : String → Result String (Parsed MythrilJson))
      → Prints run "mythril-sandbox" decode IsAnalysis
      → NotCrashed (run_mythril run decode rel audit_root target)
  unfolding run_mythril
  run_mythril-NotCrashed decode h =
      runner-NotCrashed run "mythril-sandbox" "mythril"
        (λ r.
          "analyze"
          ∷ concat ("/audit/contracts/" ∷ r ∷ [])
          ∷ "-o"
          ∷ "json"
          ∷ "--solv"
          ∷ "0.8.20"
          ∷ [])
        decode parse_mythril_json rel audit_root target
        (λ out r e. parse_mythril_json-NotCrashed (decode out.stdout) (λ v. h.formed _ out v e))
