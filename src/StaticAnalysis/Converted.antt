-- ===== src/StaticAnalysis/Converted.antt =====
-- What the conversion of Slither's findings returns.
use Prim.Native.String.{String}
use araratsec_agent.Prelude.{
  ℕ, zero, suc, ◌≡◌, refl, Bool, true, false, Option, none, some, List, [], ◌∷◌, if◌then◌else◌,
  ◌==◌,
}
use araratsec_agent.Prelude.Texts.{before_colon}
use araratsec_agent.Prelude.Texts.Colon.{before_colon-append}
use araratsec_agent.Prelude.Dict.{lookup}
use araratsec_agent.Prelude.Result.{ok}
use araratsec_agent.Finding.{Finding, Severity, severity_of, FindingStatus}
use araratsec_agent.StaticAnalysis.Slither.{
  SlitherFinding, slither_severity, finding_of, slither_finding, slither_findings_from,
  slither_to_findings, line_location,
}

-- What the table of impacts returns.
severity_of-impact :
    (a b c d e : Bool)
    → (v : Severity) × (severity_of
          (elim (if a
            then some "high"
            else if b
            then some "medium"
            else if c
            then some "low"
            else if d
            then some "informational"
            else if e
            then some "informational"
            else none) [ none ↦ "informational" | some s ↦ s ])
        ≡ some v)
unfolding severity_of
severity_of-impact true b c d e = (Severity.high, refl)
severity_of-impact false true c d e = (Severity.medium, refl)
severity_of-impact false false true d e = (Severity.low, refl)
severity_of-impact false false false true e = (Severity.informational, refl)
severity_of-impact false false false false true = (Severity.informational, refl)
severity_of-impact false false false false false = (Severity.informational, refl)

-- Every impact has a severity that the enum knows.
severity_of-slither :
    (impact : String) → (v : Severity) × (severity_of (slither_severity impact) ≡ some v)
unfolding slither_severity lookup
severity_of-slither impact =
    severity_of-impact ("High" == impact) ("Medium" == impact) ("Low" == impact)
      ("Informational" == impact) ("Optimization" == impact)

before_colon-line_location :
    (file_rel : String) (line : Option ℕ)
    → before_colon (line_location file_rel line) ≡ before_colon file_rel
unfolding line_location
before_colon-line_location file_rel none = refl
before_colon-line_location file_rel (some zero) = refl
before_colon-line_location file_rel (some (suc n)) = before_colon-append file_rel _

-- A finding of Slither as the finding that is kept.
unfoldable pub Converts : String → SlitherFinding → Finding → Type 0
Converts file_rel sf f =
    (severity_of (slither_severity sf.impact) ≡ some f.severity)
    × (before_colon f.location ≡ before_colon file_rel)
    × (f.status ≡ FindingStatus.opened)

-- Two lists whose elements correspond in order.
unfoldable pub Converted : String → List SlitherFinding → List Finding → Type 0
Converted file_rel [] [] = Unit
Converted file_rel (sf ∷ sfs) (f ∷ fs) = Converts file_rel sf f × Converted file_rel sfs fs
Converted file_rel [] (f ∷ fs) = ⊥
Converted file_rel (sf ∷ sfs) [] = ⊥

slither_finding-ok :
    (i : ℕ) (file_rel : String) (sf : SlitherFinding)
    → (f : Finding) × (slither_finding i file_rel sf ≡ ok f) × Converts file_rel sf f
unfolding Converts finding_of slither_finding
slither_finding-ok i file_rel sf =
    let (v, e) = severity_of-slither sf.impact in
    (finding_of i file_rel sf v, rw e refl, (e, before_colon-line_location file_rel sf.line, refl))

slither_findings_from-ok :
    (i : ℕ) (file_rel : String) (sfs : List SlitherFinding)
    → (fs : List Finding) × (slither_findings_from i file_rel sfs ≡ ok fs)
      × Converted file_rel sfs fs
unfolding slither_findings_from Converted
slither_findings_from-ok i file_rel [] = ([], refl, tt)
slither_findings_from-ok i file_rel (sf ∷ sfs) =
    let (f, e, c) = slither_finding-ok i file_rel sf in
    let (fs, e', cs) = slither_findings_from-ok (suc i) file_rel sfs in
    (f ∷ fs, rw (e, e') refl, (c, cs))

-- The conversion raises for no findings of Slither. It returns one finding for each, in order, with
-- the severity of its impact, in the file that was analysed, and open.
pub slither_to_findings_total :
    (sfs : List SlitherFinding) (file_rel : String)
    → (fs : List Finding) × (slither_to_findings sfs file_rel ≡ ok fs) × Converted file_rel sfs fs
unfolding slither_to_findings
slither_to_findings_total sfs file_rel = slither_findings_from-ok 1 file_rel sfs
