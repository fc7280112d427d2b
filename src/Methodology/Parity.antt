-- ===== src/Methodology/Parity.antt =====
-- `AuditMethodologyService.parity`: the canonical records of a snapshot, in the order of their keys.
use mathlib.Core.List.{Perm}
use araratsec_agent.Prelude.{
  ℕ, String, Bool, true, false, Option, none, some, List, ◌++◌, map, ◌≡◌, refl, ◌==◌, eq_iff, arith,
  if◌then◌else◌,
}
use araratsec_agent.Prelude.Texts.{before_colon, is_empty}
use araratsec_agent.Prelude.Sort.{
  IsSorted, sort_by, sort_by-perm, sort_by-IsSorted, str_leb, str_leb-IsOrder,
}
use araratsec_agent.Prelude.Result.{Result, ok, ◌>>=◌}
use araratsec_agent.Methodology.Models.{
  AnalyzerExecution, AnalyzerOutcome, Fault, MemorySnapshot, ProjectedFinding, RoadmapProjection,
  StageEvent, TransitionType,
}
use araratsec_agent.Methodology.Service.{Unpacked, or_empty, project, unpack}

pub record CanonicalParityRecord : Type 0 where
  pub transition_type : Option TransitionType
  pub chunk_id : Option String
  pub target : Option String
  pub analyzer_id : Option String
  pub analyzer_outcome : Option AnalyzerOutcome
  pub grounded : Bool
  pub location : String
  pub severity : String
  pub tags : List String
  pub preconditions : List (ℕ × Bool)
  pub notes : String

abbrev blank : CanonicalParityRecord
blank = record {
  transition_type = none;
  chunk_id = none;
  target = none;
  analyzer_id = none;
  analyzer_outcome = none;
  grounded = false;
  location = "";
  severity = "";
  tags = List.[];
  preconditions = List.[];
  notes = "";
}

abbrev of_event : StageEvent → CanonicalParityRecord
of_event e = record blank {
  transition_type = some e.transition_type;
  chunk_id = e.chunk_id;
  target = e.target;
}

abbrev of_execution : AnalyzerExecution → CanonicalParityRecord
of_execution x = record blank {
  analyzer_id = some x.analyzer_id;
  target = some x.target;
  analyzer_outcome = some x.analyzer_outcome;
}

abbrev of_finding : ProjectedFinding → CanonicalParityRecord
of_finding f = record blank {
  target = if is_empty f.location then none else some (before_colon f.location);
  grounded = f.grounded;
  location = f.location;
  severity = f.severity;
  tags = f.tags;
  preconditions = f.preconditions;
  notes = f.notes;
  analyzer_id = f.analyzer_id;
}

-- The literal that a transition type stands for, or the empty text.
abbrev type_text : Option TransitionType → String
type_text none = ""
type_text (some TransitionType.discover) = "discover"
type_text (some TransitionType.check) = "check"
type_text (some TransitionType.synthesize) = "synthesize"
type_text (some TransitionType.skip) = "skip"
type_text (some TransitionType.gap) = "gap"

abbrev then_by : String → String → Bool → Bool
then_by a b rest = if a == b then rest else str_leb a b

-- The order of the key tuples.
unfoldable pub parity_leb : CanonicalParityRecord → CanonicalParityRecord → Bool
parity_leb r s = then_by (type_text r.transition_type) (type_text s.transition_type) (
    then_by (or_empty r.chunk_id) (or_empty s.chunk_id) (
      then_by (or_empty r.target) (or_empty s.target)
        (str_leb (or_empty r.analyzer_id) (or_empty s.analyzer_id))))

abbrev pub records_of : RoadmapProjection → Unpacked → List CanonicalParityRecord
records_of p u = map of_event u.0 ++ (map of_execution u.1 ++ map of_finding p.findings)

unfoldable pub parity : MemorySnapshot → Result Fault (List CanonicalParityRecord)
parity s = project s >>= λ p. unpack s >>= λ u. ok (sort_by parity_leb (records_of p u))

then_by-total :
    (a b : String) (x y : Bool)
    → (x ≡ false → y ≡ true)
    → then_by a b x ≡ false
    → then_by b a y ≡ true
then_by-total a b x y h k = ground (arith, eq_iff a b, eq_iff b a, str_leb-IsOrder.total a b)

parity_leb-total : (r s : CanonicalParityRecord) → parity_leb r s ≡ false → parity_leb s r ≡ true
unfolding parity_leb
parity_leb-total r s =
    then_by-total (type_text r.transition_type) (type_text s.transition_type) _ _ (
      then_by-total (or_empty r.chunk_id) (or_empty s.chunk_id) _ _ (
        then_by-total (or_empty r.target) (or_empty s.target) _ _
          (str_leb-IsOrder.total (or_empty r.analyzer_id) (or_empty s.analyzer_id))))

-- Where a snapshot projects and unpacks, its parity records are those of its events, executions and
-- projected findings, each as often as it stands there, in the order of their keys.
pub parity_lem :
    (s : MemorySnapshot) (p : RoadmapProjection) (u : Unpacked)
    → project s ≡ ok p
    → unpack s ≡ ok u
    → (rs : List CanonicalParityRecord) × (parity s ≡ ok rs)
      × Perm rs (records_of p u)
      × IsSorted parity_leb rs
unfolding parity
parity_lem s p u projected unpacked = (
  sort_by parity_leb (records_of p u),
  rw (projected, unpacked) refl,
  sort_by-perm parity_leb (records_of p u),
  sort_by-IsSorted parity_leb parity_leb-total (records_of p u),
)
