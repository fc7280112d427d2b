-- ===== src/Methodology/Grounding.antt =====
-- `_grounding_map` and the search of `is_grounded`: which findings an analyzer run supports.
pub mod Agreement
use araratsec_agent.Prelude.{
  String, Bool, true, false, Option, none, some, List, [], ◌∷◌, ◌&&◌, any, find_first,
  if◌then◌else◌, ◌==◌, not,
}
use araratsec_agent.Prelude.Texts.{contains, before_colon, is_empty}
use araratsec_agent.Prelude.Dict.{Dict, lookup, insert}
use araratsec_agent.Finding.{Finding}
use araratsec_agent.Methodology.Models.{AnalyzerExecution, AnalyzerOutcome, is_falsy}

-- `exe.analyzer_outcome == "ran"`
abbrev pub has_run : AnalyzerExecution → Bool
has_run x = elim x.analyzer_outcome [ AnalyzerOutcome.ran ↦ true | _ ↦ false ]

-- `{f.finding_id: False for f in findings}`
pub all_false : List Finding → Dict Bool → Dict Bool
all_false [] d = d
all_false (f ∷ fs) d = all_false fs (insert f.finding_id false d)

-- `{f.finding_id: f for f in findings}`: of two findings with one id the last stays
pub by_id : List Finding → Dict Finding → Dict Finding
by_id [] d = d
by_id (f ∷ fs) d = by_id fs (insert f.finding_id f d)

-- The body of the loop over `exe.finding_ids`.
unfoldable pub ground_id : Dict Finding → AnalyzerExecution → String → Dict Bool → Dict Bool
ground_id ids x fid d = elim (lookup fid ids) [
  | none ↦ d
  | some f ↦ if x.target == before_colon f.location then insert fid true d else d
]

pub ground_ids : Dict Finding → AnalyzerExecution → List String → Dict Bool → Dict Bool
ground_ids ids x [] d = d
ground_ids ids x (fid ∷ fids) d = ground_ids ids x fids (ground_id ids x fid d)

pub ground_all : Dict Finding → List AnalyzerExecution → Dict Bool → Dict Bool
ground_all ids [] d = d
ground_all ids (x ∷ xs) d =
    ground_all ids xs (if has_run x then ground_ids ids x x.finding_ids d else d)

unfoldable pub grounding_map : List Finding → List AnalyzerExecution → Dict Bool
unfolding ground_all all_false by_id
grounding_map fs xs = ground_all (by_id fs []) xs (all_false fs [])

-- `grounded.get(f.finding_id, False)`
abbrev pub get_false : Option Bool → Bool
get_false none = false
get_false (some b) = b

-- One round of the loop of `is_grounded`: the execution that returns `True`.
abbrev pub supports : String → String → Option String → AnalyzerExecution → Bool
supports fid want digest x =
    contains fid x.finding_ids
    && has_run x
    && x.target == want
    && (elim digest [ none ↦ true | some h ↦ x.target_digest == h ])

-- `target or finding.location.split(":")[0]`
abbrev pub or_file : Option String → Finding → String
or_file none f = before_colon f.location
or_file (some t) f = if is_empty t then before_colon f.location else t

-- `is_grounded` on what the snapshot unpacks to.
unfoldable pub is_grounded_in :
    List Finding → List AnalyzerExecution → String → Option String → Option String → Bool
is_grounded_in fs xs fid target digest = elim (find_first (λ f. f.finding_id == fid) fs) [
  | none ↦ false
  | some f ↦ any (supports fid (or_file target f) digest) xs
]
