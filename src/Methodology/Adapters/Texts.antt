-- ===== src/Methodology/Adapters/Texts.antt =====
-- The body of a handler's result: `_render_body`, and the values of the enums that it prints.
use araratsec_agent.Prelude.{String, Option, List, [], ◌∷◌, ◌++◌, map, if◌then◌else◌, ◌||◌}
use araratsec_agent.Prelude.Texts.{concat, join, decimal, is_in}
use araratsec_agent.Methodology.Models.{
  TransitionType, StageOutcome, RoadmapState, RoadmapRow, MethodologyTransition, is_falsy,
}
use araratsec_agent.Methodology.Service.{or_empty}

abbrev pub transition_text : TransitionType → String
transition_text TransitionType.discover = "discover"
transition_text TransitionType.check = "check"
transition_text TransitionType.synthesize = "synthesize"
transition_text TransitionType.skip = "skip"
transition_text TransitionType.gap = "gap"

abbrev outcome_text : StageOutcome → String
outcome_text StageOutcome.ran = "ran"
outcome_text StageOutcome.did_not_run = "did_not_run"
outcome_text StageOutcome.timeout = "timeout"
outcome_text StageOutcome.skipped = "skipped"
outcome_text StageOutcome.empty = "empty"

abbrev state_text : RoadmapState → String
state_text RoadmapState.pending = "pending"
state_text RoadmapState.analysed = "analysed"
state_text RoadmapState.skipped = "skipped"
state_text RoadmapState.gap = "gap"

-- `if x: lines.append(f"{name}={x}")`
abbrev named : String → Option String → List String
named name x = if is_falsy x then [] else concat (name ∷ "=" ∷ or_empty x ∷ []) ∷ []

abbrev under : String → List String → List String
under title [] = []
under title (l ∷ ls) = title ∷ l ∷ ls

abbrev row_line : RoadmapRow → String
row_line row = concat (
    "  "
    ∷ row.target
    ∷ " ["
    ∷ state_text row.state
    ∷ "]"
    ∷ (if is_falsy row.reason then "" else concat (" (" ∷ or_empty row.reason ∷ ")" ∷ []))
    ∷ [])

-- `_render_body`
unfoldable pub render_body : MethodologyTransition → String
unfolding decimal
render_body t =
    let event = t.stage_event in
    let proj = t.projection in
    join "\n" (
      concat (
        "stage="
        ∷ transition_text event.transition_type
        ∷ " outcome="
        ∷ outcome_text event.outcome
        ∷ [])
      ∷ concat ("as_of_sequence=" ∷ decimal proj.as_of_sequence ∷ [])
      ∷ (named "chunk_id" event.chunk_id
          ++ named "target" event.target
          ++ named "reason" event.reason
          ++ under "priority_targets:" (map (λ t. concat ("  " ∷ t ∷ [])) event.targets)
          ++ (if is_falsy proj.empty_label then [] else or_empty proj.empty_label ∷ [])
          ++ under "roadmap:" (map row_line proj.targets)))

-- `_outcome_from_body`
unfoldable pub outcome_from_body : String → StageOutcome
unfolding is_in
outcome_from_body body =
    if is_in "status=timeout" body
    then StageOutcome.timeout
    else if is_in "status=did_not_run" body || is_in "status=unavailable" body
    then StageOutcome.did_not_run
    else if is_in "status=error" body
    then StageOutcome.did_not_run
    else StageOutcome.ran
