-- ===== src/Methodology/Roadmap.antt =====
-- `AuditMethodologyService._rows`: the roadmap that a list of stage events amounts to. `order` and
-- `state` together are one dict in insertion order.
pub mod Latest
use araratsec_agent.Prelude.{
  String, Bool, Option, none, some, List, [], ◌∷◌, map, if◌then◌else◌, true, false, ◌==◌,
}
use araratsec_agent.Prelude.Texts.{is_empty}
use araratsec_agent.Prelude.Dict.{Dict, lookup, insert}
use araratsec_agent.Methodology.Models.{
  TransitionType, StageEvent, RoadmapRow, RoadmapState, is_falsy,
}

-- The pending row of a target that a discovery lists.
abbrev pub discovered_row : StageEvent → String → RoadmapRow
discovered_row e t = record {
  target = t;
  state = RoadmapState.pending;
  reason = none;
  chunk_id = e.chunk_id;
}

-- The row that a check, a skip or a gap writes for its target.
abbrev pub decided_row : StageEvent → String → Option RoadmapRow
decided_row e t = elim e.transition_type [
  | TransitionType.check ↦
      some
        (record { target = t; state = RoadmapState.analysed; reason = none; chunk_id = e.chunk_id })
  | TransitionType.skip ↦ some (record {
    target = t;
    state = RoadmapState.skipped;
    reason = e.reason;
    chunk_id = e.chunk_id;
  })
  | TransitionType.gap ↦
      some
        (record { target = t; state = RoadmapState.gap; reason = e.reason; chunk_id = e.chunk_id })
  | _ ↦ none
]

-- The loop over `event.targets` of a discovery: a target that is there keeps its row.
pub touch_all : StageEvent → List String → Dict RoadmapRow → Dict RoadmapRow
touch_all e [] d = d
touch_all e (t ∷ ts) d =
    touch_all e ts (elim (lookup t d) [ none ↦ insert t (discovered_row e t) d | some _ ↦ d ])

-- `event.target` is truthy
abbrev truthy_target : StageEvent → Option String
truthy_target e = elim e.target [ none ↦ none | some t ↦ if is_empty t then none else some t ]

abbrev write_row : String → Option RoadmapRow → Dict RoadmapRow → Dict RoadmapRow
write_row t none d = d
write_row t (some row) d = insert t row d

abbrev decide : StageEvent → Option String → Dict RoadmapRow → Dict RoadmapRow
decide e none d = d
decide e (some t) d = write_row t (decided_row e t) d

-- The body of the loop over the events.
pub apply_event : StageEvent → Dict RoadmapRow → Dict RoadmapRow
unfolding touch_all
apply_event e d = elim e.transition_type [
  | TransitionType.discover ↦ touch_all e e.targets d
  | _ ↦ decide e (truthy_target e) d
]

pub rows_from : List StageEvent → Dict RoadmapRow → Dict RoadmapRow
rows_from [] d = d
rows_from (e ∷ es) d = rows_from es (apply_event e d)

unfoldable pub rows : List StageEvent → List RoadmapRow
unfolding rows_from apply_event
rows es = map (λ entry. entry.1) (rows_from es [])
