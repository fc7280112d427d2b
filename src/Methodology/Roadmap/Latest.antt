-- ===== src/Methodology/Roadmap/Latest.antt =====
-- The roadmap row of one target is the last decision about it, or the first discovery of it.
use araratsec_agent.Prelude.{
  String, ◌≡◌, refl, inl, inr, Option, none, some, List, [], ◌∷◌, arith, ◌==◌, eq_iff, Option-cases,
  if◌then◌else◌, map, count, ℕ, ◌≤◌, ◌∙◌,
}
use araratsec_agent.Prelude.Texts.{contains}
use araratsec_agent.Prelude.Dict.{Dict, lookup, insert, lookup-insert}
use araratsec_agent.Methodology.Models.{TransitionType, StageEvent, RoadmapRow}
use araratsec_agent.Methodology.Roadmap.{
  discovered_row, decided_row, truthy_target, touch_all, apply_event, rows_from, rows,
}

-- The first of two answers that is there.
abbrev pub or_else : Option RoadmapRow → Option RoadmapRow → Option RoadmapRow
or_else (some a) b = some a
or_else none b = b

-- What the event decides about the target.
abbrev pub decision : String → StageEvent → Option RoadmapRow
decision t e = elim (truthy_target e) [
  | none ↦ none
  | some u ↦ if u == t then decided_row e t else none
]

-- What the event discovers about the target.
abbrev pub discovery : String → StageEvent → Option RoadmapRow
discovery t e = elim e.transition_type [
  | TransitionType.discover ↦ if contains t e.targets then some (discovered_row e t) else none
  | _ ↦ none
]

abbrev pub last_decision : String → List StageEvent → Option RoadmapRow
last_decision t [] = none
last_decision t (e ∷ es) = or_else (last_decision t es) (decision t e)

abbrev pub first_discovery : String → List StageEvent → Option RoadmapRow
first_discovery t [] = none
first_discovery t (e ∷ es) = or_else (discovery t e) (first_discovery t es)

lookup-touch_all :
    (t : String) (e : StageEvent) (us : List String) (d : Dict RoadmapRow)
    → lookup t (touch_all e us d)
      ≡ or_else (lookup t d) (if contains t us then some (discovered_row e t) else none)
unfolding touch_all
lookup-touch_all t e [] d = ground arith
lookup-touch_all t e (u ∷ us) d = ground (
  arith,
  lookup-touch_all t e us d,
  lookup-touch_all t e us (insert u (discovered_row e u) d),
  lookup-insert u t (discovered_row e u) d,
  eq_iff t u,
  eq_iff u t,
)

lookup-apply_event :
    (t : String) (e : StageEvent) (d : Dict RoadmapRow)
    → lookup t (apply_event e d) ≡ or_else (decision t e) (or_else (lookup t d) (discovery t e))
unfolding apply_event
lookup-apply_event t e d = elim (Option-cases (truthy_target e)) [
  | inl silent ↦ ground (arith, lookup-touch_all t e e.targets d)
  | inr (u, told) ↦ elim (Option-cases (decided_row e u)) [
    | inl nothing ↦ ground (arith, lookup-touch_all t e e.targets d, eq_iff u t)
    | inr (row, decided) ↦
        ground (arith, lookup-touch_all t e e.targets d, lookup-insert u t row d, eq_iff u t)
  ]
]

lookup-rows_from :
    (t : String) (es : List StageEvent) (d : Dict RoadmapRow)
    → lookup t (rows_from es d)
      ≡ or_else (last_decision t es) (or_else (lookup t d) (first_discovery t es))
unfolding rows_from
lookup-rows_from t [] d = ground arith
lookup-rows_from t (e ∷ es) d =
    ground (arith, lookup-rows_from t es (apply_event e d), lookup-apply_event t e d)

-- The key of each entry is the target of its row, and no key is listed twice.
abbrev pub IsKeyed : Dict RoadmapRow → Type 0
IsKeyed [] = Unit
IsKeyed ((t, row) ∷ d) = (row.target ≡ t) × (lookup t d ≡ none) × IsKeyed d

insert-IsKeyed :
    (t : String) (row : RoadmapRow) (d : Dict RoadmapRow)
    → row.target ≡ t
    → IsKeyed d
    → IsKeyed (insert t row d)
unfolding insert lookup
insert-IsKeyed t row [] e k = (e, refl, tt)
insert-IsKeyed t row ((j, old) ∷ d) e k =
    ground (arith, insert-IsKeyed t row d e k.2, lookup-insert t j row d, eq_iff j t, eq_iff t j)

touch_all-IsKeyed :
    (e : StageEvent) (us : List String) (d : Dict RoadmapRow)
    → IsKeyed d
    → IsKeyed (touch_all e us d)
unfolding touch_all
touch_all-IsKeyed e [] d k = k
touch_all-IsKeyed e (u ∷ us) d k = elim (Option-cases (lookup u d)) [
  | inl new ↦ rw new (
      touch_all-IsKeyed e us (insert u (discovered_row e u) d)
        (insert-IsKeyed u (discovered_row e u) d refl k))
  | inr (row, old) ↦ rw old (touch_all-IsKeyed e us d k)
]

decided_row-target :
    (e : StageEvent) (t : String) (row : RoadmapRow) → decided_row e t ≡ some row → row.target ≡ t
decided_row-target e t row h = ground arith

apply_event-IsKeyed : (e : StageEvent) (d : Dict RoadmapRow) → IsKeyed d → IsKeyed (apply_event e d)
unfolding apply_event
apply_event-IsKeyed e d k = elim (Option-cases (truthy_target e)) [
  | inl silent ↦ ground (arith, touch_all-IsKeyed e e.targets d k)
  | inr (u, told) ↦ elim (Option-cases (decided_row e u)) [
    | inl nothing ↦ ground (arith, touch_all-IsKeyed e e.targets d k)
    | inr (row, decided) ↦ ground (
      arith,
      touch_all-IsKeyed e e.targets d k,
      insert-IsKeyed u row d (decided_row-target e u row decided) k,
    )
  ]
]

rows_from-IsKeyed :
    (es : List StageEvent) (d : Dict RoadmapRow) → IsKeyed d → IsKeyed (rows_from es d)
unfolding rows_from
rows_from-IsKeyed [] d k = k
rows_from-IsKeyed (e ∷ es) d k = rows_from-IsKeyed es (apply_event e d) (apply_event-IsKeyed e d k)

-- The row that a list of rows has for a target.
abbrev pub row_of : String → List RoadmapRow → Option RoadmapRow
row_of t [] = none
row_of t (row ∷ rows) = if row.target == t then some row else row_of t rows

row_of-map :
    (t : String) (d : Dict RoadmapRow)
    → IsKeyed d
    → row_of t (map (λ entry. entry.1) d) ≡ lookup t d
unfolding lookup
row_of-map t [] k = refl
row_of-map t ((j, row) ∷ d) k = ground (arith, row_of-map t d k.2, eq_iff j t, eq_iff row.target t)

-- The row of a target is what the last check, skip or gap event with that target wrote, and
-- otherwise the pending row of the first discovery that lists it; a target without such an event
-- has no row.
pub row_of-rows :
    (t : String) (es : List StageEvent)
    → row_of t (rows es) ≡ or_else (last_decision t es) (first_discovery t es)
unfolding rows lookup
row_of-rows t es =
    row_of-map t (rows_from es []) (rows_from-IsKeyed es [] tt) ∙ lookup-rows_from t es []

abbrev pub row_count : String → List RoadmapRow → ℕ
row_count t = count (λ row. row.target == t)

row_count-map :
    (t : String) (d : Dict RoadmapRow)
    → IsKeyed d
    → row_count t (map (λ entry. entry.1) d) ≡ elim (lookup t d) [ none ↦ 0 | some _ ↦ 1 ]
unfolding lookup
row_count-map t [] k = refl
row_count-map t ((j, row) ∷ d) k =
    ground (arith, row_count-map t d k.2, eq_iff j t, eq_iff row.target t)

-- No target has two rows.
pub row_count-rows : (t : String) (es : List StageEvent) → row_count t (rows es) ≤ 1
unfolding rows
row_count-rows t es = ground (arith, row_count-map t (rows_from es []) (rows_from-IsKeyed es [] tt))
