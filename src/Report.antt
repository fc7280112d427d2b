-- ===== src/Report.antt =====
-- audit_agent/report.py: which findings a report shows, in which order, its counts, and its lines.
-- The time of the report is a text, and `str.upper` is a parameter.
pub mod Sections
use araratsec_agent.Prelude.{
  ℕ, suc, ◌<◌, String, Bool, true, false, Option, none, some, List, [], ◌∷◌, ◌++◌, map, select,
  length, not, ◌==◌, ◌||◌, ◌&&◌, ltb, eqb, if◌then◌else◌,
}
use araratsec_agent.Prelude.Texts.{concat, join, contains, is_empty, strip, decimal}
use araratsec_agent.Prelude.Dict.{Dict, lookup, insert}
use araratsec_agent.Prelude.Sort.{sort_by, str_leb}
use araratsec_agent.Methodology.Service.{Stage1Report}

abbrev pub severity_order : List String
severity_order = "critical" ∷ "high" ∷ "medium" ∷ "low" ∷ "informational" ∷ []

abbrev pub unverified_statuses : List String
unverified_statuses = "unverified" ∷ "mock_review" ∷ []

abbrev pub hidden_statuses : List String
hidden_statuses = "false_positive" ∷ []

-- The keys of a finding's dict that the report reads; `none` is a missing key, and a missing list
-- reads as the empty one.
pub record Payload : Type 0 where
  pub finding_id : Option String
  pub severity : Option String
  pub status : Option String
  pub location : Option String
  pub function_name : Option String
  pub bastet_tag : Option String
  pub engine : Option String
  pub notes : Option String
  pub notes_flags : List String
  pub mitigations_present : List String
  pub combined_with : List String

-- `f.get(key, d)`
abbrev pub get_or : String → Option String → String
get_or d none = d
get_or d (some s) = s

index_from : ℕ → String → List String → ℕ
index_from i s [] = i
index_from i s (x ∷ xs) = if x == s then i else index_from (suc i) s xs

-- `_rank`: the index, or the length where the text is not in the list
unfoldable pub rank : String → ℕ
unfolding index_from
rank s = index_from 0 s severity_order

-- The order of the sort keys `(rank, finding_id)`.
unfoldable pub key_leb : Payload → Payload → Bool
unfolding rank
key_leb f g =
    let a = rank (get_or "" f.severity) in
    let b = rank (get_or "" g.severity) in
    ltb a b || (eqb a b && str_leb (get_or "" f.finding_id) (get_or "" g.finding_id))

unfoldable pub is_visible : Payload → Bool
is_visible f = not (contains (get_or "open" f.status) hidden_statuses)

unfoldable pub is_unverified : Payload → Bool
is_unverified f = contains (get_or "open" f.status) unverified_statuses

unfoldable pub main_findings : List Payload → List Payload
main_findings fs = sort_by key_leb (select (λ f. not (is_unverified f)) (select is_visible fs))

unfoldable pub unverified_findings : List Payload → List Payload
unverified_findings fs = sort_by key_leb (select is_unverified (select is_visible fs))

abbrev pub zero_counts : Dict ℕ
zero_counts = map (λ s. (s, 0)) severity_order

-- `if sev in counts: counts[sev] += 1`
unfoldable pub add_count : String → Dict ℕ → Dict ℕ
add_count s counts = elim (lookup s counts) [ none ↦ counts | some n ↦ insert s (suc n) counts ]

-- The loop over the findings of the main section.
unfoldable pub count_severities : List Payload → Dict ℕ → Dict ℕ
unfolding add_count
count_severities [] counts = counts
count_severities (f ∷ fs) counts = count_severities fs (add_count (get_or "" f.severity) counts)

abbrev optional_line : String → Option String → List String
optional_line label none = []
optional_line label (some s) = if is_empty s then [] else concat (label ∷ s ∷ []) ∷ []

abbrev list_line : String → List String → List String
list_line label [] = []
list_line label (s ∷ ss) = concat (label ∷ join ", " (s ∷ ss) ∷ []) ∷ []

-- `if notes: lines += ["", notes]`
abbrev notes_lines : String → List String
notes_lines s = if is_empty s then [] else "" ∷ s ∷ []

-- `_render_finding`
pub render_finding : (String → String) → Payload → List String
unfolding strip
render_finding upper f =
    concat (
      "### ["
      ∷ upper (get_or "?" f.severity)
      ∷ "] "
      ∷ get_or "?" f.finding_id
      ∷ " — `"
      ∷ get_or "?" f.function_name
      ∷ "`"
      ∷ [])
    ∷ ""
    ∷ concat ("- **Location**: " ∷ get_or "?" f.location ∷ [])
    ∷ (optional_line "- **Engine**: " f.engine
        ++ optional_line "- **Category**: " f.bastet_tag
        ++ list_line "- **Mitigations present**: " f.mitigations_present
        ++ list_line "- **Combined with**: " f.combined_with
        ++ list_line "- **Sanitizer flags**: " f.notes_flags
        ++ notes_lines (strip (get_or "" f.notes))
        ++ "" ∷ [])

pub render_findings : (String → String) → List Payload → List String
unfolding render_finding
render_findings upper [] = []
render_findings upper (f ∷ fs) = render_finding upper f ++ render_findings upper fs

-- `sev.capitalize()` for the five severities
abbrev titles : List (String × String)
titles =
    ("critical", "Critical")
    ∷ ("high", "High")
    ∷ ("medium", "Medium")
    ∷ ("low", "Low")
    ∷ ("informational", "Informational")
    ∷ []

count_lines : Dict ℕ → List (String × String) → List String
unfolding decimal lookup
count_lines counts [] = []
count_lines counts ((sev, title) ∷ rest) =
    concat (
      "| "
      ∷ title
      ∷ " | "
      ∷ decimal (elim (lookup sev counts) [ none ↦ 0 | some n ↦ n ])
      ∷ " |"
      ∷ [])
    ∷ count_lines counts rest

abbrev bullets : List String → List String
bullets ts = map (λ t. concat ("- " ∷ t ∷ [])) ts

coverage : Option Stage1Report → List String
unfolding decimal
coverage none = "_Coverage data unavailable._" ∷ "" ∷ []
coverage (some r) =
    concat (
      "**Analyzed ("
      ∷ decimal (length r.priority_targets)
      ∷ ")**: prioritized red-flag targets"
      ∷ [])
    ∷ (bullets r.priority_targets
        ++ ""
          ∷ concat (
              "**Not analyzed ("
              ∷ decimal (length r.skipped_targets)
              ∷ ")**: no red-flag signal"
              ∷ [])
          ∷ (bullets r.skipped_targets ++ "" ∷ []))

-- `if section:`, with the lines of an empty section
abbrev when_any {ℓ} : {A : Type ℓ} → List A → List String → List String → List String
when_any [] full empty = empty
when_any (x ∷ xs) full empty = full

unfoldable pub generate_report :
    (String → String) → String → List Payload → Option Stage1Report → String → List String → String
unfolding main_findings unverified_findings count_severities count_lines coverage render_findings
generate_report upper project_id findings stage1 generated_at combinations =
    let main = main_findings findings in
    let unverified = unverified_findings findings in
    join "\n" (
      concat ("# Security Audit — " ∷ project_id ∷ [])
      ∷ ""
      ∷ concat ("_Generated " ∷ generated_at ∷ "_" ∷ [])
      ∷ ""
      ∷ "## Summary"
      ∷ ""
      ∷ "| Severity | Count |"
      ∷ "|---|---|"
      ∷ (count_lines (count_severities main zero_counts) titles
          ++ ""
            ∷ "## Findings"
            ∷ ""
            ∷ (when_any main (render_findings upper main) ("_No confirmed findings._" ∷ "" ∷ [])
                ++ when_any unverified
                    ("## Unverified Findings"
                      ∷ ""
                      ∷ "_Reported by analysis but not yet verified; treat as leads._"
                      ∷ ""
                      ∷ render_findings upper unverified)
                    []
                ++ when_any combinations
                    ("## Combination Chains" ∷ "" ∷ (bullets combinations ++ "" ∷ [])) []
                ++ "## Coverage" ∷ "" ∷ coverage stage1)))
