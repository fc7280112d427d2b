-- ===== src/Stage3.antt =====
-- audit_agent/planner/stage3.py: severity correction, and the combination of findings that
-- interact. The list of `Finding` objects is a store: an object is its place in the list, `a is b`
-- is equality of places, and an assignment to a field writes the store. The objects of the list
-- are distinct, as the callers build them.
pub mod Store
pub mod Keeps
pub mod Outcome
use araratsec_agent.Prelude.{
  ℕ, zero, suc, ◌+◌, String, Bool, true, false, Option, none, some, List, [], ◌∷◌, ◌++◌, map,
  get_elem?, length, select, any, ltb, leb, eqb, not, ◌&&◌, ◌==◌, if◌then◌else◌,
}
use araratsec_agent.Prelude.Texts.{concat, join, decimal, before_colon, after_colon}
use araratsec_agent.Prelude.Dict.{Dict, lookup, insert}
use araratsec_agent.Finding.{Finding, Severity}
use araratsec_agent.Severity.{rank, check_severity, was_corrected, final, has_mitigations}
use araratsec_agent.Sig.{StateInterferenceGraph, interferes}
use Store.{modify_at}

pub record Stage3Result : Type 0 where
  pub findings : List Finding
  pub corrections : List String
  pub combinations : List String

-- Pass 1 on one finding: the finding after it.
unfoldable pub correct : Finding → Finding
correct f =
    if was_corrected (check_severity f) then record f { severity = final (check_severity f) } else f

abbrev reason_or_empty : Option String → String
reason_or_empty none = ""
reason_or_empty (some r) = r

-- The lines that pass 1 appends to `corrections`.
unfoldable pub correction_lines : List Finding → List String
correction_lines [] = []
correction_lines (f ∷ fs) =
    if was_corrected (check_severity f)
    then reason_or_empty (check_severity f).correction_reason ∷ correction_lines fs
    else correction_lines fs

-- `groups[k].append(i)` on a `defaultdict(list)`
abbrev add_to_group : String → ℕ → Dict (List ℕ) → Dict (List ℕ)
add_to_group k i [] = (k, i ∷ []) ∷ []
add_to_group k i ((j, is) ∷ d) =
    if j == k then (j, is ++ i ∷ []) ∷ d else (j, is) ∷ add_to_group k i d

-- The places of the findings by source file, from place `i` on.
pub group_from : ℕ → List Finding → Dict (List ℕ) → Dict (List ℕ)
group_from i [] d = d
group_from i (f ∷ fs) d = group_from (suc i) fs (add_to_group (before_colon f.location) i d)

module _ (sig : Option StateInterferenceGraph) where
  -- `interacts` of two findings that are not one object
  unfoldable pub findings_interact : Option Finding → Option Finding → Bool
  findings_interact none b = false
  findings_interact (some a) none = false
  findings_interact (some a) (some b) = elim sig [
    | none ↦ true
    | some g ↦ interferes g (after_colon a.location) (after_colon b.location)
  ]

  -- `interacts(a, b)` at places
  unfoldable pub interacts : List Finding → ℕ → ℕ → Bool
  unfolding findings_interact
  interacts st i j = if eqb i j then false else findings_interact (get_elem? st i) (get_elem? st j)

  abbrev id_at : List Finding → ℕ → String
  id_at st i = elim (get_elem? st i) [ none ↦ "" | some f ↦ f.finding_id ]

  -- The loop that sets `combined_with`.
  pub link : List ℕ → List ℕ → List Finding → List Finding
  link group [] st = st
  link group (i ∷ is) st = link group is (
      modify_at i (λ f. record f { combined_with = map (id_at st) (select (interacts st i) group) })
        st)

  -- The condition of the comprehension `severe`.
  unfoldable pub severe_at : List Finding → ℕ → Bool
  unfolding rank has_mitigations
  severe_at st i = elim (get_elem? st i) [
    | none ↦ false
    | some f ↦ leb (rank Severity.high) (rank f.severity) && not (has_mitigations f)
  ]

  unfoldable pub elevated : List ℕ → List Finding → List ℕ
  unfolding severe_at
  elevated group st =
      let severe = select (severe_at st) group in select (λ i. any (interacts st i) severe) severe

  -- The loop that sets the severity of a chain to critical.
  pub make_critical : List ℕ → List Finding → List Finding
  make_critical [] st = st
  make_critical (i ∷ is) st =
      make_critical is (modify_at i (λ f. record f { severity = Severity.critical }) st)

  unfoldable pub chain_line : String → List ℕ → List Finding → String
  chain_line source_file es st = concat (
      source_file
      ∷ ": "
      ∷ decimal (length es)
      ∷ " interacting unmitigated high+ findings → critical chain ("
      ∷ join ", " (map (id_at st) es)
      ∷ ")"
      ∷ [])

  -- The body of the loop over the groups, on the store and `combinations`.
  unfoldable pub combine_group :
      String → List ℕ → List Finding × List String → List Finding × List String
  unfolding link elevated make_critical
  combine_group source_file group (st, combos) =
      if ltb (length group) 2
      then (st, combos)
      else (let linked = link group group st in
          let es = elevated group linked in
          if leb 2 (length es)
          then (make_critical es linked, combos ++ chain_line source_file es linked ∷ [])
          else (linked, combos))

-- `(sigs or {}).get(source_file)` and the loop over `groups.items()`
unfoldable pub combine_groups :
    Dict StateInterferenceGraph
    → Dict (List ℕ)
    → List Finding × List String
    → List Finding × List String
combine_groups sigs [] acc = acc
combine_groups sigs ((file, group) ∷ rest) acc =
    combine_groups sigs rest (combine_group (lookup file sigs) file group acc)

unfoldable pub run_stage3 : List Finding → Dict StateInterferenceGraph → Stage3Result
unfolding correct
run_stage3 findings sigs =
    let st = map correct findings in
    let (st', combos) = combine_groups sigs (group_from 0 st []) (st, []) in
    record { findings = st'; corrections = correction_lines findings; combinations = combos }
