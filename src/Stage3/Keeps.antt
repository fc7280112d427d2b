-- ===== src/Stage3/Keeps.antt =====
-- What the passes of `run_stage3` may change in a finding.
use araratsec_agent.Prelude.{
  ℕ, zero, suc, ◌≤◌, ◌≡◌, ◌⊎◌, inl, inr, String, true, false, Option, some, List, [], ◌∷◌,
  get_elem?, length, leb, ltb, arith, All, All-select, select_sound, Bool-cases,
}
use araratsec_agent.Prelude.Dict.{Dict, lookup}
use araratsec_agent.Finding.{Finding, Severity}
use araratsec_agent.Severity.{rank, has_mitigations}
use araratsec_agent.Sig.{StateInterferenceGraph}
use araratsec_agent.Stage3.Store.{modify_at, Pointwise, modify_at-Pointwise}
use araratsec_agent.Stage3.{link, severe_at, elevated, make_critical, combine_group, combine_groups}

-- The finding `y` is `x` after the combination: only the links may differ, and the severity, which
-- is raised to critical only on an unmitigated finding of at least high severity.
pub record Evolved (x y : Finding) : Type 0 where
  pub same_id : y.finding_id ≡ x.finding_id
  pub same_location : y.location ≡ x.location
  pub same_function : y.function_name ≡ x.function_name
  pub same_tag : y.bastet_tag ≡ x.bastet_tag
  pub same_status : y.status ≡ x.status
  pub same_preconditions : y.preconditions ≡ x.preconditions
  pub same_mitigations : y.mitigations_present ≡ x.mitigations_present
  pub same_poc_path : y.poc_path ≡ x.poc_path
  pub same_poc_status : y.poc_status ≡ x.poc_status
  pub severity_raised :
      (y.severity ≡ x.severity)
      ⊎ ((y.severity ≡ Severity.critical) × (has_mitigations x ≡ false) × (3 ≤ rank x.severity))

pub Evolved-refl : (x : Finding) → Evolved x x
Evolved-refl x = ground arith

Evolved-link :
    (x y : Finding) (ids : List String) → Evolved x y → Evolved x (record y { combined_with = ids })
Evolved-link x y ids e = ground arith

-- A finding that is severe now was severe before.
Evolved-critical :
    (x y : Finding)
    → (3 ≤ rank y.severity)
    → has_mitigations y ≡ false
    → Evolved x y
    → Evolved x (record y { severity = Severity.critical })
unfolding has_mitigations
Evolved-critical x y r m e = ground arith

module _ (sig : Option StateInterferenceGraph) where
  link-Evolved :
      (group is : List ℕ) (xs ys : List Finding)
      → Pointwise Evolved xs ys
      → Pointwise Evolved xs (link sig group is ys)
  unfolding link
  link-Evolved group [] xs ys p = p
  link-Evolved group (i ∷ is) xs ys p =
      link-Evolved group is xs _
        (modify_at-Pointwise Evolved i _ xs ys (λ x y _ e. Evolved-link x y _ e) p)

  -- Making one place critical leaves the severe places severe.
  severe_at-modify_at :
      (i j : ℕ) (st : List Finding)
      → severe_at sig st j ≡ true
      → severe_at sig (modify_at i (λ f. record f { severity = Severity.critical }) st) j ≡ true
  unfolding severe_at
  severe_at-modify_at i j [] h = h
  severe_at-modify_at zero zero (f ∷ st) h = ground arith
  severe_at-modify_at zero (suc j) (f ∷ st) h = h
  severe_at-modify_at (suc i) zero (f ∷ st) h = h
  severe_at-modify_at (suc i) (suc j) (f ∷ st) h = severe_at-modify_at i j st h

  All-severe-modify_at :
      (i : ℕ) (js : List ℕ) (st : List Finding)
      → All (λ j. severe_at sig st j ≡ true) js
      → All
          (λ j.
            severe_at sig (modify_at i (λ f. record f { severity = Severity.critical }) st) j
            ≡ true)
          js
  All-severe-modify_at i [] st h = tt
  All-severe-modify_at i (j ∷ js) st h =
      (severe_at-modify_at i j st h.0, All-severe-modify_at i js st h.1)

  severe_at-get :
      (i : ℕ) (st : List Finding) (y : Finding)
      → get_elem? st i ≡ some y
      → severe_at sig st i ≡ true
      → (3 ≤ rank y.severity) × (has_mitigations y ≡ false)
  unfolding severe_at
  severe_at-get i st y g h = ground arith

  make_critical-Evolved :
      (es : List ℕ) (xs ys : List Finding)
      → All (λ i. severe_at sig ys i ≡ true) es
      → Pointwise Evolved xs ys
      → Pointwise Evolved xs (make_critical sig es ys)
  unfolding make_critical
  make_critical-Evolved [] xs ys h p = p
  make_critical-Evolved (i ∷ es) xs ys h p =
      make_critical-Evolved es xs _ (All-severe-modify_at i es ys h.1) (
        modify_at-Pointwise Evolved i _ xs ys
          (λ x y g e. let s = severe_at-get i ys y g h.0 in Evolved-critical x y s.0 s.1 e) p)

  elevated_severe :
      (group : List ℕ) (st : List Finding)
      → All (λ i. severe_at sig st i ≡ true) (elevated sig group st)
  unfolding elevated
  elevated_severe group st =
      All-select (λ i. severe_at sig st i ≡ true) _ _ (select_sound (severe_at sig st) group)

  combine_group-Evolved :
      (file : String) (group : List ℕ) (xs ys : List Finding) (combos : List String)
      → Pointwise Evolved xs ys
      → Pointwise Evolved xs (combine_group sig file group (ys, combos)).0
  unfolding combine_group
  combine_group-Evolved file group xs ys combos p = elim (Bool-cases (ltb (length group) 2)) [
    | inl small ↦ rw small p
    | inr large ↦
        rw large
          (elim (Bool-cases (leb 2 (length (elevated sig group (link sig group group ys))))) [
            | inl chain ↦ rw chain (
                make_critical-Evolved _ xs _ (elevated_severe group _)
                  (link-Evolved group group xs ys p))
            | inr none_found ↦ rw none_found (link-Evolved group group xs ys p)
          ])
  ]

pub combine_groups-Evolved :
    (sigs : Dict StateInterferenceGraph) (groups : Dict (List ℕ)) (xs ys : List Finding)
    (combos : List String)
    → Pointwise Evolved xs ys
    → Pointwise Evolved xs (combine_groups sigs groups (ys, combos)).0
unfolding combine_groups
combine_groups-Evolved sigs [] xs ys combos p = p
combine_groups-Evolved sigs ((file, group) ∷ rest) xs ys combos p =
    let (ys', combos') = combine_group (lookup file sigs) file group (ys, combos) in
    combine_groups-Evolved sigs rest xs ys' combos'
      (combine_group-Evolved (lookup file sigs) file group xs ys combos p)
