-- ===== src/Methodology/Grounding/Agreement.antt =====
-- The flag of the projection against the search of `is_grounded`.
use araratsec_agent.Prelude.{
  String, ◌≡◌, ◌∙◌, refl, inl, inr, Bool, true, false, Option, none, some, List, [], ◌∷◌, ◌&&◌,
  ◌||◌, arith, any, count, ◌≤◌, find_first, Option-cases, Bool-cases, ◌==◌, eq_iff, if◌then◌else◌,
}
use araratsec_agent.Prelude.Texts.{contains, before_colon}
use araratsec_agent.Prelude.Dict.{Dict, lookup, insert, lookup-insert}
use araratsec_agent.Finding.{Finding}
use araratsec_agent.Methodology.Models.{AnalyzerExecution}
use araratsec_agent.Methodology.Grounding.{
  has_run, all_false, by_id, ground_id, ground_ids, ground_all, grounding_map, get_false, supports,
  is_grounded_in,
}

-- The last finding with the id.
abbrev pub last_with_id : String → List Finding → Option Finding
last_with_id fid [] = none
last_with_id fid (f ∷ fs) = elim (last_with_id fid fs) [
  | some g ↦ some g
  | none ↦ if f.finding_id == fid then some f else none
]

abbrev or_first {ℓ} : {A : Type ℓ} → Option A → Option A → Option A
or_first (some a) b = some a
or_first none b = b

lookup-by_id :
    (fid : String) (fs : List Finding) (d : Dict Finding)
    → lookup fid (by_id fs d) ≡ or_first (last_with_id fid fs) (lookup fid d)
unfolding by_id
lookup-by_id fid [] d = refl
lookup-by_id fid (f ∷ fs) d =
    ground
      (arith, lookup-by_id fid fs (insert f.finding_id f d), lookup-insert f.finding_id fid f d)

-- The flag of a key, and whether it is there.
lookup-all_false :
    (fid : String) (fs : List Finding) (d : Dict Bool)
    → get_false (lookup fid d) ≡ false
    → get_false (lookup fid (all_false fs d)) ≡ false
unfolding all_false
lookup-all_false fid [] d h = h
lookup-all_false fid (f ∷ fs) d h =
    lookup-all_false fid fs (insert f.finding_id false d)
      (ground (arith, lookup-insert f.finding_id fid false d))

-- The execution has the finding's file as its target.
matches_file : Option Finding → AnalyzerExecution → Bool
matches_file none x = false
matches_file (some f) x = x.target == before_colon f.location

module _ (ids : Dict Finding) (fid : String) where
  get-ground_id :
      (x : AnalyzerExecution) (gid : String) (d : Dict Bool)
      → get_false (lookup fid (ground_id ids x gid d))
        ≡ (get_false (lookup fid d) || (fid == gid && matches_file (lookup fid ids) x))
  unfolding ground_id matches_file
  get-ground_id x gid d = elim (Option-cases (lookup gid ids)) [
    | inl unknown ↦ ground (arith, eq_iff fid gid)
    | inr (f, known) ↦ ground (arith, eq_iff fid gid, eq_iff gid fid, lookup-insert gid fid true d)
  ]

  get-ground_ids :
      (x : AnalyzerExecution) (gids : List String) (d : Dict Bool)
      → get_false (lookup fid (ground_ids ids x gids d))
        ≡ (get_false (lookup fid d) || (contains fid gids && matches_file (lookup fid ids) x))
  unfolding ground_ids
  get-ground_ids x [] d = ground arith
  get-ground_ids x (gid ∷ gids) d =
      ground (arith, get-ground_ids x gids (ground_id ids x gid d), get-ground_id x gid d)

  get-ground_all :
      (xs : List AnalyzerExecution) (d : Dict Bool)
      → get_false (lookup fid (ground_all ids xs d)) ≡ (
          get_false (lookup fid d)
          || any
              (λ x. contains fid x.finding_ids && has_run x && matches_file (lookup fid ids) x)
              xs)
  unfolding ground_all
  get-ground_all [] d = ground arith
  get-ground_all (x ∷ xs) d = elim (Bool-cases (has_run x)) [
    | inl ran ↦ rw ran (
        ground (
          arith,
          get-ground_all xs (ground_ids ids x x.finding_ids d),
          get-ground_ids x x.finding_ids d,
        ))
    | inr idle ↦ rw idle (ground (arith, get-ground_all xs d))
  ]

any-matches_file :
    (fid : String) (o : Option Finding) (xs : List AnalyzerExecution)
    → any (λ x. contains fid x.finding_ids && has_run x && matches_file (or_first o none) x) xs
      ≡ elim o [ none ↦ false | some f ↦ any (supports fid (before_colon f.location) none) xs ]
unfolding matches_file
any-matches_file fid none [] = refl
any-matches_file fid (some f) [] = refl
any-matches_file fid none (x ∷ xs) = ground (arith, any-matches_file fid none xs)
any-matches_file fid (some f) (x ∷ xs) = ground (arith, any-matches_file fid (some f) xs)

-- A finding is marked as grounded exactly if some execution that ran lists its id and has as its
-- target the file of the last finding with that id.
pub grounding_map-supports :
    (fs : List Finding) (xs : List AnalyzerExecution) (fid : String)
    → get_false (lookup fid (grounding_map fs xs)) ≡ elim (last_with_id fid fs) [
      | none ↦ false
      | some f ↦ any (supports fid (before_colon f.location) none) xs
    ]
unfolding grounding_map
grounding_map-supports fs xs fid =
    get-ground_all (by_id fs []) fid xs (all_false fs [])
    ∙ rw (lookup-all_false fid fs [] (unfold lookup in refl), lookup-by_id fid fs [])
        (unfold lookup in any-matches_file fid (last_with_id fid fs) xs)

find_first-absent :
    (fid : String) (fs : List Finding)
    → count (λ f. f.finding_id == fid) fs ≡ 0
    → (find_first (λ f. f.finding_id == fid) fs ≡ none) × (last_with_id fid fs ≡ none)
find_first-absent fid [] h = (refl, refl)
find_first-absent fid (f ∷ fs) h = ground (arith, find_first-absent fid fs)

find_first-last :
    (fid : String) (fs : List Finding)
    → count (λ f. f.finding_id == fid) fs ≤ 1
    → find_first (λ f. f.finding_id == fid) fs ≡ last_with_id fid fs
find_first-last fid [] h = refl
find_first-last fid (f ∷ fs) h = ground (arith, find_first-last fid fs, find_first-absent fid fs)

-- If at most one finding has the id, `is_grounded` without an explicit target and digest agrees
-- with the flag that the projection shows.
pub is_grounded-grounding_map :
    (fs : List Finding) (xs : List AnalyzerExecution) (fid : String)
    → count (λ f. f.finding_id == fid) fs ≤ 1
    → is_grounded_in fs xs fid none none ≡ get_false (lookup fid (grounding_map fs xs))
unfolding is_grounded_in
is_grounded-grounding_map fs xs fid h =
    ground (arith, find_first-last fid fs h, grounding_map-supports fs xs fid)
