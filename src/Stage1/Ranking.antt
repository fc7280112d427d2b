-- ===== src/Stage1/Ranking.antt =====
-- The report ranks every function that has a flag, and skips the others.
use mathlib.Core.List.{Perm, map-append}
use mathlib.Core.Path.{subst}
use Prim.Native.Char.{Char}
use Prim.Native.String.{String}
use araratsec_agent.Prelude.{
  ◌<◌, ◌≡◌, refl, ap, sym, select, not, Bool, true, false, Option, none, some, List, [], ◌∷◌, ◌++◌,
  map, arith, ltb, Bool-cases, inl, inr, ◌⊎◌,
}
use araratsec_agent.Prelude.Texts.{concat}
use araratsec_agent.Prelude.Sort.{
  str_leb, sort_by, sort_by-perm, sort_by-IsSorted, IsSorted, str_leb-IsOrder,
}
use araratsec_agent.Stage1.{
  FunctionTarget, score_function, extract_functions, target_leb, Gathered, gather_functions,
  gather_files, run_stage1,
}

-- A function of a file as a target: the heuristic scores its body.
abbrev target_of : String → String × String → FunctionTarget
target_of rel (name, body) = record {
  target = concat (rel ∷ ":" ∷ name ∷ []);
  score = (score_function body).0;
  flags = (score_function body).1;
}

-- The targets of all functions of all files that can be read, in their order.
abbrev pub all_targets : (Char → Bool) → List (String × Option String) → List FunctionTarget
all_targets is_word [] = []
all_targets is_word ((rel, none) ∷ files) = all_targets is_word files
all_targets is_word ((rel, some source) ∷ files) =
    map (target_of rel) (extract_functions is_word source) ++ all_targets is_word files

abbrev pub flagged : FunctionTarget → Bool
flagged t = ltb 0 t.score

abbrev pub unflagged : FunctionTarget → Bool
unflagged t = not (ltb 0 t.score)

abbrev pub names : List FunctionTarget → List String
names ts = map (λ t. t.target) ts

select-append :
    (p : FunctionTarget → Bool) (ts us : List FunctionTarget)
    → select p (ts ++ us) ≡ select p ts ++ select p us
select-append p [] us = refl
select-append p (t ∷ ts) us = ground (arith, select-append p ts us)

-- The flagged targets and the names of the others are gathered.
abbrev Splits : Gathered → List FunctionTarget → Type 0
Splits g ts = (g.0 ≡ select flagged ts) × (g.1 ≡ names (select unflagged ts))

gather_functions-Splits :
    (rel : String) (functions : List (String × String))
    → Splits (gather_functions rel functions) (map (target_of rel) functions)
unfolding gather_functions
gather_functions-Splits rel [] = (refl, refl)
gather_functions-Splits rel ((name, body) ∷ functions) =
    let (p, q) = gather_functions-Splits rel functions in
    elim (Bool-cases (ltb 0 (score_function body).0)) [
      | inl e ↦ rw e (ap (◌∷◌ (target_of rel (name, body))) p, q)
      | inr e ↦ rw e (p, ap (◌∷◌ (concat (rel ∷ ":" ∷ name ∷ []))) q)
    ]

Splits-append :
    (g g' : Gathered) (ts us : List FunctionTarget)
    → Splits g ts
    → Splits g' us
    → Splits (g.0 ++ g'.0, g.1 ++ g'.1) (ts ++ us)
Splits-append g g' ts us (p, q) (p', q') = (
  rw (p, p') (sym (select-append flagged ts us)),
  rw (q, q', select-append unflagged ts us)
      (sym (
        map-append (λ (t : FunctionTarget). t.target) (select unflagged ts) (select unflagged us))),
)

-- A higher score comes first, and of one score the lower name.
abbrev pub Precedes : FunctionTarget → FunctionTarget → Type 0
Precedes a b = (b.score < a.score) ⊎ ((a.score ≡ b.score) × (str_leb a.target b.target ≡ true))

abbrev pub Ordered : List FunctionTarget → Type 0
Ordered [] = Unit
Ordered (t ∷ []) = Unit
Ordered (t ∷ u ∷ ts) = Precedes t u × Ordered (u ∷ ts)

target_leb-Precedes : (a b : FunctionTarget) → target_leb a b ≡ true → Precedes a b
unfolding target_leb
target_leb-Precedes a b h = elim (Bool-cases (ltb b.score a.score)) [
  | inl e ↦ inl (ground arith)
  | inr e ↦ inr (ground arith)
]

IsSorted-Ordered : (ts : List FunctionTarget) → IsSorted target_leb ts → Ordered ts
IsSorted-Ordered [] h = tt
IsSorted-Ordered (t ∷ []) h = tt
IsSorted-Ordered (t ∷ u ∷ ts) h = (target_leb-Precedes t u h.0, IsSorted-Ordered (u ∷ ts) h.1)

target_leb-total : (x y : FunctionTarget) → target_leb x y ≡ false → target_leb y x ≡ true
unfolding target_leb
target_leb-total x y h = ground (arith, str_leb-IsOrder.total x.target y.target)

module _ (is_word : Char → Bool) where
  gather_files-Splits :
      (files : List (String × Option String))
      → Splits (gather_files is_word files) (all_targets is_word files)
  unfolding gather_files
  gather_files-Splits [] = (refl, refl)
  gather_files-Splits ((rel, none) ∷ files) = gather_files-Splits files
  gather_files-Splits ((rel, some source) ∷ files) =
      Splits-append (gather_functions rel (extract_functions is_word source))
        (gather_files is_word files) (map (target_of rel) (extract_functions is_word source))
        (all_targets is_word files) (gather_functions-Splits rel (extract_functions is_word source))
        (gather_files-Splits files)

  -- The priority targets are the functions of the readable files whose body the heuristic scores
  -- above zero, each as often as it is found, by falling score of the body and then by name. The
  -- skipped targets are all other functions, in the order of the files.
  pub run_stage1-ranked :
      (files : List (String × Option String))
      → (ranked : List FunctionTarget) × ((run_stage1 is_word files).priority_targets
          ≡ names ranked)
        × Ordered ranked
        × Perm ranked (select flagged (all_targets is_word files))
        × ((run_stage1 is_word files).skipped_targets
            ≡ names (select unflagged (all_targets is_word files)))
  unfolding run_stage1
  run_stage1-ranked files =
      let (p, q) = gather_files-Splits files in
      let g = gather_files is_word files in
      (
        sort_by target_leb g.0,
        refl,
        IsSorted-Ordered (sort_by target_leb g.0)
            (sort_by-IsSorted target_leb target_leb-total g.0),
        subst (Perm (sort_by target_leb g.0)) p (sort_by-perm target_leb g.0),
        q,
      )
