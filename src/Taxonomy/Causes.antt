-- ===== src/Taxonomy/Causes.antt =====
-- scripts/scaffold_taxonomy.py: whom a failed finding is charged to.
use araratsec_agent.Prelude.{
  ◌≡◌, refl, sym, ap, ◌∙◌, inl, inr, Bool, true, false, Option, none, some, List, [], ◌∷◌, map,
  String, select, All, All-select, not, ◌==◌, ◌&&◌, arith, eq_iff, last_or, if◌then◌else◌,
  Bool-cases, and-true,
}
use mathlib.Core.Bool.{false≢true}
use araratsec_agent.Prelude.Texts.{contains}
use araratsec_agent.Prelude.Dict.{lookup}
use araratsec_agent.Taxonomy.{
  Nature, model, is_ok, cause_nature, fold_nature, closed, synthesis_causes,
}

abbrev is_model : Option Nature → Bool
is_model (some model) = true
is_model _ = false

all_true : (String → Bool) → List String → Bool
all_true p [] = true
all_true p (c ∷ cs) = p c && all_true p cs

contains-all_true :
    (p : String → Bool) (c : String) (cs : List String)
    → all_true p cs ≡ true
    → contains c cs ≡ true
    → p c ≡ true
unfolding all_true
contains-all_true p c [] h e = ground arith
contains-all_true p c (d ∷ ds) h e =
    let both = and-true (p d) (all_true p ds) h in
    elim (Bool-cases (c == d)) [
      | inl s ↦ ap p ((eq_iff c d).0 s) ∙ both.0
      | inr n ↦ contains-all_true p c ds both.1 (ground arith)
    ]

charges_model : String → Bool
unfolding cause_nature
charges_model c = is_model (cause_nature c)

synthesis_charge : all_true (λ c. not (charges_model c)) synthesis_causes ≡ true
unfolding all_true charges_model cause_nature lookup
synthesis_charge = refl

not-true : (b : Bool) → not b ≡ true → b ≡ false
not-true b h = ground arith

chosen_charge :
    (c : String) (b : Bool)
    → contains c synthesis_causes ≡ b
    → charges_model (if b then c else "unclassified") ≡ false
unfolding charges_model cause_nature lookup
chosen_charge c true e =
    not-true (charges_model c)
      (contains-all_true (λ c. not (charges_model c)) c synthesis_causes synthesis_charge e)
chosen_charge c false e = refl

closed-charge : (c : Option String) → charges_model (closed c synthesis_causes) ≡ false
unfolding charges_model cause_nature lookup
closed-charge none = refl
closed-charge (some c) = chosen_charge c (contains c synthesis_causes) refl

Quiet : List String → Type 0
Quiet cs = All (λ c. charges_model c ≡ false) cs

closed-Quiet : (raw : List (Option String)) → Quiet (map (λ c. closed c synthesis_causes) raw)
unfolding Quiet
closed-Quiet [] = tt
closed-Quiet (c ∷ raw) = (closed-charge c, closed-Quiet raw)

last_or-charge :
    (d : String) (cs : List String) → Quiet (d ∷ cs) → charges_model (last_or d cs) ≡ false
unfolding Quiet
last_or-charge d [] h = h.0
last_or-charge d (c ∷ cs) h = last_or-charge c cs h.1

model_charge : (c : String) → cause_nature c ≡ some model → charges_model c ≡ true
unfolding charges_model
model_charge c e = ap is_model e

fold_nature-failures :
    (cause : String) (cs : List String)
    → Quiet cs
    → fold_nature cause cs ≡ some model
    → (select (λ c. not (is_ok c)) cs ≡ []) × (cause_nature cause ≡ some model)
unfolding fold_nature
fold_nature-failures cause cs quiet h =
    go (is_ok cause) (select (λ c. not (is_ok c)) cs)
      (unfold Quiet in All-select (λ c. charges_model c ≡ false) (λ c. not (is_ok c)) cs quiet) h
  where
    go :
        (b : Bool) (failed : List String)
        → Quiet failed
        → (if b
            then none
            else elim failed [ [] ↦ cause_nature cause | c ∷ cs ↦ cause_nature (last_or c cs) ])
          ≡ some model
        → (failed ≡ []) × (cause_nature cause ≡ some model)
    go true failed q e = ground arith
    go false [] q e = (refl, e)
    go false (c ∷ cs) q e =
        let charged = model_charge (last_or c cs) e in
        let quiet = last_or-charge c cs q in elim (false≢true (sym quiet ∙ charged)) [ ]

kept-none {ℓ} :
    {A : Type ℓ} (b : Bool) (x : A) (xs : List A)
    → (if not b then x ∷ xs else xs) ≡ []
    → (b ≡ true) × (xs ≡ [])
kept-none true x xs h = (refl, h)
kept-none false x xs h = ground arith

select-ok :
    (raw : List (Option String))
    → select (λ c. not (is_ok c)) (map (λ c. closed c synthesis_causes) raw) ≡ []
    → All (λ c. is_ok (closed c synthesis_causes) ≡ true) raw
select-ok [] h = tt
select-ok (c ∷ raw) h =
    let parts =
      kept-none (is_ok (closed c synthesis_causes)) (closed c synthesis_causes)
        (select (λ c. not (is_ok c)) (map (λ c. closed c synthesis_causes) raw)) h in
    (parts.0, select-ok raw parts.1)

-- A failed finding is charged to the exploit model only if none of its synthesis attempts failed,
-- whatever causes these attempts reported, and the cause of the finding itself is the model's.
pub fold_nature-model :
    (cause : String) (raw : List (Option String))
    → fold_nature cause (map (λ c. closed c synthesis_causes) raw) ≡ some model
    → All (λ c. is_ok (closed c synthesis_causes) ≡ true) raw × (cause_nature cause ≡ some model)
fold_nature-model cause raw h =
    let both =
      fold_nature-failures cause (map (λ c. closed c synthesis_causes) raw) (closed-Quiet raw) h in
    (select-ok raw both.0, both.1)
