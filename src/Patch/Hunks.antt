-- ===== src/Patch/Hunks.antt =====
-- The two sides of a hunk, and what matching its body gives.
use mathlib.Core.Path.{subst}
use araratsec_agent.Prelude.{
  ℕ, suc, ◌+◌, ◌≡◌, refl, ap, String, Bool, true, false, List, [], ◌∷◌, ◌++◌, map, length, select,
  count, arith, Bool-cases, inl, inr, ◌==◌, eq_iff,
}
use araratsec_agent.Prelude.Texts.{strip}
use araratsec_agent.Prelude.Result.{Result, ok, raise, ◌>>=◌}
use araratsec_agent.Patch.{
  Refusal, context, removal, addition, Line, Matched, match_body, next_is, tail_of, as_context,
  from, hits_from, push,
}

abbrev pub is_old : Line → Bool
is_old (addition, _) = false
is_old (removal, _) = true
is_old (context, _) = true

abbrev pub is_new : Line → Bool
is_new (addition, _) = true
is_new (removal, _) = false
is_new (context, _) = true

abbrev pub is_change : Line → Bool
is_change (addition, _) = true
is_change (removal, _) = true
is_change (context, _) = false

-- The lines that a hunk takes away or keeps, and those that it leaves.
abbrev pub old_side : List Line → List String
old_side ls = map (λ l. l.1) (select is_old ls)

abbrev pub new_side : List Line → List String
new_side ls = map (λ l. l.1) (select is_new ls)

pub record IsMatch (body : List Line) (rest : List String) (m : Matched) : Type 0 where
  pub same_lines : m.lines ≡ body
  pub consumed : old_side body ++ m.rest ≡ rest
  pub old_counted : m.old_count ≡ length (old_side body)
  pub new_counted : m.new_count ≡ length (new_side body)

next_is-tail_of :
    (text : String) (rest : List String) → next_is text rest ≡ true → text ∷ tail_of rest ≡ rest
next_is-tail_of text [] h = cc
next_is-tail_of text (ln ∷ lns) h = ground (arith, eq_iff ln text)

push-IsMatch-addition :
    (text : String) (body : List Line) (rest : List String) (m : Matched)
    → IsMatch body rest m
    → IsMatch ((addition, text) ∷ body) rest (push (addition, text) m)
push-IsMatch-addition text body rest m h = ground arith

push-IsMatch-removal :
    (text : String) (body : List Line) (rest : List String) (m : Matched)
    → text ∷ tail_of rest ≡ rest
    → IsMatch body (tail_of rest) m
    → IsMatch ((removal, text) ∷ body) rest (push (removal, text) m)
push-IsMatch-removal text body rest m e h = ground arith

push-IsMatch-context :
    (text : String) (body : List Line) (rest : List String) (m : Matched)
    → text ∷ tail_of rest ≡ rest
    → IsMatch body (tail_of rest) m
    → IsMatch ((context, text) ∷ body) rest (push (context, text) m)
push-IsMatch-context text body rest m e h = ground arith

-- Inversion of one line on top of a match.
pushed :
    (r : Result Refusal Matched) (l : Line) {m : Matched}
    → (r >>= λ m'. ok (push l m')) ≡ ok m
    → (m' : Matched) × (r ≡ ok m') × (push l m' ≡ m)
pushed (ok m') l h = (m', refl, cc)
pushed (raise x) l h = cc

-- A body that matches is taken over unchanged, and its old side stands verbatim in the source.
pub match_body-IsMatch :
    (body : List Line) (rest : List String) (m : Matched)
    → match_body body rest ≡ ok m
    → IsMatch body rest m
unfolding match_body
match_body-IsMatch [] rest m h = ground arith
match_body-IsMatch ((addition, text) ∷ body) rest m h =
    let (m', e, p) = pushed (match_body body rest) (addition, text) h in
    subst (IsMatch ((addition, text) ∷ body) rest) p
      (push-IsMatch-addition text body rest m' (match_body-IsMatch body rest m' e))
match_body-IsMatch ((removal, text) ∷ body) rest m h = elim (Bool-cases (next_is text rest)) [
  | inl same ↦
      (let (m', e, p) = pushed (match_body body (tail_of rest)) (removal, text) (rw same at h) in
        subst (IsMatch ((removal, text) ∷ body) rest) p (
          push-IsMatch-removal text body rest m' (next_is-tail_of text rest same)
            (match_body-IsMatch body (tail_of rest) m' e)))
  | inr other ↦ ground arith
]
match_body-IsMatch ((context, text) ∷ body) rest m h = elim (Bool-cases (next_is text rest)) [
  | inl same ↦
      (let (m', e, p) = pushed (match_body body (tail_of rest)) (context, text) (rw same at h) in
        subst (IsMatch ((context, text) ∷ body) rest) p (
          push-IsMatch-context text body rest m' (next_is-tail_of text rest same)
            (match_body-IsMatch body (tail_of rest) m' e)))
  | inr other ↦ ground arith
]

pub old_side-as_context : (xs : List String) → old_side (as_context xs) ≡ xs
old_side-as_context [] = refl
old_side-as_context (x ∷ xs) = ap (◌∷◌ x) (old_side-as_context xs)

pub new_side-as_context : (xs : List String) → new_side (as_context xs) ≡ xs
new_side-as_context [] = refl
new_side-as_context (x ∷ xs) = ap (◌∷◌ x) (new_side-as_context xs)

pub change-as_context : (xs : List String) → select is_change (as_context xs) ≡ []
change-as_context [] = refl
change-as_context (x ∷ xs) = change-as_context xs

pub select-append {ℓ} :
    {A : Type ℓ} (p : A → Bool) (xs ys : List A) → select p (xs ++ ys) ≡ select p xs ++ select p ys
select-append p [] ys = refl
select-append p (x ∷ xs) ys = ground (arith, select-append p xs ys)

-- A place that is found as the only hit.
pub record IsHit (key : String) (source : List String) (i j : ℕ) : Type 0 where
  pub before : List String
  pub first : String
  pub after : List String
  pub split_at : source ≡ before ++ first ∷ after
  pub place : length before + i ≡ j
  pub matches : strip first ≡ key
  pub unique : count (λ ln. strip ln == key) source ≡ 1

no_hits :
    (i : ℕ) (key : String) (source : List String)
    → hits_from i key source ≡ []
    → count (λ ln. strip ln == key) source ≡ 0
unfolding hits_from
no_hits i key [] h = refl
no_hits i key (ln ∷ lns) h = ground (arith, no_hits (suc i) key lns)

pub hits_from-IsHit :
    (i : ℕ) (key : String) (source : List String) (j : ℕ)
    → hits_from i key source ≡ j ∷ []
    → IsHit key source i j
unfolding hits_from
hits_from-IsHit i key [] j h = cc
hits_from-IsHit i key (ln ∷ lns) j h = elim (Bool-cases (strip ln == key)) [
  | inl here ↦
      (let h' = rw here at h in
        record {
          before = [];
          first = ln;
          after = lns;
          split_at = refl;
          place = ground arith;
          matches = (eq_iff (strip ln) key).0 here;
          unique = ground (arith, no_hits (suc i) key lns);
        })
  | inr later ↦
      (let r = hits_from-IsHit (suc i) key lns j (rw later at h) in
        record {
          before = ln ∷ r.before;
          first = r.first;
          after = r.after;
          split_at = ap (◌∷◌ ln) r.split_at;
          place = omega (arith, r.place);
          matches = r.matches;
          unique = ground (arith, r.unique);
        })
]

pub from-append : (before after : List String) → from (length before) (before ++ after) ≡ after
unfolding from
from-append [] after = refl
from-append (x ∷ before) after = from-append before after
