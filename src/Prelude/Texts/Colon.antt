-- ===== src/Prelude/Texts/Colon.antt =====
-- What stands behind a colon does not change what stands before the first one.
use Prim.Native.String.{String, ◌++◌ as append}
use Prim.Native.Char.{Char, code}
use text.Mathlib.TextLemmas.{nil-append, cons-append}
use araratsec_agent.Prelude.Tests.{eqb, if◌then◌else◌}
use mathlib.Core.Path.{◌≡◌, refl, ◌∙◌, sym, ap}
use mathlib.Core.Bool.{Bool, true, false}
use mathlib.Core.List.{List, [], ◌∷◌}
use araratsec_agent.Prelude.Texts.{before_colon, split, push_head, first_or}

first_or-push_head :
    (c : Char) (xs : List String) → first_or "" (push_head c xs) ≡ String.◌∷◌ c (first_or "" xs)
unfolding push_head
first_or-push_head c [] = refl
first_or-push_head c (x ∷ xs) = refl

first-head :
    (b : Bool) (c : Char) (xs ys xs' ys' : List String)
    → first_or "" xs ≡ first_or "" ys
    → first_or "" (if b then "" ∷ xs' else push_head c xs)
      ≡ first_or "" (if b then "" ∷ ys' else push_head c ys)
first-head true c xs ys xs' ys' e = refl
first-head false c xs ys xs' ys' e =
    first_or-push_head c xs ∙ ap (String.◌∷◌ c) e ∙ sym (first_or-push_head c ys)

first-split-colon :
    (s t : String) → first_or "" (split b':' (append s (append ":" t))) ≡ first_or "" (split b':' s)
unfolding split
first-split-colon String.[] t = rw (nil-append (append ":" t), cons-append ":" "" t) refl
first-split-colon (String.◌∷◌ c s) t =
    rw (cons-append c s (append ":" t))
      (first-head (eqb (code c) b':') c _ _ _ _ (first-split-colon s t))

pub before_colon-append : (s t : String) → before_colon (append s (append ":" t)) ≡ before_colon s
unfolding before_colon
before_colon-append s t = first-split-colon s t
