-- ===== src/Sig/Pairs.antt =====
-- The interference relation, and the pairs of locations that it selects.

use araratsec_agent.Prelude.{String, ◌≡◌, Bool, true, List, [], ◌∷◌, ◌++◌, arith, inr, ◌⊎◌, ◌↔◌}
use araratsec_agent.Prelude.Texts.{after_colon}
use araratsec_agent.Sig.{StateInterferenceGraph, interferes, pairs_with, get_filtered_pairs}

-- Interference does not depend on the order of the two functions.
pub interferes_symm :
    (g : StateInterferenceGraph) (a b : String) → interferes g a b ≡ interferes g b a
unfolding interferes
interferes_symm g a b = ground arith

-- `a` stands at an earlier place than `b`.
abbrev pub Within : String → List String → Type 0
Within b [] = ⊥
Within b (x ∷ xs) = (x ≡ b) ⊎ Within b xs

abbrev pub Before : String → String → List String → Type 0
Before a b [] = ⊥
Before a b (x ∷ xs) = ((x ≡ a) × Within b xs) ⊎ Before a b xs

abbrev pub PairIn : String × String → List (String × String) → Type 0
PairIn p [] = ⊥
PairIn p (q ∷ qs) = (q ≡ p) ⊎ PairIn p qs

abbrev pub fn_interfere : StateInterferenceGraph → String → String → Bool
fn_interfere g a b = interferes g (after_colon a) (after_colon b)

PairIn-append_iff :
    (p : String × String) (xs ys : List (String × String))
    → PairIn p (xs ++ ys) ↔ (PairIn p xs ⊎ PairIn p ys)
PairIn-append_iff p [] ys = (λ h. inr h, λ h. ground arith)
PairIn-append_iff p (x ∷ xs) ys =
    (λ h. ground (arith, PairIn-append_iff p xs ys), λ h. ground (arith, PairIn-append_iff p xs ys))

pairs_with_iff :
    (g : StateInterferenceGraph) (x a b : String) (rest : List String)
    → PairIn (a, b) (pairs_with g x rest) ↔ ((x ≡ a) × Within b rest × (fn_interfere g a b ≡ true))
unfolding pairs_with
pairs_with_iff g x a b [] = ground arith
pairs_with_iff g x a b (y ∷ rest) = ground (arith, pairs_with_iff g x a b rest)

-- A pair of locations is selected exactly when the first stands before the second in the list and
-- their functions interfere.
pub get_filtered_pairs_iff :
    (g : StateInterferenceGraph) (a b : String) (locs : List String)
    → PairIn (a, b) (get_filtered_pairs locs g) ↔ (Before a b locs × (fn_interfere g a b ≡ true))
unfolding get_filtered_pairs
get_filtered_pairs_iff g a b [] = ground arith
get_filtered_pairs_iff g a b (x ∷ rest) = ground (
  arith,
  PairIn-append_iff (a, b) (pairs_with g x rest) (get_filtered_pairs rest g),
  pairs_with_iff g x a b rest,
  get_filtered_pairs_iff g a b rest,
)
