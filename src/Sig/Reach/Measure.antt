-- ===== src/Sig/Reach/Measure.antt =====
-- The search ends: each round uses up a callee.
use araratsec_agent.Prelude.{
  ℕ, zero, suc, ◌+◌, ◌≤◌, ◌≡◌, refl, inl, inr, String, Bool, true, false, some, List, [], ◌∷◌, ◌++◌,
  length, length-append, arith, eq_iff, if◌then◌else◌, Bool-cases,
}
use araratsec_agent.Prelude.Texts.{contains}
use araratsec_agent.Prelude.Dict.{lookup}
use araratsec_agent.Sig.Reach.{Calls, callees, search_calls, unseen_calls, rounds}

unseen_calls-cons-le :
    (calls : Calls) (n : String) (seen : List String)
    → unseen_calls calls (n ∷ seen) ≤ unseen_calls calls seen
unfolding unseen_calls
unseen_calls-cons-le [] n seen = omega arith
unseen_calls-cons-le ((name, cs) ∷ calls) n seen = ground (arith, unseen_calls-cons-le calls n seen)

unseen_calls-cons :
    (calls : Calls) (n : String) (seen : List String)
    → contains n seen ≡ false
    → unseen_calls calls (n ∷ seen) + length (callees calls n) ≤ unseen_calls calls seen
unfolding unseen_calls callees lookup
unseen_calls-cons [] n seen h = omega arith
unseen_calls-cons ((name, cs) ∷ calls) n seen h =
    ground
      (arith, eq_iff name n, unseen_calls-cons calls n seen h, unseen_calls-cons-le calls n seen)

abbrev Ends : ℕ → Calls → List String → List String → Type 0
Ends fuel calls stack seen =
    (found : List String) × (search_calls fuel calls stack seen ≡ some found)

-- One round, by the test that it makes.
round-Ends :
    (fuel : ℕ) (calls : Calls) (n : String) (stack seen : List String) (b : Bool)
    → contains n seen ≡ b
    → (if b
        then Ends fuel calls stack seen
        else Ends fuel calls (callees calls n ++ stack) (n ∷ seen))
    → Ends (suc fuel) calls (n ∷ stack) seen
unfolding search_calls
round-Ends fuel calls n stack seen true e (found, h) = (found, ground arith)
round-Ends fuel calls n stack seen false e (found, h) = (found, ground arith)

-- The search ends within `rounds`, so it is total.
pub search_calls-ends :
    (fuel : ℕ) (calls : Calls) (stack seen : List String)
    → rounds calls stack seen ≤ fuel
    → (found : List String) × (search_calls fuel calls stack seen ≡ some found)
unfolding search_calls rounds
search_calls-ends zero calls [] seen h = (seen, refl)
search_calls-ends (suc fuel) calls [] seen h = (seen, refl)
search_calls-ends zero calls (n ∷ stack) seen h = absurd (omega arith)
search_calls-ends (suc fuel) calls (n ∷ stack) seen h = elim (Bool-cases (contains n seen)) [
  | inl old ↦
      round-Ends fuel calls n stack seen true old
        (search_calls-ends fuel calls stack seen (omega arith))
  | inr new ↦ round-Ends fuel calls n stack seen false new (
      search_calls-ends fuel calls (callees calls n ++ stack) (n ∷ seen)
        (omega (arith, length-append (callees calls n) stack, unseen_calls-cons calls n seen new)))
]
