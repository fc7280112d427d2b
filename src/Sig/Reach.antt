-- ===== src/Sig/Reach.antt =====
-- `_reachable` of `build_sig_from_smartgraphical` (audit_agent/planner/sig.py): the search over the
-- calls with a stack. A set of callees is the list that Python's iteration gives; the top of the
-- stack is the head of its list.
pub mod Measure
pub mod Walks
use araratsec_agent.Prelude.{
  ℕ, zero, suc, ◌+◌, String, Bool, true, false, Option, none, some, List, [], ◌∷◌, ◌++◌, length,
  ◌||◌, ◌==◌, if◌then◌else◌,
}
use araratsec_agent.Prelude.Texts.{contains}
use araratsec_agent.Prelude.Dict.{Dict, lookup}

abbrev pub Calls : Type 0
Calls = Dict (List String)

-- `calls.get(name, ())`
unfoldable pub callees : Calls → String → List String
unfolding lookup
callees calls name = elim (lookup name calls) [ none ↦ [] | some cs ↦ cs ]

-- The `while` loop, with a bound on its rounds; `none` is a bound that was too small.
unfoldable pub search_calls : ℕ → Calls → List String → List String → Option (List String)
unfolding callees
search_calls fuel calls [] seen = some seen
search_calls zero calls (next ∷ stack) seen = none
search_calls (suc fuel) calls (next ∷ stack) seen = elim (contains next seen) [
  | true ↦ search_calls fuel calls stack seen
  | false ↦ search_calls fuel calls (callees calls next ++ stack) (next ∷ seen)
]

-- The callees that the search may still put on its stack.
unfoldable pub unseen_calls : Calls → List String → ℕ
unseen_calls [] seen = 0
unseen_calls ((name, cs) ∷ calls) seen =
    (if contains name seen then 0 else length cs) + unseen_calls calls seen

-- A bound on the rounds that is enough.
unfoldable pub rounds : Calls → List String → List String → ℕ
unfolding unseen_calls
rounds calls stack seen = length stack + unseen_calls calls seen

-- `_reachable(start)`
unfoldable pub reachable : Calls → String → Option (List String)
unfolding search_calls rounds callees
reachable calls start =
    let stack = callees calls start in search_calls (rounds calls stack []) calls stack []
