-- ===== src/Sig.antt =====
-- audit_agent/planner/sig.py: the state interference graph. A set of names is a list read through
-- `contains`; `functions` is a dict.
pub mod Pairs
pub mod Reach
pub mod Graph
pub mod Source
use araratsec_agent.Prelude.{
  String, Bool, true, false, Option, none, some, List, [], ◌∷◌, ◌++◌, any, ◌||◌, ◌&&◌,
  if◌then◌else◌,
}
use araratsec_agent.Prelude.Texts.{contains, after_colon}
use araratsec_agent.Prelude.Dict.{Dict, lookup}

pub record FunctionNode : Type 0 where
  pub name : String
  pub reads : List String
  pub writes : List String
  pub has_external_call : Bool

pub record StateInterferenceGraph : Type 0 where
  pub functions : Dict FunctionNode

-- `bool(a & b)` on sets
abbrev pub intersects : List String → List String → Bool
intersects a b = any (λ x. contains x b) a

-- The last line of `interferes`, on two nodes.
abbrev pub nodes_interfere : FunctionNode → FunctionNode → Bool
nodes_interfere fa fb =
    intersects fa.writes (fb.reads ++ fb.writes) || intersects fb.writes (fa.reads ++ fa.writes)

abbrev both : Option FunctionNode → Option FunctionNode → Bool
both none fb = false
both (some fa) none = false
both (some fa) (some fb) = nodes_interfere fa fb

unfoldable pub interferes : StateInterferenceGraph → String → String → Bool
interferes g a b = both (lookup a g.functions) (lookup b g.functions)

unfoldable pub can_reenter : StateInterferenceGraph → String → String → Bool
can_reenter g a b = elim (lookup a g.functions) [
  | none ↦ false
  | some fa ↦ fa.has_external_call && interferes g a b
]

-- The inner loop of `get_filtered_pairs`, over the locations after the `i`-th.
unfoldable pub pairs_with : StateInterferenceGraph → String → List String → List (String × String)
pairs_with g a [] = []
pairs_with g a (b ∷ rest) =
    if interferes g (after_colon a) (after_colon b)
    then (a, b) ∷ pairs_with g a rest
    else pairs_with g a rest

unfoldable pub get_filtered_pairs : List String → StateInterferenceGraph → List (String × String)
unfolding pairs_with
get_filtered_pairs [] g = []
get_filtered_pairs (a ∷ rest) g = pairs_with g a rest ++ get_filtered_pairs rest g
