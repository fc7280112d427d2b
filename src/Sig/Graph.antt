-- ===== src/Sig/Graph.antt =====
-- `build_sig_from_smartgraphical` (audit_agent/planner/sig.py): the interference graph from the nodes
-- and edges of a SmartGraphical graph.
pub mod Closure
use araratsec_agent.Prelude.{
  ℕ, String, Bool, true, false, Option, none, some, List, [], ◌∷◌, ◌++◌, ◌||◌, ◌&&◌, not, ◌==◌,
  if◌then◌else◌, last_or,
}
use araratsec_agent.Prelude.Texts.{contains, is_empty, split, after_first_colon}
use araratsec_agent.Prelude.Dict.{Dict, lookup, insert}
use araratsec_agent.Sig.{FunctionNode, StateInterferenceGraph}
use araratsec_agent.Sig.Reach.{Calls, callees, reachable}

pub record GraphNode : Type 0 where
  pub group : Option String
  pub id : Option String

pub record GraphEdge : Type 0 where
  pub kind : Option String
  pub source : Option String
  pub target : Option String

-- A graph's payload: a dict with both keys, a dict whose "model_summary" has a "graph", where a
-- missing key reads as the empty list, or anything else.
pub data Payload : Type 0 where
  plain : List GraphNode → List GraphEdge → Payload
  summary : List GraphNode → List GraphEdge → Payload
  other : Payload

unfoldable pub parse_sg_graph : Payload → List GraphNode × List GraphEdge
parse_sg_graph (plain nodes edges) = (nodes, edges)
parse_sg_graph (summary nodes edges) = (nodes, edges)
parse_sg_graph other = ([], [])

-- `_node_short_name`: 46 is the dot
unfoldable pub node_short_name : String → Option String
unfolding split after_first_colon
node_short_name node_id = elim (after_first_colon node_id) [
  | none ↦ none
  | some s ↦ some (last_or "" (split 46 s))
]

abbrev text_or : String → Option String → String
text_or d none = d
text_or d (some s) = s

-- `_node_short_name(x or "") `, where `None` is never a key
unfoldable pub short_name : Option String → Option String
unfolding node_short_name
short_name s = node_short_name (text_or "" s)

abbrev is_function_group : Option String → Bool
is_function_group none = false
is_function_group (some g) = g == "function"

abbrev pub blank_node : String → FunctionNode
blank_node name = record { name = name; reads = []; writes = []; has_external_call = false }

-- `setdefault` for a name that is not empty
abbrev add_function : Option String → Dict FunctionNode → Dict FunctionNode
add_function none fs = fs
add_function (some name) fs =
    if is_empty name
    then fs
    else elim (lookup name fs) [ none ↦ insert name (blank_node name) fs | some f ↦ fs ]

unfoldable pub add_functions : List GraphNode → Dict FunctionNode → Dict FunctionNode
unfolding short_name lookup insert
add_functions [] fs = fs
add_functions (n ∷ ns) fs =
    add_functions ns (if is_function_group n.group then add_function (short_name n.id) fs else fs)

-- `s.add(x)`
abbrev pub add_to : String → List String → List String
add_to x xs = if contains x xs then xs else xs ++ x ∷ []

pub data EdgeKind : Type 0 where
  read write call external ignored : EdgeKind

unfoldable pub edge_kind : Option String → EdgeKind
edge_kind none = ignored
edge_kind (some k) =
    if contains k ("state_to_function_read" ∷ "cross_type_state_read" ∷ [])
    then read
    else if contains k ("state_to_function_write" ∷ "cross_type_state_write" ∷ [])
    then write
    else if contains k ("function_to_function" ∷ "cross_type_call" ∷ [])
    then call
    else if contains k ("function_to_system" ∷ "function_to_object" ∷ [])
    then external
    else ignored

pub record Building : Type 0 where
  pub functions : Dict FunctionNode
  pub calls : Calls

abbrev update_function :
    Option String → (FunctionNode → FunctionNode) → Dict FunctionNode → Dict FunctionNode
update_function none u fs = fs
update_function (some name) u fs = elim (lookup name fs) [
  | none ↦ fs
  | some f ↦ insert name (u f) fs
]

-- A name that is there and not empty.
abbrev truthy : Option String → Option String
truthy none = none
truthy (some s) = if is_empty s then none else some s

abbrev add_read : Option String → FunctionNode → FunctionNode
add_read none f = f
add_read (some s) f = record f { reads = add_to s f.reads }

abbrev add_write : Option String → FunctionNode → FunctionNode
add_write none f = f
add_write (some s) f = record f { writes = add_to s f.writes }

abbrev is_key : Option String → Dict FunctionNode → Bool
is_key none fs = false
is_key (some name) fs = elim (lookup name fs) [ none ↦ false | some f ↦ true ]

abbrev add_call : Option String → Option String → Calls → Calls
add_call (some src) (some tgt) calls = insert src (add_to tgt (callees calls src)) calls
add_call _ _ calls = calls

-- The body of the loop over the edges.
unfoldable pub add_edge : GraphEdge → Building → Building
unfolding edge_kind short_name lookup insert callees
add_edge e b =
    let src = short_name e.source in
    let tgt = short_name e.target in
    elim (edge_kind e.kind) [
      | read ↦ record b { functions = update_function tgt (add_read (truthy src)) b.functions }
      | write ↦ record b { functions = update_function tgt (add_write (truthy src)) b.functions }
      | call ↦
          if is_key src b.functions
          then record b { calls = add_call src (truthy tgt) b.calls }
          else b
      | external ↦ record b {
        functions = update_function src (λ f. record f { has_external_call = true }) b.functions;
      }
      | ignored ↦ b
    ]

unfoldable pub add_edges : List GraphEdge → Building → Building
unfolding add_edge
add_edges [] b = b
add_edges (e ∷ es) b = add_edges es (add_edge e b)

-- `a |= b`
unfoldable pub union : List String → List String → List String
union xs [] = xs
union xs (y ∷ ys) = union (add_to y xs) ys

-- `node.reads |= other.reads; node.writes |= other.writes`
abbrev pub absorb_node : FunctionNode → FunctionNode → FunctionNode
absorb_node f g = record f { reads = union f.reads g.reads; writes = union f.writes g.writes }

-- The inner loop over the callees that can be reached, for the function `name`.
unfoldable pub absorb : String → List String → Dict FunctionNode → Dict FunctionNode
unfolding union lookup insert
absorb name [] fs = fs
absorb name (callee ∷ rest) fs = absorb name rest (
    if callee == name then fs else elim (lookup name fs) [
      | none ↦ fs
      | some f ↦ elim (lookup callee fs) [ none ↦ fs | some g ↦ insert name (absorb_node f g) fs ]
    ])

abbrev pub found_or_nil : Option (List String) → List String
found_or_nil none = []
found_or_nil (some xs) = xs

-- The loop over the functions.
unfoldable pub absorb_all : Calls → List String → Dict FunctionNode → Dict FunctionNode
unfolding absorb reachable
absorb_all calls [] fs = fs
absorb_all calls (name ∷ names) fs =
    absorb_all calls names (absorb name (found_or_nil (reachable calls name)) fs)

abbrev pub keys : Dict FunctionNode → List String
keys [] = []
keys ((name, f) ∷ fs) = name ∷ keys fs

-- The functions and calls before the propagation.
unfoldable pub built : Payload → Building
unfolding parse_sg_graph add_functions add_edges
built payload =
    let (nodes, edges) = parse_sg_graph payload in
    add_edges edges (record { functions = add_functions nodes []; calls = [] })

unfoldable pub build_sig_from_smartgraphical : Payload → StateInterferenceGraph
unfolding built absorb_all
build_sig_from_smartgraphical payload =
    let b = built payload in
    record { functions = absorb_all b.calls (keys b.functions) b.functions }
