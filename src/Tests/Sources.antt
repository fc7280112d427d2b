-- ===== src/Tests/Sources.antt =====
-- The examples of sources, calls and tools: the interference graph, stage 1 and the tool surface.
use mathlib.Core.List.{Perm}
use Prim.Native.Char.{Char, code}
use araratsec_agent.Prelude.{
  ◌+◌, ◌≤◌, ◌≡◌, refl, ◌↔◌, String, Bool, true, Option, none, some, List, [], ◌∷◌, select, ltb,
  ◌&&◌,
}
use araratsec_agent.Prelude.Texts.{join, is_in}
use araratsec_agent.Prelude.Sort.{sort_by}
use araratsec_agent.Prelude.Dict.{lookup}
use araratsec_agent.Sig.Reach.{Calls, reachable}
use araratsec_agent.Sig.Reach.Walks.{In, Walk, reachable-Walk}
use araratsec_agent.Sig.Source.{build_sig}
use araratsec_agent.Sig.Graph.{
  GraphNode, GraphEdge, Payload, plain, built, build_sig_from_smartgraphical,
}
use araratsec_agent.Sig.Graph.Closure.{writes, has, is_function, Accesses, build_sig-Accesses}
use araratsec_agent.ToolSurface.{truncate_lines, max_result_items, max_result_bytes, bytes}
use araratsec_agent.ToolSurface.Bounds.{truncate_lines-bounds}
use araratsec_agent.Stage1.{run_stage1, FunctionTarget}
use araratsec_agent.Stage1.Ranking.{
  Ordered, all_targets, flagged, unflagged, names, run_stage1-ranked,
}

-- `withdraw` calls `_pay`, which calls itself and writes `balance`.
abbrev ring : Calls
ring = ("withdraw", "_pay" ∷ []) ∷ ("_pay", "_pay" ∷ []) ∷ []

ring_found : reachable ring "withdraw" ≡ some ("_pay" ∷ [])
unfolding reachable
ring_found = refl

reachable-Walk_example :
    (found : List String) × (reachable ring "withdraw" ≡ some found)
    × ((f : String) → In f found ↔ Walk ring "withdraw" f)
reachable-Walk_example = reachable-Walk ring "withdraw"

abbrev function_node : String → GraphNode
function_node id = record { group = some "function"; id = some id }

abbrev edge : String → String → String → GraphEdge
edge kind source target = record { kind = some kind; source = some source; target = some target }

abbrev vault_graph : Payload
vault_graph =
    plain (function_node "function:Vault.withdraw" ∷ function_node "function:Vault._pay" ∷ []) (
      edge "function_to_function" "function:Vault.withdraw" "function:Vault._pay"
      ∷ edge "state_to_function_write" "state:Vault.balance" "function:Vault._pay"
      ∷ [])

withdraw_known : is_function "withdraw" (built vault_graph).functions ≡ true
unfolding built
withdraw_known = refl

balance_reached :
    has writes "balance" "withdraw" (build_sig_from_smartgraphical vault_graph).functions ≡ true
unfolding build_sig_from_smartgraphical
balance_reached = refl

build_sig-Accesses_example :
    (has writes "balance" "withdraw" (build_sig_from_smartgraphical vault_graph).functions ≡ true)
    ↔ Accesses (built vault_graph).calls writes "balance" (built vault_graph).functions "withdraw"
build_sig-Accesses_example =
    build_sig-Accesses vault_graph writes "balance" "withdraw" withdraw_known

abbrev is_letter : Char → Bool
is_letter c = ltb 96 (code c) && ltb (code c) 123

abbrev vault_source : String
vault_source =
    "contract V { uint a; mapping(address => uint) b; function put(uint x) public { b[x] += a; y.call(z); } }"

put_node :
    lookup "put" (build_sig is_letter vault_source).functions
    ≡ some (record { name = "put"; reads = "a" ∷ []; writes = "b" ∷ []; has_external_call = true })
unfolding build_sig lookup is_in
put_node = refl

truncate_lines-bounds_example :
    let t = truncate_lines ("reentrancy-eth: withdraw" ∷ "timestamp: draw" ∷ []) in
    (t.shown ≤ max_result_items)
    × (bytes (join "\n" t.kept) ≤ max_result_bytes)
    × (t.shown + t.omitted ≡ t.total)
truncate_lines-bounds_example =
    truncate_lines-bounds ("reentrancy-eth: withdraw" ∷ "timestamp: draw" ∷ [])

abbrev files : List (String × Option String)
files =
    (
      "Vault.sol",
      some "contract Vault { function quiet() {} function drain() { to.call(x); b = 0; } }",
    )
    ∷ ("Gone.sol", none)
    ∷ []

files_ranked : (run_stage1 is_letter files).priority_targets ≡ "Vault.sol:drain" ∷ []
unfolding run_stage1 sort_by
files_ranked = refl

files_skipped : (run_stage1 is_letter files).skipped_targets ≡ "Vault.sol:quiet" ∷ []
unfolding run_stage1 sort_by
files_skipped = refl

run_stage1-ranked_example :
    (ranked : List FunctionTarget) × ((run_stage1 is_letter files).priority_targets ≡ names ranked)
    × Ordered ranked
    × Perm ranked (select flagged (all_targets is_letter files))
    × ((run_stage1 is_letter files).skipped_targets
        ≡ names (select unflagged (all_targets is_letter files)))
run_stage1-ranked_example = run_stage1-ranked is_letter files
