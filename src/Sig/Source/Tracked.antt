-- ===== src/Sig/Source/Tracked.antt =====
-- What a node of the built graph tracks.
use Prim.Native.Char.{Char}
use Prim.Native.String.{String}
use araratsec_agent.Prelude.{
  ◌≡◌, ◌∙◌, refl, Bool, true, false, Option, none, some, List, [], ◌∷◌, select, not, ◌&&◌, arith,
  eq_iff, ◌==◌, if◌then◌else◌,
}
use araratsec_agent.Prelude.Texts.{contains}
use araratsec_agent.Prelude.Dict.{Dict, lookup, insert, lookup-insert}
use araratsec_agent.Sig.{FunctionNode}
use araratsec_agent.Sig.Source.{
  idents, written_names, function_node, add_nodes, extract_state_vars, build_sig,
}
use araratsec_agent.Stage1.{extract_functions}

contains-select :
    (p : String → Bool) (x : String) (xs : List String)
    → contains x (select p xs) ≡ contains x xs && p x
contains-select p x [] = refl
contains-select p x (y ∷ ys) = ground (arith, contains-select p x ys, eq_iff x y)

-- The body of the last function of a name.
abbrev last_body : String → List (String × String) → Option String
last_body name [] = none
last_body name ((other, body) ∷ functions) = elim (last_body name functions) [
  | some later ↦ some later
  | none ↦ if other == name then some body else none
]

module _ (is_word : Char → Bool) (vars : List String) where
  -- The node that a body gives to a name.
  abbrev node_of : String → Option String → Dict FunctionNode → Option FunctionNode
  node_of name none fs = lookup name fs
  node_of name (some body) fs = some (function_node is_word vars name body)

  inserted :
      (name other body : String) (fs : Dict FunctionNode) (later : Option String)
      → node_of name later (insert other (function_node is_word vars other body) fs)
        ≡ node_of name
            (elim later [ some b ↦ some b | none ↦ if other == name then some body else none ])
            fs
  inserted name other body fs (some b) = refl
  inserted name other body fs none =
      lookup-insert other name (function_node is_word vars other body) fs
      ∙ pick (other == name) refl
    where
      pick :
          (b : Bool)
          → (other == name) ≡ b
          → (if b then some (function_node is_word vars other body) else lookup name fs)
            ≡ node_of name (if b then some body else none) fs
      pick true e = rw ((eq_iff other name).0 e) refl
      pick false e = refl

  lookup-add_nodes :
      (name : String) (functions : List (String × String)) (fs : Dict FunctionNode)
      → lookup name (add_nodes is_word vars functions fs)
        ≡ node_of name (last_body name functions) fs
  unfolding add_nodes
  lookup-add_nodes name [] fs = refl
  lookup-add_nodes name ((other, body) ∷ functions) fs =
      lookup-add_nodes name functions (insert other (function_node is_word vars other body) fs)
      ∙ inserted name other body fs (last_body name functions)

  contains-writes :
      (name body x : String)
      → contains x (function_node is_word vars name body).writes
        ≡ contains x (written_names is_word body) && contains x vars
  unfolding function_node
  contains-writes name body x =
      contains-select (λ y. contains y vars) x (written_names is_word body)

  contains-reads :
      (name body x : String)
      → contains x (function_node is_word vars name body).reads
        ≡ (contains x (idents is_word body) && contains x vars)
          && not (contains x (written_names is_word body))
  unfolding function_node
  contains-reads name body x = ground (
    arith,
    contains-select
        (λ y. not (contains y (select (λ z. contains z vars) (written_names is_word body)))) x
        (select (λ z. contains z vars) (idents is_word body)),
    contains-select (λ y. contains y vars) x (idents is_word body),
    contains-select (λ y. contains y vars) x (written_names is_word body),
  )

-- The node of a function that the source defines stands for the last body of its name: it writes the
-- state variables that an assignment in this body names, and reads those that the body names but does
-- not write.
build_sig-Tracked :
    (is_word : Char → Bool) (source name body : String)
    → last_body name (extract_functions is_word source) ≡ some body
    → (node : FunctionNode) × (lookup name (build_sig is_word source).functions ≡ some node)
      × ((x : String)
          → (contains x node.writes
              ≡ contains x (written_names is_word body)
                && contains x (extract_state_vars is_word source))
            × (contains x node.reads
                ≡ (contains x (idents is_word body)
                    && contains x (extract_state_vars is_word source))
                  && not (contains x (written_names is_word body))))
unfolding build_sig lookup
build_sig-Tracked is_word source name body h =
    let vars = extract_state_vars is_word source in
    (
      function_node is_word vars name body,
      lookup-add_nodes is_word vars name (extract_functions is_word source) [] ∙ rw h refl,
      λ x. (contains-writes is_word vars name body x, contains-reads is_word vars name body x),
    )
