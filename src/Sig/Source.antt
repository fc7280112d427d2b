-- ===== src/Sig/Source.antt =====
-- `build_sig` (audit_agent/planner/sig.py): the interference graph of one Solidity source. `\w` is a
-- parameter.
pub mod Tracked
use Prim.Native.Char.{Char, code}
use Prim.Native.String.{String}
use text.Mathlib.Text.{starts_with}
use araratsec_agent.Prelude.{
  ℕ, zero, suc, ◌-◌, Bool, true, false, Option, none, some, List, [], ◌∷◌, ◌++◌, select, any, eqb,
  not, ◌||◌, ◌&&◌, if◌then◌else◌, last_or,
}
use araratsec_agent.Prelude.Int.{ℤ, pos, negsuc}
use araratsec_agent.Prelude.Texts.{
  concat, contains, is_empty, is_in, is_space, between, strip, split, push_head, first_or,
}
use araratsec_agent.Prelude.Dict.{Dict, insert}
use araratsec_agent.Stage1.{extract_functions}
use araratsec_agent.Sig.{FunctionNode, StateInterferenceGraph}

-- `_EXTERNAL_CALL`
abbrev pub external_call : List String
external_call = ".call" ∷ ".delegatecall" ∷ ".transfer(" ∷ ".send(" ∷ ".staticcall" ∷ []

-- `_DECL_SKIP`
abbrev pub decl_skip : List String
decl_skip =
    "function" ∷ "modifier" ∷ "event" ∷ "struct" ∷ "enum" ∷ "constructor" ∷ "using" ∷ "import"
    ∷ "pragma" ∷ "error" ∷ "receive" ∷ "fallback" ∷ "return" ∷ []

-- `[A-Za-z_]`
abbrev pub is_start : ℕ → Bool
is_start c = between 65 90 c || between 97 122 c || eqb c 95

abbrev up : ℤ → ℤ
up (pos n) = pos (suc n)
up (negsuc zero) = pos 0
up (negsuc (suc n)) = negsuc n

abbrev down : ℤ → ℤ
down (pos zero) = negsuc 0
down (pos (suc n)) = pos n
down (negsuc n) = negsuc (suc n)

abbrev is_one : ℤ → Bool
is_one (pos n) = eqb n 1
is_one (negsuc n) = false

-- `stmt.replace("=>", " ")`; the flag says that the character belongs to an arrow.
replace_arrows : Bool → String → String
replace_arrows skip String.[] = ""
replace_arrows true (String.◌∷◌ c s) = replace_arrows false s
replace_arrows false (String.◌∷◌ c s) =
    let here = eqb (code c) 61 && starts_with s ">" in
    let rest = replace_arrows here s in if here then String.◌∷◌ " " rest else String.◌∷◌ c rest

-- The characters of a text.
abbrev chars : String → ℕ
chars String.[] = 0
chars (String.◌∷◌ c s) = suc (chars s)

-- `(?:\[[^\]]*\])*`; the flag says that a bracket is open, and `none` is one that is never closed.
brackets : Bool → String → Option String
brackets false String.[] = some ""
brackets true String.[] = none
brackets inside (String.◌∷◌ c s) =
    let rest = brackets (if inside then not (eqb (code c) 93) else eqb (code c) 91) s in
    if inside || eqb (code c) 91 then rest else some (String.◌∷◌ c s)

-- `\s*`
blanks : String → String
blanks String.[] = ""
blanks (String.◌∷◌ c s) = if is_space c then blanks s else String.◌∷◌ c s

-- `(?:=(?![=>])|\+=|-=|\*=|/=)` at the start of a text.
abbrev is_assignment : String → Bool
is_assignment s =
    (starts_with s "=" && not (starts_with s "==") && not (starts_with s "=>"))
    || starts_with s "+="
    || starts_with s "-="
    || starts_with s "*="
    || starts_with s "/="

module _ (is_word : Char → Bool) where
  -- `_IDENT_RE.findall`; the flag says that an identifier goes on.
  pub idents_from : Bool → String → List String
  unfolding push_head
  idents_from true String.[] = "" ∷ []
  idents_from false String.[] = []
  idents_from inside (String.◌∷◌ c s) =
      let goes_on = if inside then is_word c else is_start (code c) in
      let rest = idents_from goes_on s in
      if goes_on then push_head c rest else if inside then "" ∷ rest else rest

  unfoldable pub idents : String → List String
  unfolding idents_from
  idents s = idents_from false s

  -- `_IDENT_RE.match`: the first identifier, where it stands at the start.
  abbrev leading : String → String
  leading String.[] = ""
  leading (String.◌∷◌ c s) = if is_start (code c) then first_or "" (idents (String.◌∷◌ c s)) else ""

  abbrev last_name : List String → Option String
  last_name [] = none
  last_name (x ∷ xs) = some (last_or x xs)

  -- `_decl_var_name`
  unfoldable pub decl_var_name : String → Option String
  unfolding idents replace_arrows split strip
  decl_var_name stmt =
      let s = strip stmt in
      if is_empty s || contains (leading s) decl_skip
      then none
      else last_name (idents (first_or "" (split 61 (replace_arrows false s))))

  abbrev declared : Option String → List String → List String
  declared none names = names
  declared (some name) names = name ∷ names

  -- The loop of `extract_state_vars`, with the depth of braces and the buffer.
  pub state_vars_from : ℤ → String → String → List String
  unfolding decl_var_name
  state_vars_from depth buf String.[] = []
  state_vars_from depth buf (String.◌∷◌ c s) =
      let opens = eqb (code c) 123 in
      let closes = eqb (code c) 125 in
      let ends = eqb (code c) 59 in
      let depth' = if opens then up depth else if closes then down depth else depth in
      let buf' =
        if opens || closes || ends
        then ""
        else if is_one depth
        then concat (buf ∷ String.◌∷◌ c "" ∷ [])
        else buf in
      let rest = state_vars_from depth' buf' s in
      if ends && is_one depth then declared (decl_var_name buf) rest else rest

  unfoldable pub extract_state_vars : String → List String
  unfolding state_vars_from
  extract_state_vars source = state_vars_from (pos 0) "" source

  abbrev assigned : String → Option String → Option (String × String)
  assigned name none = none
  assigned name (some rest) = if is_assignment (blanks rest) then some (name, blanks rest) else none

  -- The rest of a text behind the characters of a word.
  word_end : String → String
  word_end String.[] = ""
  word_end (String.◌∷◌ c s) = if is_word c then word_end s else String.◌∷◌ c s

  -- `_WRITE_RE` at the start of a text: the name, and the text from the operator on.
  abbrev write_at : String → Option (String × String)
  write_at s = assigned (leading s) (brackets false (blanks (word_end s)))

  abbrev starts_name : Bool → Char → Bool
  starts_name after c = not after && is_start (code c)

  -- `_WRITE_RE.findall`, with the characters that a match still covers, and whether a character of a
  -- word stands before.
  pub writes_from : ℕ → Bool → String → List String
  unfolding brackets blanks word_end idents
  writes_from skip after String.[] = []
  writes_from (suc skip) after (String.◌∷◌ c s) = writes_from skip (is_word c) s
  writes_from zero after (String.◌∷◌ c s) =
      let here = if starts_name after c then write_at (String.◌∷◌ c s) else none in
      let rest =
        writes_from (elim here [ none ↦ 0 | some (name, behind) ↦ chars s - chars behind ])
          (is_word c) s in
      elim here [ none ↦ rest | some (name, behind) ↦ name ∷ rest ]

  unfoldable pub written_names : String → List String
  unfolding writes_from
  written_names body = writes_from 0 false body

  -- The node of one function.
  unfoldable pub function_node : List String → String → String → FunctionNode
  unfolding written_names idents
  function_node state_vars name body =
      let written = select (λ x. contains x state_vars) (written_names body) in
      let referenced = select (λ x. contains x state_vars) (idents body) in
      record {
        name = name;
        reads = select (λ x. not (contains x written)) referenced;
        writes = written;
        has_external_call = any (λ token. is_in token body) external_call;
      }

  -- A later function of the same name replaces the node of an earlier one.
  unfoldable pub add_nodes :
      List String → List (String × String) → Dict FunctionNode → Dict FunctionNode
  unfolding function_node insert
  add_nodes state_vars [] fs = fs
  add_nodes state_vars ((name, body) ∷ functions) fs =
      add_nodes state_vars functions (insert name (function_node state_vars name body) fs)

  unfoldable pub build_sig : String → StateInterferenceGraph
  unfolding extract_state_vars extract_functions add_nodes
  build_sig source = record {
    functions = add_nodes (extract_state_vars source) (extract_functions is_word source) [];
  }
