-- ===== src/Stage1.antt =====
-- audit_agent/planner/stage1.py: the functions of a source, their scores, and their order. A file is
-- its path and its text; the listing of files and `\w` are parameters.
pub mod Ranking
use Prim.Native.Char.{Char, code}
use Prim.Native.String.{String}
use araratsec_agent.Prelude.{
  ℕ, zero, suc, ◌+◌, ◌-◌, Bool, true, false, Option, none, some, List, [], ◌∷◌, ◌++◌, map, take,
  ltb, eqb, not, ◌==◌, ◌&&◌, ◌||◌, if◌then◌else◌,
}
use araratsec_agent.Prelude.Texts.{concat, join, is_empty, is_in, is_space, decimal}
use araratsec_agent.Prelude.Sort.{sort_by, str_leb}
use text.Mathlib.Text.{starts_with}
use Prim.Native.String

-- `RED_FLAGS`: the text, its label and its weight.
abbrev pub red_flags : List (String × (String × ℕ))
red_flags =
    ("delegatecall", ("delegatecall", 6))
    ∷ ("selfdestruct", ("selfdestruct", 6))
    ∷ (".call{value", ("low_level_call_value", 5))
    ∷ (".call(", ("low_level_call", 3))
    ∷ ("tx.origin", ("tx_origin_auth", 4))
    ∷ ("assembly", ("inline_assembly", 3))
    ∷ ("blockhash", ("weak_randomness", 2))
    ∷ (".transfer(", ("native_transfer", 2))
    ∷ (".send(", ("native_send", 2))
    ∷ ("block.timestamp", ("timestamp_dependence", 1))
    ∷ []

pub record FunctionTarget : Type 0 where
  pub target : String
  pub score : ℕ
  pub flags : List String

-- The rest of a text behind its first `n` characters.
abbrev drop_chars : ℕ → String → String
drop_chars zero s = s
drop_chars (suc n) String.[] = ""
drop_chars (suc n) (String.◌∷◌ c s) = drop_chars n s

-- `_match_body`, behind the open brace: `depth` braces are open inside of the body.
unfoldable pub match_body : ℕ → String → String
match_body depth String.[] = ""
match_body depth (String.◌∷◌ c s) =
    let rest =
      match_body
        (if eqb (code c) 123 then suc depth else if eqb (code c) 125 then depth - 1 else depth) s in
    if eqb (code c) 125 && eqb depth 0 then "" else String.◌∷◌ c rest

-- The rest of a source behind the first open brace; `none` where a semicolon or the end comes first.
unfoldable pub behind_brace : String → Option String
behind_brace String.[] = none
behind_brace (String.◌∷◌ c s) =
    if eqb (code c) 123 then some s else if eqb (code c) 59 then none else behind_brace s

module _ (is_word : Char → Bool) where
  -- `(\w+)`: the word, and the rest.
  word : String → String × String
  word String.[] = ("", "")
  word (String.◌∷◌ c s) =
      let (w, rest) = word s in if is_word c then (String.◌∷◌ c w, rest) else ("", String.◌∷◌ c s)

  -- `\s*`
  blanks : String → String
  blanks String.[] = ""
  blanks (String.◌∷◌ c s) = if is_space c then blanks s else String.◌∷◌ c s

  abbrev starts_blank : String → Bool
  starts_blank String.[] = false
  starts_blank (String.◌∷◌ c s) = is_space c

  abbrev starts_open : String → Bool
  starts_open String.[] = false
  starts_open (String.◌∷◌ c s) = eqb (code c) 40

  -- `function\s+(\w+)\s*\(` at the start of a text: the name.
  unfoldable pub header : String → Option String
  unfolding word blanks is_space
  header s =
      let rest = drop_chars 8 s in
      let (name, behind) = word (blanks rest) in
      if starts_with s "function"
        && starts_blank rest
        && not (is_empty name)
        && starts_open (blanks behind)
      then some name
      else none

  abbrev found : Option String → Option String → List (String × String)
  found none body = []
  found (some name) none = []
  found (some name) (some rest) = (name, match_body 0 rest) ∷ []

  -- `extract_functions` without the line numbers, which nobody reads: a match can start where the
  -- character before is none of a word, and no two matches overlap.
  pub functions_from : Bool → String → List (String × String)
  unfolding header match_body behind_brace
  functions_from after String.[] = []
  functions_from after (String.◌∷◌ c s) =
      let here = if after then none else header (String.◌∷◌ c s) in
      found here (behind_brace (String.◌∷◌ c s)) ++ functions_from (is_word c) s

  unfoldable pub extract_functions : String → List (String × String)
  unfolding functions_from
  extract_functions source = functions_from false source

-- `[^=!<>]=[^=]` somewhere in a text; `sign` is the last character before, where there is one.
abbrev is_sign : ℕ → Bool
is_sign c = eqb c 61 || eqb c 33 || eqb c 60 || eqb c 62

abbrev starts_plain : String → Bool
starts_plain String.[] = false
starts_plain (String.◌∷◌ c s) = not (eqb (code c) 61)

assigns_from : Option ℕ → String → Bool
assigns_from before String.[] = false
assigns_from before (String.◌∷◌ c s) =
    (elim before [ none ↦ false | some b ↦ not (is_sign b) && eqb (code c) 61 && starts_plain s ])
    || assigns_from (some (code c)) s

unfoldable pub has_assignment : String → Bool
unfolding assigns_from
has_assignment s = assigns_from none s

-- `body[body.find(".call"):]`; `none` where it is not found
unfoldable pub from_call : String → Option String
from_call String.[] = none
from_call (String.◌∷◌ c s) =
    if starts_with (String.◌∷◌ c s) ".call" then some (String.◌∷◌ c s) else from_call s

-- The loop of `score_function`.
unfoldable pub flag_score : String → List (String × (String × ℕ)) → ℕ × List String
unfolding is_in
flag_score body [] = (0, [])
flag_score body ((needle, (label, weight)) ∷ flags) =
    let (score, labels) = flag_score body flags in
    if is_in needle body then (weight + score, label ∷ labels) else (score, labels)

abbrev writes_behind : Option String → Bool
writes_behind none = false
writes_behind (some s) = has_assignment s

unfoldable pub score_function : String → ℕ × List String
unfolding flag_score has_assignment from_call
score_function body =
    let (score, labels) = flag_score body red_flags in
    if writes_behind (from_call body)
    then (score + 5, labels ++ "external_call_before_state_write" ∷ [])
    else (score, labels)

-- The sort key: `(-score, target)`.
unfoldable pub target_leb : FunctionTarget → FunctionTarget → Bool
target_leb a b = ltb b.score a.score || (eqb a.score b.score && str_leb a.target b.target)

pub record Stage1Result : Type 0 where
  pub priority_targets : List String
  pub skipped_targets : List String
  pub notes : String

-- The targets and the skipped ones of the loops over files and functions.
abbrev pub Gathered : Type 0
Gathered = List FunctionTarget × List String

unfoldable pub gather_functions : String → List (String × String) → Gathered
unfolding score_function
gather_functions rel [] = ([], [])
gather_functions rel ((name, body) ∷ functions) =
    let (targets, skipped) = gather_functions rel functions in
    let target = concat (rel ∷ ":" ∷ name ∷ []) in
    let (score, flags) = score_function body in
    if ltb 0 score
    then (record { target = target; score = score; flags = flags } ∷ targets, skipped)
    else (targets, target ∷ skipped)

abbrev note_line : FunctionTarget → String
note_line t = concat (t.target ∷ " (score=" ∷ decimal t.score ∷ ": " ∷ join ", " t.flags ∷ ")" ∷ [])

abbrev notes_of : List FunctionTarget → String
notes_of [] = "No red-flag functions found."
notes_of (t ∷ ts) =
    concat ("Top red-flag targets:\n" ∷ join "\n" (map note_line (take 10 (t ∷ ts))) ∷ [])

module _ (is_word : Char → Bool) where
  -- A file that cannot be read has no text.
  unfoldable pub gather_files : List (String × Option String) → Gathered
  unfolding extract_functions gather_functions
  gather_files [] = ([], [])
  gather_files ((rel, none) ∷ files) = gather_files files
  gather_files ((rel, some source) ∷ files) =
      let (targets, skipped) = gather_functions rel (extract_functions is_word source) in
      let (targets', skipped') = gather_files files in (targets ++ targets', skipped ++ skipped')

  unfoldable pub run_stage1 : List (String × Option String) → Stage1Result
  unfolding gather_files target_leb decimal
  run_stage1 files =
      let (targets, skipped) = gather_files files in
      let ranked = sort_by target_leb targets in
      record {
        priority_targets = map (λ t. t.target) ranked;
        skipped_targets = skipped;
        notes = notes_of ranked;
      }
