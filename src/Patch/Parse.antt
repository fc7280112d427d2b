-- ===== src/Patch/Parse.antt =====
-- `parse_illustrative`: an illustrative diff into files and hunks, a line at a time. The Python
-- loop appends to the last file and to the last hunk in place; here these two are kept apart until
-- the next header closes them.
use Prim.Native.Char.{code}
use text.Mathlib.Text.{starts_with}
use araratsec_agent.Prelude.{
  ℕ, zero, suc, String, Bool, Option, none, some, List, [], ◌∷◌, ◌++◌, any, eqb, ◌||◌,
  if◌then◌else◌, length, ltb,
}
use araratsec_agent.Prelude.Texts.{strip, lstrip, is_space, is_empty}
use araratsec_agent.Prelude.Result.{Result, ok, raise, ◌>>=◌}
use araratsec_agent.Patch.{Refusal, malformed, context, removal, addition, Line, Hunk, FilePatch}

-- `s[n:]`
unfoldable pub drop_chars : ℕ → String → String
drop_chars zero s = s
drop_chars (suc n) String.[] = ""
drop_chars (suc n) (String.◌∷◌ c s) = drop_chars n s

-- `\s?` and `@?` at the front
abbrev drop_space : String → String
drop_space String.[] = ""
drop_space (String.◌∷◌ c s) = if is_space c then s else String.◌∷◌ c s

abbrev drop_at : String → String
drop_at String.[] = ""
drop_at (String.◌∷◌ c s) = if eqb (code c) b'@' then s else String.◌∷◌ c s

-- `\s*@?@?\s*$`
unfoldable pub ends_marker : String → Bool
unfolding lstrip is_space
ends_marker s = is_empty (lstrip (drop_at (drop_at (lstrip s))))

-- `(.*?)`: the shortest text whose rest ends the marker
unfoldable pub lazy_anchor : String → String
unfolding ends_marker
lazy_anchor String.[] = ""
lazy_anchor (String.◌∷◌ c s) =
    if ends_marker (String.◌∷◌ c s) then "" else String.◌∷◌ c (lazy_anchor s)

-- The group of `_HUNK_MARKER` on a line that starts with `@@`.
unfoldable pub marker_anchor : String → String
unfolding drop_chars lazy_anchor is_space
marker_anchor raw = lazy_anchor (drop_space (drop_chars 2 raw))

unfoldable pub strip_ab : String → String
unfolding drop_chars
strip_ab path = if starts_with path "a/" || starts_with path "b/" then drop_chars 2 path else path

pub record ParseState : Type 0 where
  pub files : List FilePatch
  pub cur : Option FilePatch
  pub hunk : Option Hunk

-- The open hunk goes to the open file.
abbrev close_hunk : ParseState → ParseState
close_hunk s = elim s.cur [
  | none ↦ s
  | some f ↦ elim s.hunk [
    | none ↦ s
    | some h ↦ record s { cur = some (record f { hunks = f.hunks ++ h ∷ [] }); hunk = none }
  ]
]

-- The open file goes to the files.
abbrev close_file : ParseState → ParseState
close_file s =
    let t = close_hunk s in
    elim t.cur [ none ↦ t | some f ↦ record { files = t.files ++ f ∷ []; cur = none; hunk = none } ]

-- `hunk.body.append(…)` for the line
abbrev body_line : String → Line
body_line raw =
    if starts_with raw "+"
    then (addition, drop_chars 1 raw)
    else if starts_with raw "-"
    then (removal, drop_chars 1 raw)
    else (context, if starts_with raw " " then drop_chars 1 raw else raw)

-- The body of the loop over the lines.
unfoldable pub parse_line : ParseState → String → Result Refusal ParseState
unfolding strip_ab marker_anchor strip
parse_line s raw =
    if starts_with raw "--- "
    then ok s
    else if starts_with raw "+++ "
    then ok (record (close_file s) {
      cur = some (record { path = strip_ab (strip (drop_chars 4 raw)); hunks = [] });
    })
    else if starts_with raw "@@"
    then elim s.cur [
      | none ↦ raise malformed
      | some f ↦
          ok (record (close_hunk s) {
            hunk = some (record { anchor = marker_anchor raw; body = [] });
          })
    ]
    else elim s.hunk [
      | none ↦ ok s
      | some h ↦ ok (record s { hunk = some (record h { body = h.body ++ body_line raw ∷ [] }) })
    ]

unfoldable pub parse_lines : List String → ParseState → Result Refusal ParseState
unfolding parse_line
parse_lines [] s = ok s
parse_lines (raw ∷ raws) s = parse_line s raw >>= λ s'. parse_lines raws s'

-- `not files or not any(f.hunks for f in files)`, negated
abbrev has_hunks : List FilePatch → Bool
has_hunks = any (λ f. ltb 0 (length f.hunks))

unfoldable pub parse_illustrative : List String → Result Refusal (List FilePatch)
unfolding parse_lines
parse_illustrative block =
    parse_lines block (record { files = []; cur = none; hunk = none }) >>= λ s.
    let files = (close_file s).files in if has_hunks files then ok files else raise malformed
