-- ===== src/ToolSurface.antt =====
-- audit_agent/agent_tool_surface.py: the budget of a rendered result, and its text. The kernel's
-- `wrap_data` is a parameter, and the `encode` of a text is read through the widths of UTF-8.
pub mod Bounds
pub mod Table
pub mod Executors
use Prim.Native.Char.{Char, code}
use Prim.Native.String.{String}
use araratsec_agent.Prelude.{
  ℕ, zero, suc, ◌+◌, ◌-◌, ◌≤◌, Bool, true, false, Option, none, some, List, [], ◌∷◌, ◌++◌, length,
  ltb, leb, eqb, not, ◌&&◌, if◌then◌else◌,
}
use araratsec_agent.Prelude.Texts.{concat, join, is_empty, decimal}

abbrev pub max_result_items : ℕ
max_result_items = 32

abbrev pub max_result_bytes : ℕ
max_result_bytes = 8192

-- The bytes of one character.
unfoldable pub width : Char → ℕ
width c =
    if ltb (code c) 128
    then 1
    else if ltb (code c) 2048
    then 2
    else if ltb (code c) 65536
    then 3
    else 4

-- `len(s.encode("utf-8"))`
unfoldable pub bytes : String → ℕ
unfolding width
bytes String.[] = 0
bytes (String.◌∷◌ c s) = width c + bytes s

-- `s.encode("utf-8")[:n].decode("utf-8", errors="ignore")`: a character that is cut is dropped.
unfoldable pub take_bytes : ℕ → String → String
unfolding width
take_bytes n String.[] = ""
take_bytes n (String.◌∷◌ c s) =
    let rest = take_bytes (n - width c) s in if leb (width c) n then String.◌∷◌ c rest else ""

-- The loop, with the number of lines that are kept and their bytes: the lines kept from here on.
unfoldable pub keep_lines : ℕ → ℕ → List String → List String
unfolding bytes take_bytes
keep_lines n nbytes [] = []
keep_lines n nbytes (line ∷ lines) =
    let extra = bytes line + (if eqb n 0 then 0 else 1) in
    let rest = keep_lines (suc n) (nbytes + extra) lines in
    if leb max_result_items n
    then []
    else if not (eqb n 0) && ltb max_result_bytes (nbytes + extra)
    then []
    else if eqb n 0 && ltb max_result_bytes extra
    then take_bytes max_result_bytes line ∷ []
    else line ∷ rest

pub record Truncated : Type 0 where
  pub kept : List String
  pub shown : ℕ
  pub total : ℕ
  pub omitted : ℕ

unfoldable pub truncate_lines : List String → Truncated
unfolding keep_lines
truncate_lines lines =
    let kept = keep_lines 0 0 lines in
    record {
      kept = kept;
      shown = length kept;
      total = length lines;
      omitted = length lines - length kept;
    }

-- `ToolResultPayload`; the three numbers stand or fall together
pub record ToolResultPayload : Type 0 where
  pub status : String
  pub tool : String
  pub cause : String
  pub retryable : Bool
  pub counts : Option (ℕ × (ℕ × ℕ))
  pub body : String

abbrev bool_text : Bool → String
bool_text true = "True"
bool_text false = "False"

abbrev cause_part : String → List String
cause_part cause = if is_empty cause then [] else concat ("cause=" ∷ cause ∷ []) ∷ []

count_parts : Option (ℕ × (ℕ × ℕ)) → List String
unfolding decimal
count_parts none = []
count_parts (some (shown, (total, omitted))) =
    concat ("shown=" ∷ decimal shown ∷ [])
    ∷ concat ("total=" ∷ decimal total ∷ [])
    ∷ concat ("omitted=" ∷ decimal omitted ∷ [])
    ∷ []

unfoldable pub result_text : ToolResultPayload → String
unfolding count_parts
result_text p =
    let header = join " " (
      concat ("status=" ∷ p.status ∷ [])
      ∷ concat ("tool=" ∷ p.tool ∷ [])
      ∷ concat ("retryable=" ∷ bool_text p.retryable ∷ [])
      ∷ (cause_part p.cause ++ count_parts p.counts)) in
    if is_empty p.body then header else concat (header ∷ "\n" ∷ p.body ∷ [])

-- `ctx.wrap_data(content, tool=…, path=…)`
abbrev pub Wrap : Type 0
Wrap = String → String → String → String

module _ (wrap_data : Wrap) where
  unfoldable pub render_tool_result : ToolResultPayload → String → String
  unfolding result_text
  render_tool_result p path = wrap_data (result_text p) p.tool path

  unfoldable pub unavailable_payload : String → String → String → String
  unfolding render_tool_result
  unavailable_payload tool cause path =
      render_tool_result
        (record {
          status = "unavailable";
          tool = tool;
          cause = cause;
          retryable = false;
          counts = none;
          body = "";
        })
        path

  -- `_ran_payload`
  unfoldable pub ran_payload : String → List String → String → String
  unfolding truncate_lines render_tool_result
  ran_payload tool lines path =
      let t = truncate_lines lines in
      render_tool_result
        (record {
          status = "ran";
          tool = tool;
          cause = "";
          retryable = false;
          counts = some (t.shown, (t.total, t.omitted));
          body = join "\n" t.kept;
        })
        path
