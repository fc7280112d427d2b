-- ===== src/Patch.antt =====
-- audit_agent/proof/patch_reconstruct.py: an applyable patch from a report's illustrative diff. A
-- text is the list of its lines; the regular expressions are matched on ASCII digits.
pub mod Parse
pub mod Hunks
pub mod Verbatim
pub mod Files
use araratsec_agent.Prelude.{
  ℕ, zero, suc, ◌+◌, ◌-◌, String, Bool, true, false, Option, none, some, List, [], ◌∷◌, ◌++◌, map,
  length, take, last_or, select, ltb, eqb, not, ◌==◌, if◌then◌else◌,
}
use araratsec_agent.Prelude.Texts.{strip}
use araratsec_agent.Prelude.Int.{ℤ, pos, sub_ℕ, ◌+ℤ◌}
use araratsec_agent.Prelude.Result.{Result, ok, raise, ◌>>=◌}

-- The reasons of `ReconstructionRefused`.
pub data Refusal : Type 0 where
  anchor_not_found anchor_ambiguous context_mismatch file_not_found malformed : Refusal

pub data Kind : Type 0 where
  context removal addition : Kind

abbrev pub Line : Type 0
Line = Kind × String

-- `_Hunk`
pub record Hunk : Type 0 where
  pub anchor : String
  pub body : List Line

-- `_FilePatch`
pub record FilePatch : Type 0 where
  pub path : String
  pub hunks : List Hunk

-- The places of the lines that match the anchor, counted from `i`.
unfoldable pub hits_from : ℕ → String → List String → List ℕ
hits_from i key [] = []
hits_from i key (ln ∷ lns) =
    if strip ln == key then i ∷ hits_from (suc i) key lns else hits_from (suc i) key lns

abbrev pub single_hit : List ℕ → Result Refusal ℕ
single_hit [] = raise anchor_not_found
single_hit (i ∷ []) = ok i
single_hit (i ∷ j ∷ is) = raise anchor_ambiguous

unfoldable pub locate_anchor : List String → String → Result Refusal ℕ
unfolding hits_from
locate_anchor source anchor = single_hit (hits_from 0 (strip anchor) source)

-- The lines of a real hunk, and what is left of the source behind it.
pub record Matched : Type 0 where
  pub lines : List Line
  pub old_count : ℕ
  pub new_count : ℕ
  pub rest : List String

-- One line in front of those matched.
abbrev pub push : Line → Matched → Matched
push (addition, text) m = record m {
  lines = (addition, text) ∷ m.lines;
  new_count = suc m.new_count;
}
push (removal, text) m = record m { lines = (removal, text) ∷ m.lines; old_count = suc m.old_count }
push (context, text) m = record m {
  lines = (context, text) ∷ m.lines;
  old_count = suc m.old_count;
  new_count = suc m.new_count;
}

-- The test of a context or removal line against the next source line.
abbrev pub next_is : String → List String → Bool
next_is text [] = false
next_is text (ln ∷ lns) = ln == text

abbrev pub tail_of : List String → List String
tail_of [] = []
tail_of (ln ∷ lns) = lns

-- The loop over `hunk.body`; the list of lines is the source from `si` on.
unfoldable pub match_body : List Line → List String → Result Refusal Matched
match_body [] rest = ok (record { lines = []; old_count = 0; new_count = 0; rest = rest })
match_body ((addition, text) ∷ body) rest =
    match_body body rest >>= λ m. ok (push (addition, text) m)
match_body ((removal, text) ∷ body) rest =
    let matched = match_body body (tail_of rest) in
    if next_is text rest
    then (matched >>= λ m. ok (push (removal, text) m))
    else raise context_mismatch
match_body ((context, text) ∷ body) rest =
    let matched = match_body body (tail_of rest) in
    if next_is text rest
    then (matched >>= λ m. ok (push (context, text) m))
    else raise context_mismatch

-- `hunk.body and hunk.body[-1][0] != "context"`
abbrev pub ends_at_change : List Line → Bool
ends_at_change [] = false
ends_at_change ((addition, _) ∷ []) = true
ends_at_change ((removal, _) ∷ []) = true
ends_at_change ((context, _) ∷ []) = false
ends_at_change (x ∷ y ∷ ys) = ends_at_change (y ∷ ys)

-- 1 if the source ends with the empty line that a final newline leaves
abbrev sentinel : List String → ℕ
sentinel source = if last_or "x" source == "" then 1 else 0

abbrev min3 : ℕ → ℕ
min3 n = if ltb n 3 then n else 3

-- The trailing context: the next lines of the source, three at most, without the sentinel.
unfoldable pub trailing : List Line → List String → List String → List String
trailing body source rest =
    if ends_at_change body then take (min3 (length rest - sentinel source)) rest else []

-- A hunk with line numbers.
pub record RealHunk : Type 0 where
  pub old_start : ℕ
  pub old_count : ℕ
  pub new_start : ℤ
  pub new_count : ℕ
  pub lines : List Line

abbrev pub as_context : List String → List Line
as_context = map (λ ln. (context, ln))

-- The anchor's line, the body and the trailing context, with their counts.
abbrev pub assemble : ℕ → String → Matched → List String → ℤ → RealHunk
assemble i first m extra delta = record {
  old_start = suc i;
  old_count = suc (m.old_count + length extra);
  new_start = pos (suc i) +ℤ delta;
  new_count = suc (m.new_count + length extra);
  lines = (context, first) ∷ m.lines ++ as_context extra;
}

-- The source from place `i` on; `[]` out of range.
unfoldable pub from : ℕ → List String → List String
from zero source = source
from (suc i) [] = []
from (suc i) (ln ∷ lns) = from i lns

-- The part of `_reconstruct_hunk` behind the anchor: the source from the anchor's line on.
unfoldable pub build_hunk : List String → ℕ → List String → Hunk → ℤ → Result Refusal RealHunk
unfolding match_body
build_hunk source i [] hunk delta = raise anchor_not_found
build_hunk source i (first ∷ rest) hunk delta = match_body hunk.body rest >>= λ m.
    ok (assemble i first m (trailing hunk.body source m.rest) delta)

-- `_reconstruct_hunk`, before it is printed
unfoldable pub reconstruct_hunk : List String → Hunk → ℤ → Result Refusal RealHunk
unfolding from
reconstruct_hunk source hunk delta =
    locate_anchor source hunk.anchor >>= λ i. build_hunk source i (from i source) hunk delta

-- The net line change of a hunk: `new_count - old_count`.
unfoldable pub hunk_delta : RealHunk → ℤ
hunk_delta h = sub_ℕ h.new_count h.old_count
