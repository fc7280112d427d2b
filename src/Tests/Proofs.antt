-- ===== src/Tests/Proofs.antt =====
-- The examples of the checkpoints and of the reconstruction of patches.
use araratsec_agent.Prelude.{
  ◌≡◌, ◌⊎◌, refl, String, true, false, Option, some, List, [], ◌∷◌, any, ◌&&◌,
}
use araratsec_agent.Prelude.Texts.{strip, lstrip, rstrip, is_space}
use araratsec_agent.Prelude.Int.{pos, ◌+ℤ◌}
use araratsec_agent.Prelude.Result.{ok}
use araratsec_agent.Checkpoint.Slots.{Attempt, state_after, latest, state_after-latest}
use araratsec_agent.Patch.{
  Hunk, FilePatch, RealHunk, context, removal, addition, reconstruct_hunk, locate_anchor, hits_from,
  match_body, trailing, build_hunk, from, hunk_delta,
}
use araratsec_agent.Patch.Parse.{
  parse_illustrative, parse_lines, parse_line, marker_anchor, strip_ab, drop_chars, lazy_anchor,
  ends_marker,
}
use araratsec_agent.Patch.Verbatim.{IsVerbatim, reconstruct_hunk-IsVerbatim}
use araratsec_agent.Patch.Files.{
  reconstruct_files, reconstruct_hunks, FileDiff, untouched, patched, AreFaithful, is_real_hunk,
  reconstruct, reconstruct-AreFaithful, with_newline,
}

abbrev compiled_once : Attempt
compiled_once = record {
  source = "contract A {}";
  attempt = 1;
  compiled = true;
  compiled_real = true;
  outcome_summary = "compiled";
}

abbrev broken : Attempt
broken = record compiled_once { attempt = 2; compiled = false; compiled_real = false }

abbrev attempts : List Attempt
attempts = broken ∷ compiled_once ∷ []

state_after-latest_example :
    ((state_after attempts).non_vacuous ≡ latest (λ a. a.compiled && a.compiled_real) attempts)
    × ((state_after attempts).any_compile ≡ latest (λ a. a.compiled) attempts)
state_after-latest_example = state_after-latest attempts

abbrev source : List String
source = "function f() {" ∷ "  x = 1;" ∷ "}" ∷ "" ∷ []

abbrev fix : Hunk
fix = record {
  anchor = "function f() {";
  body = (removal, "  x = 1;") ∷ (addition, "  x = 2;") ∷ [];
}

abbrev real_fix : RealHunk
real_fix = record {
  old_start = 1;
  old_count = 3;
  new_start = pos 1;
  new_count = 3;
  lines =
      (context, "function f() {")
      ∷ (removal, "  x = 1;")
      ∷ (addition, "  x = 2;")
      ∷ (context, "}")
      ∷ [];
}

fixed : reconstruct_hunk source fix (pos 0) ≡ ok real_fix
unfolding reconstruct_hunk locate_anchor hits_from match_body trailing build_hunk from strip lstrip
    rstrip is_space ◌+ℤ◌
fixed = refl

reconstruct_hunk-IsVerbatim_example : IsVerbatim source fix (pos 0) real_fix
reconstruct_hunk-IsVerbatim_example = reconstruct_hunk-IsVerbatim source fix (pos 0) real_fix fixed

abbrev block : List String
block = "--- a/F.sol" ∷ "+++ b/F.sol" ∷ "@@ function f() {" ∷ "-  x = 1;" ∷ "+  x = 2;" ∷ []

abbrev read_source : String → Option (List String)
read_source path = some source

abbrev fixed_file : List FileDiff
fixed_file = record { path = "F.sol"; hunks = real_fix ∷ [] } ∷ []

block_fixed : reconstruct block read_source ≡ ok (patched fixed_file)
unfolding reconstruct parse_illustrative parse_lines parse_line marker_anchor strip_ab drop_chars
    lazy_anchor ends_marker reconstruct_files reconstruct_hunks reconstruct_hunk locate_anchor
    hits_from match_body trailing build_hunk from strip lstrip rstrip is_space ◌+ℤ◌ hunk_delta
block_fixed = refl

reconstruct-AreFaithful_example :
    ((any is_real_hunk block ≡ true) × (patched fixed_file ≡ untouched (with_newline block)))
    ⊎ ((files : List FilePatch) × (ds : List FileDiff) × (parse_illustrative block ≡ ok files)
        × (patched fixed_file ≡ patched ds)
        × AreFaithful read_source files ds)
reconstruct-AreFaithful_example =
    reconstruct-AreFaithful read_source block (patched fixed_file) block_fixed
