-- ===== src/Patch/Files.antt =====
-- `reconstruct`: all hunks of all files, or a refusal. The text of the patch is `render`; the test
-- for a diff that is already real is the search for `_REAL_HUNK`.
use Prim.Native.Char.{code}
use Prim.Native.String.{◌++◌ as append}
use text.Mathlib.Text.{starts_with}
use mathlib.Core.Path.{subst, sym}
use araratsec_agent.Prelude.{
  ℕ, ◌≡◌, refl, String, Bool, true, false, Option, none, some, List, [], ◌∷◌, ◌++◌, any, map, leb,
  ◌&&◌, if◌then◌else◌, ◌⊎◌, inl, inr, arith, Bool-cases, Option-cases,
}
use araratsec_agent.Prelude.Texts.{concat, decimal, is_empty}
use araratsec_agent.Prelude.Int.{ℤ, pos, ◌+ℤ◌, decimal_ℤ}
use araratsec_agent.Prelude.Result.{Result, ok, raise, ◌>>=◌, ok-injective}
use araratsec_agent.Patch.{
  Refusal, file_not_found, Line, context, removal, addition, Hunk, FilePatch, RealHunk,
  reconstruct_hunk, hunk_delta,
}
use araratsec_agent.Patch.Parse.{drop_chars, parse_illustrative}
use araratsec_agent.Patch.Verbatim.{IsVerbatim, reconstruct_hunk-IsVerbatim}

-- `\d`, on ASCII
abbrev is_digit : ℕ → Bool
is_digit c = leb b'0' c && leb c b'9'

abbrev first_is_digit : String → Bool
first_is_digit String.[] = false
first_is_digit (String.◌∷◌ c s) = is_digit (code c)

pub skip_digits : String → String
skip_digits String.[] = ""
skip_digits (String.◌∷◌ c s) = if is_digit (code c) then skip_digits s else String.◌∷◌ c s

-- `\d+(?:,\d+)?`; `none` where it does not match
abbrev skip_range : String → Option String
skip_range s =
    if first_is_digit s
    then (let r = skip_digits s in
        if starts_with r "," && first_is_digit (drop_chars 1 r)
        then some (skip_digits (drop_chars 1 r))
        else some r)
    else none

abbrev skip_text : String → String → ℕ → Option String
skip_text t s n = if starts_with s t then some (drop_chars n s) else none

abbrev and_then : Option String → (String → Option String) → Option String
and_then none f = none
and_then (some s) f = f s

-- `_REAL_HUNK` at the start of a line
unfoldable pub is_real_hunk : String → Bool
unfolding skip_digits drop_chars
is_real_hunk s =
    elim (and_then (skip_text "@@ -" s 4) (λ a. and_then (skip_range a) (λ b.
      and_then (skip_text " +" b 2) (λ c. and_then (skip_range c) (λ d. skip_text " @@" d 3))))) [
        | none ↦ false
        | some _ ↦ true
      ]

pub record FileDiff : Type 0 where
  pub path : String
  pub hunks : List RealHunk

-- The loop over the hunks of one file, with the change so far.
unfoldable pub reconstruct_hunks : List String → ℤ → List Hunk → Result Refusal (List RealHunk)
reconstruct_hunks source delta [] = ok []
reconstruct_hunks source delta (hunk ∷ hunks) = reconstruct_hunk source hunk delta >>= λ h.
    reconstruct_hunks source (delta +ℤ hunk_delta h) hunks >>= λ hs. ok (h ∷ hs)

module _ (read_source : String → Option (List String)) where
  abbrev file_diff : FilePatch → Option (List String) → Result Refusal FileDiff
  file_diff fp none = raise file_not_found
  file_diff fp (some source) =
      reconstruct_hunks source (pos 0) fp.hunks >>= λ hs. ok (record { path = fp.path; hunks = hs })

  -- The loop over the files.
  unfoldable pub reconstruct_files : List FilePatch → Result Refusal (List FileDiff)
  unfolding reconstruct_hunks
  reconstruct_files [] = ok []
  reconstruct_files (fp ∷ fps) =
      file_diff fp (read_source fp.path) >>= λ d. reconstruct_files fps >>= λ ds. ok (d ∷ ds)

-- What `reconstruct` returns: the block itself, or a patch.
pub data Reconstructed : Type 0 where
  untouched : List String → Reconstructed
  patched : List FileDiff → Reconstructed

-- `block if block.endswith("\n") else block + "\n"`, on the lines: a text ends with a line break if its
-- last line is empty, and is not its only line.
abbrev closed_lines : List String → List String
closed_lines [] = "" ∷ []
closed_lines (l ∷ []) = if is_empty l then l ∷ [] else l ∷ "" ∷ []
closed_lines (l ∷ m ∷ ls) = l ∷ closed_lines (m ∷ ls)

abbrev pub with_newline : List String → List String
with_newline [] = []
with_newline (l ∷ ls) = l ∷ closed_lines ls

unfoldable pub reconstruct :
    List String → (String → Option (List String)) → Result Refusal Reconstructed
unfolding is_real_hunk reconstruct_files
reconstruct block read_source =
    if any is_real_hunk block
    then ok (untouched (with_newline block))
    else (parse_illustrative block >>= λ files.
        reconstruct_files read_source files >>= λ ds. ok (patched ds))

-- The printed forms.
abbrev line_text : Line → String
line_text (addition, t) = append "+" t
line_text (removal, t) = append "-" t
line_text (context, t) = append " " t

unfoldable pub hunk_text : RealHunk → List String
hunk_text h =
    concat (
      "@@ -"
      ∷ decimal h.old_start
      ∷ ","
      ∷ decimal h.old_count
      ∷ " +"
      ∷ decimal_ℤ h.new_start
      ∷ ","
      ∷ decimal h.new_count
      ∷ " @@"
      ∷ [])
    ∷ map line_text h.lines

pub hunk_texts : List RealHunk → List String
hunk_texts [] = []
hunk_texts (h ∷ hs) = hunk_text h ++ hunk_texts hs

pub render : List FileDiff → List String
unfolding hunk_text hunk_texts
render [] = []
render (d ∷ ds) = append "--- a/" d.path ∷ append "+++ b/" d.path ∷ hunk_texts d.hunks ++ render ds

-- Every hunk of the file is faithful, with the shift of the hunks before it.
abbrev pub AreVerbatim : List String → ℤ → List Hunk → List RealHunk → Type 0
AreVerbatim source delta [] [] = Unit
AreVerbatim source delta (hunk ∷ hunks) (h ∷ hs) =
    IsVerbatim source hunk delta h × AreVerbatim source (delta +ℤ hunk_delta h) hunks hs
AreVerbatim source delta _ _ = ⊥

-- Every file was found, and all its hunks are faithful to what was read.
abbrev pub AreFaithful : (String → Option (List String)) → List FilePatch → List FileDiff → Type 0
AreFaithful read [] [] = Unit
AreFaithful read (fp ∷ fps) (d ∷ ds) =
    ((source : List String) × (read fp.path ≡ some source)
      × (d.path ≡ fp.path)
      × AreVerbatim source (pos 0) fp.hunks d.hunks)
    × AreFaithful read fps ds
AreFaithful read _ _ = ⊥

-- Two steps that together give a value: the first gives one, and the second goes on from it.
first_step :
    {V X : Type 0} {v : V} (r : Result Refusal X) (go : X → Result Refusal V)
    → (r >>= go) ≡ ok v
    → (x : X) × (r ≡ ok x) × (go x ≡ ok v)
first_step (raise why) go both = cc
first_step (ok x) go both = (x, refl, both)

reconstruct_hunks-AreVerbatim :
    (source : List String) (delta : ℤ) (hunks : List Hunk) (hs : List RealHunk)
    → reconstruct_hunks source delta hunks ≡ ok hs
    → AreVerbatim source delta hunks hs
unfolding reconstruct_hunks
reconstruct_hunks-AreVerbatim source delta [] hs e =
    subst (AreVerbatim source delta []) (ok-injective e) tt
reconstruct_hunks-AreVerbatim source delta (hunk ∷ hunks) hs e =
    let (h, p, e') = first_step (reconstruct_hunk source hunk delta) _ e in
    let (rest, q, e'') = first_step (reconstruct_hunks source (delta +ℤ hunk_delta h) hunks) _ e' in
    subst (AreVerbatim source delta (hunk ∷ hunks)) (ok-injective e'') (
      reconstruct_hunk-IsVerbatim source hunk delta h p,
      reconstruct_hunks-AreVerbatim source (delta +ℤ hunk_delta h) hunks rest q,
    )

module _ (read_source : String → Option (List String)) where
  reconstruct_files-AreFaithful :
      (fps : List FilePatch) (ds : List FileDiff)
      → reconstruct_files read_source fps ≡ ok ds
      → AreFaithful read_source fps ds
  unfolding reconstruct_files
  reconstruct_files-AreFaithful [] ds e = subst (AreFaithful read_source []) (ok-injective e) tt
  reconstruct_files-AreFaithful (fp ∷ fps) ds e = elim (Option-cases (read_source fp.path)) [
    | inl missing ↦ ground arith
    | inr (source, found) ↦
        (let (d, p, e') = first_step (file_diff read_source fp (some source)) _ (rw found at e) in
          let (rest, q, e'') = first_step (reconstruct_files read_source fps) _ e' in
          let (hs, r, e''') = first_step (reconstruct_hunks source (pos 0) fp.hunks) _ p in
          subst (AreFaithful read_source (fp ∷ fps)) (ok-injective e'') (
            subst
                (λ (d' : FileDiff).
                  (source' : List String) × (read_source fp.path ≡ some source')
                  × (d'.path ≡ fp.path)
                  × AreVerbatim source' (pos 0) fp.hunks d'.hunks)
                (ok-injective e''')
                (source, found, refl, reconstruct_hunks-AreVerbatim source (pos 0) fp.hunks hs r),
            reconstruct_files-AreFaithful fps rest q,
          ))
  ]

  -- A reconstruction that is not refused is complete: it covers every file and every hunk of the
  -- block, each found and faithful to the source that was read. Only a block that holds a real
  -- hunk header is passed through, and then unchanged, but for a line break at its end if it has none.
  pub reconstruct-AreFaithful :
      (block : List String) (r : Reconstructed)
      → reconstruct block read_source ≡ ok r
      → ((any is_real_hunk block ≡ true) × (r ≡ untouched (with_newline block)))
        ⊎ ((files : List FilePatch) × (ds : List FileDiff) × (parse_illustrative block ≡ ok files)
            × (r ≡ patched ds)
            × AreFaithful read_source files ds)
  unfolding reconstruct
  reconstruct-AreFaithful block r e = elim (Bool-cases (any is_real_hunk block)) [
    | inl real ↦ inl (real, sym (ok-injective (rw real at e)))
    | inr illustrative ↦
        (let (files, p, e') = first_step (parse_illustrative block) _ (rw illustrative at e) in
          let (ds, q, e'') = first_step (reconstruct_files read_source files) _ e' in
          inr (files, ds, p, sym (ok-injective e''), reconstruct_files-AreFaithful files ds q))
  ]
