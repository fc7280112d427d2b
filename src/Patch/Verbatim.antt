-- ===== src/Patch/Verbatim.antt =====
-- A reconstructed hunk stands verbatim in the source, at its only anchor.
use mathlib.Core.List.{append-nil, append_assoc, map-append}
use mathlib.Core.Path.{subst, ap₂}
use araratsec_agent.Prelude.{
  ℕ, suc, ◌+◌, ◌≡◌, ◌∙◌, refl, sym, ap, String, Bool, true, false, List, [], ◌∷◌, ◌++◌, map, length,
  length-append, take, drop, take-append-drop, select, count, arith, ◌==◌, if◌then◌else◌,
}
use araratsec_agent.Prelude.Texts.{strip}
use araratsec_agent.Prelude.Int.{ℤ, pos, ◌+ℤ◌}
use araratsec_agent.Prelude.Result.{Result, ok, raise, ◌>>=◌, ok-injective}
use araratsec_agent.Patch.{
  Refusal, single_hit, Line, Hunk, Matched, RealHunk, context, match_body, as_context, from,
  hits_from, locate_anchor, ends_at_change, trailing, assemble, build_hunk, reconstruct_hunk,
}
use araratsec_agent.Patch.Hunks.{
  is_old, is_new, is_change, old_side, new_side, IsMatch, match_body-IsMatch, IsHit,
  hits_from-IsHit, from-append, select-append, old_side-as_context, new_side-as_context,
  change-as_context,
}

-- `h` is a faithful hunk for the source: its old side is a run of source lines, taken over
-- character by character, that begins at the only line that matches the anchor; its numbers are
-- those of its lines; and it adds and removes what the illustrative hunk does.
pub record IsVerbatim (source : List String) (hunk : Hunk) (delta : ℤ) (h : RealHunk) : Type 0 where
  pub before : List String
  pub after : List String
  pub verbatim : source ≡ before ++ (old_side h.lines ++ after)
  pub placed : suc (length before) ≡ h.old_start
  pub anchored :
      (first : String) × (rest : List Line) × (h.lines ≡ (context, first) ∷ rest)
      × (strip first ≡ strip hunk.anchor)
  pub unique : count (λ ln. strip ln == strip hunk.anchor) source ≡ 1
  pub old_counted : h.old_count ≡ length (old_side h.lines)
  pub new_counted : h.new_count ≡ length (new_side h.lines)
  pub shifted : h.new_start ≡ pos h.old_start +ℤ delta
  pub same_changes : select is_change h.lines ≡ select is_change hunk.body

side-append :
    (p : Line → Bool) (xs ys : List Line)
    → map (λ (l : Line). l.1) (select p (xs ++ ys))
      ≡ map (λ (l : Line). l.1) (select p xs) ++ map (λ (l : Line). l.1) (select p ys)
side-append p xs ys = rw (select-append p xs ys) (map-append _ _ _)

take-prefix :
    (b : Bool) (n : ℕ) (rest : List String)
    → (more : List String) × ((if b then take n rest else []) ++ more ≡ rest)
take-prefix true n rest = (drop n rest, take-append-drop n rest)
take-prefix false n rest = (rest, refl)

-- The trailing context is a prefix of what is left of the source.
trailing-prefix :
    (body : List Line) (source rest : List String)
    → (more : List String) × (trailing body source rest ++ more ≡ rest)
unfolding trailing
trailing-prefix body source rest = take-prefix (ends_at_change body) _ rest

-- The sides of the assembled lines.
old_side-assembled :
    (first : String) (lines : List Line) (extra : List String)
    → old_side ((context, first) ∷ lines ++ as_context extra) ≡ first ∷ old_side lines ++ extra
old_side-assembled first lines extra =
    ap (◌∷◌ first) (side-append is_old lines (as_context extra) ∙ rw old_side-as_context)

new_side-assembled :
    (first : String) (lines : List Line) (extra : List String)
    → new_side ((context, first) ∷ lines ++ as_context extra) ≡ first ∷ new_side lines ++ extra
new_side-assembled first lines extra =
    ap (◌∷◌ first) (side-append is_new lines (as_context extra) ∙ rw new_side-as_context)

changes-assembled :
    (first : String) (lines : List Line) (extra : List String)
    → select is_change ((context, first) ∷ lines ++ as_context extra) ≡ select is_change lines
changes-assembled first lines extra =
    select-append is_change lines (as_context extra) ∙ rw change-as_context (append-nil _)

module _ (source : List String) (hunk : Hunk) (delta : ℤ) (j : ℕ)
    (hit : IsHit (strip hunk.anchor) source 0 j) where
  assembled-IsVerbatim :
      (m : Matched)
      → IsMatch hunk.body hit.after m
      → IsVerbatim source hunk delta
          (assemble j hit.first m (trailing hunk.body source m.rest) delta)
  assembled-IsVerbatim m w =
      let (more, prefix) = trailing-prefix hunk.body source m.rest in
      let extra = trailing hunk.body source m.rest in
      let old = old_side-assembled hit.first m.lines extra in
      let new = new_side-assembled hit.first m.lines extra in
      let behind : hit.after ≡ (old_side m.lines ++ extra) ++ more =
        sym w.consumed
        ∙ ap₂ (λ (a : List Line) (b : List String). old_side a ++ b) (sym w.same_lines) (sym prefix)
        ∙ sym (append_assoc (old_side m.lines) extra more) in
      let old_length : suc (m.old_count + length extra)
          ≡ length (hit.first ∷ old_side m.lines ++ extra) =
        omega (
          arith,
          w.old_counted,
          ap (λ (ls : List Line). length (old_side ls)) w.same_lines,
          length-append (old_side m.lines) extra,
        ) in
      let new_length : suc (m.new_count + length extra)
          ≡ length (hit.first ∷ new_side m.lines ++ extra) =
        omega (
          arith,
          w.new_counted,
          ap (λ (ls : List Line). length (new_side ls)) w.same_lines,
          length-append (new_side m.lines) extra,
        ) in
      record {
        before = hit.before;
        after = more;
        verbatim =
            hit.split_at
            ∙ ap (λ (z : List String). hit.before ++ (hit.first ∷ z)) behind
            ∙ ap (λ (z : List String). hit.before ++ (z ++ more)) (sym old);
        placed = omega (arith, hit.place);
        anchored = (hit.first, m.lines ++ as_context extra, refl, hit.matches);
        unique = hit.unique;
        old_counted = old_length ∙ ap length (sym old);
        new_counted = new_length ∙ ap length (sym new);
        shifted = refl;
        same_changes =
            changes-assembled hit.first m.lines extra ∙ ap (select is_change) w.same_lines;
      }

  -- The part of `reconstruct_hunk` behind the anchor.
  built-IsVerbatim :
      (h : RealHunk)
      → build_hunk source j (hit.first ∷ hit.after) hunk delta ≡ ok h
      → IsVerbatim source hunk delta h
  unfolding build_hunk
  built-IsVerbatim h b = go (match_body hunk.body hit.after) refl b
    where
      go :
          (r : Result Refusal Matched)
          → match_body hunk.body hit.after ≡ r
          → (r >>= λ m. ok (assemble j hit.first m (trailing hunk.body source m.rest) delta)) ≡ ok h
          → IsVerbatim source hunk delta h
      go (raise x) e b = cc
      go (ok m) e b =
          subst (IsVerbatim source hunk delta) (ok-injective b)
            (assembled-IsVerbatim m (match_body-IsMatch hunk.body hit.after m e))

-- A hunk that is not refused is faithful: its old side stands verbatim in the source at the only
-- line that matches the anchor, its start and its counts are those of its lines, the new start is
-- shifted by the change of the earlier hunks, and it adds and removes what the illustrative hunk
-- adds and removes.
pub reconstruct_hunk-IsVerbatim :
    (source : List String) (hunk : Hunk) (delta : ℤ) (h : RealHunk)
    → reconstruct_hunk source hunk delta ≡ ok h
    → IsVerbatim source hunk delta h
unfolding reconstruct_hunk locate_anchor
reconstruct_hunk-IsVerbatim source hunk delta h b =
    go (hits_from 0 (strip hunk.anchor) source) refl b
  where
    go :
        (js : List ℕ)
        → hits_from 0 (strip hunk.anchor) source ≡ js
        → (single_hit js >>= λ i. build_hunk source i (from i source) hunk delta) ≡ ok h
        → IsVerbatim source hunk delta h
    go [] e b = cc
    go (i ∷ j ∷ is) e b = cc
    go (j ∷ []) e b =
        let hit = hits_from-IsHit 0 (strip hunk.anchor) source j e in
        let reached : from j source ≡ hit.first ∷ hit.after =
          let place : length hit.before ≡ j = omega (arith, hit.place) in
          rw (← place) (
            ap (from (length hit.before)) hit.split_at
            ∙ from-append hit.before (hit.first ∷ hit.after)) in
        built-IsVerbatim source hunk delta j hit h (rw reached at b)
