-- ===== src/ToolSurface/Bounds.antt =====
-- What a rendered result holds at most, and that it loses nothing without need.
use Prim.Native.Char.{Char}
use Prim.Native.String.{String, ◌++◌ as append}
use araratsec_agent.Prelude.{
  ℕ, zero, suc, ◌+◌, ◌-◌, ◌≤◌, ◌<◌, ◌≡◌, refl, ap, ◌∙◌, Bool, true, false, List, [], ◌∷◌, length,
  arith, ltb, leb, eqb, not, ◌&&◌, if◌then◌else◌,
}
use araratsec_agent.Prelude.Texts.{join}
use text.Mathlib.TextLemmas.{nil-append, cons-append}
use araratsec_agent.ToolSurface.{
  max_result_items, max_result_bytes, width, bytes, take_bytes, keep_lines, truncate_lines,
}

bytes-append : (s t : String) → bytes (append s t) ≡ bytes s + bytes t
unfolding bytes
bytes-append String.[] t = rw (nil-append t) (omega arith)
bytes-append (String.◌∷◌ c s) t = rw (cons-append c s t) (omega (arith, bytes-append s t))

bytes_nil : bytes "" ≡ 0
unfolding bytes
bytes_nil = refl

fitted :
    (b : Bool) (n w : ℕ) (c : Char) (rest : String)
    → leb w n ≡ b
    → width c ≡ w
    → bytes rest ≤ n - w
    → bytes (if b then String.◌∷◌ c rest else "") ≤ n
unfolding bytes
fitted true n w c rest e d h = ground arith
fitted false n w c rest e d h = omega arith

take_bytes-le : (n : ℕ) (s : String) → bytes (take_bytes n s) ≤ n
unfolding take_bytes
take_bytes-le n String.[] = omega (arith, bytes_nil)
take_bytes-le n (String.◌∷◌ c s) =
    fitted (leb (width c) n) n (width c) c (take_bytes (n - width c) s) refl refl
      (take_bytes-le (n - width c) s)

-- The bytes of kept lines, with a line break before each but the first of a result.
cost : ℕ → List String → ℕ
cost n [] = 0
cost n (line ∷ lines) = bytes line + (if eqb n 0 then 0 else 1) + cost (suc n) lines

keep_lines-length :
    (n nbytes : ℕ) (lines : List String) → n ≤ 32 → n + length (keep_lines n nbytes lines) ≤ 32
unfolding keep_lines
keep_lines-length n nbytes [] h = ground arith
keep_lines-length n nbytes (line ∷ lines) h =
    ground
      (arith, keep_lines-length (suc n) (nbytes + (bytes line + (if eqb n 0 then 0 else 1))) lines)

-- One round, with what is kept behind it.
round_cost :
    (n nbytes : ℕ) (line cut : String) (rest : List String)
    → (n ≡ 0 → nbytes ≡ 0)
    → nbytes ≤ 8192
    → bytes cut ≤ 8192
    → let extra = bytes line + (if eqb n 0 then 0 else 1) in
      (nbytes + extra ≤ 8192 → nbytes + extra + cost (suc n) rest ≤ 8192)
      → nbytes
          + cost n (
              if leb max_result_items n
              then []
              else if not (eqb n 0) && ltb max_result_bytes (nbytes + extra)
              then []
              else if eqb n 0 && ltb max_result_bytes extra
              then cut ∷ []
              else line ∷ rest)
        ≤ 8192
unfolding cost
round_cost zero nbytes line cut rest z h c r = ground arith
round_cost (suc n) nbytes line cut rest z h c r = ground arith

keep_lines-cost :
    (n nbytes : ℕ) (lines : List String)
    → (n ≡ 0 → nbytes ≡ 0)
    → nbytes ≤ 8192
    → nbytes + cost n (keep_lines n nbytes lines) ≤ 8192
unfolding keep_lines cost
keep_lines-cost n nbytes [] z h = ground arith
keep_lines-cost n nbytes (line ∷ lines) z h =
    let extra = bytes line + (if eqb n 0 then 0 else 1) in
    round_cost n nbytes line (take_bytes max_result_bytes line)
      (keep_lines (suc n) (nbytes + extra) lines) z h (take_bytes-le max_result_bytes line)
      (λ k. keep_lines-cost (suc n) (nbytes + extra) lines (λ e. absurd (omega arith)) k)

cost_later : (n : ℕ) (lines : List String) → cost (suc n) lines ≡ cost 1 lines
unfolding cost
cost_later n [] = refl
cost_later n (line ∷ lines) = ground (arith, cost_later (suc n) lines, cost_later 1 lines)

bytes_break : bytes "\n" ≡ 1
unfolding bytes width
bytes_break = refl

bytes-join :
    (line : String) (lines : List String) → bytes (join "\n" (line ∷ lines)) ≡ cost 0 (line ∷ lines)
unfolding cost
bytes-join line [] = omega arith
bytes-join line (next ∷ lines) = rw (bytes-append line (append "\n" (join "\n" (next ∷ lines)))) (
    omega (
      arith,
      bytes-append "\n" (join "\n" (next ∷ lines)),
      bytes_break,
      bytes-join next lines,
      cost_later 1 lines,
    ))

bytes-join-le : (lines : List String) → bytes (join "\n" lines) ≤ cost 0 lines
unfolding cost
bytes-join-le [] = omega (arith, bytes_nil)
bytes-join-le (line ∷ lines) = omega (arith, bytes-join line lines)

keep_lines-length-le :
    (n nbytes : ℕ) (lines : List String) → length (keep_lines n nbytes lines) ≤ length lines
unfolding keep_lines
keep_lines-length-le n nbytes [] = omega arith
keep_lines-length-le n nbytes (line ∷ lines) =
    ground (
      arith,
      keep_lines-length-le (suc n) (nbytes + (bytes line + (if eqb n 0 then 0 else 1))) lines,
    )

-- A result shows at most 32 lines and at most 8192 bytes, the line breaks included, and counts each
-- line as shown or as omitted.
pub truncate_lines-bounds :
    (lines : List String)
    → let t = truncate_lines lines in
      (t.shown ≤ max_result_items)
      × (bytes (join "\n" t.kept) ≤ max_result_bytes)
      × (t.shown + t.omitted ≡ t.total)
unfolding truncate_lines
truncate_lines-bounds lines = (
  omega (arith, keep_lines-length 0 0 lines (omega arith)),
  omega (
    arith,
    bytes-join-le (keep_lines 0 0 lines),
    keep_lines-cost 0 0 lines (λ e. e) (omega arith),
  ),
  omega (arith, keep_lines-length-le 0 0 lines),
)

round_whole :
    (n nbytes : ℕ) (line cut : String) (rest : List String)
    → n < 32
    → let extra = bytes line + (if eqb n 0 then 0 else 1) in
      nbytes + extra ≤ 8192
      → (if leb max_result_items n
          then []
          else if not (eqb n 0) && ltb max_result_bytes (nbytes + extra)
          then []
          else if eqb n 0 && ltb max_result_bytes extra
          then cut ∷ []
          else line ∷ rest)
        ≡ line ∷ rest
round_whole n nbytes line cut rest h k = ground arith

keep_lines-whole :
    (n nbytes : ℕ) (lines : List String)
    → n + length lines ≤ 32
    → nbytes + cost n lines ≤ 8192
    → keep_lines n nbytes lines ≡ lines
unfolding keep_lines cost
keep_lines-whole n nbytes [] h k = refl
keep_lines-whole n nbytes (line ∷ lines) h k =
    let extra = bytes line + (if eqb n 0 then 0 else 1) in
    round_whole n nbytes line (take_bytes max_result_bytes line)
      (keep_lines (suc n) (nbytes + extra) lines) (omega arith) (ground arith)
    ∙ ap (◌∷◌ line) (keep_lines-whole (suc n) (nbytes + extra) lines (omega arith) (ground arith))

-- Lines that are within both budgets are all shown, as they are.
pub truncate_lines-whole :
    (lines : List String)
    → length lines ≤ max_result_items
    → bytes (join "\n" lines) ≤ max_result_bytes
    → ((truncate_lines lines).kept ≡ lines) × ((truncate_lines lines).omitted ≡ 0)
unfolding truncate_lines
truncate_lines-whole [] h k = (refl, refl)
truncate_lines-whole (line ∷ lines) h k =
    let whole =
      keep_lines-whole 0 0 (line ∷ lines) (omega arith) (omega (arith, bytes-join line lines)) in
    (whole, rw whole (omega arith))
