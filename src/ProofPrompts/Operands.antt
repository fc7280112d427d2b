-- ===== src/ProofPrompts/Operands.antt =====
-- The operands that forge prints are read back.
use Prim.Native.Char.{Char, code}
use Prim.Native.String.{String, ◌++◌ as append}
use text.Mathlib.TextLemmas.{nil-append, cons-append}
use araratsec_agent.Prelude.{
  ℕ, zero, suc, ◌+◌, ◌-◌, ◌≤◌, ◌<◌, ◌≡◌, refl, ap, Bool, true, false, some, eqb, ◌&&◌, arith,
  if◌then◌else◌, [], ◌∷◌,
}
use araratsec_agent.Prelude.Texts.{concat, is_space}
use araratsec_agent.Onchain.{is_hex}
use araratsec_agent.ProofPrompts.{
  behind, skip_blanks, hex_run, operands_at, extract_access_control_operands,
}

-- The characters of a text, and whether all are hexadecimal digits.
unfoldable pub chars : String → ℕ
chars String.[] = 0
chars (String.◌∷◌ c s) = suc (chars s)

unfoldable pub all_hex : String → Bool
all_hex String.[] = true
all_hex (String.◌∷◌ c s) = is_hex (code c) && all_hex s

behind-append : (p s : String) → behind p (append p s) ≡ some s
unfolding behind
behind-append String.[] s = rw (nil-append s) refl
behind-append (String.◌∷◌ c p) s = rw (cons-append c p s) (ground (arith, behind-append p s))

hex_run-append :
    (n left : ℕ) (h rest : String) (c : Char)
    → all_hex h ≡ true
    → left + chars h ≡ n
    → is_hex (code c) ≡ false
    → hex_run n (append h (String.◌∷◌ c rest)) ≡ (left, (h, String.◌∷◌ c rest))
unfolding hex_run all_hex chars
hex_run-append zero left String.[] rest c a b d =
    rw (nil-append (String.◌∷◌ c rest)) (ap (λ m. (m, ("", String.◌∷◌ c rest))) (omega arith))
hex_run-append zero left (String.◌∷◌ e h) rest c a b d = absurd (omega arith)
hex_run-append (suc n) left String.[] rest c a b d =
    rw (nil-append (String.◌∷◌ c rest))
      (rw d (ap (λ m. (m, ("", String.◌∷◌ c rest))) (omega arith)))
hex_run-append (suc n) left (String.◌∷◌ e h) rest c a b d =
    rw (cons-append e h (String.◌∷◌ c rest)) (
      step (is_hex (code e)) (and-left _ _ a)
        (hex_run-append n left h rest c (and-right _ _ a) (omega arith) d))
  where
    and-left : (x y : Bool) → (x && y) ≡ true → x ≡ true
    and-left x y k = ground arith

    and-right : (x y : Bool) → (x && y) ≡ true → y ≡ true
    and-right x y k = ground arith

    q_with : ℕ × (String × String) → ℕ × (String × String)
    q_with (m, (ds, r)) = (m, (String.◌∷◌ e ds, r))

    step :
        (x : Bool)
        → x ≡ true
        → {q : ℕ × (String × String)} → q ≡ (left, (h, String.◌∷◌ c rest))
        → (if x then q_with q else (suc n, ("", String.◌∷◌ e (append h (String.◌∷◌ c rest)))))
          ≡ (left, (String.◌∷◌ e h, String.◌∷◌ c rest))
    step x k m = rw (k, m) refl

nothing_there : (ops : String × String) → operands_at "" ≡ some ops → ⊥
unfolding operands_at behind
nothing_there ops h = cc

-- A match at the start is the first one.
operands_at-first :
    (s : String) (ops : String × String)
    → operands_at s ≡ some ops
    → extract_access_control_operands s ≡ some ops
unfolding extract_access_control_operands
operands_at-first String.[] ops h = absurd (nothing_there ops h)
operands_at-first (String.◌∷◌ c s) ops h = rw (extract_access_control_operands, h) refl

-- What forge prints about an account and a role, without their `0x`.
abbrev pub printed : String → String → String → String
printed account role behind_it =
    append "AccessControlUnauthorizedAccount(" (
      append "0x" (append account (append ", " (append "0x" (append role (append ")" behind_it))))))

skip_blanks-hex : (t : String) → skip_blanks (append "0x" t) ≡ append "0x" t
unfolding skip_blanks is_space
skip_blanks-hex t = rw (cons-append "0" "x" t) refl

skip_blanks-space : (t : String) → skip_blanks (append " " (append "0x" t)) ≡ append "0x" t
unfolding skip_blanks is_space
skip_blanks-space t =
    rw (cons-append " " "" (append "0x" t), nil-append (append "0x" t)) (skip_blanks-hex t)

operands_at-printed :
    (account role rest : String) (left : ℕ)
    → all_hex account ≡ true
    → chars account ≡ 40
    → all_hex role ≡ true
    → left + chars role ≡ 64
    → eqb left 64 ≡ false
    → operands_at (printed account role rest)
      ≡ some (concat ("0x" ∷ account ∷ []), concat ("0x" ∷ role ∷ []))
unfolding operands_at is_space skip_blanks behind
operands_at-printed account role rest left a b c d e =
    let t4 = append "0x" (append role (append ")" rest)) in
    let t3 = append account (append ", " t4) in
    rw (behind-append "AccessControlUnauthorizedAccount(" (append "0x" t3)) (
      rw (skip_blanks-hex t3, behind-append "0x" t3, cons-append "," " " t4)
        (rw (hex_run-append 40 0 account (append " " t4) "," a (omega (arith, b)) refl) (
          rw
            (
              skip_blanks-space (append role (append ")" rest)),
              behind-append "0x" (append role (append ")" rest)),
              cons-append ")" "" rest,
              hex_run-append 64 left role (append "" rest) ")" c d refl,
              e,
            )
            refl)))

room : (left n : ℕ) → left + n ≡ 64 → 0 < n → eqb left 64 ≡ false
room left n d h = ground arith

-- What forge prints about an account of 40 hexadecimal digits and a role of 1 to 64 is read back,
-- whatever stands behind it.
pub extract_access_control_operands-printed :
    (account role rest : String)
    → all_hex account ≡ true
    → chars account ≡ 40
    → all_hex role ≡ true
    → 0 < chars role
    → chars role ≤ 64
    → extract_access_control_operands (printed account role rest)
      ≡ some (concat ("0x" ∷ account ∷ []), concat ("0x" ∷ role ∷ []))
extract_access_control_operands-printed account role rest a b c d e =
    let whole : (64 - chars role) + chars role ≡ 64 = omega arith in
    operands_at-first (printed account role rest) _ (
      operands_at-printed account role rest (64 - chars role) a b c whole
        (room (64 - chars role) (chars role) whole d))
