-- ===== src/Prelude/Texts.antt =====
-- Texts: Python's `str` operations that the modelled code uses.
pub mod Colon
use Prim.Native.Nat.{ℕ, zero, suc, ◌/◌, ◌%◌}
use Prim.Native.Char.{Char, code}
use Prim.Native.String.{String, ◌++◌ as append}
use mathlib.Core.Path.{◌≡◌, refl}
use mathlib.Core.Bool.{Bool, true, false, ◌||◌, ◌&&◌}
use mathlib.Core.List.{List, [], ◌∷◌}
use mathlib.Core.Option.{Option, none, some}
use text.Mathlib.Text.{◌==◌, starts_with}
use araratsec_agent.Prelude.Tests.{ltb, eqb, if◌then◌else◌}
use araratsec_agent.Prelude.Lists.{last_or}

-- f-strings: the parts one after another
abbrev pub concat : List String → String
concat [] = ""
concat (s ∷ ss) = append s (concat ss)

-- `sep.join(ss)`
abbrev pub join : String → List String → String
join sep [] = ""
join sep (s ∷ []) = s
join sep (s ∷ t ∷ ss) = append s (append sep (join sep (t ∷ ss)))

-- `x in xs` for a list or a set of texts
abbrev pub contains : String → List String → Bool
contains x [] = false
contains x (y ∷ ys) = x == y || contains x ys

-- `s.split(":", 1)[1]`; `none` where there is no colon
unfoldable pub after_first_colon : String → Option String
after_first_colon String.[] = none
after_first_colon (String.◌∷◌ c s) = if eqb (code c) b':' then some s else after_first_colon s

abbrev pub between : ℕ → ℕ → ℕ → Bool
between lo hi c = ltb c (suc hi) && ltb lo (suc c)

-- `s[:n]`
unfoldable pub take_chars : ℕ → String → String
take_chars zero s = ""
take_chars (suc n) String.[] = ""
take_chars (suc n) (String.◌∷◌ c s) = String.◌∷◌ c (take_chars n s)

-- `s.split(c)` at one character; the result is never empty
unfoldable pub push_head : Char → List String → List String
push_head c [] = (String.◌∷◌ c String.[]) ∷ []
push_head c (s ∷ ss) = (String.◌∷◌ c s) ∷ ss

unfoldable pub split : ℕ → String → List String
unfolding push_head
split sep String.[] = "" ∷ []
split sep (String.◌∷◌ c s) =
    if eqb (code c) sep then "" ∷ split sep s else push_head c (split sep s)

-- The breaks of `splitlines`.
abbrev is_break : ℕ → Bool
is_break c = between 10 13 c || between 28 30 c || eqb c 133 || between 8232 8233 c

-- `s.splitlines()`; the flag says that a carriage return came before
splitlines_from : Bool → String → List String
unfolding push_head
splitlines_from after String.[] = []
splitlines_from after (String.◌∷◌ c s) =
    let plain = splitlines_from false s in
    let returned = splitlines_from true s in
    if after && eqb (code c) 10
    then plain
    else if eqb (code c) 13
    then "" ∷ returned
    else if is_break (code c)
    then "" ∷ plain
    else push_head c plain

unfoldable pub splitlines : String → List String
unfolding splitlines_from
splitlines s = splitlines_from false s

-- `not s` on a text
abbrev pub is_empty : String → Bool
is_empty s = s == ""

-- `p in s` for texts
unfoldable pub is_in : String → String → Bool
is_in p String.[] = is_empty p
is_in p (String.◌∷◌ c s) = starts_with (String.◌∷◌ c s) p || is_in p s

abbrev pub first_or : String → List String → String
first_or d [] = d
first_or d (x ∷ xs) = x

-- `s.split(":")[0]`
unfoldable pub before_colon : String → String
unfolding split
before_colon s = first_or "" (split b':' s)

-- `s.split(":")[-1]`
unfoldable pub after_colon : String → String
unfolding split
after_colon s = last_or "" (split b':' s)

-- `c.isspace()`, the characters that `strip` drops
unfoldable pub is_space : Char → Bool
is_space ch =
    let c = code ch in
    between 9 13 c
    || between 28 32 c
    || eqb c 133
    || eqb c 160
    || eqb c 5760
    || between 8192 8202 c
    || between 8232 8233 c
    || eqb c 8239
    || eqb c 8287
    || eqb c 12288

unfoldable pub lstrip : String → String
lstrip String.[] = ""
lstrip (String.◌∷◌ c s) = if is_space c then lstrip s else String.◌∷◌ c s

unfoldable pub rstrip : String → String
rstrip String.[] = ""
rstrip (String.◌∷◌ c s) =
    let rest = rstrip s in if is_space c && is_empty rest then "" else String.◌∷◌ c rest

-- `s.strip()`
unfoldable pub strip : String → String
unfolding lstrip rstrip is_space
strip s = rstrip (lstrip s)

-- `str(n)`
abbrev digit : ℕ → String
digit d =
    if eqb d 0
    then "0"
    else if eqb d 1
    then "1"
    else if eqb d 2
    then "2"
    else if eqb d 3
    then "3"
    else if eqb d 4
    then "4"
    else if eqb d 5
    then "5"
    else if eqb d 6
    then "6"
    else if eqb d 7
    then "7"
    else if eqb d 8
    then "8"
    else "9"

pub digits : ℕ → ℕ → String → String
digits zero n acc = acc
digits (suc f) n acc =
    let acc' = append (digit (n % 10)) acc in
    let rest = digits f (n / 10) acc' in if ltb n 10 then acc' else rest

unfoldable pub decimal : ℕ → String
unfolding digits
decimal n = digits (suc n) n ""

test_split : before_colon "Vault.sol:a:withdraw" ≡ "Vault.sol"
unfolding before_colon
test_split = refl
