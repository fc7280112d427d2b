-- ===== src/WriteExecute/Names.antt =====
-- A proof of concept's file stands directly in its directory.
use Prim.Native.Char.{Char, code}
use Prim.Native.String.{String}
use araratsec_agent.Prelude.{ℕ, ◌≡◌, refl, Bool, false, eqb, ◌||◌, arith}
use araratsec_agent.WriteExecute.{ident}

-- A character stands in a text.
unfoldable pub has_code : ℕ → String → Bool
has_code n String.[] = false
has_code n (String.◌∷◌ c s) = eqb (code c) n || has_code n s

-- An identifier holds no character but `_` that does not pass `isalnum`: for the slash, the dot and
-- the line break, none of which does, whatever the finding is called.
pub ident_clean :
    (is_alnum : Char → Bool) (n : ℕ)
    → ((c : Char) → code c ≡ n → is_alnum c ≡ false)
    → eqb n 95 ≡ false
    → (finding_id : String) → has_code n (ident is_alnum finding_id) ≡ false
unfolding ident has_code
ident_clean is_alnum n h e String.[] = refl
ident_clean is_alnum n h e (String.◌∷◌ c s) = ground (arith, h c, ident_clean is_alnum n h e s)
