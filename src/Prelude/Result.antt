-- ===== src/Prelude/Result.antt =====
-- A call that may raise: the exception, or the value.
use mathlib.Core.Path.{◌≡◌}

pub data Result (E A : Type 0) : Type 0 where
  raise : E → Result E A
  ok : A → Result E A

-- The next call runs on the value; an exception skips it.
abbrev pub ◌>>=◌ : {E A B : Type 0} → Result E A → (A → Result E B) → Result E B
raise why >>= next = raise why
ok value >>= next = next value

infixl 5 ◌>>=◌
pub ok-injective : {E A : Type 0} {a b : A} → ◌≡◌ {A = Result E A} (ok a) (ok b) → a ≡ b
ok-injective h = cc
