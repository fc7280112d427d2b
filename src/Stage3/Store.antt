-- ===== src/Stage3/Store.antt =====
-- Writes to one place of the store, and relations between two stores place by place.
use araratsec_agent.Prelude.{ℕ, zero, suc, ◌≡◌, refl, List, [], ◌∷◌, some, get_elem?, map}

module _ {A : Type 0} where
  -- Write at a place; out of range nothing changes.
  abbrev pub modify_at : ℕ → (A → A) → List A → List A
  modify_at i f [] = []
  modify_at zero f (x ∷ xs) = f x ∷ xs
  modify_at (suc i) f (x ∷ xs) = x ∷ modify_at i f xs

  -- The stores have the same length, and `R` relates what stands at each place.
  abbrev pub Pointwise : (A → A → Type 0) → List A → List A → Type 0
  Pointwise R [] [] = Unit
  Pointwise R (x ∷ xs) (y ∷ ys) = R x y × Pointwise R xs ys
  Pointwise R _ _ = ⊥

  pub Pointwise-refl : (R : A → A → Type 0) → ((x : A) → R x x) → (xs : List A) → Pointwise R xs xs
  Pointwise-refl R r [] = tt
  Pointwise-refl R r (x ∷ xs) = (r x, Pointwise-refl R r xs)

  pub Pointwise-map :
      (R : A → A → Type 0) (f : A → A)
      → ((x : A) → R x (f x))
      → (xs : List A) → Pointwise R xs (map f xs)
  Pointwise-map R f r [] = tt
  Pointwise-map R f r (x ∷ xs) = (r x, Pointwise-map R f r xs)

  -- A relation that holds of a step after another composes place by place.
  pub Pointwise-trans :
      (R S T : A → A → Type 0)
      → ((x y z : A) → R x y → S y z → T x z)
      → (xs ys zs : List A) → Pointwise R xs ys
      → Pointwise S ys zs
      → Pointwise T xs zs
  Pointwise-trans R S T c [] [] [] p q = tt
  Pointwise-trans R S T c [] [] (z ∷ zs) p q = q
  Pointwise-trans R S T c [] (y ∷ ys) zs p q = absurd p
  Pointwise-trans R S T c (x ∷ xs) [] zs p q = absurd p
  Pointwise-trans R S T c (x ∷ xs) (y ∷ ys) [] p q = q
  Pointwise-trans R S T c (x ∷ xs) (y ∷ ys) (z ∷ zs) p q =
      (c x y z p.0 q.0, Pointwise-trans R S T c xs ys zs p.1 q.1)

  -- A write keeps the relation if the new value at the place is still related.
  pub modify_at-Pointwise :
      (R : A → A → Type 0) (i : ℕ) (f : A → A) (xs ys : List A)
      → ((x y : A) → get_elem? ys i ≡ some y → R x y → R x (f y))
      → Pointwise R xs ys
      → Pointwise R xs (modify_at i f ys)
  modify_at-Pointwise R i f [] [] h p = tt
  modify_at-Pointwise R i f [] (y ∷ ys) h p = absurd p
  modify_at-Pointwise R i f (x ∷ xs) [] h p = p
  modify_at-Pointwise R zero f (x ∷ xs) (y ∷ ys) h p = (h x y refl p.0, p.1)
  modify_at-Pointwise R (suc i) f (x ∷ xs) (y ∷ ys) h p =
      (p.0, modify_at-Pointwise R i f xs ys h p.1)
