-- ===== src/Prelude/Sort.antt =====
-- Python's `sorted` and `list.sort`: insertion, stable, by a test `le x y` that the key of `x` is at
-- most that of `y`; and the order of texts.
use Prim.Native.Char.{code}
use Prim.Native.String.{String}
use mathlib.Core.Path.{◌≡◌, refl, sym, ◌∙◌}
use mathlib.Core.Bool.{Bool, true, false, false≢true}
use mathlib.Core.Logic.{inl, inr, ∥∥₁_elim}
use mathlib.Core.List.{List, [], ◌∷◌, Perm, Permᴰ}
use mathlib.Core.List.Perm
use native.Mathlib.Omega.{arith}
use text.Mathlib.TextEquality.{Char-path, eq_iff}
use text.Mathlib.Text.{◌==◌}
use mathlib.Core.HLevel.{hedberg}
use araratsec_agent.Prelude.Tests.{ltb, if◌then◌else◌, Bool-cases}
use araratsec_agent.Prelude.Lists.{All}

module _ {A : Type 0} (le : A → A → Bool) where
  pub insert_by : A → List A → List A
  insert_by x [] = x ∷ []
  insert_by x (y ∷ ys) = if le x y then x ∷ y ∷ ys else y ∷ insert_by x ys

  unfoldable pub sort_by : List A → List A
  unfolding insert_by
  sort_by [] = []
  sort_by (x ∷ xs) = insert_by x (sort_by xs)

  abbrev AtMost : A → List A → Type 0
  AtMost x [] = Unit
  AtMost x (y ∷ ys) = le x y ≡ true

  -- Neighbours are in order.
  abbrev pub IsSorted : List A → Type 0
  IsSorted [] = Unit
  IsSorted (x ∷ xs) = AtMost x xs × IsSorted xs

  insert_by-perm : (x : A) (ys : List A) → Perm (insert_by x ys) (x ∷ ys)
  unfolding insert_by
  insert_by-perm x [] = Perm.refl (x ∷ [])
  insert_by-perm x (y ∷ ys) = elim (Bool-cases (le x y)) [
    | inl here ↦ rw here (Perm.refl (x ∷ y ∷ ys))
    | inr later ↦ rw later (Perm.trans (Perm.cons y (insert_by-perm x ys)) (Perm.swap x y ys))
  ]

  -- Sorting keeps the elements, and how often each occurs.
  pub sort_by-perm : (xs : List A) → Perm (sort_by xs) xs
  unfolding sort_by
  sort_by-perm [] = Perm.refl []
  sort_by-perm (x ∷ xs) = Perm.trans (insert_by-perm x (sort_by xs)) (Perm.cons x (sort_by-perm xs))

  insert_by-All : (P : A → Type 0) (x : A) (ys : List A) → P x → All P ys → All P (insert_by x ys)
  unfolding insert_by
  insert_by-All P x [] p h = (p, h)
  insert_by-All P x (y ∷ ys) p h = elim (Bool-cases (le x y)) [
    | inl here ↦ rw here (p, h)
    | inr later ↦ rw later (h.0, insert_by-All P x ys p h.1)
  ]

  -- What holds of every element holds of every element of the sorted list.
  pub sort_by-All : (P : A → Type 0) (xs : List A) → All P xs → All P (sort_by xs)
  unfolding sort_by
  sort_by-All P [] h = h
  sort_by-All P (x ∷ xs) h = insert_by-All P x (sort_by xs) h.0 (sort_by-All P xs h.1)

  insert_by-IsSorted :
      (total : (x y : A) → le x y ≡ false → le y x ≡ true) (x : A) (ys : List A)
      → IsSorted ys
      → IsSorted (insert_by x ys)
  unfolding insert_by
  insert_by-IsSorted total x [] h = (tt, tt)
  insert_by-IsSorted total x (y ∷ []) h = ground (arith, total x y)
  insert_by-IsSorted total x (y ∷ z ∷ ys) h =
      ground (arith, total x y, total x z, insert_by-IsSorted total x (z ∷ ys) h.1)

  pub sort_by-IsSorted :
      (total : (x y : A) → le x y ≡ false → le y x ≡ true) (xs : List A) → IsSorted (sort_by xs)
  unfolding sort_by
  sort_by-IsSorted total [] = tt
  sort_by-IsSorted total (x ∷ xs) =
      insert_by-IsSorted total x (sort_by xs) (sort_by-IsSorted total xs)

  pub record IsOrder : Type 0 where
    pub total : (x y : A) → le x y ≡ false → le y x ≡ true
    pub antisymm : (x y : A) → le x y ≡ true → le y x ≡ true → x ≡ y
    pub trans : (x y z : A) → le x y ≡ true → le y z ≡ true → le x z ≡ true

  module _ (o : IsOrder) where
    insert_by_comm :
        (x y : A) (zs : List A) → insert_by x (insert_by y zs) ≡ insert_by y (insert_by x zs)
    unfolding insert_by
    insert_by_comm x y [] = ground (arith, o.total x y, o.total y x, o.antisymm x y)
    insert_by_comm x y (z ∷ zs) = ground (
      arith,
      insert_by_comm x y zs,
      o.total x y,
      o.total y x,
      o.antisymm x y,
      o.trans x y z,
      o.trans y x z,
    )

    sort_by-permᴰ : {xs ys : List A} → Permᴰ xs ys → sort_by xs ≡ sort_by ys
    unfolding sort_by
    sort_by-permᴰ Permᴰ.nil = refl
    sort_by-permᴰ (Permᴰ.cons e p) = λ i. insert_by (e i) (sort_by-permᴰ p i)
    sort_by-permᴰ (Permᴰ.swap {a = a} {b = b} {l = l} e f) =
        insert_by_comm a b (sort_by l) ∙ (λ i. insert_by (f i) (insert_by (e i) (sort_by l)))
    sort_by-permᴰ (Permᴰ.trans p q) = sort_by-permᴰ p ∙ sort_by-permᴰ q

    -- The sorted list does not depend on the order that the elements came in.
    pub sort_by-eq_of_perm :
        IsSet (List A) → {xs ys : List A} → Perm xs ys → sort_by xs ≡ sort_by ys
    sort_by-eq_of_perm set {xs} {ys} p =
        ∥∥₁_elim p (set (sort_by xs) (sort_by ys)) (λ d. sort_by-permᴰ d)

-- `s <= t`, by code points
unfoldable pub str_leb : String → String → Bool
str_leb String.[] t = true
str_leb (String.◌∷◌ c s) String.[] = false
str_leb (String.◌∷◌ c s) (String.◌∷◌ d t) =
    if ltb (code c) (code d) then true else if ltb (code d) (code c) then false else str_leb s t

str_leb_total : (s t : String) → str_leb s t ≡ false → str_leb t s ≡ true
unfolding str_leb
str_leb_total String.[] t h = cc
str_leb_total (String.◌∷◌ c s) String.[] h = refl
str_leb_total (String.◌∷◌ c s) (String.◌∷◌ d t) h = ground (arith, str_leb_total s t)

str_leb_antisymm : (s t : String) → str_leb s t ≡ true → str_leb t s ≡ true → s ≡ t
unfolding str_leb
str_leb_antisymm String.[] String.[] h k = refl
str_leb_antisymm String.[] (String.◌∷◌ d t) h k = cc
str_leb_antisymm (String.◌∷◌ c s) String.[] h k = cc
str_leb_antisymm (String.◌∷◌ c s) (String.◌∷◌ d t) h k =
    ground (arith, Char-path c d, str_leb_antisymm s t)

str_leb_trans : (s t u : String) → str_leb s t ≡ true → str_leb t u ≡ true → str_leb s u ≡ true
unfolding str_leb
str_leb_trans String.[] t u h k = refl
str_leb_trans (String.◌∷◌ c s) String.[] u h k = cc
str_leb_trans (String.◌∷◌ c s) (String.◌∷◌ d t) String.[] h k = cc
str_leb_trans (String.◌∷◌ c s) (String.◌∷◌ d t) (String.◌∷◌ e u) h k =
    ground (arith, str_leb_trans s t u)

pub str_leb-IsOrder : IsOrder str_leb
str_leb-IsOrder = record {
  total = str_leb_total;
  antisymm = str_leb_antisymm;
  trans = str_leb_trans;
}

String-discrete : Discrete String
String-discrete s t = elim (Bool-cases (s == t)) [
  | inl same ↦ yes ((eq_iff s t).0 same)
  | inr other ↦ no (λ e. false≢true (sym other ∙ (eq_iff s t).1 e))
]

pub Texts-set : IsSet (List String)
Texts-set = hlevel (hedberg String-discrete)
