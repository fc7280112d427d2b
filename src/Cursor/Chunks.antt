-- ===== src/Cursor/Chunks.antt =====
-- The chunks partition the ordered listing, and depend on the set of paths alone.
use mathlib.Core.List.{Perm}
use mathlib.Core.List.Perm
use native.Mathlib.Nat.{le_refl}
use araratsec_agent.Prelude.{
  ℕ, zero, suc, ◌≤◌, ◌<◌, ◌≡◌, ◌∙◌, refl, ap, String, List, [], ◌∷◌, ◌++◌, map, length, take, drop,
  take-append-drop, All, arith,
}
use araratsec_agent.Prelude.Sort.{sort_by-eq_of_perm, str_leb, str_leb-IsOrder, Texts-set}
use araratsec_agent.Cursor.{posix, ordered, slices, Chunk, chunk_id_for, partition_chunks}

-- The chunks' paths one after another.
abbrev pub join_groups {ℓ} : {A : Type ℓ} → List (List A) → List A
join_groups [] = []
join_groups (g ∷ gs) = g ++ join_groups gs

module _ {ℓ} {A : Type ℓ} where
  length-drop-le : (n : ℕ) (x : A) (xs : List A) → 0 < n → length (drop n (x ∷ xs)) ≤ length xs
  length-drop-le zero x xs h = absurd (omega arith)
  length-drop-le (suc zero) x xs h = omega arith
  length-drop-le (suc (suc n)) x [] h = omega arith
  length-drop-le (suc (suc n)) x (y ∷ xs) h =
      omega (arith, length-drop-le (suc n) y xs (omega arith))

  slices-join :
      (f size : ℕ) (xs : List A) → 0 < size → length xs ≤ f → join_groups (slices f size xs) ≡ xs
  unfolding slices
  slices-join zero size [] p h = refl
  slices-join zero size (x ∷ xs) p h = absurd (omega arith)
  slices-join (suc f) size [] p h = refl
  slices-join (suc f) size (x ∷ xs) p h =
      ap (◌++◌ (take size (x ∷ xs)))
        (slices-join f size (drop size (x ∷ xs)) p (omega (arith, length-drop-le size x xs p)))
      ∙ take-append-drop size (x ∷ xs)

  length-take_bounds :
      (n : ℕ) (x : A) (xs : List A)
      → 0 < n
      → (0 < length (take n (x ∷ xs))) × (length (take n (x ∷ xs)) ≤ n)
  length-take_bounds zero x xs h = absurd (omega arith)
  length-take_bounds (suc zero) x xs h = omega arith
  length-take_bounds (suc (suc n)) x [] h = omega arith
  length-take_bounds (suc (suc n)) x (y ∷ xs) h =
      omega (arith, length-take_bounds (suc n) y xs (omega arith))

  slices-bounds :
      (f size : ℕ) (xs : List A)
      → 0 < size
      → All (λ g. (0 < length g) × (length g ≤ size)) (slices f size xs)
  unfolding slices
  slices-bounds zero size xs p = tt
  slices-bounds (suc f) size [] p = tt
  slices-bounds (suc f) size (x ∷ xs) p =
      (length-take_bounds size x xs p, slices-bounds f size (drop size (x ∷ xs)) p)

module _ (digest : ℕ → List String → String) where
  groups-partition :
      (revision : ℕ) (gs : List (List String))
      → map (λ (c : Chunk). c.1) (map (λ group. (chunk_id_for digest revision group, group)) gs)
        ≡ gs
  groups-partition revision [] = refl
  groups-partition revision (g ∷ gs) = ap (◌∷◌ g) (groups-partition revision gs)

  -- With a positive size, the chunks one after another are the ordered listing, and each holds
  -- between one and `size` paths.
  pub partition_chunks_complete :
      (paths : List String) (revision size : ℕ)
      → 0 < size
      → let groups = map (λ (c : Chunk). c.1) (partition_chunks digest paths revision size) in
        (join_groups groups ≡ ordered paths) × All (λ g. (0 < length g) × (length g ≤ size)) groups
  unfolding partition_chunks
  partition_chunks_complete paths revision size p =
      let xs = ordered paths in
      rw (groups-partition revision (slices (length xs) size xs)) (
        slices-join (length xs) size xs p (le_refl (length xs)),
        slices-bounds (length xs) size xs p,
      )

  -- Two listings of the same paths, in whatever order, have the same sequence of chunks.
  pub partition_chunks-perm :
      (revision size : ℕ) {paths paths' : List String}
      → Perm paths paths'
      → partition_chunks digest paths revision size ≡ partition_chunks digest paths' revision size
  unfolding partition_chunks ordered
  partition_chunks-perm revision size p =
      rw (sort_by-eq_of_perm str_leb str_leb-IsOrder Texts-set (Perm.map posix p))
