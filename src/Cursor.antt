-- ===== src/Cursor.antt =====
-- audit_agent/methodology/cursor.py: the discovery chunks of a listing. The digest (the kernel's
-- canonical bytes under SHA-256) is a parameter.
pub mod Chunks
pub mod Progress
use Prim.Native.Char.{code}
use Prim.Native.String.{◌++◌ as append}
use araratsec_agent.Prelude.{
  ℕ, zero, suc, String, Bool, true, false, Option, none, some, List, [], ◌∷◌, map, length, take,
  drop, eqb, if◌then◌else◌,
}
use araratsec_agent.Prelude.Texts.{contains}
use araratsec_agent.Prelude.Sort.{sort_by, str_leb}

abbrev pub chunk_size : ℕ
chunk_size = 32

-- `p.replace("\\", "/")`: 92 is the backslash
unfoldable pub posix : String → String
posix String.[] = ""
posix (String.◌∷◌ c s) = if eqb (code c) 92 then append "/" (posix s) else String.◌∷◌ c (posix s)

-- `sorted(str(p).replace("\\", "/") for p in relpaths)`
unfoldable pub ordered : List String → List String
ordered paths = sort_by str_leb (map posix paths)

-- The slices `xs[i : i + size]` for `i` in `range(0, len(xs), size)`; the first argument bounds the
-- number of slices, and the length of the list is enough.
pub slices {ℓ} : {A : Type ℓ} → ℕ → ℕ → List A → List (List A)
slices zero size xs = []
slices (suc f) size [] = []
slices (suc f) size (x ∷ xs) = take size (x ∷ xs) ∷ slices f size (drop size (x ∷ xs))

abbrev pub Chunk : Type 0
Chunk = String × List String

-- The loop of `first_uncommitted_chunk`.
pub first_outside : List String → List Chunk → Option Chunk
first_outside committed [] = none
first_outside committed (c ∷ cs) =
    if contains c.0 committed then first_outside committed cs else some c

module _ (digest : ℕ → List String → String) where
  -- `chunk_id_for`: the digest of the revision and the ordered paths
  unfoldable pub chunk_id_for : ℕ → List String → String
  chunk_id_for revision paths = digest revision (ordered paths)

  unfoldable pub partition_chunks : List String → ℕ → ℕ → List Chunk
  unfolding slices
  partition_chunks paths revision size =
      let xs = ordered paths in
      map (λ group. (chunk_id_for revision group, group)) (slices (length xs) size xs)

  unfoldable pub first_uncommitted_chunk : List String → List String → ℕ → Option Chunk
  unfolding first_outside
  first_uncommitted_chunk paths committed revision =
      first_outside committed (partition_chunks paths revision chunk_size)
