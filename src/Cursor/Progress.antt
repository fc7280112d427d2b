-- ===== src/Cursor/Progress.antt =====
-- Discovery walks through the chunks: it stops exactly when every chunk is committed, and each
-- commit of the chunk that it names brings it nearer.
use araratsec_agent.Prelude.{
  ℕ, ◌≤◌, ◌<◌, ◌≡◌, refl, ◌↔◌, String, true, false, none, some, List, [], ◌∷◌, count, All, not,
  arith, eq_iff,
}
use araratsec_agent.Prelude.Texts.{contains}
use araratsec_agent.Cursor.{
  Chunk, chunk_size, partition_chunks, first_outside, first_uncommitted_chunk,
}

-- The chunks that are not committed.
abbrev pub remaining : List String → List Chunk → ℕ
remaining committed = count (λ c. not (contains c.0 committed))

first_outside-none_iff :
    (committed : List String) (cs : List Chunk)
    → (first_outside committed cs ≡ none) ↔ All (λ c. contains c.0 committed ≡ true) cs
unfolding first_outside
first_outside-none_iff committed [] = (λ _. tt, λ _. refl)
first_outside-none_iff committed (c ∷ cs) = ground (arith, first_outside-none_iff committed cs)

remaining-cons-le :
    (cid : String) (committed : List String) (cs : List Chunk)
    → remaining (cid ∷ committed) cs ≤ remaining committed cs
remaining-cons-le cid committed [] = omega arith
remaining-cons-le cid committed (c ∷ cs) = ground (arith, remaining-cons-le cid committed cs)

remaining-first_outside :
    (committed : List String) (cs : List Chunk) (c : Chunk)
    → first_outside committed cs ≡ some c
    → (contains c.0 committed ≡ false) × (remaining (c.0 ∷ committed) cs < remaining committed cs)
unfolding first_outside
remaining-first_outside committed [] c h = cc
remaining-first_outside committed (d ∷ cs) c h = ground (
  arith,
  remaining-first_outside committed cs c,
  remaining-cons-le c.0 committed cs,
  eq_iff d.0 c.0,
)

module _ (digest : ℕ → List String → String) where
  -- There is no next chunk exactly if every chunk of the listing is committed. A next chunk is not
  -- committed, and once it is, fewer chunks remain.
  pub first_uncommitted_chunk_progress :
      (paths committed : List String) (revision : ℕ)
      → let cs = partition_chunks digest paths revision chunk_size in
        ((first_uncommitted_chunk digest paths committed revision ≡ none)
          ↔ All (λ (c : Chunk). contains c.0 committed ≡ true) cs)
        × ((c : Chunk)
            → first_uncommitted_chunk digest paths committed revision ≡ some c
            → (contains c.0 committed ≡ false)
              × (remaining (c.0 ∷ committed) cs < remaining committed cs))
  unfolding first_uncommitted_chunk
  first_uncommitted_chunk_progress paths committed revision =
      (first_outside-none_iff committed _, λ c h. remaining-first_outside committed _ c h)
