-- ===== src/Stage2/Progress.antt =====
-- What one run of stage 2 does to its manifest.
use araratsec_agent.Prelude.{
  ◌+◌, ◌≡◌, refl, ap, ◌↔◌, String, Bool, true, Option, List, [], ◌∷◌, ◌++◌, length, count, All, not,
  arith,
}
use araratsec_agent.Prelude.Texts.{contains}
use araratsec_agent.Relay.{Adapter}
use araratsec_agent.Stage2.{
  Entry, Manifest, done, Requester, Emitted, emit, targets_of, ingest, status_of, run_stage2,
}

abbrev pub is_ingested : String × Entry → Bool
is_ingested (id, e) = e.ingested

module _ (adapter : Adapter) (response : String → Option String) where
  ingest-done :
      (m : Manifest)
      → (status_of (ingest adapter response m).pending ≡ done)
        ↔ All (λ e. is_ingested e ≡ true) (ingest adapter response m).entries
  unfolding ingest
  ingest-done [] = ground arith
  ingest-done ((id, e) ∷ m) = ground (arith, ingest-done m)

  ingest-accounts :
      (m : Manifest)
      → let t = ingest adapter response m in
        t.ingested + length t.pending ≡ count (λ e. not (is_ingested e)) m
  unfolding ingest
  ingest-accounts [] = omega arith
  ingest-accounts ((id, e) ∷ m) = ground (arith, ingest-accounts m)

  ingest-again :
      (m : Manifest)
      → All (λ e. is_ingested e ≡ true) m
      → ingest adapter response m
        ≡ record { findings = []; pending = []; ingested = 0; entries = m }
  unfolding ingest
  ingest-again [] h = refl
  ingest-again ((id, e) ∷ m) h = rw (h.0, ingest-again m h.1) refl

  ingest-keeps : (m : Manifest) → targets_of (ingest adapter response m).entries ≡ targets_of m
  unfolding ingest
  ingest-keeps [] = refl
  ingest-keeps ((id, e) ∷ m) = ground (arith, ingest-keeps m)

module _ {Dir : Type 0} (request : Requester Dir) (context_provider : String → String) where
  emit-known :
      (already ts : List String) (s : Emitted Dir)
      → All (λ t. contains t already ≡ true) ts
      → emit request context_provider already ts s ≡ s
  unfolding emit
  emit-known already [] s h = refl
  emit-known already (t ∷ ts) s h = rw (h.0) (emit-known already ts s h.1)

  module _ (adapter : Adapter) (response : Dir → String → Option String) where
    -- A run of stage 2 is done exactly if each entry of the manifest that it saves is ingested, and
    -- the manifest keeps the targets that it had after the requests.
    pub run_stage2-done_iff :
        (targets : List String) (dir : Dir) (m : Manifest) (ids : List String)
        → let r = run_stage2 request context_provider adapter response targets dir m ids in
          ((r.status ≡ done) ↔ All (λ e. is_ingested e ≡ true) r.manifest)
          × (targets_of r.manifest
              ≡ targets_of
                  (emit request context_provider
                    (targets_of m)
                    targets
                    (record { dir = dir; manifest = m; requested = 0 })).manifest)
    unfolding run_stage2
    run_stage2-done_iff targets dir m ids =
        let s =
          emit request context_provider (targets_of m) targets
            (record { dir = dir; manifest = m; requested = 0 }) in
        (
          ingest-done adapter (response s.dir) s.manifest,
          ingest-keeps adapter (response s.dir) s.manifest,
        )

    append_nil : (xs : List String) → xs ++ [] ≡ xs
    append_nil [] = refl
    append_nil (x ∷ xs) = ap (◌∷◌ x) (append_nil xs)

    repeated :
        (targets : List String) (dir : Dir) (m : Manifest) (ids : List String)
        → All (λ e. is_ingested e ≡ true) m
        → All (λ t. contains t (targets_of m) ≡ true) targets
        → run_stage2 request context_provider adapter response targets dir m ids ≡ record {
          status = done;
          findings = [];
          pending = [];
          requested = 0;
          ingested = 0;
          finding_ids = ids;
          manifest = m;
        }
    unfolding run_stage2
    repeated targets dir m ids old known =
        let s : Emitted Dir = record { dir = dir; manifest = m; requested = 0 } in
        rw
          (
            emit-known (targets_of m) targets s known,
            ingest-again adapter (response dir) m old,
            append_nil ids,
          )
          refl

    -- After a run that is done, a run on any targets that its manifest names requests nothing,
    -- delivers no finding again and leaves the session and the manifest as they are.
    pub run_stage2-again :
        (targets again : List String) (dir dir' : Dir) (m : Manifest) (ids : List String)
        → let r = run_stage2 request context_provider adapter response targets dir m ids in
          r.status ≡ done
          → All (λ t. contains t (targets_of r.manifest) ≡ true) again
          → run_stage2 request context_provider adapter response again dir' r.manifest r.finding_ids
            ≡ record {
              status = done;
              findings = [];
              pending = [];
              requested = 0;
              ingested = 0;
              finding_ids = r.finding_ids;
              manifest = r.manifest;
            }
    run_stage2-again targets again dir dir' m ids finished known =
        let r = run_stage2 request context_provider adapter response targets dir m ids in
        repeated again dir' r.manifest r.finding_ids
          ((run_stage2-done_iff targets dir m ids).0.0 finished) known
