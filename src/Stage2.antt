-- ===== src/Stage2.antt =====
-- audit_agent/planner/stage2.py: the requests of a session and the ingestion of their responses. The
-- manifest is the dict that its file holds; the kernel's requests are a parameter, and the
-- response files are a function from the id of a request.
pub mod Progress
use araratsec_agent.Prelude.{
  ℕ, suc, String, Bool, true, false, Option, none, some, List, [], ◌∷◌, ◌++◌, map, if◌then◌else◌,
}
use araratsec_agent.Prelude.Texts.{contains}
use araratsec_agent.Prelude.Dict.{Dict, insert}
use araratsec_agent.Prelude.Result.{Result, ok, raise}
use araratsec_agent.Finding.{Finding}
use araratsec_agent.Relay.{RelayFinding, RelayIngestResult, Adapter, ingest_response}

-- An entry of the manifest.
pub record Entry : Type 0 where
  pub target : String
  pub ingested : Bool

abbrev pub Manifest : Type 0
Manifest = Dict Entry

pub data Status : Type 0 where
  paused done : Status

-- `Stage2Result`, with the session's `finding_ids` and the saved manifest
pub record Stage2Result : Type 0 where
  pub status : Status
  pub findings : List Finding
  pub pending : List String
  pub requested : ℕ
  pub ingested : ℕ
  pub finding_ids : List String
  pub manifest : Manifest

-- The `Stage2Result.done` of the source.
unfoldable pub is_done : Stage2Result → Bool
is_done r = elim r.status [ done ↦ true | paused ↦ false ]

-- A request: from the state of the relay directory, the target and its context to the id.
abbrev pub Requester : Type 0 → Type 0
Requester Dir = Dir → String → String → String × Dir

pub record Emitted (Dir : Type 0) : Type 0 where
  pub dir : Dir
  pub manifest : Manifest
  pub requested : ℕ

module _ {Dir : Type 0} (request : Requester Dir) (context_provider : String → String) where
  -- `manifest[req.request_id] = {...}; requested += 1`
  unfoldable pub emit_one : String → Emitted Dir → Emitted Dir
  emit_one target s =
      let made = request s.dir target (context_provider target) in
      record {
        dir = made.1;
        manifest = insert made.0 (record { target = target; ingested = false }) s.manifest;
        requested = suc s.requested;
      }

  -- The loop over the targets.
  unfoldable pub emit : List String → List String → Emitted Dir → Emitted Dir
  unfolding emit_one
  emit already [] s = s
  emit already (t ∷ ts) s =
      if contains t already then emit already ts s else emit already ts (emit_one t s)

abbrev pub targets_of : Manifest → List String
targets_of m = map (λ e. e.1.target) m

-- What the loop over the manifest's entries collects.
pub record Ingested : Type 0 where
  pub findings : List Finding
  pub pending : List String
  pub ingested : ℕ
  pub entries : Manifest

-- The findings of one result.
abbrev pub findings_of : RelayIngestResult → List Finding
findings_of r = map (λ f. f.finding) r.findings

module _ (adapter : Adapter) (response : String → Option String) where
  abbrev pub ingest_one : String → Entry → RelayIngestResult → Ingested → Ingested
  ingest_one id e r rest =
      if r.needs_resend
      then record rest { pending = id ∷ rest.pending; entries = (id, e) ∷ rest.entries }
      else record {
        findings = findings_of r ++ rest.findings;
        pending = rest.pending;
        ingested = suc rest.ingested;
        entries = (id, record e { ingested = true }) ∷ rest.entries;
      }

  unfoldable pub ingest : Manifest → Ingested
  unfolding ingest_response
  ingest [] = record { findings = []; pending = []; ingested = 0; entries = [] }
  ingest ((id, e) ∷ m) =
      let rest = ingest m in
      if e.ingested
      then record rest { entries = (id, e) ∷ rest.entries }
      else ingest_one id e (ingest_response adapter id none (response id)) rest

abbrev pub status_of : List String → Status
status_of [] = done
status_of (p ∷ ps) = paused

-- `run_stage2`, from the manifest that is on disk
unfoldable pub run_stage2 :
    {Dir : Type 0}
    → Requester Dir
    → (String → String)
    → Adapter
    → (Dir → String → Option String)
    → List String
    → Dir
    → Manifest
    → List String
    → Stage2Result
unfolding emit ingest
run_stage2 request context_provider adapter response targets dir manifest finding_ids =
    let s =
      emit request context_provider (targets_of manifest) targets
        (record { dir = dir; manifest = manifest; requested = 0 }) in
    let t = ingest adapter (response s.dir) s.manifest in
    record {
      status = status_of t.pending;
      findings = t.findings;
      pending = t.pending;
      requested = s.requested;
      ingested = t.ingested;
      finding_ids = finding_ids ++ map (λ f. f.finding_id) t.findings;
      manifest = t.entries;
    }

-- The loop of `run_stage2_local`; `none` is a model that is not available.
unfoldable pub run_stage2_local :
    (String → String → Option RelayIngestResult)
    → (String → String)
    → List String
    → List String
    → Stage2Result
run_stage2_local analyze context_provider [] finding_ids = record {
  status = done;
  findings = [];
  pending = [];
  requested = 0;
  ingested = 0;
  finding_ids = finding_ids;
  manifest = [];
}
run_stage2_local analyze context_provider (t ∷ ts) finding_ids =
    elim (analyze t (context_provider t)) [
      | none ↦ run_stage2_local analyze context_provider ts finding_ids
      | some r ↦
          let rest =
            run_stage2_local analyze context_provider ts
              (finding_ids ++ map (λ f. f.finding_id) (findings_of r)) in
          record rest {
            findings = findings_of r ++ rest.findings;
            requested = suc rest.requested;
            ingested = suc rest.ingested;
          }
    ]
