-- ===== src/Methodology/Adapters/Discovery.antt =====
-- Each discovery commits the next chunk, so that repeating it comes to the end of the listing.
use mathlib.Core.List.{append-nil, append_assoc}
use araratsec_agent.Prelude.{
  ℕ, ◌≡◌, ◌∙◌, refl, ap, sym, ◌<◌, String, true, false, none, some, List, [], ◌∷◌, ◌++◌, length,
  arith, find_first, select, map, All, ◌⊎◌, inl, inr,
}
use araratsec_agent.Prelude.Texts.{contains, is_empty}
use araratsec_agent.Prelude.Result.{ok}
use araratsec_agent.Cursor.{Chunk, chunk_size, partition_chunks, first_uncommitted_chunk}
use araratsec_agent.Cursor.Progress.{remaining, first_uncommitted_chunk_progress}
use araratsec_agent.Methodology.Models.{
  TransitionType, MethodologyTransition, Payload, SnapshotItem, MemorySnapshot, required_fields,
  is_falsy, ItemKind, absent, opaque, payloads,
}
use araratsec_agent.Methodology.Service.{
  Action, ActionType, ApplyArgs, discover_event, reject_bad_snapshot, Unpacked, unpack, draft_event,
}
use araratsec_agent.Methodology.Service.Apply.{apply-committed, committed}
use araratsec_agent.Methodology.Adapters.Checks.{applied-ok}
use araratsec_agent.Methodology.Adapters.{
  Env, DispatchStatus, DispatchResult, result_from_transition, outside_include, included_relpaths,
  item_bodies, chunks_of, item_chunks, committed_chunk_ids, chosen_chunk, discover_chunk,
  run_discovery, no_args, report_of,
}

contains-last : (y x : String) (xs : List String) → contains y (xs ++ x ∷ []) ≡ contains y (x ∷ xs)
contains-last y x [] = refl
contains-last y x (z ∷ zs) = ground (arith, contains-last y x zs)

remaining-last :
    (x : String) (xs : List String) (cs : List Chunk)
    → remaining (xs ++ x ∷ []) cs ≡ remaining (x ∷ xs) cs
remaining-last x xs [] = refl
remaining-last x xs (c ∷ cs) = rw (contains-last c.0 x xs, remaining-last x xs cs) refl

item_chunks-append :
    (is js : List SnapshotItem) → item_chunks (is ++ js) ≡ item_chunks is ++ item_chunks js
unfolding item_chunks
item_chunks-append [] js = refl
item_chunks-append (i ∷ is) js =
    rw (item_chunks-append is js) (sym (append_assoc _ (item_chunks is) (item_chunks js)))

-- An item that the methodology does not read.
abbrev pub IsQuiet : SnapshotItem → Type 0
IsQuiet item = (item.body ≡ absent) ⊎ (item.body ≡ opaque)

-- What is asked of the kernel's commit: the items of the memory stay, and behind them stands a commit
-- with the payloads, among items that the methodology does not read.
pub record Appends (s s' : MemorySnapshot) (ps : List Payload) : Type 0 where
  pub before : List SnapshotItem
  pub behind : List SnapshotItem
  pub record_id : String
  pub log_sequence : ℕ
  pub items_eq :
      s'.items
      ≡ s.items
        ++ (before
            ++ record {
              record_id = record_id;
              log_sequence = log_sequence;
              kind = ItemKind.dispatch_commit;
              body = payloads ps;
            }
              ∷ behind)
  pub quiet_before : All IsQuiet before
  pub quiet_behind : All IsQuiet behind

item_bodies-absent : (kind : ItemKind) → item_bodies kind absent ≡ []
item_bodies-absent kind = ground arith

item_bodies-opaque : (kind : ItemKind) → item_bodies kind opaque ≡ []
item_bodies-opaque kind = ground arith

item_bodies-quiet : (item : SnapshotItem) → IsQuiet item → item_bodies item.kind item.body ≡ []
item_bodies-quiet item (inl h) = rw h (item_bodies-absent item.kind)
item_bodies-quiet item (inr h) = rw h (item_bodies-opaque item.kind)

item_chunks-quiet : (items : List SnapshotItem) → All IsQuiet items → item_chunks items ≡ []
unfolding item_chunks chunks_of
item_chunks-quiet [] h = refl
item_chunks-quiet (item ∷ items) h =
    rw (item_bodies-quiet item h.0, item_chunks-quiet items h.1) refl

committed_chunk_ids-Appends :
    (s s' : MemorySnapshot) (ps : List Payload)
    → Appends s s' ps
    → committed_chunk_ids s' ≡ committed_chunk_ids s ++ chunks_of ps
unfolding committed_chunk_ids item_chunks
committed_chunk_ids-Appends s s' ps h =
    rw
      (
        h.items_eq,
        item_chunks-append s.items _,
        item_chunks-append h.before _,
        item_chunks-quiet h.before h.quiet_before,
        item_chunks-quiet h.behind h.quiet_behind,
      )
      (ap (λ ys. item_chunks s.items ++ ys) (append-nil (chunks_of ps)))

required_fields-discover_event :
    (s : MemorySnapshot) (n : ℕ) (a : Action) (k : ApplyArgs) (cid : String)
    → k.chunk_id ≡ some cid
    → is_empty cid ≡ false
    → (required_fields (discover_event s n a k) ≡ ok (discover_event s n a k))
      × ((discover_event s n a k).chunk_id ≡ some cid)
unfolding required_fields
required_fields-discover_event s n a k cid e h = rw e (ground arith, ground arith)

draft_event-discover :
    (s : MemorySnapshot) (n : ℕ) (a : Action) (k : ApplyArgs)
    → a.action_type ≡ ActionType.run_discovery
    → draft_event s n a k ≡ ok (discover_event s n a k, k.extra_findings)
unfolding draft_event
draft_event-discover s n a k h = rw h refl

chunks_of-discovered :
    (env : Env) (t : MethodologyTransition) (cid : String)
    → t.stage_event.transition_type ≡ TransitionType.discover
    → t.stage_event.chunk_id ≡ some cid
    → t.executions ≡ []
    → is_empty cid ≡ false
    → chunks_of (result_from_transition env t).payloads ≡ cid ∷ []
unfolding result_from_transition chunks_of
chunks_of-discovered env t cid k c e h = rw (k, c, e) (ground arith)

result-ran :
    (env : Env) (t : MethodologyTransition)
    → (result_from_transition env t).status ≡ DispatchStatus.ran
unfolding result_from_transition
result-ran env t = refl

-- The chunks of the listing, as the handler partitions it.
abbrev pub chunks : Env → List Chunk
chunks env = partition_chunks env.chunk_digest (included_relpaths env) 0 chunk_size

module _ (env : Env) (u : Unpacked) (good : reject_bad_snapshot env.snapshot ≡ ok tt)
    (opened : unpack env.snapshot ≡ ok u) where
  discover_chunk-commits :
      (a : Action) (c : Chunk)
      → a.action_type ≡ ActionType.run_discovery
      → is_empty c.0 ≡ false
      → find_first (outside_include env) c.1 ≡ none
      → (r : DispatchResult) × (discover_chunk env a c ≡ ok r)
        × (r.status ≡ DispatchStatus.ran)
        × (chunks_of r.payloads ≡ c.0 ∷ [])
  unfolding discover_chunk
  discover_chunk-commits a c kind h o =
      let report = report_of env (select env.machine.exists (map env.machine.absolute c.1)) in
      let k = record no_args { report = some report; chunk_id = some c.0 } in
      let n = length u.0 in
      let e = discover_event env.snapshot n a k in
      let t = committed env.snapshot u [] e [] in
      let (v, cid) = required_fields-discover_event env.snapshot n a k c.0 refl h in
      (
        result_from_transition env t,
        rw (discover_chunk, o)
            (applied-ok env u good opened a k (
              apply-committed env.snapshot u good opened a k
                (draft_event-discover env.snapshot n a k kind) v)),
        result-ran env t,
        chunks_of-discovered env t c.0 refl cid refl h,
      )

  -- Let the kernel's commit append the payloads to the memory. On a snapshot that is not refused and
  -- unpacks, a discovery without a chosen chunk whose next chunk is not committed, has an id and holds
  -- paths of the include set alone: it succeeds, and once its payloads are committed, the chunk's id
  -- stands behind the committed ones, and fewer chunks of the listing remain.
  pub run_discovery-advances :
      (commit : MemorySnapshot → List Payload → MemorySnapshot)
      (commits : (s : MemorySnapshot) (ps : List Payload) → Appends s (commit s ps) ps) (a : Action)
      (c : Chunk)
      → a.action_type ≡ ActionType.run_discovery
      → is_falsy a.param_chunk_id ≡ true
      → first_uncommitted_chunk env.chunk_digest
          (included_relpaths env)
          (committed_chunk_ids env.snapshot)
          0
        ≡ some c
      → is_empty c.0 ≡ false
      → find_first (outside_include env) c.1 ≡ none
      → (r : DispatchResult) × (run_discovery env a ≡ ok r)
        × (r.status ≡ DispatchStatus.ran)
        × (committed_chunk_ids (commit env.snapshot r.payloads)
            ≡ committed_chunk_ids env.snapshot ++ c.0 ∷ [])
        × (remaining (committed_chunk_ids (commit env.snapshot r.payloads)) (chunks env)
            < remaining (committed_chunk_ids env.snapshot) (chunks env))
  unfolding run_discovery chosen_chunk
  run_discovery-advances commit commits a c kind free next h o =
      let ids = committed_chunk_ids env.snapshot in
      let (r, e, ran, cs) = discover_chunk-commits a c kind h o in
      let after =
        committed_chunk_ids-Appends env.snapshot (commit env.snapshot r.payloads) r.payloads
          (commits env.snapshot r.payloads)
        ∙ ap (λ ys. ids ++ ys) cs in
      let progress =
        (first_uncommitted_chunk_progress env.chunk_digest (included_relpaths env) ids 0).1 c
          next in
      (
        r,
        rw (run_discovery, chosen_chunk, free, next) e,
        ran,
        after,
        rw (after, remaining-last c.0 ids (chunks env)) progress.1,
      )
