-- ===== src/Methodology/Service/Apply.antt =====
-- What a transition of the reducer does to the projection.
use mathlib.Core.Path.{subst}
use araratsec_agent.Prelude.{
  ℕ, suc, ◌≡◌, ◌∙◌, refl, sym, String, Bool, List, [], ◌∷◌, ◌++◌, any, length, arith, ◌||◌,
}
use araratsec_agent.Prelude.Result.{Result, ok, raise, ◌>>=◌, ok-injective}
use araratsec_agent.Finding.{Finding}
use araratsec_agent.Methodology.Models.{
  Fault, StageEvent, AnalyzerExecution, RoadmapProjection, required_fields, MethodologyTransition,
  MemorySnapshot,
}
use araratsec_agent.Methodology.Roadmap.{rows}
use araratsec_agent.Methodology.Roadmap.Latest.{
  row_of, row_of-rows, or_else, decision, discovery, last_decision, first_discovery,
}
use araratsec_agent.Methodology.Service.{
  reject_bad_snapshot, Unpacked, unpack, findings_of, imagine, project, projection_of, relabel,
  commit_event, draft_event, apply, Action, ApplyArgs, is_empty_synthesis,
}
use araratsec_agent.Methodology.Service.Imagined.{
  required_fields-eq, unpack-imagine, reject_bad_snapshot-imagine, findings_of-imagine,
}

any-last :
    (p : StageEvent → Bool) (es : List StageEvent) (e : StageEvent)
    → any p (es ++ e ∷ []) ≡ any p es || p e
any-last p [] e = ground arith
any-last p (x ∷ es) e = ground (arith, any-last p es e)

-- The label that `apply` adds after an empty synthesis is already in the projection.
relabel-projection_of :
    (e : StageEvent) (n : ℕ) (fs : List Finding) (u : Unpacked)
    → relabel e (projection_of n fs (u.0 ++ e ∷ [], u.1)) ≡ projection_of n fs (u.0 ++ e ∷ [], u.1)
unfolding projection_of
relabel-projection_of e n fs u = ground (arith, any-last is_empty_synthesis u.0 e)

pub as_of_sequence-imagine :
    (s : MemorySnapshot) (e : StageEvent) (xs : List AnalyzerExecution)
    → (imagine s e xs).as_of_sequence ≡ suc s.as_of_sequence
unfolding imagine
as_of_sequence-imagine s e xs = refl

-- The transition that a validated event is committed as.
abbrev pub committed :
    MemorySnapshot
    → Unpacked
    → List AnalyzerExecution
    → StageEvent
    → List Finding
    → MethodologyTransition
committed s u xs e fs = record {
  stage_event = e;
  executions = xs;
  findings = fs;
  projection = projection_of (suc s.as_of_sequence) (findings_of s) (u.0 ++ e ∷ [], u.1 ++ xs);
}

-- What a successful transition returns.
pub record IsTransition (s : MemorySnapshot) (u : Unpacked) (a : Action) (k : ApplyArgs)
    (t : MethodologyTransition) : Type 0 where
  pub drafted : draft_event s (length u.0) a k ≡ ok (t.stage_event, t.findings)
  pub kept : t.executions ≡ k.executions
  pub valid : required_fields t.stage_event ≡ ok t.stage_event
  pub projected :
      t.projection
      ≡ projection_of
          (suc s.as_of_sequence)
          (findings_of s)
          (u.0 ++ t.stage_event ∷ [], u.1 ++ k.executions)

module _ (s : MemorySnapshot) (u : Unpacked) (good : reject_bad_snapshot s ≡ ok tt)
    (opened : unpack s ≡ ok u) where
  -- The projection of the imagined snapshot.
  pub commit_event_lem :
      (xs : List AnalyzerExecution) (e : StageEvent) (fs : List Finding)
      → required_fields e ≡ ok e
      → commit_event s xs e fs ≡ ok (committed s u xs e fs)
  unfolding commit_event project
  commit_event_lem xs e fs v =
      rw (reject_bad_snapshot-imagine s e xs good, unpack-imagine s e xs opened v)
        (rw (
          findings_of-imagine,
          as_of_sequence-imagine s e xs,
          relabel-projection_of e _ _ (u.0, u.1 ++ xs),
        ))

  pub apply_lem :
      (a : Action) (k : ApplyArgs)
      → apply s a k ≡ (
          draft_event s (length u.0) a k >>= λ drafted.
          required_fields drafted.0 >>= λ e. commit_event s k.executions e drafted.1)
  unfolding apply
  apply_lem a k = rw (good, opened) refl

  -- A draft that validates is committed.
  pub apply-committed :
      (a : Action) (k : ApplyArgs) {e : StageEvent} {fs : List Finding}
      → draft_event s (length u.0) a k ≡ ok (e, fs)
      → required_fields e ≡ ok e
      → apply s a k ≡ ok (committed s u k.executions e fs)
  apply-committed a k {e} {fs} d v =
      apply_lem a k ∙ rw (d, v) (commit_event_lem k.executions e fs v)

  pub apply-IsTransition :
      (a : Action) (k : ApplyArgs) (t : MethodologyTransition)
      → apply s a k ≡ ok t
      → IsTransition s u a k t
  apply-IsTransition a k t h = go (draft_event s (length u.0) a k) refl (sym (apply_lem a k) ∙ h)
    where
      checked :
          (e : StageEvent) (fs : List Finding) (r : Result Fault StageEvent)
          → draft_event s (length u.0) a k ≡ ok (e, fs)
          → required_fields e ≡ r
          → (r >>= λ e'. commit_event s k.executions e' fs) ≡ ok t
          → IsTransition s u a k t
      checked e fs (raise x) d v q = cc
      checked e fs (ok e') d v q =
          let same = required_fields-eq e v in
          let v' = rw same at v in
          let q' = rw same at q in
          subst (IsTransition s u a k)
            (ok-injective (sym (commit_event_lem k.executions e fs v') ∙ q'))
            (record { drafted = d; kept = refl; valid = v'; projected = refl })

      go :
          (r : Result Fault (StageEvent × List Finding))
          → draft_event s (length u.0) a k ≡ r
          → (r >>= λ drafted.
              required_fields drafted.0 >>= λ e. commit_event s k.executions e drafted.1)
            ≡ ok t
          → IsTransition s u a k t
      go (raise x) d q = cc
      go (ok (e, fs)) d q = checked e fs (required_fields e) d refl q

last_decision-append :
    (t : String) (es : List StageEvent) (e : StageEvent)
    → last_decision t (es ++ e ∷ []) ≡ or_else (decision t e) (last_decision t es)
last_decision-append t [] e = ground arith
last_decision-append t (x ∷ es) e = ground (arith, last_decision-append t es e)

first_discovery-append :
    (t : String) (es : List StageEvent) (e : StageEvent)
    → first_discovery t (es ++ e ∷ []) ≡ or_else (first_discovery t es) (discovery t e)
first_discovery-append t [] e = ground arith
first_discovery-append t (x ∷ es) e = ground (arith, first_discovery-append t es e)

-- One more event: it decides about its target, or it discovers what has no row yet.
pub rows-append :
    (t : String) (es : List StageEvent) (e : StageEvent)
    → row_of t (rows (es ++ e ∷ []))
      ≡ or_else (decision t e) (or_else (row_of t (rows es)) (discovery t e))
rows-append t es e = ground (
  arith,
  row_of-rows t (es ++ e ∷ []),
  row_of-rows t es,
  last_decision-append t es e,
  first_discovery-append t es e,
)

-- `unpack` of a snapshot that `apply` accepts.
apply-opened :
    (s : MemorySnapshot) (a : Action) (k : ApplyArgs) {t : MethodologyTransition}
    → apply s a k ≡ ok t
    → (u : Unpacked) × (reject_bad_snapshot s ≡ ok tt) × (unpack s ≡ ok u)
unfolding apply
apply-opened s a k {t} h = go (reject_bad_snapshot s) (unpack s) refl refl h
  where
    go :
        (r : Result Fault (Unit {0})) (v : Result Fault Unpacked)
        → reject_bad_snapshot s ≡ r
        → unpack s ≡ v
        → (r >>= λ _. v >>= λ unpacked. draft_event s (length unpacked.0) a k >>= λ drafted.
            required_fields drafted.0 >>= λ e. commit_event s k.executions e drafted.1)
          ≡ ok t
        → (u : Unpacked) × (reject_bad_snapshot s ≡ ok tt) × (unpack s ≡ ok u)
    go (raise x) v p q h = cc
    go (ok _) (raise x) p q h = cc
    go (ok _) (ok u) p q h = (u, p, q)

-- If a transition succeeds and its snapshot projects, the roadmap changes by the event alone: the row
-- of a target is the one that the event decides for it, else the row before the transition, else
-- the pending row of the discovery.
pub row_of-apply :
    (s : MemorySnapshot) (a : Action) (k : ApplyArgs) (t : MethodologyTransition)
    (p : RoadmapProjection) (target : String)
    → apply s a k ≡ ok t
    → project s ≡ ok p
    → row_of target t.projection.targets
      ≡ or_else
          (decision target t.stage_event)
          (or_else (row_of target p.targets) (discovery target t.stage_event))
unfolding project projection_of
row_of-apply s a k t p target h hp =
    let (u, good, opened) = apply-opened s a k h in
    let tr = apply-IsTransition s u good opened a k t h in
    let before : projection_of s.as_of_sequence (findings_of s) u ≡ p =
      ok-injective (rw (good, opened) at hp) in
    rw (tr.projected, ← before) (rows-append target u.0 t.stage_event)
