-- ===== src/Methodology/Service/Effects.antt =====
-- The effect of each kind of action, its errors included.
use araratsec_agent.Prelude.{
  ◌≡◌, ◌≢◌, ◌∙◌, refl, String, true, false, Option, none, some, List, any, length, ltb, arith,
  eq_iff,
}
use araratsec_agent.Prelude.Texts.{strip}
use araratsec_agent.Prelude.Result.{ok, raise}
use araratsec_agent.Finding.{Finding}
use araratsec_agent.Methodology.Models.{
  snapshot_rejected, invalid_event, StageEvent, RoadmapRow, RoadmapState, MethodologyTransition,
  MemorySnapshot, required_fields, is_blank,
}
use araratsec_agent.Methodology.Roadmap.Latest.{row_of, decision}
use araratsec_agent.Methodology.Service.{
  reject_bad_snapshot, Unpacked, unpack, project, projection_of, draft_event, check_event,
  skip_event, apply, Action, ActionType, ApplyArgs, or_empty, or_text, is_grounded,
}
use araratsec_agent.Methodology.Service.Apply.{committed, apply_lem, commit_event_lem, rows-append}

abbrev pub analysed_row : String → RoadmapRow
analysed_row t = record {
  target = t;
  state = RoadmapState.analysed;
  reason = none;
  chunk_id = none;
}

abbrev pub skipped_row : String → String → RoadmapRow
skipped_row t why = record {
  target = t;
  state = RoadmapState.skipped;
  reason = some why;
  chunk_id = none;
}

-- A snapshot with an item above its watermark is refused by `project`, `apply` and `is_grounded`,
-- whatever the arguments.
future_watermark_refused :
    (s : MemorySnapshot) (a : Action) (k : ApplyArgs) (fid : String) (target digest : Option String)
    → any (λ item. ltb s.as_of_sequence item.log_sequence) s.items ≡ true
    → (project s ≡ raise snapshot_rejected)
      × (apply s a k ≡ raise snapshot_rejected)
      × (is_grounded s fid target digest ≡ raise snapshot_rejected)
unfolding project apply is_grounded reject_bad_snapshot
future_watermark_refused s a k fid target digest h = (rw h refl, rw h refl, rw h refl)

module _ (s : MemorySnapshot) (u : Unpacked) (good : reject_bad_snapshot s ≡ ok tt)
    (opened : unpack s ≡ ok u) where
  -- A draft that validates is committed.
  commits :
      (a : Action) (k : ApplyArgs) (e : StageEvent) (fs : List Finding)
      → draft_event s (length u.0) a k ≡ ok (e, fs)
      → required_fields e ≡ ok e
      → apply s a k ≡ ok (committed s u k.executions e fs)
  commits a k e fs d v =
      apply_lem s u good opened a k
      ∙ rw (d, v) (commit_event_lem s u good opened k.executions e fs v)

  -- The row of a target after an event that decides about it.
  decided :
      (e : StageEvent) (fs : List Finding) (k : ApplyArgs) (target : String) (row : RoadmapRow)
      → decision target e ≡ some row
      → row_of target (committed s u k.executions e fs).projection.targets ≡ some row
  unfolding projection_of
  decided e fs k target row d = rows-append target u.0 e ∙ rw d

  -- On a snapshot that is not refused and unpacks, a check of a target that is named succeeds, and
  -- leaves the target analysed.
  pub check_marks_analysed :
      (a : Action) (k : ApplyArgs) (target : String)
      → a.action_type ≡ ActionType.run_check
      → a.param_target ≡ some target
      → target ≢ ""
      → (t : MethodologyTransition) × (apply s a k ≡ ok t)
        × (row_of target t.projection.targets ≡ some (analysed_row target))
  check_marks_analysed a k target is_check named full =
      let e = check_event s (length u.0) a k in
      (
        committed s u k.executions e k.extra_findings,
        commits a k e k.extra_findings (unfold draft_event in ground arith)
            (unfold required_fields in ground (arith, eq_iff target "")),
        decided e k.extra_findings k target (analysed_row target)
            (ground (arith, eq_iff target "", eq_iff target target)),
      )

  -- On a snapshot that is not refused and unpacks, a skip of a target that is named is refused if
  -- its reason is blank, and otherwise succeeds and leaves the target skipped with the stripped
  -- reason.
  pub skip_needs_reason :
      (a : Action) (k : ApplyArgs) (target : String)
      → a.action_type ≡ ActionType.skip_target
      → a.param_target ≡ some target
      → target ≢ ""
      → let why = strip (or_empty (or_text a.param_reason k.reason)) in
        (is_blank (some why) ≡ true → apply s a k ≡ raise invalid_event)
        × (is_blank (some why) ≡ false
            → (t : MethodologyTransition) × (apply s a k ≡ ok t)
              × (row_of target t.projection.targets ≡ some (skipped_row target why)))
  skip_needs_reason a k target is_skip named full =
      let e = skip_event s (length u.0) a k in
      let d : draft_event s (length u.0) a k ≡ ok (e, k.extra_findings) =
        unfold draft_event in ground arith in
      (
        λ blank.
            apply_lem s u good opened a k
            ∙ rw d (unfold required_fields in ground (arith, eq_iff target "")),
        λ told. (
          committed s u k.executions e k.extra_findings,
          commits a k e k.extra_findings d
              (unfold required_fields in ground (arith, eq_iff target "")),
          decided e k.extra_findings k target _
              (ground (arith, eq_iff target "", eq_iff target target)),
        ),
      )
