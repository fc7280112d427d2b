-- ===== src/Methodology/Adapters/Checks.antt =====
-- The three ways a check ends: a gap, a wait for a response, or an execution of each analyzer.
use araratsec_agent.Prelude.{
  ℕ, ◌≡◌, refl, ap, ◌↔◌, String, Bool, true, false, none, some, [], ◌∷◌, length, if◌then◌else◌,
  arith,
}
use araratsec_agent.Prelude.Texts.{is_empty, strip}
use araratsec_agent.Prelude.Result.{ok}
use araratsec_agent.Methodology.Models.{
  TransitionType, StageOutcome, AnalyzerOutcome, StageEvent, AnalyzerExecution,
  MethodologyTransition, stage_event, analyzer_execution, MemorySnapshot, required_fields,
}
use araratsec_agent.Methodology.Service.{
  Action, ActionType, ApplyArgs, apply, or_empty, gap_event, check_event, reject_bad_snapshot,
  Unpacked, unpack, draft_event,
}
use araratsec_agent.Methodology.Service.Apply.{apply-committed, committed}
use araratsec_agent.Methodology.Analyzers.{Analyzed}
use araratsec_agent.Methodology.Analyzers.Outcomes.{Covers, PrintsReports, run_analyzers_total}
use araratsec_agent.Methodology.Adapters.{
  Env, DispatchStatus, DispatchResult, applied, result_from_transition, file_of, outside_include,
  gap_action, gap_args, gap, awaited, run_check, check_analyzed, no_args, pending_from_transition,
}

required_fields-gap_event :
    (s : MemorySnapshot) (n : ℕ) (rel : String)
    → is_empty rel ≡ false
    → required_fields (gap_event s n (gap_action rel) (gap_args rel))
      ≡ ok (gap_event s n (gap_action rel) (gap_args rel))
unfolding required_fields strip
required_fields-gap_event s n rel h = ground arith

required_fields-check_event :
    (s : MemorySnapshot) (n : ℕ) (a : Action) (k : ApplyArgs)
    → is_empty (or_empty a.param_target) ≡ false
    → required_fields (check_event s n a k) ≡ ok (check_event s n a k)
unfolding required_fields
required_fields-check_event s n a k h = rw h refl

draft_event-check :
    (s : MemorySnapshot) (n : ℕ) (a : Action) (k : ApplyArgs)
    → a.action_type ≡ ActionType.run_check
    → draft_event s n a k ≡ ok (check_event s n a k, k.extra_findings)
unfolding draft_event
draft_event-check s n a k h = rw h refl

draft_event-gap :
    (s : MemorySnapshot) (n : ℕ) (rel : String)
    → draft_event s n (gap_action rel) (gap_args rel)
      ≡ ok (gap_event s n (gap_action rel) (gap_args rel), [])
unfolding draft_event
draft_event-gap s n rel = refl

or_text_same : (b : Bool) (rel : String) → or_empty (if b then some rel else some rel) ≡ rel
or_text_same true rel = refl
or_text_same false rel = refl

-- A gap event and nothing else.
pub record IsGap (rel : String) (r : DispatchResult) : Type 0 where
  event : StageEvent
  pub status_eq : r.status ≡ DispatchStatus.ran
  payloads_eq : r.payloads ≡ stage_event event ∷ []
  kind_eq : event.transition_type ≡ TransitionType.gap
  target_eq : event.target ≡ some rel
  outcome_eq : event.outcome ≡ StageOutcome.did_not_run

-- A check event, and an execution of each analyzer about the file of the target.
pub record IsCheck (target : String) (r : DispatchResult) : Type 0 where
  event : StageEvent
  slither_run : AnalyzerExecution
  mythril_run : AnalyzerExecution
  status_eq : r.status ≡ DispatchStatus.ran
  payloads_eq :
      r.payloads
      ≡ stage_event event ∷ analyzer_execution slither_run ∷ analyzer_execution mythril_run ∷ []
  kind_eq : event.transition_type ≡ TransitionType.check
  target_eq : event.target ≡ some target
  named : (slither_run.analyzer_id ≡ "run_slither") × (mythril_run.analyzer_id ≡ "run_mythril")
  about : (slither_run.target ≡ file_of target) × (mythril_run.target ≡ file_of target)
  outcome : (event.outcome ≡ StageOutcome.ran) ↔ (
      (slither_run.analyzer_outcome ≡ AnalyzerOutcome.ran)
      × (mythril_run.analyzer_outcome ≡ AnalyzerOutcome.ran))

-- A wait that records nothing.
pub record IsWaiting (correlation_id : String) (r : DispatchResult) : Type 0 where
  status_eq : r.status ≡ DispatchStatus.pending
  pending_eq : r.pending ≡ some correlation_id
  payloads_eq : r.payloads ≡ []

result-IsGap :
    (env : Env) (t : MethodologyTransition) (rel : String)
    → t.stage_event.transition_type ≡ TransitionType.gap
    → t.stage_event.target ≡ some rel
    → t.stage_event.outcome ≡ StageOutcome.did_not_run
    → t.executions ≡ []
    → IsGap rel (result_from_transition env t)
unfolding result_from_transition
result-IsGap env t rel k l o e = record {
  event = t.stage_event;
  status_eq = refl;
  payloads_eq = rw e refl;
  kind_eq = k;
  target_eq = l;
  outcome_eq = o;
}

result-IsCheck :
    (env : Env) (t : MethodologyTransition) (target : String) (r : Analyzed)
    → Covers env.machine (file_of target) r
    → t.stage_event.transition_type ≡ TransitionType.check
    → t.stage_event.target ≡ some target
    → t.stage_event.outcome ≡ r.worst
    → t.executions ≡ r.executions
    → IsCheck target (result_from_transition env t)
unfolding result_from_transition
result-IsCheck env t target r c k l o e = record {
  event = t.stage_event;
  slither_run = c.slither_run;
  mythril_run = c.mythril_run;
  status_eq = refl;
  payloads_eq = rw (e, c.executions_eq) refl;
  kind_eq = k;
  target_eq = l;
  named = c.named;
  about = c.about;
  outcome = rw o c.outcome;
}

module _ (env : Env) (u : Unpacked) (good : reject_bad_snapshot env.snapshot ≡ ok tt)
    (opened : unpack env.snapshot ≡ ok u) where
  pub applied-ok :
      (a : Action) (k : ApplyArgs) {t : MethodologyTransition}
      → apply env.snapshot a k ≡ ok t
      → applied env a k ≡ ok (result_from_transition env t)
  unfolding applied
  applied-ok a k h = rw h refl

  gap-IsGap :
      (rel : String)
      → is_empty rel ≡ false
      → (r : DispatchResult) × (gap env rel ≡ ok r) × IsGap rel r
  gap-IsGap rel h =
      let n = length u.0 in
      (
        _,
        applied-ok _ _ (
            apply-committed env.snapshot u good opened (gap_action rel) (gap_args rel)
              (draft_event-gap env.snapshot n rel)
              (required_fields-gap_event env.snapshot n rel h)),
        result-IsGap env _ rel refl (ap some (or_text_same _ rel)) refl refl,
      )

  -- On a snapshot that is not refused and unpacks, a check of a target whose file has a name and is
  -- outside of the include set records a gap about that file, and no execution of an analyzer.
  pub run_check-outside :
      (a : Action)
      → is_empty (file_of (or_empty a.param_target)) ≡ false
      → outside_include env (file_of (or_empty a.param_target)) ≡ true
      → (r : DispatchResult) × (run_check env a ≡ ok r)
        × IsGap (file_of (or_empty a.param_target)) r
  unfolding run_check
  run_check-outside a h o = rw o (gap-IsGap (file_of (or_empty a.param_target)) h)

  -- A check inside of the include set whose response is awaited reports the wait, and records nothing.
  pub run_check-IsWaiting :
      (a : Action) (correlation_id : String)
      → a.action_type ≡ ActionType.run_check
      → is_empty (or_empty a.param_target) ≡ false
      → outside_include env (file_of (or_empty a.param_target)) ≡ false
      → awaited env (or_empty a.param_target) ≡ some correlation_id
      → (r : DispatchResult) × (run_check env a ≡ ok r) × IsWaiting correlation_id r
  unfolding run_check pending_from_transition
  run_check-IsWaiting a correlation_id kind h o w =
      let k = record no_args { outcome = some StageOutcome.ran } in
      let n = length u.0 in
      let t = committed env.snapshot u [] (check_event env.snapshot n a k) [] in
      let done =
        apply-committed env.snapshot u good opened a k (draft_event-check env.snapshot n a k kind)
          (required_fields-check_event env.snapshot n a k h) in
      rw (o, w)
        (
          pending_from_transition env t correlation_id,
          rw done refl,
          record { status_eq = refl; pending_eq = refl; payloads_eq = refl },
        )

  check_analyzed-IsCheck :
      (prints : PrintsReports env.machine) (a : Action)
      → a.action_type ≡ ActionType.run_check
      → is_empty (or_empty a.param_target) ≡ false
      → (r : DispatchResult) × (check_analyzed env a (file_of (or_empty a.param_target)) ≡ ok r)
        × IsCheck (or_empty a.param_target) r
  unfolding check_analyzed
  check_analyzed-IsCheck prints a kind h =
      let target = or_empty a.param_target in
      let (r, e, c) = run_analyzers_total env.machine prints (file_of target) in
      let k = record no_args {
        executions = r.executions;
        extra_findings = r.findings;
        outcome = some r.worst;
      } in
      let n = length u.0 in
      let t = committed env.snapshot u r.executions (check_event env.snapshot n a k) r.findings in
      (
        result_from_transition env t,
        rw e (
            applied-ok a k (
              apply-committed env.snapshot u good opened a k
                (draft_event-check env.snapshot n a k kind)
                (required_fields-check_event env.snapshot n a k h))),
        result-IsCheck env t target r c refl refl refl refl,
      )

  -- Let what either analyzer prints be no JSON at all or a report of its form. On a snapshot that is not
  -- refused and unpacks, a check of a named target inside of the include set that waits for nothing
  -- records a check event about its target and one execution each about the file of the target, of
  -- Slither first and then of Mythril; the outcome of the event is `ran` exactly when both analyzers ran.
  pub run_check-analyzed :
      (prints : PrintsReports env.machine) (a : Action)
      → a.action_type ≡ ActionType.run_check
      → is_empty (or_empty a.param_target) ≡ false
      → outside_include env (file_of (or_empty a.param_target)) ≡ false
      → awaited env (or_empty a.param_target) ≡ none
      → (r : DispatchResult) × (run_check env a ≡ ok r) × IsCheck (or_empty a.param_target) r
  unfolding run_check
  run_check-analyzed prints a kind h o w = rw (o, w) (check_analyzed-IsCheck prints a kind h)
