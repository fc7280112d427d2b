-- ===== src/Methodology/Analyzers/Outcomes.antt =====
-- What a run of the analyzers records.
use mathlib.Core.List.{append-nil, map-append}
use araratsec_agent.Prelude.{
  String, ◌≡◌, ◌∙◌, refl, ap, sym, ◌↔◌, Bool, true, false, List, [], ◌∷◌, ◌++◌, map, Bool-cases,
  inl, inr, if◌then◌else◌,
}
use araratsec_agent.Prelude.Dict.{lookup}
use araratsec_agent.Prelude.Result.{Result, ok, raise, ◌>>=◌}
use araratsec_agent.Finding.{Finding}
use araratsec_agent.Methodology.Models.{AnalyzerExecution, AnalyzerOutcome, StageOutcome}
use araratsec_agent.StaticAnalysis.{Raised, caught, crashed, MythrilFinding}
use araratsec_agent.StaticAnalysis.Formed.{
  IsReport, IsAnalysis, NotCrashed, Prints, run_slither-NotCrashed, run_mythril-NotCrashed,
}
use araratsec_agent.StaticAnalysis.Slither.{SlitherFinding}
use araratsec_agent.StaticAnalysis.Converted.{slither_to_findings_total}
use araratsec_agent.ToolSurface.Table.{agent_tool_surface}
use araratsec_agent.Methodology.Analyzers.{
  Machine, Analyzer, slither, mythril, analyzer_id, runners, RunFault, Attempt, Analyzed, worse,
  mythril_attempt, slither_attempt, attempt, analyze_one, analyze_all, run_analyzers, refused,
  attempted, slither_ran, missing,
}

worse-ran_iff :
    (s : StageOutcome) (o : AnalyzerOutcome)
    → (worse s o ≡ StageOutcome.ran) ↔ ((s ≡ StageOutcome.ran) × (o ≡ AnalyzerOutcome.ran))
worse-ran_iff StageOutcome.ran AnalyzerOutcome.ran = (λ h. (refl, refl), λ h. refl)
worse-ran_iff StageOutcome.ran AnalyzerOutcome.did_not_run = (λ h. cc, λ h. cc)
worse-ran_iff StageOutcome.ran AnalyzerOutcome.timeout = (λ h. cc, λ h. cc)
worse-ran_iff StageOutcome.did_not_run o = (λ h. cc, λ h. cc)
worse-ran_iff StageOutcome.timeout o = (λ h. cc, λ h. cc)
worse-ran_iff StageOutcome.skipped o = (λ h. cc, λ h. cc)
worse-ran_iff StageOutcome.empty o = (λ h. cc, λ h. cc)

-- What one analyzer adds to what the loop has gathered.
record Added (a : Analyzer) (file_rel digest : String) (acc acc' : Analyzed) : Type 0 where
  execution : AnalyzerExecution
  converted : List Finding
  executions_eq : acc'.executions ≡ acc.executions ++ execution ∷ []
  findings_eq : acc'.findings ≡ acc.findings ++ converted
  ids : execution.finding_ids ≡ map (λ f. f.finding_id) converted
  named : execution.analyzer_id ≡ analyzer_id a
  about : (execution.target ≡ file_rel) × (execution.target_digest ≡ digest)
  outcome :
      (acc'.worst ≡ StageOutcome.ran)
      ↔ ((acc.worst ≡ StageOutcome.ran) × (execution.analyzer_outcome ≡ AnalyzerOutcome.ran))

-- The ladder of one run, with its tests as variables.
ladder-run :
    (x y : Result RunFault Analyzed) (f : Attempt → Analyzed) {m b : Bool}
    {r : Result RunFault Attempt} {t : Attempt}
    → m ≡ false
    → b ≡ true
    → r ≡ ok t
    → (if m then x else if b then (r >>= λ t'. ok (f t')) else y) ≡ ok (f t)
ladder-run x y f e e' h = rw (e, e', h) refl

ladder-refused :
    (x y z : Result RunFault Analyzed) {m b : Bool}
    → m ≡ false
    → b ≡ false
    → (if m then x else if b then z else y) ≡ y
ladder-refused x y z e e' = rw (e, e') refl

-- The table has an executor for both analyzers.
missing-analyzer_id : (a : Analyzer) → missing (lookup (analyzer_id a) agent_tool_surface) ≡ false
unfolding lookup
missing-analyzer_id slither = refl
missing-analyzer_id mythril = refl

-- What the loop starts with.
abbrev none_yet : Analyzed
none_yet = record { executions = []; findings = []; worst = StageOutcome.ran }

module _ (machine : Machine) where
  slither_attempt-ok :
      (file_rel : String) (r : Result Raised (List SlitherFinding))
      → NotCrashed r
      → (t : Attempt) × (slither_attempt machine file_rel r ≡ ok t)
  unfolding slither_attempt
  slither_attempt-ok file_rel (raise crashed) n = absurd n
  slither_attempt-ok file_rel (raise (caught e)) n = (_, refl)
  slither_attempt-ok file_rel (ok raw) n =
      let (fs, e, c) = slither_to_findings_total raw file_rel in
      (slither_ran machine raw fs, rw e refl)

  mythril_attempt-ok :
      (r : Result Raised (List MythrilFinding))
      → NotCrashed r
      → (t : Attempt) × (mythril_attempt machine r ≡ ok t)
  unfolding mythril_attempt
  mythril_attempt-ok (raise crashed) n = absurd n
  mythril_attempt-ok (raise (caught e)) n = (_, refl)
  mythril_attempt-ok (ok raw) n = (_, refl)

  -- Both analyzers print what has the form of their reports, if it is JSON at all.
  abbrev pub PrintsReports : Type 0
  PrintsReports =
      Prints machine.run "slither-sandbox" machine.decode_slither IsReport
      × Prints machine.run "mythril-sandbox" machine.decode_mythril IsAnalysis

  -- Both analyzers leave an execution about the checked file.
  pub record Covers (file_rel : String) (r : Analyzed) : Type 0 where
    pub slither_run : AnalyzerExecution
    pub mythril_run : AnalyzerExecution
    pub executions_eq : r.executions ≡ slither_run ∷ mythril_run ∷ []
    pub named :
        (slither_run.analyzer_id ≡ "run_slither") × (mythril_run.analyzer_id ≡ "run_mythril")
    pub about : (slither_run.target ≡ file_rel) × (mythril_run.target ≡ file_rel)
    pub same_digest : slither_run.target_digest ≡ mythril_run.target_digest
    pub reported :
        map (λ f. f.finding_id) r.findings ≡ slither_run.finding_ids ++ mythril_run.finding_ids
    pub outcome : (r.worst ≡ StageOutcome.ran) ↔ (
        (slither_run.analyzer_outcome ≡ AnalyzerOutcome.ran)
        × (mythril_run.analyzer_outcome ≡ AnalyzerOutcome.ran))

module _ (machine : Machine) (prints : PrintsReports machine) where
  attempt-ok :
      (a : Analyzer) (file_rel target : String)
      → (t : Attempt) × (attempt machine a file_rel target ≡ ok t)
  unfolding attempt
  attempt-ok slither file_rel target = slither_attempt-ok machine file_rel _ (
      run_slither-NotCrashed machine.run (machine.relative_to_root target) machine.scope_root target
        machine.decode_slither prints.0)
  attempt-ok mythril file_rel target = mythril_attempt-ok machine _ (
      run_mythril-NotCrashed machine.run (machine.relative_to_root target) machine.scope_root target
        machine.decode_mythril prints.1)

  analyze_one-ok :
      (file_rel target digest : String) (a : Analyzer) (acc : Analyzed)
      → (acc' : Analyzed) × (analyze_one machine file_rel target digest a acc ≡ ok acc')
        × Added a file_rel digest acc acc'
  unfolding analyze_one
  analyze_one-ok file_rel target digest a acc = elim (Bool-cases machine.sandbox_has_run) [
    | inl e ↦
        (let (t, e') = attempt-ok a file_rel target in
          (
            attempted machine a file_rel digest t acc,
            ladder-run _ _ (λ t'. attempted machine a file_rel digest t' acc)
                (missing-analyzer_id a) e e',
            record {
              execution = _;
              converted = t.converted;
              executions_eq = refl;
              findings_eq = refl;
              ids = refl;
              named = refl;
              about = (refl, refl);
              outcome = worse-ran_iff acc.worst t.outcome;
            },
          ))
    | inr e ↦ (
      refused machine a file_rel digest "sandbox has no run()" acc,
      ladder-refused _ _ _ (missing-analyzer_id a) e,
      record {
        execution = _;
        converted = [];
        executions_eq = refl;
        findings_eq = sym (append-nil acc.findings);
        ids = refl;
        named = refl;
        about = (refl, refl);
        outcome = (λ h. cc, λ h. cc);
      },
    )
  ]

  analyze_all-Covers :
      (file_rel target digest : String)
      → (r : Analyzed) × (analyze_all machine file_rel target digest runners none_yet ≡ ok r)
        × Covers machine file_rel r
  unfolding analyze_all
  analyze_all-Covers file_rel target digest =
      let (r1, e1, h1) = analyze_one-ok file_rel target digest slither none_yet in
      let (r2, e2, h2) = analyze_one-ok file_rel target digest mythril r1 in
      (
        r2,
        rw (e1, e2) refl,
        record {
          slither_run = h1.execution;
          mythril_run = h2.execution;
          executions_eq = h2.executions_eq ∙ ap (λ xs. xs ++ h2.execution ∷ []) h1.executions_eq;
          named = (h1.named, h2.named);
          about = (h1.about.0, h2.about.0);
          same_digest = h1.about.1 ∙ sym h2.about.1;
          reported =
              rw (h2.findings_eq, h1.findings_eq, h1.ids, h2.ids)
                (map-append _ h1.converted h2.converted);
          outcome = (
            λ h. ((h1.outcome.0 (h2.outcome.0 h).0).1, (h2.outcome.0 h).1),
            λ h. h2.outcome.1 (h1.outcome.1 (refl, h.0), h.1),
          );
        },
      )

  -- Where what either analyzer prints is no JSON or a report of its form, the loop raises nothing.
  -- Slither and Mythril each leave one execution, in this order, about the checked file and the same
  -- digest of it; the executions list exactly the findings that are returned; and the outcome is `ran`
  -- exactly when both ran.
  pub run_analyzers_total :
      (file_rel : String)
      → (r : Analyzed) × (run_analyzers machine file_rel ≡ ok r) × Covers machine file_rel r
  unfolding run_analyzers
  run_analyzers_total file_rel = analyze_all-Covers file_rel _ _
