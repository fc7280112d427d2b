-- ===== src/Pipeline/Stages.antt =====
-- The order of the stages, and where a run pauses.
use araratsec_agent.Prelude.{◌≡◌, String, true, false, none, some, List, [], ◌∷◌, ◌++◌, map, length}
use araratsec_agent.Prelude.Result.{Result, ok}
use araratsec_agent.Methodology.Models.{RoadmapProjection}
use araratsec_agent.Methodology.Service.{Action, project}
use araratsec_agent.Pipeline.{
  Kernel, paused, done, PipelineResult, check, synthesis, Checked, report_on, waits,
}

module _ {M : Type 0} (kernel : Kernel M) where
  -- The memory after the kernel has executed the actions, in their order.
  abbrev pub run_all : List Action → M → M
  run_all [] m = m
  run_all (a ∷ more) m = run_all more (kernel.execute m a).1

  -- None of the checks waits, where each runs on the memory that those before it left.
  abbrev pub NoneWaits : List String → M → Type 0
  NoneWaits [] m = Unit
  NoneWaits (target ∷ targets) m =
      let (r, m') = kernel.execute m (check target) in (waits r ≡ false) × NoneWaits targets m'

  -- The check of the target waits, behind those of the targets before it.
  abbrev pub WaitsAt : List String → String → M → Type 0
  WaitsAt [] target m = waits (kernel.execute m (check target)).0 ≡ true
  WaitsAt (t ∷ before) target m = WaitsAt before target (kernel.execute m (check t)).1

  -- All targets were checked.
  record IsFinished (targets : List String) (m : M) (c : Checked M) : Type 0 where
    stopped_eq : c.stopped ≡ none
    none_waits : NoneWaits targets m
    memory_eq : c.memory ≡ run_all (map check targets) m

  -- The loop stopped at one of them, with those before it checked, and none behind it.
  record IsStopped (targets : List String) (m : M) (c : Checked M) : Type 0 where
    target : String
    before : List String
    behind : List String
    stopped_eq : c.stopped ≡ some target
    targets_eq : targets ≡ before ++ target ∷ behind
    none_waits : NoneWaits before m
    waits_at : WaitsAt before target m
    memory_eq : c.memory ≡ run_all (map check (before ++ target ∷ [])) m

  -- The kernel checked every target in their order, no check waited, and then it made the synthesis;
  -- the report and the number of findings are those of the memory that this left.
  pub record IsDone (targets : List String) (m : M) (r : PipelineResult M) : Type 0 where
    memory_eq : r.memory ≡ run_all (map check targets ++ synthesis ∷ []) m
    none_waits : NoneWaits targets m
    projection : RoadmapProjection
    projected : project (kernel.snapshot r.memory) ≡ ok projection
    status_eq : r.status ≡ done (report_on kernel projection) (length projection.findings)

  -- The check of one target waits: the kernel checked those before it, which did not wait, and that
  -- one, and did nothing else.
  pub record IsPaused (targets : List String) (m : M) (r : PipelineResult M) : Type 0 where
    target : String
    before : List String
    behind : List String
    status_eq : r.status ≡ paused target
    targets_eq : targets ≡ before ++ target ∷ behind
    none_waits : NoneWaits before m
    waits_at : WaitsAt before target m
    memory_eq : r.memory ≡ run_all (map check (before ++ target ∷ [])) m
