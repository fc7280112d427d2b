-- ===== src/Lib.antt =====
-- A model of the audit agent: the pure core that turns reported findings into a roadmap, a
-- synthesis, patches and approved actions.
--
-- The program's parts and how they meet. A session discovers the files of a project in chunks
-- (audit_agent/methodology/cursor.py), asks for the analysis of targets through a relay
-- (audit_agent/planner/stage2.py, audit_agent/relay_ingest.py) and records what happened as events
-- and analyzer executions. The methodology service (audit_agent/methodology/service.py) is a pure
-- reducer: it reads a snapshot of those records, projects a roadmap of targets with grounded
-- findings, and answers an action with the next event and the projection after it; its synthesis
-- is Stage 3 (audit_agent/planner/stage3.py), which corrects severities
-- (audit_agent/guardrails/severity.py) and combines findings whose functions interfere
-- (audit_agent/planner/sig.py). Escalation (audit_agent/escalation.py), the report
-- (audit_agent/report.py), the checks of an action's params (audit_agent/actions.py) and the
-- operator's approval (frontend/backend/confirm.py) stand around it. Behind a finding is a proof
-- of concept: audit_agent/proof/compiled_checkpoint.py remembers its last sound attempt,
-- audit_agent/proof/patch_reconstruct.py turns an illustrative fix into a patch, and
-- scripts/scaffold_taxonomy.py with audit_agent/proof/scaffold_causes.py classifies its failures.
-- The kernel's loop reaches the service through audit_agent/dispatch.py and the table of tools of
-- audit_agent/agent_tool_surface.py: the handlers of audit_agent/methodology/adapters.py rank a chunk
-- (audit_agent/planner/stage1.py), run the analyzers (audit_agent/tools/static_analysis.py) and record
-- transitions, and audit_agent/pipeline.py drives them in a batch, pausing where a response is awaited.
--
-- Where each part is modelled:
--   Prelude      tests, lists, texts, dicts, sorting, integers and results that the parts share
--   Finding      audit_agent/finding.py
--   Severity     audit_agent/guardrails/severity.py
--   MockDetect   audit_agent/guardrails/mock_detect.py
--   Escalation   audit_agent/escalation.py
--   Sig          audit_agent/planner/sig.py: the queries of the graph, the search along the calls
--                (Reach), the building from a SmartGraphical graph (Graph) and from Solidity text
--                (Source)
--   Stage1       audit_agent/planner/stage1.py
--   Stage2       audit_agent/planner/stage2.py
--   Stage3       audit_agent/planner/stage3.py
--   Relay        audit_agent/relay_ingest.py
--   Methodology  audit_agent/methodology/models.py (Models), service.py: `_rows` (Roadmap),
--                `_grounding_map` and the search of `is_grounded` (Grounding), `parity` (Parity),
--                the rest (Service); adapters.py: `_run_analyzers` (Analyzers), the handlers
--                (Adapters)
--   ToolSurface  audit_agent/agent_tool_surface.py: the budget of a rendered result, the table of
--                the tools (Table) and what runs them (Executors)
--   StaticAnalysis, Onchain, WriteExecute
--                audit_agent/tools/static_analysis.py, onchain.py and write_execute.py
--   Dispatch     audit_agent/dispatch.py
--   Pipeline     audit_agent/pipeline.py
--   Cursor       audit_agent/methodology/cursor.py
--   Checkpoint   audit_agent/proof/compiled_checkpoint.py
--   Patch        audit_agent/proof/patch_reconstruct.py; its parser is Patch/Parse, the loop over
--                files and the printed form Patch/Files
--   ProofPrompts audit_agent/proof/observed_fork_grounding.py and anti_mock_grounding.py
--   Approval     frontend/backend/confirm.py
--   Actions      audit_agent/actions.py
--   Report       audit_agent/report.py
--   Taxonomy     audit_agent/proof/scaffold_causes.py and scripts/scaffold_taxonomy.py
--   Tests        concrete runs
-- A child module of a part holds the part's lemmas and is named for what they are about.
--
-- How state is modelled. The service keeps no state, so a method is a function of the snapshot. The
-- approval gate passes its token table and the kernel's store explicitly. Stage 3 changes shared
-- finding objects in place: its list is a store, an object is its place in it, and `a is b` is
-- equality of places. The manifest of stage 2 is passed in and returned. A Python exception is the
-- `raise` of a result.
--
-- The handlers of the kernel's dispatch return values: a result carries the payloads that the kernel
-- is to write, and a run of the pipeline carries the memory that the kernel's executor leaves.
--
-- Bounds. Numbers are natural numbers, as in Python without a width; differences that may be
-- negative are integers. The slices of a chunking are cut with as much fuel as the listing is
-- long, and each slice takes at least one path; the digits of n are printed with n + 1 steps.
-- The search along the calls of the interference graph runs on fuel, one round for each name that
-- is on the stack or among the callees of some function.
-- Every other loop is recursion on its list.
--
-- Parameters, since their code is not in the repository: the digest of a chunk, the kernel's
-- confirmation store, its requests and extraction of findings, its path check and its sanitizer, its
-- file tools, its executor, memory and commits, the sandbox, the decoding of JSON, the file system,
-- and the validation of a raw finding by pydantic. What is decoded from an analyzer's JSON may have
-- another type than expected wherever the code reads into it; the fields that the code only passes
-- on are texts or missing.
--
-- Not modelled: logging, the texts of errors that only a reader sees, files and processes, the
-- calls of language models, the tools on Solidity text behind a proof of concept, the queue of proofs
-- of concept, the command line and the user interface.
pub mod Prelude
pub mod Finding
pub mod Severity
pub mod Escalation
pub mod Sig
pub mod Stage3
pub mod Methodology
pub mod Cursor
pub mod Checkpoint
pub mod Patch
pub mod Approval
pub mod Taxonomy
pub mod Report
pub mod Actions
pub mod Relay
pub mod StaticAnalysis
pub mod Stage2
pub mod Onchain
pub mod WriteExecute
pub mod Dispatch
pub mod Pipeline
pub mod ProofPrompts
pub mod Stage1
pub mod ToolSurface
pub mod Tests
pub mod MockDetect
