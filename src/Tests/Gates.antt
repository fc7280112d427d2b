-- ===== src/Tests/Gates.antt =====
-- The examples of the approval gate, the actions, the relay and stage 2.
use araratsec_agent.Prelude.{
  ◌⊎◌, ◌≡◌, ◌≢◌, ◌↔◌, refl, String, Bool, true, Option, none, some, List, [], ◌∷◌, All,
}
use araratsec_agent.Prelude.Texts.{contains, decimal}
use araratsec_agent.Prelude.Dict.{lookup, insert, erase}
use araratsec_agent.Prelude.Result.{ok, raise}
use araratsec_agent.Finding.{Finding, Severity, FindingStatus}
use araratsec_agent.Approval.{
  Kernel, GateState, needs_token, issue_token, is_valid_token, resolve, decide, load_notice,
}
use araratsec_agent.Approval.Gate.{
  Call, fetch, Fetched, run, approve_needs_fetch, decide_once, KernelRaised, decide_fails_safe,
}
use araratsec_agent.Actions.{Params, Paths, text, skip_target, validate_params}
use araratsec_agent.Actions.Checks.{Acceptable, validate_params-accepts_iff}
use araratsec_agent.Relay.{Adapter, adapt_findings, ingest_response, add_all, relay_finding}
use araratsec_agent.Relay.Adapted.{Cleaned, ingest_response-Cleaned}
use araratsec_agent.Stage2.{
  Requester, Stage2Result, done, emit, targets_of, run_stage2, ingest, emit_one,
}
use araratsec_agent.Stage2.Progress.{run_stage2-again}

-- A kernel without a store of its own, that resolves every request.
abbrev agreeable : Kernel
agreeable = record {
  Store = List String;
  Status = Bool;
  load_request =
      λ cid store. ok (record { action_type = some "write_poc"; params = "{}"; status = none });
  resolve_confirmation = λ cid approve store. (ok approve, cid ∷ store);
}

abbrev one_fetch : List Call
one_fetch = fetch "c1" "token" ∷ []

abbrev blank : GateState agreeable
blank = record { tokens = []; store = [] }

abbrev reviewed : GateState agreeable
reviewed = record { tokens = ("c1", "token") ∷ []; store = [] }

approved :
    (decide agreeable "c1" (some "token") "approve" (run agreeable one_fetch blank)).0 ≡ ok true
unfolding decide run load_notice issue_token is_valid_token resolve lookup insert erase
approved = refl

approve_needs_fetch_example :
    (t : String) × (some "token" ≡ some t) × (t ≢ "") × Fetched "c1" t one_fetch
approve_needs_fetch_example =
    approve_needs_fetch agreeable one_fetch [] "c1" (some "token") true approved

reviewed_approved : (decide agreeable "c1" (some "token") "approve" reviewed).0 ≡ ok true
unfolding decide is_valid_token resolve lookup erase
reviewed_approved = refl

decide_once_example :
    (decide agreeable "c1"
      (some "token")
      "approve"
      (decide agreeable "c1" (some "token") "approve" reviewed).1).0
    ≡ raise needs_token
decide_once_example =
    decide_once agreeable "c1" (some "token") (some "token") "approve" reviewed true
      reviewed_approved

bare_click : (decide agreeable "c1" none "approve" reviewed).0 ≡ raise needs_token
unfolding decide is_valid_token resolve lookup erase
bare_click = refl

decide_fails_safe_example :
    ((decide agreeable "c1" none "approve" reviewed).1.tokens ≡ reviewed.tokens)
    × (((decide agreeable "c1" none "approve" reviewed).1.store ≡ reviewed.store)
        ⊎ KernelRaised agreeable "c1" reviewed.store needs_token
            (decide agreeable "c1" none "approve" reviewed).1.store)
decide_fails_safe_example =
    decide_fails_safe agreeable "c1" none "approve" reviewed needs_token bare_click

abbrev posix_paths : Paths
posix_paths = record {
  Root = String;
  check_filepath = λ value root. elim value [ none ↦ some "missing" | some v ↦ none ];
  is_absolute = λ p. contains p ("/etc/passwd" ∷ []);
  under = λ root p. p;
  int_of_text = λ s. none;
}

abbrev skip_params : Params
skip_params = record {
  target = some (text "Vault.sol:withdraw");
  address = none;
  max_blocks = none;
  reason = some (text "mock");
  finding_id = none;
  network = none;
}

validate_params-accepts_iff_example :
    (validate_params posix_paths skip_target skip_params "/scope" ≡ ok none)
    ↔ Acceptable posix_paths skip_target skip_params "/scope"
validate_params-accepts_iff_example =
    validate_params-accepts_iff posix_paths skip_target skip_params "/scope"

abbrev leak : Finding
leak = record {
  finding_id = "F-1";
  location = "Vault.sol:withdraw";
  function_name = "withdraw";
  bastet_tag = none;
  severity = Severity.high;
  status = FindingStatus.opened;
  preconditions = [];
  mitigations_present = [];
  poc_path = none;
  poc_status = none;
  combined_with = [];
}

-- An adapter whose responses hold two raw findings, of which the one without an id is refused.
abbrev plain : Adapter
plain = record {
  Value = String;
  text_or_empty = λ v. elim v [ none ↦ "" | some s ↦ s ];
  extract_findings =
      λ response. ok ((("finding_id", "F-1") ∷ ("status_change", "verified") ∷ []) ∷ [] ∷ []);
  make_finding = λ raw. elim raw [ [] ↦ raise "no id" | e ∷ es ↦ ok leak ];
  sanitize = λ s. (s, []);
}

ingest_response-Cleaned_example :
    All (Cleaned plain) (ingest_response plain "r1" none (some "text")).findings
ingest_response-Cleaned_example = ingest_response-Cleaned plain "r1" none (some "text")

-- Requests are numbered by their targets.
abbrev by_target : Requester String
by_target dir target context = (target, dir)

abbrev context_of : String → String
context_of target = target

abbrev answered : String → String → Option String
answered dir id = some "text"

abbrev one_target : List String
one_target = "Vault.sol" ∷ []

abbrev first_run : Stage2Result
first_run = run_stage2 by_target context_of plain answered one_target "" [] []

finished : first_run.status ≡ done
unfolding run_stage2 emit emit_one ingest ingest_response adapt_findings add_all relay_finding
    lookup erase insert decimal
finished = refl

known : All (λ t. contains t (targets_of first_run.manifest) ≡ true) one_target
unfolding run_stage2 emit emit_one ingest ingest_response adapt_findings add_all relay_finding
    lookup erase insert decimal
known = (refl, tt)

run_stage2-again_example :
    run_stage2 by_target context_of plain answered one_target "" first_run.manifest
      first_run.finding_ids
    ≡ record {
      status = done;
      findings = [];
      pending = [];
      requested = 0;
      ingested = 0;
      finding_ids = first_run.finding_ids;
      manifest = first_run.manifest;
    }
run_stage2-again_example =
    run_stage2-again by_target context_of plain answered one_target one_target "" "" [] [] finished
      known
