-- ===== src/Tests/Sessions.antt =====
-- The examples of a session's adapters.
use text.Mathlib.Text.{starts_with}
use araratsec_agent.Prelude.{
  suc, List, ◌<◌, ◌≡◌, refl, String, true, false, none, some, [], ◌∷◌, ◌++◌, find_first,
}
use araratsec_agent.Prelude.Texts.{concat, is_empty, strip, decimal}
use araratsec_agent.Prelude.Result.{ok, raise, ok-injective}
use mathlib.Core.Path.{subst}
use araratsec_agent.Relay.{Adapter}
use araratsec_agent.Prelude.Dict.{lookup}
use araratsec_agent.StaticAnalysis.{parsed, other}
use araratsec_agent.StaticAnalysis.Slither.{Detector, Report, run_slither, parse_slither_json}
use araratsec_agent.StaticAnalysis.Formed.{IsReport}
use araratsec_agent.Methodology.Analyzers.Outcomes.{PrintsReports}
use araratsec_agent.Cursor.{
  Chunk, first_uncommitted_chunk, partition_chunks, ordered, chunk_id_for, posix,
}
use araratsec_agent.Prelude.Sort.{sort_by}
use araratsec_agent.Cursor.Progress.{remaining}
use araratsec_agent.Methodology.Models.{MemorySnapshot, Payload, ItemKind, payloads}
use araratsec_agent.Methodology.Service.{
  Action, ActionType, reject_bad_snapshot, Unpacked, unpack, or_empty,
}
use araratsec_agent.Methodology.Analyzers.{
  Machine, RunFault, run_analyzers, analyze_all, analyze_one, attempt, slither_attempt,
  target_digest,
}
use araratsec_agent.Methodology.Adapters.{
  Env, Uncaught, DispatchStatus, DispatchResult, check_analyzed, file_of, outside_include, awaited,
  run_check, run_discovery, included_relpaths, committed_chunk_ids,
}
use araratsec_agent.Methodology.Adapters.Checks.{
  IsGap, IsCheck, run_check-outside, run_check-analyzed,
}
use araratsec_agent.Methodology.Adapters.Discovery.{Appends, chunks, run_discovery-advances}

abbrev one_detector : Detector
one_detector = record {
  check = some "reentrancy-eth";
  impact = some "High";
  confidence = none;
  description = other false;
  elements = parsed [];
}

abbrev one_report : Report
one_report = record { results = parsed (record { detectors = parsed (parsed one_detector ∷ []) }) }

-- A machine with one file, on which Slither reports one reentrancy and Mythril fails.
abbrev pub desk : Machine
desk = record {
  scope_root = "/audit";
  absolute = λ rel. concat ("/audit/" ∷ rel ∷ []);
  exists = λ path. true;
  read_bytes = λ path. some (1 ∷ 2 ∷ []);
  relative_to_root = λ path. some path;
  encode = λ s. [];
  sha256 = λ bs. "digest";
  sandbox_has_run = true;
  run = λ image command. ok (record { stdout = "{}"; stderr = "" });
  decode_slither = λ s. ok (parsed one_report);
  decode_mythril = λ s. raise "no issues";
  show_slither = λ f. f.check;
  show_mythril = λ f. f.title;
}

desk-PrintsReports : PrintsReports desk
desk-PrintsReports = (
  record { formed = λ command out v e h. subst IsReport (ok-injective h) (((tt, refl), tt)) },
  record { formed = λ command out v e h. cc },
)

abbrev silent : Adapter
silent = record {
  Value = String;
  text_or_empty = λ v. "";
  extract_findings = λ response. raise "empty";
  make_finding = λ raw. raise "none";
  sanitize = λ s. (s, []);
}

abbrev pub empty_snapshot : MemorySnapshot
empty_snapshot = record { session_id = "s"; as_of_sequence = 0; measured_bytes = 0; items = [] }

abbrev pub env : Env
env = record {
  machine = desk;
  snapshot = empty_snapshot;
  policy = none;
  walk = ("src/Vault.sol", true) ∷ ("notes.md", true) ∷ [];
  path_is_included = λ rel include. starts_with rel "src/";
  wrap_data = λ content tool path. content;
  chunk_digest = λ revision paths. "c0";
  run_stage1 =
      λ focus. record { priority_targets = "src/Vault.sol:drain" ∷ []; skipped_targets = [] };
  has_relay_dir = false;
  operation_id = none;
  read_file = λ path. none;
  adapter = silent;
  response = λ request_id. none;
}

abbrev no_entries : Unpacked
no_entries = ([], [])

empty_good : reject_bad_snapshot env.snapshot ≡ ok tt
unfolding reject_bad_snapshot
empty_good = refl

empty_opened : unpack env.snapshot ≡ ok no_entries
unfolding unpack
empty_opened = refl

abbrev check_of : String → Action
check_of target = record {
  action_type = ActionType.run_check;
  param_chunk_id = none;
  param_target = some target;
  param_reason = none;
}

notes_named : is_empty (file_of (or_empty (check_of "notes.md").param_target)) ≡ false
unfolding file_of
notes_named = refl

notes_outside : outside_include env (file_of (or_empty (check_of "notes.md").param_target)) ≡ true
unfolding outside_include file_of
notes_outside = refl

run_check-outside_example :
    (r : DispatchResult) × (run_check env (check_of "notes.md") ≡ ok r)
    × IsGap (file_of (or_empty (check_of "notes.md").param_target)) r
run_check-outside_example =
    run_check-outside env no_entries empty_good empty_opened (check_of "notes.md") notes_named
      notes_outside

abbrev pub drain : Action
drain = check_of "src/Vault.sol:drain"

drain_inside : outside_include env (file_of (or_empty drain.param_target)) ≡ false
unfolding outside_include file_of
drain_inside = refl

drain_free : awaited env (or_empty drain.param_target) ≡ none
unfolding awaited
drain_free = refl

run_check-analyzed_example :
    (r : DispatchResult) × (run_check env drain ≡ ok r) × IsCheck (or_empty drain.param_target) r
run_check-analyzed_example =
    run_check-analyzed env no_entries empty_good empty_opened desk-PrintsReports drain refl refl
      drain_inside drain_free

-- A sandbox whose Slither prints JSON that is no object.
abbrev list_env : Env
list_env = record env { machine = record desk { decode_slither = λ s. ok (other false) } }

list_crashes : run_check list_env drain ≡ raise (Uncaught.analyzers RunFault.wrong_type)
unfolding run_check outside_include file_of awaited check_analyzed run_analyzers analyze_all
    analyze_one attempt slither_attempt run_slither parse_slither_json target_digest lookup strip
    posix decimal
list_crashes = refl

abbrev discover : Action
discover = record {
  action_type = ActionType.run_discovery;
  param_chunk_id = none;
  param_target = none;
  param_reason = none;
}

abbrev first : Chunk
first = ("c0", "src/Vault.sol" ∷ [])

first_next :
    first_uncommitted_chunk env.chunk_digest
      (included_relpaths env)
      (committed_chunk_ids env.snapshot)
      0
    ≡ some first
unfolding first_uncommitted_chunk included_relpaths committed_chunk_ids partition_chunks ordered
    sort_by chunk_id_for posix
first_next = refl

first_inside : find_first (outside_include env) first.1 ≡ none
unfolding outside_include
first_inside = refl

-- A kernel that writes each commit as one item.
abbrev commit : MemorySnapshot → List Payload → MemorySnapshot
commit s ps = record s {
  as_of_sequence = suc s.as_of_sequence;
  items =
      s.items
      ++ record {
        record_id = "r1";
        log_sequence = suc s.as_of_sequence;
        kind = ItemKind.dispatch_commit;
        body = payloads ps;
      }
        ∷ [];
}

commit-Appends : (s : MemorySnapshot) (ps : List Payload) → Appends s (commit s ps) ps
commit-Appends s ps = record {
  before = [];
  behind = [];
  record_id = "r1";
  log_sequence = suc s.as_of_sequence;
  items_eq = refl;
  quiet_before = tt;
  quiet_behind = tt;
}

run_discovery-advances_example :
    (r : DispatchResult) × (run_discovery env discover ≡ ok r)
    × (r.status ≡ DispatchStatus.ran)
    × (committed_chunk_ids (commit env.snapshot r.payloads)
        ≡ committed_chunk_ids env.snapshot ++ "c0" ∷ [])
    × (remaining (committed_chunk_ids (commit env.snapshot r.payloads)) (chunks env)
        < remaining (committed_chunk_ids env.snapshot) (chunks env))
run_discovery-advances_example =
    run_discovery-advances env no_entries empty_good empty_opened commit commit-Appends discover
      first refl refl first_next refl first_inside
