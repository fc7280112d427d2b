-- ===== src/Actions.antt =====
-- audit_agent/actions.py: the actions of the audit pack, their class and reversibility, and the
-- checks of their parameters. The kernel's `_check_filepath`, `int` of a text and `is_absolute` and
-- `/` of paths are parameters.
pub mod Checks
use araratsec_agent.Prelude.{
  ℕ, ◌<◌, String, Bool, true, false, Option, none, some, List, [], ◌∷◌, ◌==◌, ltb, not,
  if◌then◌else◌,
}
use araratsec_agent.Prelude.Texts.{is_empty, before_colon, strip, contains}
use araratsec_agent.Prelude.Int.{ℤ, pos, negsuc}
use araratsec_agent.Prelude.Result.{Result, ok, raise, ◌>>=◌}

pub data AuditActionType : Type 0 where
  build_graph run_slither run_mythril analyze_transactions : AuditActionType
  decompile_bytecode run_discovery run_check run_synthesis : AuditActionType
  skip_target write_poc run_tests deploy_test_contract : AuditActionType

-- `AuditActionType.value`
abbrev pub action_value : AuditActionType → String
action_value build_graph = "build_graph"
action_value run_slither = "run_slither"
action_value run_mythril = "run_mythril"
action_value analyze_transactions = "analyze_transactions"
action_value decompile_bytecode = "decompile_bytecode"
action_value run_discovery = "run_discovery"
action_value run_check = "run_check"
action_value run_synthesis = "run_synthesis"
action_value skip_target = "skip_target"
action_value write_poc = "write_poc"
action_value run_tests = "run_tests"
action_value deploy_test_contract = "deploy_test_contract"

-- The kernel's classes that the map names.
pub data ActionClass : Type 0 where
  read_only write_execute : ActionClass

-- `ACTION_CLASS_MAP`
unfoldable pub action_class : AuditActionType → ActionClass
action_class build_graph = read_only
action_class run_slither = read_only
action_class run_mythril = read_only
action_class analyze_transactions = read_only
action_class decompile_bytecode = read_only
action_class run_discovery = read_only
action_class run_check = read_only
action_class run_synthesis = read_only
action_class skip_target = read_only
action_class write_poc = write_execute
action_class run_tests = write_execute
action_class deploy_test_contract = write_execute

-- `REVERSIBLE`
unfoldable pub is_reversible : AuditActionType → Bool
is_reversible build_graph = true
is_reversible run_slither = true
is_reversible run_mythril = true
is_reversible analyze_transactions = true
is_reversible decompile_bytecode = true
is_reversible run_discovery = true
is_reversible run_check = true
is_reversible run_synthesis = true
is_reversible skip_target = true
is_reversible write_poc = false
is_reversible run_tests = false
is_reversible deploy_test_contract = false

-- A value of the params: a text, a number, or null.
pub data Value : Type 0 where
  text : String → Value
  number : ℤ → Value
  null : Value

-- The keys of `action.params` that are read; `none` is a missing key.
pub record Params : Type 0 where
  pub target : Option Value
  pub address : Option Value
  pub max_blocks : Option Value
  pub reason : Option Value
  pub finding_id : Option Value
  pub network : Option Value

-- A reason to reject: the kernel's words, or one of the messages of the ladder.
pub data Rejection : Type 0 where
  unsafe_path : String → Rejection
  no_address no_target no_reason : Rejection
  too_many_blocks : Value → Rejection
  bad_network : Value → Rejection

-- `int(value)` raises
pub data BadInt : Type 0 where
  bad_int : Value → BadInt

-- `bool(value)`
unfoldable pub truthy : Value → Bool
truthy (text s) = not (is_empty s)
truthy (number (pos n)) = ltb 0 n
truthy (number (negsuc n)) = true
truthy null = false

-- The kernel's check and the parts of the standard library.
pub record Paths : Type 1 where
  pub Root : Type 0
  pub check_filepath : Option Value → Option Root → Option String
  pub is_absolute : String → Bool
  pub under : Root → String → String
  pub int_of_text : String → Option ℤ

-- `n > 10_000`
unfoldable pub over_limit : ℤ → Bool
over_limit (pos n) = ltb 10000 n
over_limit (negsuc n) = false

-- `not x or not isinstance(x, str)`, the other way round: the non-empty text
unfoldable pub text_of : Option Value → Option String
text_of (some (text s)) = if is_empty s then none else some s
text_of _ = none

-- `not reason or not str(reason).strip()`; the text of a number is not blank
unfoldable pub is_blank : Option Value → Bool
unfolding strip truthy
is_blank none = true
is_blank (some (text s)) = is_empty (strip s)
is_blank (some v) = not (truthy v)

unfoldable pub is_local : Value → Bool
is_local (text s) = contains s ("anvil" ∷ "localhost" ∷ [])
is_local _ = false

abbrev pub rejected : Option String → Option Rejection
rejected none = none
rejected (some why) = some (unsafe_path why)

abbrev pub value_or : Value → Option Value → Value
value_or d none = d
value_or d (some v) = v

module _ (paths : Paths) where
  open paths use {Root, check_filepath, is_absolute, under, int_of_text}

  -- `file_rel if Path(file_rel).is_absolute() else str(scope_root / file_rel)`
  unfoldable pub target_path : Root → String → String
  unfolding before_colon
  target_path scope_root target =
      let file_rel = before_colon target in
      if is_absolute file_rel then file_rel else under scope_root file_rel

  -- `int(blocks)`
  unfoldable pub int_value : Value → Result BadInt ℤ
  int_value (text s) = elim (int_of_text s) [ none ↦ raise (bad_int (text s)) | some n ↦ ok n ]
  int_value (number n) = ok n
  int_value null = raise (bad_int null)

  unfoldable pub check_address : Params → Result BadInt (Option Rejection)
  unfolding int_value over_limit truthy
  check_address p =
      if not (truthy (value_or null p.address))
      then ok (some no_address)
      else (let blocks = value_or (number (pos 0)) p.max_blocks in
          int_value blocks >>= λ n.
          ok (if over_limit n then some (too_many_blocks blocks) else none))

  -- `_validate_params`
  unfoldable pub validate_params :
      AuditActionType → Params → Root → Result BadInt (Option Rejection)
  unfolding check_address target_path text_of is_blank is_local
  validate_params run_slither p root = ok (rejected (check_filepath p.target (some root)))
  validate_params run_mythril p root = ok (rejected (check_filepath p.target (some root)))
  validate_params analyze_transactions p root = check_address p
  validate_params run_check p root = elim (text_of p.target) [
    | none ↦ ok (some no_target)
    | some t ↦ ok (rejected (check_filepath (some (text (target_path root t))) (some root)))
  ]
  validate_params skip_target p root = elim (text_of p.target) [
    | none ↦ ok (some no_target)
    | some t ↦
        if is_blank p.reason
        then ok (some no_reason)
        else ok (rejected (check_filepath (some (text (target_path root t))) (some root)))
  ]
  validate_params write_poc p root = ok (rejected (check_filepath p.finding_id none))
  validate_params deploy_test_contract p root =
      let network = value_or (text "") p.network in
      ok (if is_local network then none else some (bad_network network))
  validate_params _ p root = ok none
