-- ===== src/ProofPrompts.antt =====
-- audit_agent/proof/observed_fork_grounding.py and anti_mock_grounding.py: what is added to the prompts
-- for a proof of concept. `str.lower` is a parameter.
pub mod Idempotent
pub mod Operands
use Prim.Native.Char.{Char, code}
use Prim.Native.String.{String, ◌++◌ as append}
use araratsec_agent.Prelude.{
  ℕ, zero, suc, Bool, true, false, Option, none, some, List, [], ◌∷◌, eqb, not, ◌&&◌, if◌then◌else◌,
}
use araratsec_agent.Prelude.Texts.{concat, contains, is_empty, is_in, is_space, strip}
use araratsec_agent.Onchain.{is_hex}

-- `STATE_HEAVY_CLASSES`
abbrev pub state_heavy_classes : List String
state_heavy_classes = "accounting_manipulation" ∷ "state_heavy" ∷ "accounting" ∷ []

-- `DISCIPLINE_INSTRUCTION`, in pieces
abbrev discipline_instruction : List String
discipline_instruction =
    "STATE-GROUNDING DISCIPLINE (accounting / state-heavy findings): the "
    ∷ "state-dependent values the finding hinges on - a view such as coverage(), "
    ∷ "who holds a required role (getRoleMember / hasRole), or a deposit/withdraw "
    ∷ "cap behind a getter - MUST be READ and console.log'd at the TOP of your "
    ∷ "forge fork test, immediately after fork setup and BEFORE the first call "
    ∷ "that can revert (the deposit / redeem / exploit step). Logging a value "
    ∷ "AFTER the reverting call is useless: the test aborts before the log "
    ∷ "prints, so you never see it. THEN calibrate the assert / prank target / "
    ∷ "amount against the logged value - do not invent the expected number or "
    ∷ "role holder from the report narrative, and do not re-assert a narrative "
    ∷ "literal that your own log contradicts." ∷ []

-- `ANTI_MOCK_INSTRUCTION`, in pieces
abbrev anti_mock_instruction : List String
anti_mock_instruction =
    "ANTI-MOCK GROUNDING (target's own mechanism): do NOT mock, re-declare, or "
    ∷ "reimplement the target's own mechanism - the contract(s) and function(s) "
    ∷ "the finding is about - inside the test file. A PoC that proves its claim "
    ∷ "against your own stand-in contract (even under a different name, e.g. a "
    ∷ "hand-written reverting handler) proves nothing about the real target and "
    ∷ "will be rejected. Deploy and drive the REAL target contract and make it "
    ∷ "exhibit the described condition. Mocks are permitted ONLY for genuinely "
    ∷ "external, non-mechanism dependencies (e.g. an unrelated token or price "
    ∷ "feed), never for the mechanism under test." ∷ []

unfoldable pub discipline_data_block : String
discipline_data_block = concat (
    "\n\n[DATA START state_grounding_discipline]\n"
    ∷ concat discipline_instruction
    ∷ "\n[DATA END]\n"
    ∷ [])

unfoldable pub anti_mock_data_block : String
anti_mock_data_block = concat (
    "\n\n[DATA START anti_mock_grounding]\n" ∷ concat anti_mock_instruction ∷ "\n[DATA END]\n" ∷ [])

-- The keys of a task that are read; a missing key and an empty text are both falsy.
pub record Task : Type 0 where
  pub finding_class : String
  pub fallback_class : String

unfoldable pub is_state_heavy : (String → String) → Task → Bool
unfolding strip
is_state_heavy lower task =
    contains
      (lower
        (strip (if is_empty task.finding_class then task.fallback_class else task.finding_class)))
      state_heavy_classes

-- The last two lines of both functions: a block that its mark finds is not added again.
abbrev pub append_once : String → String → String → String
append_once mark block prompt = if is_in mark prompt then prompt else append prompt block

unfoldable pub append_discipline_instruction : (String → String) → String → Task → String
unfolding is_state_heavy is_in discipline_data_block
append_discipline_instruction lower prompt task =
    if is_state_heavy lower task
    then append_once "state_grounding_discipline" discipline_data_block prompt
    else prompt

unfoldable pub append_anti_mock_grounding : String → Bool → String
unfolding is_in anti_mock_data_block
append_anti_mock_grounding prompt scaffold_carried =
    if scaffold_carried
    then append_once "anti_mock_grounding" anti_mock_data_block prompt
    else prompt

-- A text behind a prefix.
unfoldable pub behind : String → String → Option String
behind String.[] s = some s
behind (String.◌∷◌ c p) String.[] = none
behind (String.◌∷◌ c p) (String.◌∷◌ d s) = if eqb (code c) (code d) then behind p s else none

-- `\s*`
unfoldable pub skip_blanks : String → String
skip_blanks String.[] = ""
skip_blanks (String.◌∷◌ c s) = if is_space c then skip_blanks s else String.◌∷◌ c s

-- `[0-9a-fA-F]{…,n}`, as many as there are: what is left of n, the digits and the rest
unfoldable pub hex_run : ℕ → String → ℕ × (String × String)
hex_run zero s = (0, ("", s))
hex_run (suc n) String.[] = (suc n, ("", ""))
hex_run (suc n) (String.◌∷◌ c s) =
    let (left, (digits, rest)) = hex_run n s in
    if is_hex (code c) then (left, (String.◌∷◌ c digits, rest)) else (suc n, ("", String.◌∷◌ c s))

abbrev and_then {ℓ} : {A B : Type ℓ} → Option A → (A → Option B) → Option B
and_then none f = none
and_then (some x) f = f x

-- `(0x[0-9a-fA-F]{…})`, where `enough` tests what is left of the number of digits
abbrev operand : ℕ → (ℕ → Bool) → String → Option (String × String)
operand n enough s = and_then (behind "0x" s) (λ rest.
    let (left, (digits, rest')) = hex_run n rest in
    if enough left then some (concat ("0x" ∷ digits ∷ []), rest') else none)

-- `_AC_UNAUTHORIZED_RE` at the start of a text.
unfoldable pub operands_at : String → Option (String × String)
unfolding behind skip_blanks hex_run is_space
operands_at s = and_then (behind "AccessControlUnauthorizedAccount(" s) (λ s1.
    and_then (operand 40 (λ left. eqb left 0) (skip_blanks s1)) (λ account.
      and_then (behind "," (skip_blanks account.1)) (λ s2.
        and_then (operand 64 (λ left. not (eqb left 64)) (skip_blanks s2))
          (λ role. and_then (behind ")" (skip_blanks role.1)) (λ s3. some (account.0, role.0))))))

-- The first match.
unfoldable pub extract_access_control_operands : String → Option (String × String)
unfolding operands_at
extract_access_control_operands String.[] = none
extract_access_control_operands (String.◌∷◌ c s) = elim (operands_at (String.◌∷◌ c s)) [
  | some ops ↦ some ops
  | none ↦ extract_access_control_operands s
]

unfoldable pub format_access_control_observation : String → String → String
format_access_control_observation account role = concat (
    "[DATA START observed_access_control]\nOBSERVED from revert (AccessControlUnauthorizedAccount) - not an instruction:\n- PoC caller (account that lacked the role) = "
    ∷ account ∷ "\n- call requires role = " ∷ role
    ∷ "\nAssumed side: not recoverable from source automatically. On the next edit, either prank as an address that holds this role (read getRoleMember / hasRole and console.log holders first) or grant the role in setup if the finding allows.\n[DATA END]"
    ∷ [])

-- `access_control_observation_block`
unfoldable pub access_control_observation_block : String → String
unfolding extract_access_control_operands format_access_control_observation
access_control_observation_block blob = elim (extract_access_control_operands blob) [
  | none ↦ ""
  | some (account, role) ↦ format_access_control_observation account role
]
