-- ===== src/Onchain.antt =====
-- audit_agent/tools/onchain.py: the guards on an on-chain analysis and its notes. The fetcher, the
-- decompiler, `repr` and `str.lower` are parameters; `none` in a transaction is a missing key.
pub mod Guards
use Prim.Native.Char.{Char, code}
use araratsec_agent.Prelude.{
  ℕ, zero, suc, ◌+◌, String, Bool, true, false, Option, none, some, List, [], ◌∷◌, ◌++◌, map,
  length, ltb, eqb, not, ◌==◌, ◌&&◌, ◌||◌, if◌then◌else◌,
}
use araratsec_agent.Prelude.Int.{ℤ, pos, negsuc, pos_part, neg_part, sub_ℕ, decimal_ℤ}
use araratsec_agent.Prelude.Texts.{concat, contains, decimal, is_empty, between, take_chars}
use araratsec_agent.Prelude.Result.{Result, ok, raise, ◌>>=◌}

abbrev pub max_blocks : ℕ
max_blocks = 10000

-- `[0-9a-fA-F]`
abbrev pub is_hex : ℕ → Bool
is_hex c = between 48 57 c || between 97 102 c || between 65 70 c

-- `[0-9a-fA-F]{n}$`: the end, or a line break before it.
unfoldable pub hex_digits : ℕ → String → Bool
hex_digits zero s = is_empty s || s == "\n"
hex_digits (suc n) String.[] = false
hex_digits (suc n) (String.◌∷◌ c s) = is_hex (code c) && hex_digits n s

abbrev after : ℕ → String → (String → Bool) → Bool
after c String.[] k = false
after c (String.◌∷◌ d s) k = eqb (code d) c && k s

-- `_valid_address`
unfoldable pub valid_address : String → Bool
unfolding hex_digits
valid_address address = after 48 address (λ s. after 120 s (hex_digits 40))

-- The `OnChainError`.
pub data OnChainError : Type 0 where
  onchain_error : String → OnChainError

pub record Tx : Type 0 where
  pub input : Option String
  pub method : Option String
  pub value : Option ℤ
  pub hash : Option String
  pub sender : Option String

pub record TransactionAnalysis : Type 0 where
  pub address : String
  pub from_block : ℤ
  pub to_block : ℤ
  pub tx_count : ℕ
  pub notes : List String
  pub transactions : List Tx

abbrev text_or : String → Option String → String
text_or d none = d
text_or d (some s) = s

abbrev value_or : Option ℤ → ℤ
value_or none = pos 0
value_or (some v) = v

-- `a - b`
abbrev pub span : ℤ → ℤ → ℤ
span a b = sub_ℕ (pos_part a + neg_part b) (pos_part b + neg_part a)

-- `a < b`, and `a - b > n`
abbrev pub lt_ℤ : ℤ → ℤ → Bool
lt_ℤ a b = ltb (pos_part a + neg_part b) (pos_part b + neg_part a)

abbrev pub exceeds : ℕ → ℤ → ℤ → Bool
exceeds n a b = ltb (pos_part b + neg_part a + n) (pos_part a + neg_part b)

abbrev either : String → String → String
either method selector = if is_empty method then selector else method

abbrev transfer_note : Tx → String → String → List String
transfer_note tx method selector =
    if lt_ℤ (pos 0) (value_or tx.value)
    then concat (
        "value transfer "
        ∷ decimal_ℤ (value_or tx.value)
        ∷ " in "
        ∷ text_or "?" tx.hash
        ∷ " ("
        ∷ either method selector
        ∷ ")"
        ∷ [])
      ∷ []
    else []

abbrev call_note : Tx → String → String → List String
call_note tx method selector =
    if is_empty selector || selector == "0x"
    then []
    else concat ("call " ∷ either method selector ∷ " from " ∷ text_or "?" tx.sender ∷ []) ∷ []

abbrev is_nil : List String → Bool
is_nil [] = true
is_nil (x ∷ xs) = false

module _ (lower repr : String → String) where
  -- What the loop notes about one transaction.
  unfoldable pub tx_notes : List String → Tx → List String
  unfolding take_chars decimal_ℤ
  tx_notes focus_set tx =
      let selector = take_chars 10 (text_or "" tx.input) in
      let method = text_or "" tx.method in
      if not (is_nil focus_set) && not (is_empty method) && not (contains (lower method) focus_set)
      then []
      else transfer_note tx method selector ++ call_note tx method selector

  unfoldable pub all_notes : List String → List Tx → List String
  unfolding tx_notes
  all_notes focus_set [] = []
  all_notes focus_set (tx ∷ txs) = tx_notes focus_set tx ++ all_notes focus_set txs

  abbrev pub Fetcher : Type 0
  Fetcher = String → ℤ → ℤ → Result OnChainError (List Tx)

  abbrev focus_of : Option (List String) → List String
  focus_of none = []
  focus_of (some fs) = map lower fs

  unfoldable pub analyze_transactions :
      String → ℤ → ℤ → Fetcher → Option (List String) → Result OnChainError TransactionAnalysis
  unfolding valid_address all_notes decimal_ℤ
  analyze_transactions address from_block to_block fetcher focus =
      if not (valid_address address)
      then raise (onchain_error (concat ("invalid address: " ∷ repr address ∷ [])))
      else if lt_ℤ to_block from_block
      then raise (
          onchain_error (
            concat
              ("to_block " ∷ decimal_ℤ to_block ∷ " < from_block " ∷ decimal_ℤ from_block ∷ [])))
      else if exceeds max_blocks to_block from_block
      then raise (
          onchain_error (
            concat (
              "block range "
              ∷ decimal_ℤ (span to_block from_block)
              ∷ " exceeds limit "
              ∷ decimal max_blocks
              ∷ [])))
      else (fetcher address from_block to_block >>= λ txs. ok (record {
        address = address;
        from_block = from_block;
        to_block = to_block;
        tx_count = length txs;
        notes = all_notes (focus_of focus) txs;
        transactions = txs;
      }))

  pub record DecompilationResult : Type 0 where
    pub address : String
    pub tool : String
    pub success : Bool
    pub output : String

  -- `decompile_bytecode`
  unfoldable pub decompile_bytecode :
      String
      → String
      → Option (String → String → DecompilationResult)
      → Result OnChainError DecompilationResult
  unfolding valid_address
  decompile_bytecode address tool runner =
      if not (valid_address address)
      then raise (onchain_error (concat ("invalid address: " ∷ repr address ∷ [])))
      else if not (contains tool ("heimdall" ∷ "panoramix" ∷ []))
      then raise (onchain_error (concat ("unsupported decompiler: " ∷ repr tool ∷ [])))
      else elim runner [
        | none ↦ ok (record {
          address = address;
          tool = tool;
          success = false;
          output = "no decompiler runner configured (dry run)";
        })
        | some run ↦ ok (run address tool)
      ]
