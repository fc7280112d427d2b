-- ===== src/Onchain/Guards.antt =====
-- The guards on an analysis: what the fetcher is called with.
use araratsec_agent.Prelude.{ℕ, ◌+◌, ◌≤◌, ◌≡◌, String, true, Option, List, arith}
use araratsec_agent.Prelude.Int.{ℤ, pos_part, neg_part}
use araratsec_agent.Prelude.Result.{Result, ok}
use araratsec_agent.Onchain.{
  max_blocks, valid_address, OnChainError, Tx, TransactionAnalysis, analyze_transactions,
}

-- `a ≤ b` and `b ≤ a + n`, on integers.
abbrev Le_ℤ : ℤ → ℤ → Type 0
Le_ℤ a b = pos_part a + neg_part b ≤ pos_part b + neg_part a

abbrev Within : ℕ → ℤ → ℤ → Type 0
Within n a b = pos_part b + neg_part a ≤ pos_part a + neg_part b + n

-- An analysis that returns has called the fetcher on a well-formed address and a range of blocks
-- that is not empty and whose bounds differ by the limit at most, so that it holds one block more than
-- the limit at most, and keeps all of its transactions.
analyze_transactions-guarded :
    (lower repr : String → String) (address : String) (from_block to_block : ℤ)
    (fetcher : String → ℤ → ℤ → Result OnChainError (List Tx)) (focus : Option (List String))
    (r : TransactionAnalysis)
    → analyze_transactions lower repr address from_block to_block fetcher focus ≡ ok r
    → (valid_address address ≡ true)
      × Le_ℤ from_block to_block
      × Within max_blocks from_block to_block
      × (fetcher address from_block to_block ≡ ok r.transactions)
unfolding analyze_transactions
analyze_transactions-guarded lower repr address from_block to_block fetcher focus r h = ground arith
