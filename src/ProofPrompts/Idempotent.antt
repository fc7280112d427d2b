-- ===== src/ProofPrompts/Idempotent.antt =====
-- A block that a prompt carries is not added again.
use Prim.Native.String.{String, ◌++◌ as append}
use text.Mathlib.TextLemmas.{nil-append, cons-append}
use araratsec_agent.Prelude.{
  ◌≡◌, refl, Bool, true, false, ◌||◌, arith, Bool-cases, inl, inr, ◌⊎◌, if◌then◌else◌,
}
use araratsec_agent.Prelude.Texts.{is_in}
use araratsec_agent.ProofPrompts.{
  Task, append_once, append_discipline_instruction, discipline_data_block, anti_mock_data_block,
  is_state_heavy,
}

or_last : (a b : Bool) → b ≡ true → (a || b) ≡ true
or_last a b h = ground arith

-- A mark of the block is a mark of every prompt that ends with it.
is_in-append :
    (mark block prompt : String) → is_in mark block ≡ true → is_in mark (append prompt block) ≡ true
unfolding is_in
is_in-append mark block String.[] h = rw (nil-append block) h
is_in-append mark block (String.◌∷◌ c s) h =
    rw (cons-append c s block) (or_last _ _ (is_in-append mark block s h))

append_once-append_once :
    (mark block prompt : String)
    → is_in mark block ≡ true
    → append_once mark block (append_once mark block prompt) ≡ append_once mark block prompt
append_once-append_once mark block prompt h = go (is_in mark prompt) refl
  where
    go :
        (b : Bool)
        → is_in mark prompt ≡ b
        → append_once mark block (if b then prompt else append prompt block)
          ≡ (if b then prompt else append prompt block)
    go true e = rw e refl
    go false e = rw (is_in-append mark block prompt h) refl

append_once-marked :
    (mark block prompt : String)
    → is_in mark block ≡ true
    → (append_once mark block prompt ≡ prompt) ⊎ (is_in mark (append_once mark block prompt) ≡ true)
append_once-marked mark block prompt h = elim (Bool-cases (is_in mark prompt)) [
  | inl e ↦ inl (rw e refl)
  | inr e ↦ inr (rw e (is_in-append mark block prompt h))
]

discipline_marked : is_in "state_grounding_discipline" discipline_data_block ≡ true
unfolding is_in discipline_data_block
discipline_marked = refl

anti_mock_marked : is_in "anti_mock_grounding" anti_mock_data_block ≡ true
unfolding is_in anti_mock_data_block
anti_mock_marked = refl

-- Adding the discipline block again changes nothing, and the first time the prompt is kept or carries
-- the mark of the block.
pub append_discipline_instruction-again :
    (lower : String → String) (prompt : String) (task : Task)
    → let p = append_discipline_instruction lower prompt task in
      (append_discipline_instruction lower p task ≡ p)
      × ((p ≡ prompt) ⊎ (is_in "state_grounding_discipline" p ≡ true))
unfolding append_discipline_instruction
append_discipline_instruction-again lower prompt task = go (is_state_heavy lower task) refl
  where
    go :
        (b : Bool)
        → is_state_heavy lower task ≡ b
        → let p =
            if b
            then append_once "state_grounding_discipline" discipline_data_block prompt
            else prompt in
          ((if b then append_once "state_grounding_discipline" discipline_data_block p else p) ≡ p)
          × ((p ≡ prompt) ⊎ (is_in "state_grounding_discipline" p ≡ true))
    go true e = (
      append_once-append_once "state_grounding_discipline" discipline_data_block prompt
          discipline_marked,
      append_once-marked "state_grounding_discipline" discipline_data_block prompt
          discipline_marked,
    )
    go false e = (refl, inl refl)
