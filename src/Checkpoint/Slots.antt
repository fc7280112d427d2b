-- ===== src/Checkpoint/Slots.antt =====
-- The slots after any sequence of attempts.
use araratsec_agent.Prelude.{
  ℕ, String, ◌≡◌, ◌≢◌, refl, ◌↔◌, Bool, true, false, Option, none, some, List, [], ◌∷◌, ◌&&◌, arith,
  find_first,
}
use araratsec_agent.Prelude.Result.{raise}
use araratsec_agent.Checkpoint.{
  CheckpointSlot, CheckpointState, restore_target, refresh_slots, should_emit_adopt_refusal,
  apply_refuse, build_adopt_refusal_fields, is_some, no_restore_target,
}

-- One attempt, as the runner reports it.
pub record Attempt : Type 0 where
  pub source : String
  pub attempt : ℕ
  pub compiled : Bool
  pub compiled_real : Bool
  pub outcome_summary : String

abbrev pub slot_of : Attempt → CheckpointSlot
slot_of a = record {
  source = a.source;
  attempt = a.attempt;
  compiled_real = a.compiled_real;
  outcome_summary = a.outcome_summary;
}

abbrev pub start : CheckpointState
start = record { non_vacuous = none; any_compile = none }

-- The state after the attempts, the latest first.
unfoldable pub state_after : List Attempt → CheckpointState
state_after [] = start
state_after (a ∷ before) =
    refresh_slots (state_after before) a.source a.attempt a.compiled a.compiled_real
      a.outcome_summary

abbrev slot_first : Option Attempt → Option CheckpointSlot
slot_first none = none
slot_first (some a) = some (slot_of a)

-- The latest attempt that passes the test, as a slot.
abbrev pub latest : (Attempt → Bool) → List Attempt → Option CheckpointSlot
latest p attempts = slot_first (find_first p attempts)

-- After any attempts the slots hold the latest one that compiled with a real result and the latest
-- one that compiled at all.
pub state_after-latest :
    (attempts : List Attempt)
    → ((state_after attempts).non_vacuous ≡ latest (λ a. a.compiled && a.compiled_real) attempts)
      × ((state_after attempts).any_compile ≡ latest (λ a. a.compiled) attempts)
unfolding state_after refresh_slots
state_after-latest [] = (refl, refl)
state_after-latest (a ∷ before) = ground (arith, state_after-latest before)

latest_real-some :
    (attempts : List Attempt)
    → latest (λ a. a.compiled && a.compiled_real) attempts ≢ none
    → latest (λ a. a.compiled) attempts ≢ none
latest_real-some [] h = h
latest_real-some (a ∷ before) h = ground (arith, latest_real-some before)

-- What is restored after any attempts is the latest real compile, or without one the latest
-- compile. A refused body gives way to the restored source, and is kept if there is none. Building
-- the event of a refusal raises exactly if no attempt compiled.
pub restore_target-latest :
    (attempts : List Attempt) (n : ℕ) (path working : String)
    → let st = state_after attempts in
      let real = latest (λ a. a.compiled && a.compiled_real) attempts in
      let any_compile = latest (λ a. a.compiled) attempts in
      (restore_target st ≡ elim real [ some s ↦ some s | none ↦ any_compile ])
      × (apply_refuse working st ≡ elim (restore_target st) [ none ↦ working | some s ↦ s.source ])
      × ((build_adopt_refusal_fields st n path ≡ raise no_restore_target) ↔ (any_compile ≡ none))
unfolding restore_target build_adopt_refusal_fields apply_refuse
restore_target-latest attempts n path working =
    let l = state_after-latest attempts in
    (ground (arith, l), ground arith, ground (arith, l, latest_real-some attempts))

-- A restore target that is there never goes away, whatever the later attempt does. An attempt that
-- does not compile leaves the slots as they are, and one that compiles with a real result becomes
-- the target.
pub refresh_slots-keeps_target :
    (st : CheckpointState) (a : Attempt)
    → let st' = refresh_slots st a.source a.attempt a.compiled a.compiled_real a.outcome_summary in
      (is_some (restore_target st) ≡ true → is_some (restore_target st') ≡ true)
      × (a.compiled ≡ false → st' ≡ st)
      × (a.compiled ≡ true → a.compiled_real ≡ true → restore_target st' ≡ some (slot_of a))
unfolding refresh_slots restore_target
refresh_slots-keeps_target st a = (ground arith, ground arith, ground arith)

-- An adopt refusal is never emitted without a compile verdict, for a source that compiled, or with
-- nothing to restore; and it is emitted in every other case.
pub should_emit_adopt_refusal_iff :
    (verdict compiled present : Bool)
    → (should_emit_adopt_refusal verdict compiled present ≡ true)
      ↔ ((verdict ≡ true) × (compiled ≡ false) × (present ≡ true))
unfolding should_emit_adopt_refusal
should_emit_adopt_refusal_iff verdict compiled present = ground arith
