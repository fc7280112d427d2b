-- ===== src/Checkpoint.antt =====
-- audit_agent/proof/compiled_checkpoint.py: the two slots that remember the last attempt of a proof
-- of concept that compiled.
pub mod Slots
use araratsec_agent.Prelude.{
  ℕ, String, Bool, true, false, Option, none, some, List, length, eqb, ◌&&◌, not, if◌then◌else◌,
}
use araratsec_agent.Prelude.Result.{Result, ok, raise}

pub record CheckpointSlot : Type 0 where
  pub source : String
  pub attempt : ℕ
  pub compiled_real : Bool
  pub outcome_summary : String

pub record CheckpointState : Type 0 where
  pub non_vacuous : Option CheckpointSlot
  pub any_compile : Option CheckpointSlot

pub data RestoreKind : Type 0 where
  non_vacuous any_compile : RestoreKind

-- `bool(compiled) and not defects`
unfoldable pub is_compiled_real {ℓ} : {D : Type ℓ} → Bool → List D → Bool
is_compiled_real compiled defects = compiled && eqb (length defects) 0

abbrev pub is_some {ℓ} : {A : Type ℓ} → Option A → Bool
is_some none = false
is_some (some _) = true

abbrev or_slot : Option CheckpointSlot → Option CheckpointSlot → Option CheckpointSlot
or_slot (some s) b = some s
or_slot none b = b

unfoldable pub restore_target : CheckpointState → Option CheckpointSlot
restore_target st = or_slot st.non_vacuous st.any_compile

unfoldable pub restore_kind : CheckpointState → Option RestoreKind
restore_kind st =
    if is_some st.non_vacuous
    then some RestoreKind.non_vacuous
    else if is_some st.any_compile
    then some RestoreKind.any_compile
    else none

unfoldable pub refresh_slots : CheckpointState → String → ℕ → Bool → Bool → String → CheckpointState
refresh_slots st source attempt compiled compiled_real outcome_summary =
    if not compiled
    then st
    else (let slot : CheckpointSlot = record {
      source = source;
      attempt = attempt;
      compiled_real = compiled_real;
      outcome_summary = outcome_summary;
    } in
        record {
          non_vacuous = if compiled_real then some slot else st.non_vacuous;
          any_compile = some slot;
        })

unfoldable pub should_refuse : Bool → Bool → Bool
should_refuse compiled restore_target_present = not compiled && restore_target_present

unfoldable pub should_emit_adopt_refusal : Bool → Bool → Bool → Bool
unfolding should_refuse
should_emit_adopt_refusal verdict_available compiled restore_target_present =
    if not verdict_available then false else should_refuse compiled restore_target_present

unfoldable pub should_end_restore : Bool → Bool → Bool
should_end_restore compiled restore_target_present = not compiled && restore_target_present

unfoldable pub apply_refuse : String → CheckpointState → String
unfolding restore_target
apply_refuse working_body st = elim (restore_target st) [
  | none ↦ working_body
  | some slot ↦ slot.source
]

-- The fields of the `compile_adopt_rejected` event.
pub record AdoptRefusal : Type 0 where
  pub attempt : ℕ
  pub artifact_path : String
  pub restore_attempt : ℕ
  pub restore_kind : RestoreKind

pub data NoTarget : Type 0 where
  no_restore_target : NoTarget

unfoldable pub build_adopt_refusal_fields :
    CheckpointState → ℕ → String → Result NoTarget AdoptRefusal
unfolding restore_target restore_kind
build_adopt_refusal_fields st attempt artifact_path = elim (restore_target st) [
  | none ↦ raise no_restore_target
  | some slot ↦ elim (restore_kind st) [
    | none ↦ raise no_restore_target
    | some kind ↦ ok (record {
      attempt = attempt;
      artifact_path = artifact_path;
      restore_attempt = slot.attempt;
      restore_kind = kind;
    })
  ]
]
