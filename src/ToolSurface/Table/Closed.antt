-- ===== src/ToolSurface/Table/Closed.antt =====
-- The table against the classes of the pack's actions (audit_agent/actions.py).
use araratsec_agent.Prelude.{◌≡◌, ◌≢◌, refl, true, false, Option, none, some, arith}
use araratsec_agent.Prelude.Dict.{lookup}
use araratsec_agent.Actions.{AuditActionType, action_value, action_class, read_only, write_execute}
use araratsec_agent.ToolSurface.Table.{Executor, fail_closed, SurfaceEntry, agent_tool_surface}

abbrev RunsNothing : Option Executor → Type 0
RunsNothing none = Unit
RunsNothing (some fail_closed) = Unit
RunsNothing (some _) = ⊥

-- Each action of the pack has an entry. One that writes or executes is not offered, and its entry
-- runs nothing; one that is offered can run and lacks nothing.
pub surface-closed :
    (a : AuditActionType)
    → (e : SurfaceEntry) × (lookup (action_value a) agent_tool_surface ≡ some e)
      × (action_class a ≡ write_execute → (e.offered ≡ false) × RunsNothing e.executor)
      × (e.offered ≡ true
          → (e.available ≡ true)
            × (e.executor ≢ none)
            × (e.missing_precondition ≡ "")
            × (action_class a ≡ read_only))
unfolding action_class lookup
surface-closed AuditActionType.build_graph = (_, refl, λ w. ground arith, λ o. ground arith)
surface-closed AuditActionType.run_slither = (_, refl, λ w. ground arith, λ o. ground arith)
surface-closed AuditActionType.run_mythril = (_, refl, λ w. ground arith, λ o. ground arith)
surface-closed AuditActionType.analyze_transactions =
    (_, refl, λ w. ground arith, λ o. ground arith)
surface-closed AuditActionType.decompile_bytecode = (_, refl, λ w. ground arith, λ o. ground arith)
surface-closed AuditActionType.run_discovery = (_, refl, λ w. ground arith, λ o. ground arith)
surface-closed AuditActionType.run_check = (_, refl, λ w. ground arith, λ o. ground arith)
surface-closed AuditActionType.run_synthesis = (_, refl, λ w. ground arith, λ o. ground arith)
surface-closed AuditActionType.skip_target = (_, refl, λ w. ground arith, λ o. ground arith)
surface-closed AuditActionType.write_poc = (_, refl, λ w. ground arith, λ o. ground arith)
surface-closed AuditActionType.run_tests = (_, refl, λ w. ground arith, λ o. ground arith)
surface-closed AuditActionType.deploy_test_contract =
    (_, refl, λ w. ground arith, λ o. ground arith)
