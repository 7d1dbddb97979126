-- ===== src/Executor/Sink.antt =====
-- rrpp_bridge/action_executor.py
use rrpp_agent_bridge.Common.{
  String, Bool, true, not, ◌&&◌, ◌||◌, List, [], ◌∷◌, ◌++◌, ◌==◌, if◌then◌else◌, find_where,
  any_where, update_where,
}
use rrpp_agent_bridge.Common.Json.{member}
use rrpp_agent_bridge.Common.Text.{Python, ◌⧺◌}
use rrpp_agent_bridge.Models.{Outcome}
use rrpp_agent_bridge.Store.Rows.{Db, Action, ActionState, Execution}
use rrpp_agent_bridge.Store.Monad.{
  M, pure, query, execute, write_unless, on_row, transaction, utc_now, new_id, record_audit, ◌>>=◌,
  ◌>>◌,
}
use rrpp_agent_bridge.Workspace.Reviews.{is_pending}

-- `ExecutionResult`
pub record ExecutionResult : Type 0 where
  pub status : String
  pub reason : String

abbrev pub outcome_name : Outcome → String
outcome_name Outcome.allowed = "allowed"
outcome_name Outcome.blocked = "blocked"
outcome_name Outcome.escalated = "escalated"
outcome_name Outcome.pending_approval = "pending_approval"
outcome_name Outcome.ignored = "ignored"

abbrev pub suppressed : String → ExecutionResult
suppressed reason = record { status = "suppressed"; reason = reason }

unfoldable pub decide_execution : Python → String → String → String → List String → ExecutionResult
decide_execution python mode policy_outcome sender canary_senders =
    if not (policy_outcome == "allowed")
    then suppressed ("policy_" ⧺ policy_outcome)
    else if mode == "shadow"
    then suppressed "mode_shadow"
    else if mode == "dry-run"
    then suppressed "mode_dry_run"
    else if mode == "canary" && not (member (python.casefold sender) canary_senders)
    then suppressed "canary_sender_not_allowed"
    else if mode == "canary" || mode == "live"
    then record { status = "executed"; reason = "local_simulated_sink" }
    else suppressed "invalid_mode_fail_closed"

abbrev pub awaits_review : String → Db → Bool
awaits_review action_id db =
    any_where (λ r. r.action_id == action_id && is_pending r.status) db.action_reviews

unfoldable pub action_state : String → Bool → ExecutionResult → ActionState
action_state policy_outcome pending_review result =
    if policy_outcome == "pending_approval" || policy_outcome == "escalated" || pending_review
    then ActionState.pending_review
    else if result.status == "executed"
    then ActionState.executed_simulated
    else ActionState.suppressed

unfoldable pub insert_execution : Execution → M (Unit {0})
insert_execution x =
    write_unless
      (λ db.
        any_where (λ o. o.id == x.id || o.idempotency_key == x.idempotency_key)
          db.action_executions)
      (λ db. record db { action_executions = db.action_executions ++ x ∷ [] })

unfoldable pub update_action : String → (Action → Action) → Db → Db
update_action id f db = record db { actions = update_where (λ a. a.id == id) f db.actions }

abbrev key_of : String → String
key_of action_id = "local:" ⧺ action_id

unfoldable pub execute_new :
    Python → List String → Action → String → String → String → String → M ExecutionResult
execute_new python canary_senders action policy_outcome sender mode actor = do
  let result = decide_execution python mode policy_outcome sender canary_senders
  timestamp ← utc_now
  pending_review ← query (awaits_review action.id)
  transaction do
    execution_id ← new_id "exe"
    insert_execution (record {
      id = execution_id;
      action_id = action.id;
      idempotency_key = key_of action.id;
      mode = mode;
      status = result.status;
      reason = result.reason;
      simulated = true;
      created_at = timestamp;
    })
    execute (
        update_action action.id (λ a. record a {
          state = action_state policy_outcome pending_review result;
          mode = mode;
          updated_at = timestamp;
        }))
    record_audit actor "action.execution" "action" action.id result.status
  pure result

abbrev pub has_key : String → Execution → Bool
has_key action_id x = x.idempotency_key == key_of action_id

-- `LocalActionExecutor.execute`
unfoldable pub execute_action :
    Python → List String → Action → String → String → String → String → M ExecutionResult
execute_action python canary_senders action policy_outcome sender mode actor = do
  existing ← query (λ db. find_where (has_key action.id) db.action_executions)
  on_row existing (execute_new python canary_senders action policy_outcome sender mode actor)
      (λ x. pure (record { status = x.status; reason = x.reason }))
