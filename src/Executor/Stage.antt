-- ===== src/Executor/Stage.antt =====
-- How a decision of the agent is stored and staged: the transaction of `_action_for_job` of
-- rrpp_bridge/executor.py.
use rrpp_agent_bridge.Common.{
  ℕ, String, Bool, true, false, not, ◌&&◌, ◌||◌, Option, none, some, List, [], ◌∷◌, ◌++◌, ◌==◌,
  if◌then◌else◌, any_where,
}
use rrpp_agent_bridge.Common.Json.{member}
use rrpp_agent_bridge.Common.Text.{Python, is_empty}
use rrpp_agent_bridge.Models.{AgentDecision, IntendedAction, Outcome, PolicyDecision}
use rrpp_agent_bridge.Store.Rows.{
  ActionState, AgentDecisionRow, AuthorType, ConversationStatus, Event, Job, ReviewKind,
}
use rrpp_agent_bridge.Store.Monad.{
  M, pure, execute, write_unless, transaction, new_id, record_audit, ◌>>=◌, ◌>>◌,
}
use rrpp_agent_bridge.Workspace.Control.{set_conversation}
use rrpp_agent_bridge.Workspace.Reviews.{create_review, set_action_state}
use rrpp_agent_bridge.Delivery.Enqueue.{enqueue_delivery, insert_action, insert_policy_decision}
use rrpp_agent_bridge.Delivery.Permission.{Senders, has_sender, is_allowed}
use rrpp_agent_bridge.Agent.{Provider}
use rrpp_agent_bridge.Executor.Sink.{outcome_name}

-- What `Executor` is made with.
pub record Settings : Type 0 where
  pub python : Python
  pub provider : Provider
  pub senders : Senders
  pub max_attempts : ℕ
  pub lease_seconds : ℕ

-- What is decided on an event, before it is stored.
pub record Proposal : Type 0 where
  pub event : Event
  pub job : Job
  pub decision : AgentDecision
  pub provider_error : Option String
  pub intended : IntendedAction
  pub policy : PolicyDecision
  pub mode : String

abbrev pub is_ignored : Outcome → Bool
is_ignored Outcome.ignored = true
is_ignored _ = false

unfoldable pub auto_mode : Settings → String → String → Bool
auto_mode settings mode sender =
    mode == "live"
    || (mode == "canary"
        && member (settings.python.casefold sender) settings.senders.canary_senders)

pub data Next : Type 0 where
  queue_delivery : Next
  ignore_message : Next
  await_review : Next

unfoldable pub next_step : Settings → Proposal → Next
next_step settings p =
    if is_allowed p.policy.outcome
      && auto_mode settings p.mode p.event.sender
      && has_sender settings.senders p.event.recipient
    then queue_delivery
    else if p.intended.type == "no_action" && is_ignored p.policy.outcome
    then ignore_message
    else await_review

abbrev decision_actions : List String
decision_actions = "reply" ∷ "ask_clarification" ∷ "human_required" ∷ "ignore" ∷ []

-- The schema admits these actions only.
unfoldable pub insert_agent_decision : AgentDecisionRow → M (Unit {0})
insert_agent_decision d =
    write_unless
      (λ db.
        not (member d.decision_action decision_actions)
        || any_where (λ o. o.id == d.id || o.action_id == d.action_id) db.agent_decisions)
      (λ db. record db { agent_decisions = db.agent_decisions ++ d ∷ [] })

-- bool(provider_error)
abbrev has_failed : Option String → Bool
has_failed none = false
has_failed (some code) = not (is_empty code)

-- The audit entry on the provider's answer: its operation and outcome.
unfoldable pub generation_entry : Settings → Proposal → String × String
generation_entry settings p =
    if has_failed p.provider_error
    then ("agent.generation_failed", "manual_review")
    else if settings.provider.provider_id == "deterministic"
    then ("agent.provider_fallback", "manual_review")
    else if not p.decision.structured
    then ("agent.generation_invalid", "manual_review")
    else ("agent.generation_completed", "proposed")

unfoldable pub store_decision : Settings → Proposal → String → String → ℕ → String → M (Unit {0})
store_decision settings p action_id decision_id timestamp worker_id = do
  let (operation, outcome) = generation_entry settings p
  insert_action (record {
    id = action_id;
    event_id = p.event.id;
    job_id = p.job.id;
    type = p.intended.type;
    payload = p.intended.payload;
    state = ActionState.generated;
    mode = p.mode;
    created_at = timestamp;
    updated_at = timestamp;
    author_type = "agent";
  })
  insert_policy_decision (record {
    id = decision_id;
    action_id = action_id;
    outcome = p.policy.outcome;
    policy_id = p.policy.policy_id;
    reason = p.policy.reason;
    created_at = timestamp;
  })
  row_id ← new_id "adec"
  insert_agent_decision (record {
    id = row_id;
    action_id = action_id;
    schema_version = "1";
    decision_action = p.decision.action;
    language = p.decision.language;
    reason_code = p.decision.reason_code;
    structured = p.decision.structured;
    created_at = timestamp;
  })
  record_audit worker_id "action.generated" "action" action_id "decided"
  record_audit worker_id operation "event" p.event.id outcome
  record_audit "policy" "action.decided" "action" action_id (outcome_name p.policy.outcome)

abbrev review_kind : String → ReviewKind
review_kind reply = if is_empty reply then ReviewKind.escalation else ReviewKind.draft

-- Whether a delivery is queued.
unfoldable pub stage : Settings → Proposal → String → ℕ → String → Next → M Bool
stage settings p action_id timestamp worker_id queue_delivery = do
  delivery_id ← enqueue_delivery (record {
    action_id = action_id;
    conversation_id = p.event.conversation_id;
    channel = "instagram";
    sender_account_id = p.event.recipient;
    recipient_external_id = p.event.sender;
    body_text = p.decision.text;
    author_type = AuthorType.bot;
    author_id = settings.provider.provider_id;
  })
  execute (set_action_state action_id ActionState.queued_delivery timestamp)
  pure true
stage settings p action_id timestamp worker_id ignore_message = do
  execute (set_action_state action_id ActionState.ignored timestamp)
  pure false
stage settings p action_id timestamp worker_id await_review = do
  review_id ← create_review action_id (review_kind p.decision.text) p.decision.text worker_id
  execute (set_action_state action_id ActionState.pending_review timestamp)
  execute (
      set_conversation p.event.conversation_id
        (λ c. record c { status = ConversationStatus.pending_review; updated_at = timestamp }))
  pure false

unfoldable pub store_proposal : Settings → Proposal → String → String → ℕ → String → M Bool
store_proposal settings p action_id decision_id timestamp worker_id = transaction do
  store_decision settings p action_id decision_id timestamp worker_id
  stage settings p action_id timestamp worker_id (next_step settings p)
