-- ===== src/Executor/Worker.antt =====
-- `Executor.run_once` of rrpp_bridge/executor.py.
use rrpp_agent_bridge.Common.{
  ℕ, String, Bool, true, false, not, ◌&&◌, Option, none, some, List, [], ◌∷◌, leb, ◌==◌,
  if◌then◌else◌, find_where, any_where, select_where,
}
use rrpp_agent_bridge.Models.{AgentDecision, Outcome}
use rrpp_agent_bridge.Runtime.{get_mode}
use rrpp_agent_bridge.Sender.{Remote}
use rrpp_agent_bridge.Store.Rows.{Db, Action, Event, EventStatus, Job, JobState, PolicyRow}
use rrpp_agent_bridge.Store.Monad.{
  M, Result, ok, err, Exception, provider_error, runtime_error, superseded_job, type_error, pure,
  raise, query, execute, raise_if, when, on_row, transaction, utc_now, new_id, record_audit, ◌>>=◌,
  ◌>>◌,
}
use rrpp_agent_bridge.Queue.Base.{set_event_status, set_job}
use rrpp_agent_bridge.Queue.Claim.{claim_next, newest_where}
use rrpp_agent_bridge.Queue.Recovery.{fail, recover_stale}
use rrpp_agent_bridge.Policy.Decide.{decide}
use rrpp_agent_bridge.Delivery.Permission.{newer_event}
use rrpp_agent_bridge.Delivery.Run
use rrpp_agent_bridge.Agent.{AgentContext, generate, human_required}
use rrpp_agent_bridge.Executor.Context.{agent_context, intended}
use rrpp_agent_bridge.Executor.Sink.{execute_action, outcome_name}
use rrpp_agent_bridge.Executor.Stage.{Proposal, Settings, store_proposal}

-- An action with the outcome of its policy decision, and whether it has a delivery.
pub record Staged : Type 0 where
  pub action : Option Action
  pub outcome : Outcome
  pub has_delivery : Bool

pub record Decided : Type 0 where
  pub action : Action
  pub outcome : Outcome

abbrev decided_action : Action → Option PolicyRow → Option Decided
decided_action a none = none
decided_action a (some p) = some (record { action = a; outcome = p.outcome })

abbrev earlier : Decided → Option Decided → Option Decided
earlier d none = some d
earlier d (some e) = if leb d.action.created_at e.action.created_at then some d else some e

abbrev earlier_of : Option Decided → Option Decided → Option Decided
earlier_of none rest = rest
earlier_of (some d) rest = earlier d rest

-- The earliest action of a job that the policy has decided on.
unfoldable pub decided_for : String → List PolicyRow → List Action → Option Decided
decided_for job_id policies [] = none
decided_for job_id policies (a ∷ l) =
    let rest = decided_for job_id policies l in
    if a.job_id == job_id
    then earlier_of (decided_action a (find_where (λ p. p.action_id == a.id) policies)) rest
    else rest

-- The answer of the provider, or what stands for it after an `AgentProviderError`, with its code.
unfoldable pub answer : AgentContext → Result AgentDecision → M (AgentDecision × Option String)
answer context (ok decision) = pure (decision, none)
answer context (err (provider_error code)) =
    pure (human_required "" context.language_hint "unknown_information", some code)
answer context (err e) = raise e

-- What is made of a decision of the agent; the mode is read later.
unfoldable pub proposed :
    Settings → Job → Event → Bool → AgentDecision → Option String → String → Proposal
proposed settings job event bot_paused decision error mode =
    let action = intended decision settings.provider.provider_id in
    record {
      event = event;
      job = job;
      decision = decision;
      provider_error = error;
      intended = action;
      policy = decide settings.python action event.channel event.body_text bot_paused;
      mode = mode;
    }

-- The part of `_action_for_job` before its transaction.
unfoldable pub propose : Settings → Job → Event → M Proposal
propose settings job event = do
  context ← agent_context settings.python event
  (decision, error) ← answer context (generate settings.python settings.provider.contract context)
  newer ← query (λ db. newer_event event.id event.conversation_id db.events)
  raise_if newer superseded_job
  pure (proposed settings job event context.bot_paused decision error "")

unfoldable pub new_action : Settings → Job → Event → String → M Staged
new_action settings job event worker_id = do
  proposal ← propose settings job event
  action_id ← new_id "act"
  decision_id ← new_id "dec"
  timestamp ← utc_now
  mode ← get_mode
  has_delivery ←
      store_proposal settings (record proposal { mode = mode }) action_id decision_id timestamp
        worker_id
  row ← query (λ db. find_where (λ a. a.id == action_id) db.actions)
  pure (record { action = row; outcome = proposal.policy.outcome; has_delivery = has_delivery })

unfoldable pub existing_action : Decided → M Staged
existing_action d = do
  has_delivery ← query (λ db. any_where (λ o. o.action_id == d.action.id) db.deliveries)
  pure (record { action = some d.action; outcome = d.outcome; has_delivery = has_delivery })

unfoldable pub action_for_job : Settings → Job → Event → String → M Staged
action_for_job settings job event worker_id = do
  existing ← query (λ db. decided_for job.id db.policy_decisions db.actions)
  on_row existing (new_action settings job event worker_id) existing_action

-- The job of the event of the conversation, other than the event, that was stored last.
unfoldable pub newer_job : Event → Db → Option Job
newer_job event db =
    newest_where (λ j. true) db.jobs
      (select_where (λ e. e.conversation_id == event.conversation_id && not (e.id == event.id))
        db.events)

abbrev pub job_id_of : Option Job → Option String
job_id_of none = none
job_id_of (some j) = some j.id

abbrev pub superseded : Option String → ℕ → Job → Job
superseded newer timestamp j = record j {
  state = JobState.superseded;
  superseded_by_job_id = newer;
  worker_id = none;
  lease_expires_at = none;
  updated_at = timestamp;
}

unfoldable pub supersede_job : Job → Event → String → M (Unit {0})
supersede_job job event worker_id = do
  timestamp ← utc_now
  newer ← query (newer_job event)
  transaction do
    execute (set_job job.id (superseded (job_id_of newer) timestamp))
    execute (set_event_status event.id EventStatus.batched)
    record_audit worker_id "job.superseded" "job" job.id "superseded"

-- The local sink takes what is neither queued nor ignored by the agent.
unfoldable pub sink : Settings → Event → Staged → String → M (Unit {0})
sink settings event staged worker_id = when (not staged.has_delivery) (
    on_row staged.action (raise type_error) λ action. when (not (action.type == "no_action")) do
      mode ← get_mode
      result ←
          execute_action settings.python settings.senders.canary_senders action
            (outcome_name staged.outcome) event.sender mode worker_id
      pure tt)

abbrev pub completed : ℕ → Job → Job
completed timestamp j = record j {
  state = JobState.completed;
  lease_expires_at = none;
  worker_id = none;
  updated_at = timestamp;
}

-- The `try` block, from the row of the event on.
unfoldable pub process : Settings → Job → Event → String → M (Unit {0})
process settings job event worker_id = do
  staged ← action_for_job settings job event worker_id
  sink settings event staged worker_id
  timestamp ← utc_now
  transaction do
    execute (set_job job.id (completed timestamp))
    execute (set_event_status event.id EventStatus.processed)
    record_audit worker_id "job.completed" "job" job.id "completed"

-- try: ... except Exception as exc: ...
unfoldable pub handle : {A : Type 0} → M A → (Exception → M A) → M A
handle m handler w = let (r, w') = m w in elim r [ ok a ↦ (ok a, w') | err e ↦ handler e w' ]

unfoldable pub after_failure : Settings → Job → Event → String → Exception → M (Unit {0})
after_failure settings job event worker_id superseded_job = supersede_job job event worker_id
after_failure settings job event worker_id e = fail job e worker_id settings.max_attempts

unfoldable pub process_job : Settings → String → Job → M Bool
process_job settings worker_id job = do
  event ← query (λ db. find_where (λ e. e.id == job.event_id) db.events)
  on_row event (fail job (runtime_error "event_not_found") worker_id settings.max_attempts)
      (λ e. handle (process settings job e worker_id) (after_failure settings job e worker_id))
  pure true

unfoldable pub next_job : Settings → String → M Bool
next_job settings worker_id = do
  recovered ← recover_stale settings.max_attempts "worker.recovery"
  job ← claim_next worker_id settings.lease_seconds
  on_row job (pure false) (process_job settings worker_id)

unfoldable pub run_once : Settings → Remote → String → M Bool
run_once settings remote worker_id = do
  delivered ← Run.run_once settings.python remote settings.senders worker_id
  if delivered then pure true else next_job settings worker_id
