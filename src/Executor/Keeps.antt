-- ===== src/Executor/Keeps.antt =====
-- What `Executor.run_once` of rrpp_bridge/executor.py keeps, but for the claims: it stores actions and
-- reviews, orders deliveries, and marks jobs that it has in work.
use rrpp_agent_bridge.Common.{◌∙◌, ◌≡◌, ℕ, String, List, Option, refl}
use rrpp_agent_bridge.Common.Text.{Python}
use rrpp_agent_bridge.Store.Rows.{Action, AgentDecisionRow, Db, Event, Execution, Job}
use rrpp_agent_bridge.Store.Monad.{
  M, Exception, Result, World, err, ok, provider_error, record_audit, superseded_job, execute,
}
use rrpp_agent_bridge.Store.Silent.{IsSilent}
use rrpp_agent_bridge.Store.Keeps.{Keeps, Keeps-pure, Keeps-raise, keeps_rules}
use rrpp_agent_bridge.Models.{AgentDecision}
use rrpp_agent_bridge.Kept.{IsKept, audit-Keeps, insert-Keeps, other-Keeps}
use rrpp_agent_bridge.Queue.Keeps.{event_status-Keeps, fail-Keeps, mark-Keeps}
use rrpp_agent_bridge.Queue.Base.{set_job}
use rrpp_agent_bridge.Workspace.Keeps.{action-Keeps, conversation-Keeps, create_review-Keeps}
use rrpp_agent_bridge.Delivery.Enqueue.Keeps.{
  enqueue_delivery-Keeps, get_mode-Keeps, insert_action-Keeps, policy_decision-Keeps,
}
use rrpp_agent_bridge.Agent.{AgentContext}
use rrpp_agent_bridge.Executor.Context.{agent_context}
use rrpp_agent_bridge.Executor.Sink.{execute_action, execute_new, insert_execution, update_action}
use rrpp_agent_bridge.Executor.Stage.{
  Next, Proposal, Settings, await_review, ignore_message, insert_agent_decision, queue_delivery,
  stage, store_decision, store_proposal,
}
use rrpp_agent_bridge.Executor.Worker.{
  Decided, Staged, action_for_job, after_failure, answer, completed, existing_action, handle,
  new_action, process, process_job, propose, sink, supersede_job, superseded,
}

handled :
    {A : Type 0} (P : Db → Type 0) (handler : Exception → M A) (r : Result A) (w : World)
    → ((e : Exception) → Keeps P (handler e))
    → P w.db
    → P (handle (λ v. (r, w)) handler w).1.db
unfolding handle
handled P handler (ok a) w keeps h = h
handled P handler (err e) w keeps h = (keeps e).at w h

handled_silent :
    {A : Type 0} (handler : Exception → M A) (r : Result A) (w : World)
    → ((e : Exception) → IsSilent (handler e))
    → (handle (λ v. (r, w)) handler w).1.requests ≡ w.requests
unfolding handle
handled_silent handler (ok a) w silent = refl
handled_silent handler (err e) w silent = (silent e).at w

Keeps-handle :
    {A : Type 0} {P : Db → Type 0} (m : M A) (handler : Exception → M A)
    → Keeps P m
    → ((e : Exception) → Keeps P (handler e))
    → Keeps P (handle m handler)
unfolding handle
Keeps-handle {P} m handler hm hh = record {
  at = λ w h. handled P handler (m w).0 (m w).1 hh (hm.at w h);
  silent = record {
    at = λ w. handled_silent handler (m w).0 (m w).1 (λ e. (hh e).silent) ∙ hm.silent.at w;
  };
}

module _ {P : Db → Type 0} (kept : IsKept P) where
  record_audit-Keeps :
      (actor operation entity_type entity_id outcome : String)
      → Keeps P (record_audit actor operation entity_type entity_id outcome)
  record_audit-Keeps = audit-Keeps kept.ended

  agent_decision-Keeps : (d : AgentDecisionRow) → Keeps P (insert_agent_decision d)
  unfolding insert_agent_decision
  agent_decision-Keeps d = insert-Keeps kept.ended _ _ (λ db. refl) (λ db. refl)

  insert_execution-Keeps : (x : Execution) → Keeps P (insert_execution x)
  unfolding insert_execution
  insert_execution-Keeps x = insert-Keeps kept.ended _ _ (λ db. refl) (λ db. refl)

  update_action-Keeps : (id : String) (f : Action → Action) → Keeps P (execute (update_action id f))
  unfolding update_action
  update_action-Keeps id f = other-Keeps kept.ended _ (λ db. refl) (λ db. refl)

  ruleset executor_rules = (
    keeps_rules, record_audit-Keeps, get_mode-Keeps, event_status-Keeps, action-Keeps,
    conversation-Keeps,
  )

  store_decision-Keeps :
      (settings : Settings) (p : Proposal) (action_id decision_id : String) (timestamp : ℕ)
      (worker_id : String)
      → Keeps P (store_decision settings p action_id decision_id timestamp worker_id)
  unfolding store_decision
  store_decision-Keeps settings p action_id decision_id timestamp worker_id =
      search (executor_rules, insert_action-Keeps, policy_decision-Keeps, agent_decision-Keeps)
        depth 14

  stage-Keeps :
      (settings : Settings) (p : Proposal) (action_id : String) (timestamp : ℕ) (worker_id : String)
      (next : Next)
      → Keeps P (stage settings p action_id timestamp worker_id next)
  unfolding stage
  stage-Keeps settings p action_id timestamp worker_id queue_delivery =
      search (executor_rules, enqueue_delivery-Keeps)
  stage-Keeps settings p action_id timestamp worker_id ignore_message = search executor_rules
  stage-Keeps settings p action_id timestamp worker_id await_review =
      search (executor_rules, create_review-Keeps)

  store_proposal-Keeps :
      (settings : Settings) (p : Proposal) (action_id decision_id : String) (timestamp : ℕ)
      (worker_id : String)
      → Keeps P (store_proposal settings p action_id decision_id timestamp worker_id)
  unfolding store_proposal
  store_proposal-Keeps settings p action_id decision_id timestamp worker_id =
      search (executor_rules, store_decision-Keeps, stage-Keeps)

  agent_context-Keeps : (python : Python) (event : Event) → Keeps P (agent_context python event)
  unfolding agent_context
  agent_context-Keeps python event = search executor_rules

  answer-Keeps : (context : AgentContext) (r : Result AgentDecision) → Keeps P (answer context r)
  unfolding answer
  answer-Keeps context (ok decision) = Keeps-pure _
  answer-Keeps context (err (provider_error code)) = Keeps-pure _
  answer-Keeps context (err _) = Keeps-raise _

  propose-Keeps :
      (settings : Settings) (job : Job) (event : Event) → Keeps P (propose settings job event)
  unfolding propose
  propose-Keeps settings job event =
      search (executor_rules, agent_context-Keeps, answer-Keeps) depth 12

  new_action-Keeps :
      (settings : Settings) (job : Job) (event : Event) (worker_id : String)
      → Keeps P (new_action settings job event worker_id)
  unfolding new_action
  new_action-Keeps settings job event worker_id =
      search (executor_rules, propose-Keeps, store_proposal-Keeps) depth 16

  existing_action-Keeps : (d : Decided) → Keeps P (existing_action d)
  unfolding existing_action
  existing_action-Keeps d = search executor_rules

  action_for_job-Keeps :
      (settings : Settings) (job : Job) (event : Event) (worker_id : String)
      → Keeps P (action_for_job settings job event worker_id)
  unfolding action_for_job
  action_for_job-Keeps settings job event worker_id =
      search (executor_rules, new_action-Keeps, existing_action-Keeps)

  execute_new-Keeps :
      (python : Python) (canary_senders : List String) (action : Action)
      (policy_outcome sender mode actor : String)
      → Keeps P (execute_new python canary_senders action policy_outcome sender mode actor)
  unfolding execute_new
  execute_new-Keeps python canary_senders action policy_outcome sender mode actor =
      search (executor_rules, insert_execution-Keeps, update_action-Keeps) depth 14

  execute_action-Keeps :
      (python : Python) (canary_senders : List String) (action : Action)
      (policy_outcome sender mode actor : String)
      → Keeps P (execute_action python canary_senders action policy_outcome sender mode actor)
  unfolding execute_action
  execute_action-Keeps python canary_senders action policy_outcome sender mode actor =
      search (executor_rules, execute_new-Keeps)

  sink-Keeps :
      (settings : Settings) (event : Event) (staged : Staged) (worker_id : String)
      → Keeps P (sink settings event staged worker_id)
  unfolding sink
  sink-Keeps settings event staged worker_id = search (executor_rules, execute_action-Keeps) depth 9

  completed-Keeps :
      (id : String) (timestamp : ℕ) → Keeps P (execute (set_job id (completed timestamp)))
  completed-Keeps id timestamp =
      mark-Keeps kept id _ (record { same_id = λ j. refl; same_key = λ j. refl; idle = λ j h. cc })

  superseded-Keeps :
      (id : String) (newer : Option String) (timestamp : ℕ)
      → Keeps P (execute (set_job id (superseded newer timestamp)))
  superseded-Keeps id newer timestamp =
      mark-Keeps kept id _ (record { same_id = λ j. refl; same_key = λ j. refl; idle = λ j h. cc })

  process-Keeps :
      (settings : Settings) (job : Job) (event : Event) (worker_id : String)
      → Keeps P (process settings job event worker_id)
  unfolding process
  process-Keeps settings job event worker_id =
      search (executor_rules, action_for_job-Keeps, sink-Keeps, completed-Keeps) depth 12

  supersede_job-Keeps :
      (job : Job) (event : Event) (worker_id : String) → Keeps P (supersede_job job event worker_id)
  unfolding supersede_job
  supersede_job-Keeps job event worker_id = search (executor_rules, superseded-Keeps) depth 12

  after_failure-Keeps :
      (settings : Settings) (job : Job) (event : Event) (worker_id : String) (e : Exception)
      → Keeps P (after_failure settings job event worker_id e)
  unfolding after_failure
  after_failure-Keeps settings job event worker_id superseded_job =
      supersede_job-Keeps job event worker_id
  after_failure-Keeps settings job event worker_id e =
      fail-Keeps kept job e worker_id settings.max_attempts

  pub process_job-Keeps :
      (settings : Settings) (worker_id : String) (job : Job)
      → Keeps P (process_job settings worker_id job)
  unfolding process_job
  process_job-Keeps settings worker_id job =
      search (executor_rules, Keeps-handle, fail-Keeps, process-Keeps, after_failure-Keeps) depth 9
