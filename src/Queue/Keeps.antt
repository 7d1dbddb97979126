-- ===== src/Queue/Keeps.antt =====
-- What the operations of rrpp_bridge/queue.py keep, but for `claim_next`: they add jobs that wait, and
-- set none to work.
use rrpp_agent_bridge.Common.{ℕ, String, true, false, ◌≡◌, refl, arith, ◌==◌, leb}
use rrpp_agent_bridge.Models.{NormalizedEvent}
use rrpp_agent_bridge.Store.Rows.{Db, Event, EventStatus, Job}
use rrpp_agent_bridge.Store.Monad.{after, record_audit, M, Exception, pure, execute}
use rrpp_agent_bridge.Store.Keeps.{
  Keeps, Keeps-pure, Keeps-bind, Keeps-then, Keeps-execute, Keeps-write, Keeps-after, Keeps-new_id,
  keeps_rules,
}
use rrpp_agent_bridge.Kept.{IsKept, IsMark, audit-Keeps, other-Keeps}
use rrpp_agent_bridge.Queue.Base.{is_processing, set_job, set_event_status}
use rrpp_agent_bridge.Queue.Enqueue.{
  insert_event, insert_job, new_job, postpone, insert_inbound_message, accept, duplicate,
  after_conflict, enqueue_in_transaction,
}
use rrpp_agent_bridge.Queue.Recovery.{
  state_after_failure, failed_job, retry_time, retry_delay, fail, recover_job, recover_stale,
  retried_job, dismissed_job, if_dead_letter, retry, dismiss,
}
use rrpp_agent_bridge.Workspace.Conversations.{ensure_conversation}
use rrpp_agent_bridge.Workspace.Conversations.Keeps.{ensure_conversation-Keeps}

module _ {P : Db → Type 0} (kept : IsKept P) where
  pub mark-Keeps : (id : String) (f : Job → Job) → IsMark f → Keeps P (execute (set_job id f))
  unfolding set_job
  mark-Keeps id f m = Keeps-execute _ (λ db h. kept.mark db (λ j. j.id == id) f m h)

  pub event_status-Keeps :
      (id : String) (status : EventStatus) → Keeps P (execute (set_event_status id status))
  unfolding set_event_status
  event_status-Keeps id status = other-Keeps kept.ended _ (λ db. refl) (λ db. refl)

  record_audit-Keeps :
      (actor operation entity_type entity_id outcome : String)
      → Keeps P (record_audit actor operation entity_type entity_id outcome)
  record_audit-Keeps = audit-Keeps kept.ended

  pub ensure-Keeps :
      (channel external_key recipient sender : String) (message_at : ℕ) (actor : String)
      → Keeps P (ensure_conversation channel external_key recipient sender message_at actor)
  ensure-Keeps channel external_key recipient sender message_at actor =
      ensure_conversation-Keeps (λ db l h. kept.ended.same db _ refl refl h)
        (λ db l h. kept.ended.same db _ refl refl h) (λ db l h. kept.ended.same db _ refl refl h)
        channel external_key recipient sender message_at actor

  ruleset queue_rules = (keeps_rules, record_audit-Keeps, event_status-Keeps, ensure-Keeps)

  insert_event-Keeps : (e : Event) → Keeps P (insert_event e)
  unfolding insert_event
  insert_event-Keeps e = Keeps-write _ _ (λ db h _. kept.ended.same db _ refl refl h)

  insert_job-Keeps :
      (job_id event_id work_key : String) (available_at timestamp : ℕ)
      → Keeps P (insert_job (new_job job_id event_id work_key available_at timestamp))
  unfolding insert_job
  insert_job-Keeps job_id event_id work_key available_at timestamp =
      Keeps-write _ _ (λ db h fresh. kept.add_job db _ refl fresh h)

  postpone-Keeps :
      (work_key : String) (available_at timestamp : ℕ)
      → Keeps P (execute (postpone work_key available_at timestamp))
  unfolding postpone
  postpone-Keeps work_key available_at timestamp = Keeps-execute _ (λ db h.
      kept.mark db _ _ (record { same_id = λ j. refl; same_key = λ j. refl; idle = λ j h. h }) h)

  message-Keeps :
      (event : NormalizedEvent) (event_id conversation_id : String) (timestamp : ℕ)
      → Keeps P (insert_inbound_message event event_id conversation_id timestamp)
  unfolding insert_inbound_message
  message-Keeps event event_id conversation_id timestamp =
      Keeps-bind _ _ (Keeps-new_id "msg")
        (λ id. Keeps-write _ _ (λ db h _. kept.ended.same db _ refl refl h))

  accept-Keeps :
      (debounce : ℕ) (event : NormalizedEvent) (event_id job_id : String) (timestamp : ℕ)
      → Keeps P (accept debounce event event_id job_id timestamp)
  unfolding accept
  accept-Keeps debounce event event_id job_id timestamp =
      search (queue_rules, insert_event-Keeps, insert_job-Keeps, postpone-Keeps, message-Keeps)
        depth 12

  duplicate-Keeps : (actor : String) (e : Event) → Keeps P (duplicate actor e)
  unfolding duplicate
  duplicate-Keeps actor e = search queue_rules

  after_conflict-Keeps : (event : NormalizedEvent) → Keeps P (after_conflict event)
  unfolding after_conflict
  after_conflict-Keeps event = search (queue_rules, duplicate-Keeps)

  pub enqueue-Keeps :
      (debounce : ℕ) (event : NormalizedEvent) → Keeps P (enqueue_in_transaction debounce event)
  unfolding enqueue_in_transaction
  enqueue-Keeps debounce event =
      search (queue_rules, accept-Keeps, duplicate-Keeps, after_conflict-Keeps) depth 9

  state_after_failure_idle :
      (max_attempts attempts : ℕ)
      → is_processing (state_after_failure max_attempts attempts) ≡ false
  unfolding state_after_failure
  state_after_failure_idle max_attempts attempts = ground arith

  fail_statement-Keeps :
      (id code : String) (max_attempts attempts available_at timestamp : ℕ)
      → Keeps P (
          execute (
            set_job id
              (failed_job (state_after_failure max_attempts attempts) available_at code timestamp)))
  fail_statement-Keeps id code max_attempts attempts available_at timestamp =
      mark-Keeps id _ (record {
        same_id = λ j. refl;
        same_key = λ j. refl;
        idle = λ j h. ground (arith, state_after_failure_idle max_attempts attempts);
      })

  retry_time-Keeps :
      (max_attempts attempts timestamp : ℕ) → Keeps P (retry_time max_attempts attempts timestamp)
  unfolding retry_time
  retry_time-Keeps max_attempts attempts timestamp =
      elim (leb max_attempts attempts)
        as (λ terminal. Keeps P (elim terminal as (λ _. M ℕ) [
          | true ↦ pure timestamp
          | false ↦ after (retry_delay attempts)
        ])) [ true ↦ Keeps-pure timestamp | false ↦ Keeps-after (retry_delay attempts) ]

  pub fail-Keeps :
      (job : Job) (exc : Exception) (worker_id : String) (max_attempts : ℕ)
      → Keeps P (fail job exc worker_id max_attempts)
  unfolding fail
  fail-Keeps job exc worker_id max_attempts =
      search (queue_rules, retry_time-Keeps, fail_statement-Keeps) depth 9

  recover_job-Keeps :
      (max_attempts timestamp : ℕ) (actor : String) (job : Job)
      → Keeps P (recover_job max_attempts timestamp actor job)
  unfolding recover_job
  recover_job-Keeps max_attempts timestamp actor job =
      Keeps-then _ _
        (mark-Keeps job.id _ (record {
          same_id = λ j. refl;
          same_key = λ j. refl;
          idle = λ j h. ground (arith, state_after_failure_idle max_attempts job.attempts);
        }))
        (search queue_rules)

  pub recover_stale-Keeps :
      (max_attempts : ℕ) (actor : String) → Keeps P (recover_stale max_attempts actor)
  unfolding recover_stale
  recover_stale-Keeps max_attempts actor = search (queue_rules, recover_job-Keeps) depth 9

  retried-Keeps :
      (id : String) (timestamp : ℕ) → Keeps P (execute (set_job id (retried_job timestamp)))
  retried-Keeps id timestamp =
      mark-Keeps id _ (record { same_id = λ j. refl; same_key = λ j. refl; idle = λ j h. cc })

  dismissed-Keeps :
      (id : String) (timestamp : ℕ) → Keeps P (execute (set_job id (dismissed_job timestamp)))
  dismissed-Keeps id timestamp =
      mark-Keeps id _ (record { same_id = λ j. refl; same_key = λ j. refl; idle = λ j h. cc })

  pub retry-Keeps : (job_id actor : String) → Keeps P (retry job_id actor)
  unfolding retry if_dead_letter
  retry-Keeps job_id actor = search (queue_rules, retried-Keeps) depth 12

  pub dismiss-Keeps : (job_id actor : String) → Keeps P (dismiss job_id actor)
  unfolding dismiss if_dead_letter
  dismiss-Keeps job_id actor = search (queue_rules, dismissed-Keeps) depth 12
