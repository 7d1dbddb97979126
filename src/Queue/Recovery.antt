-- ===== src/Queue/Recovery.antt =====
-- `JobQueue.fail`, `recover_stale`, `retry` and `dismiss` of rrpp_bridge/queue.py.
use rrpp_agent_bridge.Common.{
  ℕ, ◌-◌, ◌*◌, ◌^◌, min, String, Bool, true, false, ◌&&◌, Option, none, some, leb, ◌==◌,
  if◌then◌else◌, find_where, select_where, length,
}
use rrpp_agent_bridge.Store.Rows.{EventStatus, Job, JobState}
use rrpp_agent_bridge.Store.Monad.{
  M, Exception, integrity_error, type_error, value_error, runtime_error, permission_error,
  key_error, attribute_error, overflow_error, provider_error, superseded_job, unhandled, pure,
  query, execute, on_row, when, transaction, for_each, utc_now, after, record_audit, ◌>>=◌, ◌>>◌,
}
use rrpp_agent_bridge.Queue.Base.{is_processing, is_dead_letter, set_job, set_event_status}

-- type(exc).__name__
unfoldable pub exception_name : Exception → String
exception_name (value_error m) = "ValueError"
exception_name (runtime_error m) = "RuntimeError"
exception_name permission_error = "PermissionError"
exception_name integrity_error = "IntegrityError"
exception_name type_error = "TypeError"
exception_name key_error = "KeyError"
exception_name attribute_error = "AttributeError"
exception_name overflow_error = "OverflowError"
exception_name (provider_error c) = "AgentProviderError"
exception_name superseded_job = "SupersededJob"
exception_name (unhandled name) = name

-- min(5 * (2 ** max(0, attempts - 1)), 300), in seconds.
unfoldable pub retry_delay : ℕ → ℕ
retry_delay attempts = min (5 * 2 ^ (attempts - 1)) 300

unfoldable pub state_after_failure : ℕ → ℕ → JobState
state_after_failure max_attempts attempts =
    if leb max_attempts attempts then JobState.dead_letter else JobState.queued

unfoldable pub event_after_failure : ℕ → ℕ → EventStatus
event_after_failure max_attempts attempts =
    if leb max_attempts attempts then EventStatus.failed else EventStatus.retrying

abbrev pub state_name : JobState → String
state_name JobState.dead_letter = "dead_letter"
state_name _ = "queued"

abbrev pub failed_job : JobState → ℕ → String → ℕ → Job → Job
failed_job state available_at code timestamp j = record j {
  state = state;
  available_at = available_at;
  last_error_code = some code;
  last_error_message = some "Job processing failed; inspect correlated diagnostics";
  lease_expires_at = none;
  worker_id = none;
  updated_at = timestamp;
}

-- timestamp if terminal else _after(delay)
unfoldable pub retry_time : ℕ → ℕ → ℕ → M ℕ
retry_time max_attempts attempts timestamp = elim (leb max_attempts attempts) [
  | true ↦ pure timestamp
  | false ↦ after (retry_delay attempts)
]

unfoldable pub fail : Job → Exception → String → ℕ → M (Unit {0})
fail job exc worker_id max_attempts = do
  let state = state_after_failure max_attempts job.attempts
  timestamp ← utc_now
  available_at ← retry_time max_attempts job.attempts timestamp
  transaction do
    execute (set_job job.id (failed_job state available_at (exception_name exc) timestamp))
    execute (set_event_status job.event_id (event_after_failure max_attempts job.attempts))
    record_audit worker_id "job.failed" "job" job.id (state_name state)

-- lease_expires_at IS NOT NULL AND lease_expires_at<=?
abbrev pub lease_expired : ℕ → Option ℕ → Bool
lease_expired timestamp none = false
lease_expired timestamp (some t) = leb t timestamp

abbrev pub is_stale : ℕ → Job → Bool
is_stale timestamp j = is_processing j.state && lease_expired timestamp j.lease_expires_at

abbrev pub recovered_job : JobState → ℕ → Job → Job
recovered_job state timestamp j = record j {
  state = state;
  available_at = timestamp;
  lease_expires_at = none;
  worker_id = none;
  last_error_code = some "lease_expired";
  last_error_message = some "Worker lease expired";
  updated_at = timestamp;
}

unfoldable pub recover_job : ℕ → ℕ → String → Job → M (Unit {0})
recover_job max_attempts timestamp actor job = do
  let state = state_after_failure max_attempts job.attempts
  execute (set_job job.id (recovered_job state timestamp))
  execute (set_event_status job.event_id (event_after_failure max_attempts job.attempts))
  record_audit actor "job.lease_recovered" "job" job.id (state_name state)

unfoldable pub recover_stale : ℕ → String → M ℕ
recover_stale max_attempts actor = do
  timestamp ← utc_now
  transaction do
    rows ← query (λ db. select_where (is_stale timestamp) db.jobs)
    for_each rows (recover_job max_attempts timestamp actor)
    pure (length rows)

abbrev pub retried_job : ℕ → Job → Job
retried_job timestamp j = record j {
  state = JobState.queued;
  attempts = 0;
  available_at = timestamp;
  claimed_at = none;
  lease_expires_at = none;
  worker_id = none;
  last_error_code = none;
  last_error_message = none;
  updated_at = timestamp;
}

abbrev pub dismissed_job : ℕ → Job → Job
dismissed_job timestamp j = record j {
  state = JobState.dismissed;
  dismissed_at = some timestamp;
  updated_at = timestamp;
}

-- What `retry` and `dismiss` do with a job that is in the dead letter.
unfoldable pub if_dead_letter : String → (Job → M (Unit {0})) → M Bool
if_dead_letter job_id act = do
  row ← query (λ db. find_where (λ j. j.id == job_id) db.jobs)
  on_row row (pure false)
      λ job. do when (is_dead_letter job.state) (act job); pure (is_dead_letter job.state)

unfoldable pub retry : String → String → M Bool
retry job_id actor = do
  timestamp ← utc_now
  transaction (
      if_dead_letter job_id λ job. do
        execute (set_job job_id (retried_job timestamp))
        execute (set_event_status job.event_id EventStatus.queued)
        record_audit actor "job.retried" "job" job_id "queued")

unfoldable pub dismiss : String → String → M Bool
dismiss job_id actor = do
  timestamp ← utc_now
  transaction (
      if_dead_letter job_id λ job. do
        execute (set_job job_id (dismissed_job timestamp))
        execute (set_event_status job.event_id EventStatus.dismissed)
        record_audit actor "job.dismissed" "job" job_id "dismissed")
