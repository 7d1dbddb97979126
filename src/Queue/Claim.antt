-- ===== src/Queue/Claim.antt =====
-- `JobQueue.claim_next` of rrpp_bridge/queue.py.
pub mod Keeps
use rrpp_agent_bridge.Common.{
  ℕ, ◌+◌, String, Bool, not, ◌&&◌, Option, none, some, List, [], ◌∷◌, leb, ◌==◌, if◌then◌else◌,
  find_where, any_where, select_where,
}
use rrpp_agent_bridge.Store.Rows.{Event, EventStatus, Job, JobState}
use rrpp_agent_bridge.Store.Monad.{
  M, type_error, pure, raise, query, execute, on_row, transaction, for_each, utc_now, after,
  record_audit, ◌>>=◌, ◌>>◌,
}
use rrpp_agent_bridge.Queue.Base.{is_queued, is_processing, set_job, set_event_status}

abbrev pub waits : String → ℕ → Job → Bool
waits work_key timestamp j =
    j.work_key == work_key && is_queued j.state && leb j.available_at timestamp

abbrev pub works_on : String → Job → Bool
works_on work_key j = j.work_key == work_key && is_processing j.state

-- A queued job whose time has come, of a conversation that no worker is busy with.
abbrev pub is_candidate : List Job → ℕ → Job → Bool
is_candidate jobs timestamp j =
    is_queued j.state && leb j.available_at timestamp && not (any_where (works_on j.work_key) jobs)

-- ORDER BY created_at LIMIT 1
unfoldable pub earliest_where : (Job → Bool) → List Job → Option Job
earliest_where p [] = none
earliest_where p (j ∷ l) =
    let rest = earliest_where p l in
    if p j
    then elim rest [
      | none ↦ some j
      | some k ↦ if leb j.created_at k.created_at then some j else some k
    ]
    else rest

-- The job of the event that was stored last, among the jobs that satisfy the condition.
unfoldable pub newest_where : (Job → Bool) → List Job → List Event → Option Job
newest_where p jobs [] = none
newest_where p jobs (e ∷ l) = elim (newest_where p jobs l) [
  | some j ↦ some j
  | none ↦ find_where (λ j. j.event_id == e.id && p j) jobs
]

abbrev pub superseded_by : String → ℕ → Job → Job
superseded_by job_id timestamp j = record j {
  state = JobState.superseded;
  superseded_by_job_id = some job_id;
  updated_at = timestamp;
}

abbrev pub claimed : String → ℕ → ℕ → Job → Job
claimed worker_id timestamp lease_expires_at j = record j {
  state = JobState.processing;
  attempts = j.attempts + 1;
  claimed_at = some timestamp;
  lease_expires_at = some lease_expires_at;
  worker_id = some worker_id;
  updated_at = timestamp;
}

unfoldable pub supersede_older : Job → ℕ → String → Job → M (Unit {0})
supersede_older job timestamp worker_id older = do
  execute (set_job older.id (superseded_by job.id timestamp))
  execute (set_event_status older.event_id EventStatus.batched)
  record_audit worker_id "job.batched" "job" older.id "superseded"

unfoldable pub claim_job : Job → ℕ → String → ℕ → M (Option String)
claim_job job timestamp worker_id lease_seconds = do
  batched ←
      query
        (λ db. select_where (λ j. waits job.work_key timestamp j && not (j.id == job.id)) db.jobs)
  for_each batched (supersede_older job timestamp worker_id)
  lease_expires_at ← after lease_seconds
  execute (set_job job.id (claimed worker_id timestamp lease_expires_at))
  record_audit worker_id "job.claimed" "job" job.id "processing"
  pure (some job.id)

-- The row of the join may be missing only if a job has no event: `job["work_key"]` then raises.
unfoldable pub claim_in_transaction : ℕ → String → ℕ → M (Option String)
claim_in_transaction timestamp worker_id lease_seconds = do
  candidate ← query (λ db. earliest_where (is_candidate db.jobs timestamp) db.jobs)
  on_row candidate (pure none) λ c. do
    newest ← query (λ db. newest_where (waits c.work_key timestamp) db.jobs db.events)
    on_row newest (raise type_error) λ job. claim_job job timestamp worker_id lease_seconds

unfoldable pub claim_next : String → ℕ → M (Option Job)
claim_next worker_id lease_seconds = do
  timestamp ← utc_now
  job_id ← transaction (claim_in_transaction timestamp worker_id lease_seconds)
  on_row job_id (pure none) λ id. query (λ db. find_where (λ j. j.id == id) db.jobs)
