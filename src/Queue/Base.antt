-- ===== src/Queue/Base.antt =====
-- Tests on the states of jobs, and the statements that the operations of the queue share.
use rrpp_agent_bridge.Common.{String, Bool, true, false, ◌==◌, update_where}
use rrpp_agent_bridge.Store.Rows.{Db, EventStatus, Job, JobState}

abbrev pub is_queued : JobState → Bool
is_queued JobState.queued = true
is_queued _ = false

abbrev pub is_processing : JobState → Bool
is_processing JobState.processing = true
is_processing _ = false

abbrev pub is_dead_letter : JobState → Bool
is_dead_letter JobState.dead_letter = true
is_dead_letter _ = false

-- UPDATE jobs SET ... WHERE id=?
unfoldable pub set_job : String → (Job → Job) → Db → Db
set_job id f db = record db { jobs = update_where (λ j. j.id == id) f db.jobs }

-- UPDATE events SET status=? WHERE id=?
unfoldable pub set_event_status : String → EventStatus → Db → Db
set_event_status id status db = record db {
  events = update_where (λ e. e.id == id) (λ e. record e { status = status }) db.events;
}
