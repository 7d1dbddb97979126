-- ===== src/Queue/Enqueue.antt =====
-- `JobQueue.enqueue` and `enqueue_in_transaction` of rrpp_bridge/queue.py.
use rrpp_agent_bridge.Common.{
  ℕ, String, Bool, true, false, ◌&&◌, ◌||◌, Option, none, some, [], ◌∷◌, ◌++◌, ltb, ◌==◌,
  find_where, any_where, update_where,
}
use rrpp_agent_bridge.Common.Text.{◌⧺◌}
use rrpp_agent_bridge.Models.{NormalizedEvent}
use rrpp_agent_bridge.Store.Rows.{Db, Event, EventStatus, Job, JobState}
use rrpp_agent_bridge.Store.Monad.{
  M, integrity_error, pure, raise, query, execute, write_unless, on_row, catch_integrity, when,
  transaction, utc_now, after, new_id, record_audit, ◌>>=◌, ◌>>◌,
}
use rrpp_agent_bridge.Workspace.Conversations.{ensure_conversation}
use rrpp_agent_bridge.Queue.Base.{is_queued}

abbrev pub is_message : String → String → Event → Bool
is_message channel external_id e = e.channel == channel && e.external_message_id == external_id

abbrev pub or_now : Option ℕ → ℕ → ℕ
or_now none timestamp = timestamp
or_now (some t) timestamp = t

unfoldable pub duplicate : String → Event → M (String × Bool)
duplicate actor e = do
  record_audit actor "event.duplicate" "event" e.id "ignored"
  pure (e.id, false)

abbrev pub new_event : NormalizedEvent → String → String → ℕ → Event
new_event event event_id conversation_id timestamp = record {
  id = event_id;
  channel = event.channel;
  external_message_id = event.external_message_id;
  sender = event.sender;
  recipient = event.recipient;
  subject = event.subject;
  body_text = event.body_text;
  received_at = or_now event.received_at timestamp;
  ingested_at = timestamp;
  metadata = event.metadata;
  work_key = event.work_key;
  status = EventStatus.queued;
  conversation_id = conversation_id;
}

abbrev pub new_job : String → String → String → ℕ → ℕ → Job
new_job job_id event_id work_key available_at timestamp = record {
  id = job_id;
  event_id = event_id;
  work_key = work_key;
  state = JobState.queued;
  attempts = 0;
  available_at = available_at;
  claimed_at = none;
  worker_id = none;
  last_error_code = none;
  last_error_message = none;
  created_at = timestamp;
  updated_at = timestamp;
  lease_expires_at = none;
  dismissed_at = none;
  superseded_by_job_id = none;
}

unfoldable pub insert_event : Event → M (Unit {0})
insert_event e =
    write_unless
      (λ db.
        any_where (λ o. o.id == e.id || is_message e.channel e.external_message_id o) db.events)
      (λ db. record db { events = db.events ++ e ∷ [] })

unfoldable pub insert_job : Job → M (Unit {0})
insert_job job =
    write_unless (λ db. any_where (λ o. o.id == job.id || o.event_id == job.event_id) db.jobs)
      (λ db. record db { jobs = db.jobs ++ job ∷ [] })

-- The jobs that wait for a conversation wait until it is quiet.
unfoldable pub postpone : String → ℕ → ℕ → Db → Db
postpone work_key available_at timestamp db = record db {
  jobs =
      update_where (λ j. j.work_key == work_key && is_queued j.state)
        (λ j. record j { available_at = available_at; updated_at = timestamp }) db.jobs;
}

abbrev pub is_from : String → Option String → Bool
is_from id none = false
is_from id (some s) = s == id

unfoldable pub insert_inbound_message : NormalizedEvent → String → String → ℕ → M (Unit {0})
insert_inbound_message event event_id conversation_id timestamp = do
  message_id ← new_id "msg"
  write_unless
      (λ db.
        any_where (λ m. m.id == message_id || is_from event_id m.source_event_id)
          db.conversation_messages)
      (λ db. record db {
        conversation_messages =
            db.conversation_messages
            ++ record {
              id = message_id;
              conversation_id = conversation_id;
              direction = "inbound";
              author_type = "customer";
              author_id = event.sender;
              external_message_id = event.external_message_id;
              body_text = event.body_text;
              status = "received";
              source_event_id = some event_id;
              source_delivery_id = none;
              created_at = or_now event.received_at timestamp;
              sent_at = none;
            }
              ∷ [];
      })

-- The body of the `try` of `enqueue_in_transaction`.
unfoldable pub accept : ℕ → NormalizedEvent → String → String → ℕ → M (String × Bool)
accept debounce_seconds event event_id job_id timestamp = do
  let actor = "adapter." ⧺ event.channel
  conversation_id ←
      ensure_conversation event.channel event.work_key event.recipient event.sender
        (or_now event.received_at timestamp) actor
  insert_event (new_event event event_id conversation_id timestamp)
  available_at ← after debounce_seconds
  insert_job (new_job job_id event_id event.work_key available_at timestamp)
  when (ltb 0 debounce_seconds) (execute (postpone event.work_key available_at timestamp))
  insert_inbound_message event event_id conversation_id timestamp
  record_audit actor "event.accepted" "event" event_id "accepted"
  pure (event_id, true)

-- The handler of its `IntegrityError`.
unfoldable pub after_conflict : NormalizedEvent → M (String × Bool)
after_conflict event = do
  row ← query (λ db. find_where (is_message event.channel event.external_message_id) db.events)
  on_row row (raise integrity_error) (duplicate ("adapter." ⧺ event.channel))

unfoldable pub enqueue_in_transaction : ℕ → NormalizedEvent → M (String × Bool)
enqueue_in_transaction debounce_seconds event = do
  event_id ← new_id "evt"
  job_id ← new_id "job"
  timestamp ← utc_now
  existing ← query (λ db. find_where (is_message event.channel event.external_message_id) db.events)
  on_row existing
      (catch_integrity (accept debounce_seconds event event_id job_id timestamp)
        (after_conflict event))
      (duplicate ("adapter." ⧺ event.channel))

unfoldable pub enqueue : ℕ → NormalizedEvent → M (String × Bool)
enqueue debounce_seconds event = transaction (enqueue_in_transaction debounce_seconds event)
