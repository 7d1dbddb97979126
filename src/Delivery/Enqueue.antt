-- ===== src/Delivery/Enqueue.antt =====
-- `enqueue_delivery` and `create_human_reply` of rrpp_bridge/delivery.py. The type of an author is one
-- of the two that the schema allows.
pub mod Keeps
use rrpp_agent_bridge.Common.{
  ℕ, String, Bool, not, ◌&&◌, ◌||◌, Option, none, some, [], ◌∷◌, ◌++◌, leb, ◌==◌, if◌then◌else◌,
  find_where, any_where, last_where,
}
use rrpp_agent_bridge.Common.Json.{field, end, text}
use rrpp_agent_bridge.Common.Text.{strip, is_empty, text_length, ◌⧺◌}
use rrpp_agent_bridge.Models.{Outcome}
use rrpp_agent_bridge.Runtime.{get_mode}
use rrpp_agent_bridge.Store.Rows.{
  Db, Action, ActionState, AuthorType, Conversation, ConversationStatus, Delivery, DeliveryStatus,
  Event, Job, PolicyRow, ReceiverAccount,
}
use rrpp_agent_bridge.Store.Monad.{
  M, value_error, pure, raise, query, execute, write_unless, raise_if, on_row, transaction, utc_now,
  new_id, record_audit, ◌>>=◌, ◌>>◌,
}
use rrpp_agent_bridge.Workspace.Control.{set_conversation}

abbrev pub valid_id : String → Bool
valid_id s = not (is_empty s) && leb (text_length s) 200

abbrev pub valid_body : String → Bool
valid_body s = not (is_empty s) && leb (text_length s) 1000

-- The fields of a delivery that its caller gives.
pub record Order : Type 0 where
  pub action_id : String
  pub conversation_id : String
  pub channel : String
  pub sender_account_id : String
  pub recipient_external_id : String
  pub body_text : String
  pub author_type : AuthorType
  pub author_id : String

abbrev pub new_delivery : String → ℕ → Order → Delivery
new_delivery id timestamp o = record {
  id = id;
  action_id = o.action_id;
  conversation_id = o.conversation_id;
  channel = o.channel;
  sender_account_id = o.sender_account_id;
  recipient_external_id = o.recipient_external_id;
  body_text = strip o.body_text;
  author_type = o.author_type;
  author_id = o.author_id;
  status = DeliveryStatus.pending;
  idempotency_key = "instagram:" ⧺ o.action_id;
  attempts = 0;
  available_at = timestamp;
  claimed_at = none;
  lease_expires_at = none;
  worker_id = none;
  last_error_code = none;
  external_message_id = none;
  created_at = timestamp;
  updated_at = timestamp;
  sent_at = none;
}

unfoldable pub insert_delivery : Delivery → M (Unit {0})
insert_delivery d =
    write_unless
      (λ db.
        any_where
          (λ o.
            o.id == d.id || (o.action_id == d.action_id || o.idempotency_key == d.idempotency_key))
          db.deliveries)
      (λ db. record db { deliveries = db.deliveries ++ d ∷ [] })

unfoldable pub store_delivery : Order → M String
store_delivery o = do
  delivery_id ← new_id "del"
  timestamp ← utc_now
  insert_delivery (new_delivery delivery_id timestamp o)
  record_audit o.author_id "delivery.queued" "delivery" delivery_id "pending"
  pure delivery_id

unfoldable pub duplicate_delivery : Order → Delivery → M String
duplicate_delivery o existing = do
  record_audit o.author_id "delivery.duplicate" "delivery" existing.id "ignored"
  pure existing.id

unfoldable pub enqueue_delivery : Order → M String
enqueue_delivery o = do
  raise_if (not (o.channel == "instagram")) (value_error "Unsupported delivery target")
  raise_if
      (not (
        valid_body (strip o.body_text)
        && valid_id o.sender_account_id
        && valid_id o.recipient_external_id))
      (value_error "Invalid delivery payload")
  existing ← query (λ db. find_where (λ d. d.action_id == o.action_id) db.deliveries)
  on_row existing (store_delivery o) (duplicate_delivery o)

-- The row of the join of a conversation with its account, its last event and the event's job.
pub record ReplyContext : Type 0 where
  pub channel : String
  pub external_user_id : String
  pub external_account_id : String
  pub event_id : String
  pub job_id : String

abbrev pub job_of_event : Db → Event → Option Job
job_of_event db e = find_where (λ j. j.event_id == e.id) db.jobs

abbrev pub has_job : Db → String → Event → Bool
has_job db conversation_id e =
    e.conversation_id == conversation_id && any_where (λ j. j.event_id == e.id) db.jobs

abbrev pub context_of :
    Conversation → Option ReceiverAccount → Option Event → Option Job → Option ReplyContext
context_of c (some account) (some e) (some j) = some (record {
  channel = c.channel;
  external_user_id = c.external_user_id;
  external_account_id = account.external_account_id;
  event_id = e.id;
  job_id = j.id;
})
context_of c _ _ _ = none

abbrev pub last_job : Db → Option Event → Option Job
last_job db none = none
last_job db (some e) = job_of_event db e

abbrev pub context_from : Db → Option Conversation → Option ReplyContext
context_from db none = none
context_from db (some c) =
    let event = last_where (has_job db c.id) db.events in
    context_of c (find_where (λ a. a.id == c.receiver_account_id) db.receiver_accounts) event
      (last_job db event)

unfoldable pub reply_context : String → Db → Option ReplyContext
reply_context conversation_id db =
    context_from db (find_where (λ c. c.id == conversation_id) db.conversations)

unfoldable pub insert_action : Action → M (Unit {0})
insert_action a =
    write_unless (λ db. any_where (λ o. o.id == a.id) db.actions)
      (λ db. record db { actions = db.actions ++ a ∷ [] })

unfoldable pub insert_policy_decision : PolicyRow → M (Unit {0})
insert_policy_decision p =
    write_unless
      (λ db. any_where (λ o. o.id == p.id || o.action_id == p.action_id) db.policy_decisions)
      (λ db. record db { policy_decisions = db.policy_decisions ++ p ∷ [] })

unfoldable pub store_human_reply : String → String → String → ℕ → ReplyContext → M String
store_human_reply conversation_id message actor timestamp context = do
  action_id ← new_id "act"
  mode ← get_mode
  insert_action (record {
    id = action_id;
    event_id = context.event_id;
    job_id = context.job_id;
    type = "human_reply";
    payload = field "text" (text message) end;
    state = ActionState.queued_delivery;
    mode = mode;
    created_at = timestamp;
    updated_at = timestamp;
    author_type = "human";
  })
  decision_id ← new_id "dec"
  insert_policy_decision (record {
    id = decision_id;
    action_id = action_id;
    outcome = Outcome.allowed;
    policy_id = "policy.authenticated-human.v3";
    reason = "Authenticated human response may use the delivery queue";
    created_at = timestamp;
  })
  delivery_id ← enqueue_delivery (record {
    action_id = action_id;
    conversation_id = conversation_id;
    channel = "instagram";
    sender_account_id = context.external_account_id;
    recipient_external_id = context.external_user_id;
    body_text = message;
    author_type = AuthorType.human;
    author_id = actor;
  })
  execute (
      set_conversation conversation_id (λ c. record c {
        status = ConversationStatus.pending_review;
        assigned_operator = some actor;
        updated_at = timestamp;
      }))
  record_audit actor "human.reply_created" "action" action_id "allowed"
  pure delivery_id

unfoldable pub create_human_reply : String → String → String → M String
create_human_reply conversation_id message actor = do
  raise_if (not (valid_body (strip message)))
      (value_error "La resposta ha de tenir entre 1 i 1000 caracters")
  timestamp ← utc_now
  transaction do
    context ← query (reply_context conversation_id)
    on_row context (raise (value_error "La conversa no admet enviament per Instagram")) λ c.
        if c.channel == "instagram"
        then store_human_reply conversation_id (strip message) actor timestamp c
        else raise (value_error "La conversa no admet enviament per Instagram")
