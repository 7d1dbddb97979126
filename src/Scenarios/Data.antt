-- ===== src/Scenarios/Data.antt =====
-- A small state of the database, a payload and a request, and answers of an agent.
use rrpp_agent_bridge.Common.{
  ◌*◌, String, true, false, none, some, List, [], ◌∷◌, arith, count_where,
}
use rrpp_agent_bridge.Common.Json.{Value, Fields, text, num, arr, obj, nil, cons, field, end}
use rrpp_agent_bridge.Common.Text.{Python}
use rrpp_agent_bridge.Models.{AgentDecision, NormalizedEvent, allowed}
use rrpp_agent_bridge.Store.Rows.{
  Action, ActionState, Conversation, ConversationStatus, PolicyRow, Db, AuthorType, Delivery,
  DeliveryStatus, Event, EventStatus, Job, JobState,
}
use rrpp_agent_bridge.Store.Monad.{ok, World, runtime_error}
use rrpp_agent_bridge.Queue.Serial.{QueueIsSerial}
use rrpp_agent_bridge.Queue.Operations.{Operation, claims, enqueues, fails, recovers}
use rrpp_agent_bridge.Sender.{Remote, network_error}
use rrpp_agent_bridge.Delivery.Permission.{Senders}
use rrpp_agent_bridge.Delivery.Once.{Once, no_claims}
use rrpp_agent_bridge.Delivery.AtMostOnce.{Run}
use rrpp_agent_bridge.Inbound.Instagram.{
  Normalized, Seen, accepted, ignored as ignored_item, new_event, normalized,
}
use rrpp_agent_bridge.Inbound.Webhook.{Application, Environ, declared}
use rrpp_agent_bridge.Agent.{nothing}
use rrpp_agent_bridge.Executor.Stage.{Settings}

abbrev pub python : Python
python = record {
  casefold = λ s. s;
  without_marks = λ s. s;
  is_decimal = λ c. false;
  show = λ v. "";
}

abbrev pub senders : Senders
senders = record {
  accounts = "club" ∷ [];
  account_tokens = ("club", true) ∷ [];
  send_enabled = true;
  canary_senders = [];
  lease_seconds = 60;
}

abbrev pub delivery : Delivery
delivery = record {
  id = "del_1";
  action_id = "act_1";
  conversation_id = "conv_1";
  channel = "instagram";
  sender_account_id = "club";
  recipient_external_id = "customer";
  body_text = "Hola";
  author_type = AuthorType.human;
  author_id = "operator";
  status = DeliveryStatus.pending;
  idempotency_key = "instagram:act_1";
  attempts = 0;
  available_at = 0;
  claimed_at = none;
  lease_expires_at = none;
  worker_id = none;
  last_error_code = none;
  external_message_id = none;
  created_at = 0;
  updated_at = 0;
  sent_at = none;
}

abbrev pub job : Job
job = record {
  id = "job_1";
  event_id = "evt_1";
  work_key = "instagram:club:customer";
  state = JobState.queued;
  attempts = 0;
  available_at = 0;
  claimed_at = none;
  worker_id = none;
  last_error_code = none;
  last_error_message = none;
  created_at = 0;
  updated_at = 0;
  lease_expires_at = none;
  dismissed_at = none;
  superseded_by_job_id = none;
}

abbrev pub event : Event
event = record {
  id = "evt_1";
  channel = "instagram";
  external_message_id = "mid_1";
  sender = "customer";
  recipient = "club";
  subject = "Instagram DM";
  body_text = "Hola";
  received_at = 0;
  ingested_at = 0;
  metadata = end;
  work_key = "instagram:club:customer";
  status = EventStatus.queued;
  conversation_id = "conv_1";
}

abbrev pub message : NormalizedEvent
message = record {
  channel = "instagram";
  external_message_id = "mid_2";
  sender = "customer";
  recipient = "club";
  subject = "Instagram DM";
  body_text = "Hola de nou";
  work_key = "instagram:club:customer";
  metadata = end;
  received_at = some 5;
}

abbrev pub action : Action
action = record {
  id = "act_1";
  event_id = "evt_1";
  job_id = "job_0";
  type = "human_reply";
  payload = end;
  state = ActionState.queued_delivery;
  mode = "live";
  created_at = 0;
  updated_at = 0;
  author_type = "human";
}

abbrev pub policy : PolicyRow
policy = record {
  id = "dec_1";
  action_id = "act_1";
  outcome = allowed;
  policy_id = "policy";
  reason = "";
  created_at = 0;
}

abbrev pub conversation : Conversation
conversation = record {
  id = "conv_1";
  channel = "instagram";
  external_key = "instagram:club:customer";
  status = ConversationStatus.opened;
  last_message_at = 0;
  created_at = 0;
  updated_at = 0;
  receiver_account_id = "acc_1";
  external_user_id = "customer";
  bot_paused = true;
  pause_reason = "";
  assigned_operator = none;
  last_outbound_at = none;
}

-- One job that waits, and one delivery of a person's reply, in a conversation with a paused bot.
abbrev pub db : Db
db = record {
  events = event ∷ [];
  jobs = job ∷ [];
  actions = action ∷ [];
  policy_decisions = policy ∷ [];
  agent_decisions = [];
  action_executions = [];
  action_reviews = [];
  draft_revisions = [];
  conversations = conversation ∷ [];
  receiver_accounts = [];
  conversation_messages = [];
  deliveries = delivery ∷ [];
  delivery_attempts = [];
  runtime_settings = [];
  webhook_receipts = [];
  audit_log = [];
  venues = [];
  catalog_events = [];
  catalog_offers = [];
  catalog_links = [];
  venue_routes = [];
}

abbrev pub world : World
world = record { db = db; clock = λ n. n * 1000; uuids = λ n. "0"; requests = [] }

abbrev pub lost : Remote
lost r = network_error

abbrev pub run_of : String → Run
run_of worker_id = record {
  python = python;
  remote = lost;
  senders = senders;
  worker_id = worker_id;
}

pub world-Once : Once no_claims world
unfolding count_where
world-Once = record { unique = λ id. ground arith; spent = λ id. ground arith }

pub world-IsSerial : QueueIsSerial db
unfolding count_where
world-IsSerial = record { unique_ids = λ id. ground arith; serial = λ k. ground arith }

abbrev pub operations : List Operation
operations =
    enqueues 0 message
    ∷ claims "a" 60
    ∷ claims "b" 60
    ∷ fails job (runtime_error "x") "a" 3
    ∷ recovers 3 "worker"
    ∷ claims "b" 60
    ∷ []

abbrev pub club : String
club = "club"

abbrev pub other : String
other = "other"

abbrev pub live : String
live = "live"

abbrev pub allowed_outcome : String
allowed_outcome = "allowed"

abbrev pub settings : Settings
settings = record {
  python = python;
  provider = record { provider_id = "openclaw"; contract = nothing };
  senders = senders;
  max_attempts = 3;
  lease_seconds = 60;
}

abbrev pub greeting : AgentDecision
greeting = record {
  action = "reply";
  text = "Hola";
  language = "ca";
  reason_code = "greeting";
  referenced_items = [];
  structured = true;
}

abbrev pub spam : AgentDecision
spam = record {
  action = "ignore";
  text = "";
  language = "ca";
  reason_code = "spam_or_non_message";
  referenced_items = [];
  structured = true;
}

abbrev pub human_payload : Fields
human_payload = field "text" (text "Hola") end

abbrev pub identified : String → Value
identified id = obj (field "id" (text id) end)

abbrev pub text_item : Value
text_item = obj (
    field "sender" (identified "customer") (
      field "recipient" (identified "club") (
        field "message" (obj (field "mid" (text "mid_9") (field "text" (text " Hola ") end)))
          (field "timestamp" (num false 7000) end))))

abbrev pub reaction_item : Value
reaction_item = obj (field "sender" (identified "customer") end)

abbrev pub payload : Fields
payload = field "object" (text "instagram") (
    field "entry"
      (arr (
        cons
          (obj (
            field "id" (text "club")
              (field "messaging" (arr (cons text_item (cons reaction_item nil))) end)))
          nil))
      end)

abbrev pub app : Application
app = record {
  python = python;
  parse = λ body. ok (obj payload);
  hmac_sha256 = λ secret body. "";
  sha256 = λ body. "";
  enabled = true;
  is_ready = true;
  verify_token = "token";
  app_secret = "secret";
  account_ids = "club" ∷ [];
  debounce_seconds = 10;
}

abbrev pub seen_message : Seen
seen_message =
    accepted
      (record {
        sender_id = "customer";
        provider_recipient_id = "club";
        receiver_account_id = "club";
        message_id = "mid_9";
        text = " Hola ";
        timestamp = num false 7000;
      })
      (new_event "customer" "club" "club" "mid_9" " Hola " 7000)

abbrev pub read_payload : Normalized
read_payload =
    normalized (
      record { entry_id = "club"; seen = seen_message ∷ ignored_item "unsupported_event" ∷ [] }
      ∷ [])

abbrev pub environ : Environ
environ = record {
  path = "/webhooks/instagram";
  method = "POST";
  content_type = "application/json";
  content_length = declared 2;
  signature = "sha256=";
  input = "{}";
  hub_mode = "";
  hub_verify_token = "";
  hub_challenge = "";
}
