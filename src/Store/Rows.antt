-- ===== src/Store/Rows.antt =====
-- The rows of the tables of rrpp_bridge/sql, as the migrations leave them. A time is its number of
-- milliseconds: the texts that `utc_now` writes are ordered as the times are.
use rrpp_agent_bridge.Common.{ℕ, String, Bool, Option, List}
use rrpp_agent_bridge.Common.Json.{Fields}
use rrpp_agent_bridge.Models.{Outcome}

pub data EventStatus : Type 0 where
  queued batched retrying failed processed dismissed : EventStatus

pub record Event : Type 0 where
  pub id : String
  pub channel : String
  pub external_message_id : String
  pub sender : String
  pub recipient : String
  pub subject : String
  pub body_text : String
  pub received_at : ℕ
  pub ingested_at : ℕ
  pub metadata : Fields
  pub work_key : String
  pub status : EventStatus
  pub conversation_id : String

pub data JobState : Type 0 where
  queued processing superseded completed dead_letter dismissed : JobState

pub record Job : Type 0 where
  pub id : String
  pub event_id : String
  pub work_key : String
  pub state : JobState
  pub attempts : ℕ
  pub available_at : ℕ
  pub claimed_at : Option ℕ
  pub worker_id : Option String
  pub last_error_code : Option String
  pub last_error_message : Option String
  pub created_at : ℕ
  pub updated_at : ℕ
  pub lease_expires_at : Option ℕ
  pub dismissed_at : Option ℕ
  pub superseded_by_job_id : Option String

pub data ActionState : Type 0 where
  generated queued_delivery ignored pending_review executed_simulated suppressed sent : ActionState
  delivery_failed prepared rejected resolved : ActionState

pub record Action : Type 0 where
  pub id : String
  pub event_id : String
  pub job_id : String
  pub type : String
  pub payload : Fields
  pub state : ActionState
  pub mode : String
  pub created_at : ℕ
  pub updated_at : ℕ
  pub author_type : String

pub record PolicyRow : Type 0 where
  pub id : String
  pub action_id : String
  pub outcome : Outcome
  pub policy_id : String
  pub reason : String
  pub created_at : ℕ

pub record AgentDecisionRow : Type 0 where
  pub id : String
  pub action_id : String
  pub schema_version : String
  pub decision_action : String
  pub language : String
  pub reason_code : String
  pub structured : Bool
  pub created_at : ℕ

pub record Execution : Type 0 where
  pub id : String
  pub action_id : String
  pub idempotency_key : String
  pub mode : String
  pub status : String
  pub reason : String
  pub simulated : Bool
  pub created_at : ℕ

pub data ReviewKind : Type 0 where
  draft escalation : ReviewKind

pub data ReviewStatus : Type 0 where
  pending prepared rejected resolved : ReviewStatus

pub record Review : Type 0 where
  pub id : String
  pub action_id : String
  pub kind : ReviewKind
  pub status : ReviewStatus
  pub current_text : String
  pub version : ℕ
  pub reviewed_by : Option String
  pub created_at : ℕ
  pub updated_at : ℕ

pub record Revision : Type 0 where
  pub id : String
  pub review_id : String
  pub version : ℕ
  pub text : String
  pub editor : String
  pub created_at : ℕ

pub data ConversationStatus : Type 0 where
  opened pending_review resolved : ConversationStatus

pub record Conversation : Type 0 where
  pub id : String
  pub channel : String
  pub external_key : String
  pub status : ConversationStatus
  pub last_message_at : ℕ
  pub created_at : ℕ
  pub updated_at : ℕ
  pub receiver_account_id : String
  pub external_user_id : String
  pub bot_paused : Bool
  pub pause_reason : String
  pub assigned_operator : Option String
  pub last_outbound_at : Option ℕ

pub record ReceiverAccount : Type 0 where
  pub id : String
  pub channel : String
  pub external_account_id : String
  pub display_name : String
  pub active : Bool
  pub created_at : ℕ
  pub updated_at : ℕ

pub record Message : Type 0 where
  pub id : String
  pub conversation_id : String
  pub direction : String
  pub author_type : String
  pub author_id : String
  pub external_message_id : String
  pub body_text : String
  pub status : String
  pub source_event_id : Option String
  pub source_delivery_id : Option String
  pub created_at : ℕ
  pub sent_at : Option ℕ

pub data DeliveryStatus : Type 0 where
  pending sending sent suppressed failed unknown : DeliveryStatus

pub data AuthorType : Type 0 where
  bot human : AuthorType

pub record Delivery : Type 0 where
  pub id : String
  pub action_id : String
  pub conversation_id : String
  pub channel : String
  pub sender_account_id : String
  pub recipient_external_id : String
  pub body_text : String
  pub author_type : AuthorType
  pub author_id : String
  pub status : DeliveryStatus
  pub idempotency_key : String
  pub attempts : ℕ
  pub available_at : ℕ
  pub claimed_at : Option ℕ
  pub lease_expires_at : Option ℕ
  pub worker_id : Option String
  pub last_error_code : Option String
  pub external_message_id : Option String
  pub created_at : ℕ
  pub updated_at : ℕ
  pub sent_at : Option ℕ

pub record DeliveryAttempt : Type 0 where
  pub id : String
  pub delivery_id : String
  pub attempt : ℕ
  pub status : DeliveryStatus
  pub error_code : Option String
  pub external_message_id : Option String
  pub created_at : ℕ

pub record Setting : Type 0 where
  pub key : String
  pub value : String
  pub updated_at : ℕ
  pub updated_by : String

pub record Receipt : Type 0 where
  pub id : String
  pub provider : String
  pub payload_sha256 : String
  pub status : String
  pub accepted_count : ℕ
  pub duplicate_count : ℕ
  pub ignored_count : ℕ
  pub received_at : ℕ

pub record Venue : Type 0 where
  pub id : String
  pub slug : String
  pub name : String
  pub default_language : String
  pub active : Bool
  pub bot_knowledge : String
  pub created_at : String
  pub updated_at : String

pub record Route : Type 0 where
  pub id : String
  pub venue_id : String
  pub channel : String
  pub recipient : String
  pub active : Bool
  pub created_at : String
  pub updated_at : String

pub record CatalogEvent : Type 0 where
  pub id : String
  pub venue_id : String
  pub name : String
  pub starts_at : String
  pub ends_at : Option String
  pub status : String
  pub active : Bool
  pub verified_at : String
  pub verified_by : String
  pub created_at : String
  pub updated_at : String

pub record CatalogOffer : Type 0 where
  pub id : String
  pub event_id : String
  pub name : String
  pub ticket_type : String
  pub price_minor : Option ℕ
  pub currency : String
  pub promotion_text : String
  pub conditions : String
  pub availability_status : String
  pub active : Bool
  pub valid_from : Option String
  pub valid_until : Option String
  pub verified_at : String
  pub verified_by : String
  pub created_at : String
  pub updated_at : String

pub record CatalogLink : Type 0 where
  pub id : String
  pub offer_id : String
  pub kind : String
  pub url : String
  pub active : Bool
  pub verified_at : String
  pub verified_by : String
  pub created_at : String
  pub updated_at : String

-- The details of an audit entry are left out.
pub record AuditEntry : Type 0 where
  pub occurred_at : ℕ
  pub actor : String
  pub operation : String
  pub entity_type : String
  pub entity_id : String
  pub outcome : String

pub record Db : Type 0 where
  pub events : List Event
  pub jobs : List Job
  pub actions : List Action
  pub policy_decisions : List PolicyRow
  pub agent_decisions : List AgentDecisionRow
  pub action_executions : List Execution
  pub action_reviews : List Review
  pub draft_revisions : List Revision
  pub conversations : List Conversation
  pub receiver_accounts : List ReceiverAccount
  pub conversation_messages : List Message
  pub deliveries : List Delivery
  pub delivery_attempts : List DeliveryAttempt
  pub runtime_settings : List Setting
  pub webhook_receipts : List Receipt
  pub audit_log : List AuditEntry
  pub venues : List Venue
  pub catalog_events : List CatalogEvent
  pub catalog_offers : List CatalogOffer
  pub catalog_links : List CatalogLink
  pub venue_routes : List Route
