-- ===== src/Models.antt =====
-- The value types of rrpp_bridge/models.py. A metadata or payload dictionary is a JSON object.
use rrpp_agent_bridge.Common.{ℕ, String, Bool, Option, List}
use rrpp_agent_bridge.Common.Json.{Fields}

pub record NormalizedEvent : Type 0 where
  pub channel : String
  pub external_message_id : String
  pub sender : String
  pub recipient : String
  pub subject : String
  pub body_text : String
  pub work_key : String
  pub metadata : Fields
  pub received_at : Option ℕ

pub record IntendedAction : Type 0 where
  pub type : String
  pub payload : Fields

pub record ReferencedItem : Type 0 where
  pub type : String
  pub id : String
  pub verified_at : String

pub record AgentDecision : Type 0 where
  pub action : String
  pub text : String
  pub language : String
  pub reason_code : String
  pub referenced_items : List ReferencedItem
  pub structured : Bool

pub record CatalogItem : Type 0 where
  pub type : String
  pub id : String
  pub verified_at : String
  pub content : Fields

-- The outcomes that the policy gives.
pub data Outcome : Type 0 where
  allowed blocked escalated pending_approval ignored : Outcome

pub record PolicyDecision : Type 0 where
  pub outcome : Outcome
  pub policy_id : String
  pub reason : String
