-- ===== src/Executor/Context.antt =====
-- What the agent is asked with, and what is made of its answer: `_bounded`, `_agent_context` and
-- `_intended` of rrpp_bridge/executor.py.
use rrpp_agent_bridge.Common.{
  ℕ, String, Bool, true, not, ◌&&◌, ◌||◌, Option, none, some, List, [], ◌∷◌, map, ◌==◌,
  if◌then◌else◌, find_where, select_where, length, drop, ◌-◌,
}
use rrpp_agent_bridge.Common.Json.{
  Value, Items, Fields, bool, text, arr, obj, nil, cons, field, end,
}
use rrpp_agent_bridge.Common.Text.{Python, prefix}
use rrpp_agent_bridge.Models.{AgentDecision, IntendedAction, ReferencedItem}
use rrpp_agent_bridge.Store.Rows.{Db, Conversation, Event, Message, ReceiverAccount}
use rrpp_agent_bridge.Store.Monad.{M, runtime_error, raise, query, on_row, ◌>>=◌}
use rrpp_agent_bridge.Agent.{AgentContext, ConversationTurn, detect_language_hint}
use rrpp_agent_bridge.Catalog.Snapshot.{load_snapshot}

-- `_bounded` of a text
abbrev pub bounded : String → ℕ → String
bounded value limit = prefix limit value

abbrev is_other : String → Option String → Bool
is_other event_id none = true
is_other event_id (some id) = not (id == event_id)

abbrev turn : Message → ConversationTurn
turn m = record {
  direction = m.direction;
  author_type = m.author_type;
  body_text = bounded m.body_text 2000;
  created_at = m.created_at;
}

-- The last rows of a table, in its order.
abbrev pub last_rows : {A : Type 0} → ℕ → List A → List A
last_rows n l = drop (length l - n) l

-- The last twelve messages of the conversation but those of the event, the oldest first.
unfoldable pub history_of : String → String → Db → List ConversationTurn
history_of conversation_id event_id db = map turn (
    last_rows 12 (
      select_where
        (λ m. m.conversation_id == conversation_id && is_other event_id m.source_event_id)
        db.conversation_messages))

-- The row of the join of the event with its conversation and account.
pub record Workspace : Type 0 where
  pub conversation : Conversation
  pub account : ReceiverAccount

abbrev workspace_row : Option Conversation → Option ReceiverAccount → Option Workspace
workspace_row (some c) (some a) = some (record { conversation = c; account = a })
workspace_row _ _ = none

abbrev account_of : Db → Option Conversation → Option ReceiverAccount
account_of db none = none
account_of db (some c) = find_where (λ a. a.id == c.receiver_account_id) db.receiver_accounts

unfoldable pub workspace_of : Event → Db → Option Workspace
workspace_of event db =
    let c = find_where (λ c. c.id == event.conversation_id) db.conversations in
    workspace_row c (account_of db c)

unfoldable pub context_in : Python → Event → Workspace → Db → AgentContext
context_in python event workspace db = record {
  correlation_id = event.id;
  conversation_id = workspace.conversation.id;
  channel = event.channel;
  receiver_account_id = workspace.account.external_account_id;
  external_user_id = workspace.conversation.external_user_id;
  language_hint = detect_language_hint python (bounded event.body_text 8000);
  incoming_message = bounded event.body_text 8000;
  history = history_of workspace.conversation.id event.id db;
  catalog_items = load_snapshot db 50;
  bot_paused = workspace.conversation.bot_paused;
}

unfoldable pub agent_context : Python → Event → M AgentContext
agent_context python event = do
  workspace ← query (workspace_of event)
  on_row workspace (raise (runtime_error "conversation_not_found"))
      λ w. query (context_in python event w)

abbrev reference : ReferencedItem → Value
reference item = obj (
    field "type" (text item.type)
      (field "id" (text item.id) (field "verified_at" (text item.verified_at) end)))

unfoldable pub references : List ReferencedItem → Items
references [] = nil
references (item ∷ l) = cons (reference item) (references l)

abbrev pub payload_of : AgentDecision → String → Fields
payload_of decision provider_id = field "text" (text decision.text) (
    field "language" (text decision.language) (
      field "reason_code" (text decision.reason_code) (
        field "agent_action" (text decision.action) (
          field "referenced_items" (arr (references decision.referenced_items)) (
            field "structured" (bool decision.structured)
              (field "source" (text provider_id) end))))))

-- `_intended`
unfoldable pub intended : AgentDecision → String → IntendedAction
intended decision provider_id =
    if decision.action == "reply" || decision.action == "ask_clarification"
    then record { type = "send_reply"; payload = payload_of decision provider_id }
    else if decision.action == "ignore"
    then record { type = "no_action"; payload = payload_of decision provider_id }
    else record { type = "escalate_to_owner"; payload = payload_of decision provider_id }
