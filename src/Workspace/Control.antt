-- ===== src/Workspace/Control.antt =====
-- What an operator sets on a conversation: `set_conversation_status` and `set_bot_paused` of
-- rrpp_bridge/workspace.py.
use rrpp_agent_bridge.Common.{
  ℕ, String, Bool, Option, none, some, ◌==◌, if◌then◌else◌, any_where, update_where,
}
use rrpp_agent_bridge.Common.Text.{strip, prefix, ◌⧺◌}
use rrpp_agent_bridge.Store.Rows.{Db, Conversation, ConversationStatus}
use rrpp_agent_bridge.Store.Monad.{
  M, value_error, pure, raise, query, execute, when, on_row, transaction, utc_now, record_audit,
  ◌>>=◌, ◌>>◌,
}

unfoldable pub set_conversation : String → (Conversation → Conversation) → Db → Db
set_conversation id f db = record db {
  conversations = update_where (λ c. c.id == id) f db.conversations;
}

-- An UPDATE of a conversation, with whether there is one.
unfoldable pub update_conversation : String → (Conversation → Conversation) → M Bool
update_conversation id f = do
  changed ← query (λ db. any_where (λ c. c.id == id) db.conversations)
  execute (set_conversation id f)
  pure changed

-- The two states that an operator can give.
unfoldable pub operator_status : String → Option ConversationStatus
operator_status status =
    if status == "open"
    then some ConversationStatus.opened
    else if status == "resolved"
    then some ConversationStatus.resolved
    else none

unfoldable pub set_conversation_status : String → String → String → M Bool
set_conversation_status conversation_id name actor =
    on_row (operator_status name) (raise (value_error "Invalid operator conversation status"))
      λ status. transaction do
        timestamp ← utc_now
        changed ←
            update_conversation conversation_id
              (λ c. record c { status = status; updated_at = timestamp })
        when changed
            (record_audit actor ("conversation." ⧺ name) "conversation" conversation_id name)
        pure changed

abbrev pub paused_conversation : Bool → String → String → ℕ → Conversation → Conversation
paused_conversation paused reason actor timestamp c = record c {
  bot_paused = paused;
  pause_reason = if paused then prefix 500 (strip reason) else "";
  assigned_operator = if paused then some actor else none;
  status = if paused then ConversationStatus.pending_review else ConversationStatus.opened;
  updated_at = timestamp;
}

unfoldable pub set_bot_paused : String → Bool → String → String → M Bool
set_bot_paused conversation_id paused actor reason = do
  timestamp ← utc_now
  transaction do
    changed ←
        update_conversation conversation_id (paused_conversation paused reason actor timestamp)
    when changed (
        record_audit actor
          (if paused then "conversation.bot_paused" else "conversation.bot_resumed") "conversation"
          conversation_id (if paused then "paused" else "open"))
    pure changed
