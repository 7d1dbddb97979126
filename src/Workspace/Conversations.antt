-- ===== src/Workspace/Conversations.antt =====
-- Receiver accounts and conversations: `_receiver_account` and `ensure_conversation` of
-- rrpp_bridge/workspace.py.
pub mod Keeps
use Prim.Native.Char.{code}
use rrpp_agent_bridge.Common.{
  ℕ, ◌+◌, max, String, Bool, true, false, not, ◌&&◌, ◌||◌, none, some, [], ◌∷◌, ◌++◌, leb, eqb,
  ◌==◌, if◌then◌else◌, find_where, any_where, update_where,
}
use rrpp_agent_bridge.Common.Text.{strip}
use rrpp_agent_bridge.Store.Rows.{
  Conversation, ConversationStatus, ReceiverAccount, opened, pending_review, resolved,
}
use rrpp_agent_bridge.Store.Monad.{
  M, pure, query, write_unless, when, on_row, utc_now, new_id, record_audit, ◌>>=◌, ◌>>◌,
}

-- The NOCASE collation of SQLite folds the ASCII letters.
unfoldable pub fold_ascii : ℕ → ℕ
fold_ascii c = if leb b'A' c && leb c b'Z' then c + 32 else c

unfoldable pub nocase_eq : String → String → Bool
unfolding fold_ascii
nocase_eq String.[] String.[] = true
nocase_eq String.[] (String.◌∷◌ d t) = false
nocase_eq (String.◌∷◌ c s) String.[] = false
nocase_eq (String.◌∷◌ c s) (String.◌∷◌ d t) =
    eqb (fold_ascii (code c)) (fold_ascii (code d)) && nocase_eq s t

abbrev pub is_account : String → String → ReceiverAccount → Bool
is_account channel recipient a = a.channel == channel && nocase_eq a.external_account_id recipient

unfoldable pub new_account : String → String → ℕ → M String
new_account channel recipient timestamp = do
  account_id ← new_id "acct"
  write_unless
      (λ db.
        any_where (λ a. a.id == account_id || is_account channel (strip recipient) a)
          db.receiver_accounts)
      (λ db. record db {
        receiver_accounts =
            db.receiver_accounts
            ++ record {
              id = account_id;
              channel = channel;
              external_account_id = strip recipient;
              display_name = strip recipient;
              active = true;
              created_at = timestamp;
              updated_at = timestamp;
            }
              ∷ [];
      })
  pure account_id

unfoldable pub receiver_account : String → String → ℕ → M String
receiver_account channel recipient timestamp = do
  row ← query (λ db. find_where (is_account channel (strip recipient)) db.receiver_accounts)
  on_row row (new_account channel recipient timestamp) (λ a. pure a.id)

-- The status of a conversation when a message arrives.
unfoldable pub status_on_message : Conversation → ConversationStatus
status_on_message c = elim (c.status) [
  | resolved ↦ if c.bot_paused then pending_review else opened
  | other ↦ other
]

abbrev pub is_resolved : ConversationStatus → Bool
is_resolved resolved = true
is_resolved _ = false

-- The unique index on (channel, receiver_account_id, external_user_id).
abbrev pub is_customer : String → String → String → Conversation → Bool
is_customer channel account_id sender c =
    c.channel == channel && c.receiver_account_id == account_id && c.external_user_id == sender

unfoldable pub reopen : Conversation → String → String → ℕ → ℕ → String → M String
reopen row account_id sender message_at timestamp actor = do
  write_unless
      (λ db.
        any_where (λ c. not (c.id == row.id) && is_customer row.channel account_id sender c)
          db.conversations)
      (λ db. record db {
        conversations =
            update_where (λ c. c.id == row.id)
              (λ c. record c {
                receiver_account_id = account_id;
                external_user_id = sender;
                status = status_on_message row;
                last_message_at = max row.last_message_at message_at;
                updated_at = timestamp;
              })
              db.conversations;
      })
  when (is_resolved row.status)
      (record_audit actor "conversation.reopened" "conversation" row.id "open")
  pure row.id

unfoldable pub open_conversation : String → String → String → String → ℕ → ℕ → String → M String
open_conversation channel external_key account_id sender message_at timestamp actor = do
  conversation_id ← new_id "conv"
  write_unless
      (λ db.
        any_where
          (λ c.
            c.id == conversation_id
            || (c.channel == channel && c.external_key == external_key)
            || is_customer channel account_id sender c)
          db.conversations)
      (λ db. record db {
        conversations =
            db.conversations
            ++ record {
              id = conversation_id;
              channel = channel;
              external_key = external_key;
              status = opened;
              last_message_at = message_at;
              created_at = timestamp;
              updated_at = timestamp;
              receiver_account_id = account_id;
              external_user_id = sender;
              bot_paused = false;
              pause_reason = "";
              assigned_operator = none;
              last_outbound_at = none;
            }
              ∷ [];
      })
  record_audit actor "conversation.created" "conversation" conversation_id "open"
  pure conversation_id

unfoldable pub ensure_conversation : String → String → String → String → ℕ → String → M String
ensure_conversation channel external_key recipient sender message_at actor = do
  row ← query (λ db.
      find_where (λ c. c.channel == channel && c.external_key == external_key) db.conversations)
  timestamp ← utc_now
  account_id ← receiver_account channel recipient timestamp
  on_row row (open_conversation channel external_key account_id sender message_at timestamp actor)
      (λ c. reopen c account_id sender message_at timestamp actor)
