-- ===== src/Workspace/Conversations/Keeps.antt =====
-- `ensure_conversation` writes to the conversations, the receiver accounts and the audit log: what
-- does not speak of them is kept.
use rrpp_agent_bridge.Common.{ℕ, String, List}
use rrpp_agent_bridge.Store.Rows.{Db, AuditEntry, Conversation, ReceiverAccount}
use rrpp_agent_bridge.Store.Keeps.{
  Keeps, Keeps-record_audit, Keeps-bind, Keeps-then, Keeps-write, Keeps-pure, Keeps-new_id,
  keeps_rules,
}
use rrpp_agent_bridge.Store.Monad.{record_audit}
use rrpp_agent_bridge.Workspace.Conversations.{
  ensure_conversation, receiver_account, new_account, reopen, open_conversation,
}

module _ {P : Db → Type 0}
    (audit : (db : Db) (l : List AuditEntry) → P db → P (record db { audit_log = l }))
    (accounts : (db : Db) (l : List ReceiverAccount)
      → P db
      → P (record db { receiver_accounts = l }))
    (conversations : (db : Db) (l : List Conversation)
      → P db
      → P (record db { conversations = l })) where
  record_audit-Keeps :
      (actor operation entity_type entity_id outcome : String)
      → Keeps P (record_audit actor operation entity_type entity_id outcome)
  record_audit-Keeps actor operation entity_type entity_id outcome =
      Keeps-record_audit actor operation entity_type entity_id outcome audit

  new_account-Keeps :
      (channel recipient : String) (timestamp : ℕ)
      → Keeps P (new_account channel recipient timestamp)
  unfolding new_account
  new_account-Keeps channel recipient timestamp =
      Keeps-bind _ _ (Keeps-new_id "acct")
        (λ id. Keeps-then _ _ (Keeps-write _ _ (λ db h _. accounts db _ h)) (Keeps-pure id))

  account-Keeps :
      (channel recipient : String) (timestamp : ℕ)
      → Keeps P (receiver_account channel recipient timestamp)
  unfolding receiver_account
  account-Keeps channel recipient timestamp = search (keeps_rules, new_account-Keeps)

  open-Keeps :
      (channel external_key account_id sender : String) (message_at timestamp : ℕ) (actor : String)
      → Keeps P
          (open_conversation channel external_key account_id sender message_at timestamp actor)
  unfolding open_conversation
  open-Keeps channel external_key account_id sender message_at timestamp actor =
      search (keeps_rules, conversations, record_audit-Keeps) depth 9

  reopen-Keeps :
      (row : Conversation) (account_id sender : String) (message_at timestamp : ℕ) (actor : String)
      → Keeps P (reopen row account_id sender message_at timestamp actor)
  unfolding reopen
  reopen-Keeps row account_id sender message_at timestamp actor =
      search (keeps_rules, conversations, record_audit-Keeps) depth 9

  pub ensure_conversation-Keeps :
      (channel external_key recipient sender : String) (message_at : ℕ) (actor : String)
      → Keeps P (ensure_conversation channel external_key recipient sender message_at actor)
  unfolding ensure_conversation
  ensure_conversation-Keeps channel external_key recipient sender message_at actor =
      search (keeps_rules, account-Keeps, open-Keeps, reopen-Keeps)
