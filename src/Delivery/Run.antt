-- ===== src/Delivery/Run.antt =====
-- `DeliveryExecutor.run_once` of rrpp_bridge/delivery.py.
pub mod Keeps
use rrpp_agent_bridge.Common.{
  ℕ, String, Bool, true, false, ◌||◌, Option, none, some, [], ◌∷◌, ◌++◌, ◌==◌, any_where,
}
use rrpp_agent_bridge.Common.Text.{Python}
use rrpp_agent_bridge.Runtime.{get_mode}
use rrpp_agent_bridge.Sender.{Remote, SendOutcome, sent, send_error, send_text}
use rrpp_agent_bridge.Store.Rows.{
  ActionState, AuthorType, ConversationStatus, Delivery, DeliveryStatus,
}
use rrpp_agent_bridge.Store.Monad.{
  M, pure, query, execute, write_unless, on_row, transaction, utc_now, new_id, record_audit, ◌>>=◌,
  ◌>>◌,
}
use rrpp_agent_bridge.Workspace.Control.{set_conversation}
use rrpp_agent_bridge.Workspace.Reviews.{set_action_state}
use rrpp_agent_bridge.Delivery.Permission.{Senders, permission_reason, policy_reason, permission}
use rrpp_agent_bridge.Delivery.Worker.{
  claim, finish_error, insert_attempt, recover_stale, set_delivery, suppress,
}

abbrev pub sent_delivery : String → ℕ → Delivery → Delivery
sent_delivery message_id timestamp d = record d {
  status = DeliveryStatus.sent;
  external_message_id = some message_id;
  sent_at = some timestamp;
  updated_at = timestamp;
  worker_id = none;
  lease_expires_at = none;
  last_error_code = none;
}

abbrev pub author_name : AuthorType → String
author_name AuthorType.bot = "bot"
author_name AuthorType.human = "human"

abbrev pub is_delivery : String → Option String → Bool
is_delivery id none = false
is_delivery id (some d) = d == id

unfoldable pub insert_outbound_message : Delivery → String → ℕ → M (Unit {0})
insert_outbound_message d message_id timestamp = do
  id ← new_id "msg"
  write_unless
      (λ db.
        any_where (λ m. m.id == id || is_delivery d.id m.source_delivery_id)
          db.conversation_messages)
      (λ db. record db {
        conversation_messages =
            db.conversation_messages
            ++ record {
              id = id;
              conversation_id = d.conversation_id;
              direction = "outbound";
              author_type = author_name d.author_type;
              author_id = d.author_id;
              external_message_id = message_id;
              body_text = d.body_text;
              status = "sent";
              source_event_id = none;
              source_delivery_id = some d.id;
              created_at = timestamp;
              sent_at = some timestamp;
            }
              ∷ [];
      })

unfoldable pub finish_sent : Delivery → String → String → M (Unit {0})
finish_sent d message_id worker_id = do
  timestamp ← utc_now
  transaction do
    execute (set_delivery d.id (sent_delivery message_id timestamp))
    attempt_id ← new_id "datt"
    insert_attempt (record {
      id = attempt_id;
      delivery_id = d.id;
      attempt = d.attempts;
      status = DeliveryStatus.sent;
      error_code = none;
      external_message_id = some message_id;
      created_at = timestamp;
    })
    insert_outbound_message d message_id timestamp
    execute (set_action_state d.action_id ActionState.sent timestamp)
    execute (
        set_conversation d.conversation_id (λ c. record c {
          status = ConversationStatus.resolved;
          last_outbound_at = some timestamp;
          updated_at = timestamp;
        }))
    record_audit worker_id "delivery.sent" "delivery" d.id "sent"

unfoldable pub finish : Delivery → String → SendOutcome → M (Unit {0})
finish d worker_id (sent recipient message_id) = finish_sent d message_id worker_id
finish d worker_id (send_error code ambiguous) = finish_error d code ambiguous worker_id

-- The mode is read only where the policy lets the delivery pass.
unfoldable pub reason_for : Python → Senders → Delivery → M (Option String)
reason_for python senders d = do
  blocked ← query (λ db. policy_reason d (permission db d))
  on_row blocked (do mode ← get_mode; query (λ db. permission_reason python senders db mode d))
      (λ reason. pure (some reason))

unfoldable pub send : Python → Remote → String → Delivery → M (Unit {0})
send python remote worker_id d = do
  outcome ← send_text python remote d.id d.sender_account_id d.recipient_external_id d.body_text
  finish d worker_id outcome

unfoldable pub deliver : Python → Remote → Senders → String → Delivery → M Bool
deliver python remote senders worker_id d = do
  reason ← reason_for python senders d
  on_row reason (send python remote worker_id d) (λ r. suppress d r worker_id)
  pure true

unfoldable pub run_once : Python → Remote → Senders → String → M Bool
run_once python remote senders worker_id = do
  recover_stale "worker.delivery-recovery"
  delivery ← claim senders.lease_seconds worker_id
  on_row delivery (pure false) (deliver python remote senders worker_id)
