-- ===== src/Delivery/Worker.antt =====
-- `DeliveryExecutor` of rrpp_bridge/delivery.py: recover_stale, _claim, _ensure_escalation, _suppress,
-- run_once and _finish_error.
use rrpp_agent_bridge.Common.{
  ℕ, ◌+◌, String, Bool, true, false, not, ◌&&◌, ◌||◌, Option, none, some, [], ◌∷◌, ◌++◌, leb, ◌==◌,
  if◌then◌else◌, find_where, any_where, update_where, select_where, length,
}
use rrpp_agent_bridge.Store.Rows.{
  Db, ActionState, Conversation, ConversationStatus, Delivery, DeliveryAttempt, DeliveryStatus,
  ReviewKind,
}
use rrpp_agent_bridge.Store.Monad.{
  M, pure, query, execute, write_unless, when, on_row, transaction, for_each, utc_now, after,
  new_id, record_audit, ◌>>=◌, ◌>>◌,
}
use rrpp_agent_bridge.Workspace.Control.{set_conversation}
use rrpp_agent_bridge.Workspace.Reviews.{create_review, set_action_state}
use rrpp_agent_bridge.Delivery.Permission.{is_bot}

abbrev pub is_pending : DeliveryStatus → Bool
is_pending DeliveryStatus.pending = true
is_pending _ = false

abbrev pub is_sending : DeliveryStatus → Bool
is_sending DeliveryStatus.sending = true
is_sending _ = false

unfoldable pub set_delivery : String → (Delivery → Delivery) → Db → Db
set_delivery id f db = record db { deliveries = update_where (λ d. d.id == id) f db.deliveries }

abbrev pub expired_delivery : ℕ → Delivery → Delivery
expired_delivery timestamp d = record d {
  status = DeliveryStatus.unknown;
  worker_id = none;
  lease_expires_at = none;
  last_error_code = some "delivery_lease_expired";
  updated_at = timestamp;
}

abbrev pub attempt_of : String → ℕ → DeliveryAttempt → Bool
attempt_of delivery_id n a = a.delivery_id == delivery_id && leb n a.attempt && leb a.attempt n

-- INSERT OR IGNORE INTO delivery_attempts
unfoldable pub add_attempt_or_ignore : DeliveryAttempt → Db → Db
add_attempt_or_ignore attempt db =
    if any_where (λ a. a.id == attempt.id || attempt_of attempt.delivery_id attempt.attempt a)
      db.delivery_attempts
    then db
    else record db { delivery_attempts = db.delivery_attempts ++ attempt ∷ [] }

unfoldable pub insert_attempt : DeliveryAttempt → M (Unit {0})
insert_attempt attempt =
    write_unless
      (λ db.
        any_where (λ a. a.id == attempt.id || attempt_of attempt.delivery_id attempt.attempt a)
          db.delivery_attempts)
      (λ db. record db { delivery_attempts = db.delivery_attempts ++ attempt ∷ [] })

unfoldable pub review_unless_present : String → ReviewKind → String → String → M (Unit {0})
review_unless_present action_id kind text actor = do
  present ← query (λ db. any_where (λ r. r.action_id == action_id) db.action_reviews)
  when (not present) (create_review action_id kind text actor >> pure tt)

abbrev pub reconciled : ℕ → Conversation → Conversation
reconciled timestamp c = record c {
  status = ConversationStatus.pending_review;
  bot_paused = true;
  pause_reason = "delivery_requires_reconciliation";
  updated_at = timestamp;
}

unfoldable pub ensure_escalation : String → String → String → M (Unit {0})
ensure_escalation action_id conversation_id actor = do
  review_unless_present action_id ReviewKind.escalation "" actor
  timestamp ← utc_now
  execute (set_conversation conversation_id (reconciled timestamp))

-- lease_expires_at<=?
abbrev pub lease_over : ℕ → Option ℕ → Bool
lease_over timestamp none = false
lease_over timestamp (some t) = leb t timestamp

unfoldable pub recover_delivery : ℕ → String → Delivery → M (Unit {0})
recover_delivery timestamp actor d = do
  execute (set_delivery d.id (expired_delivery timestamp))
  attempt_id ← new_id "datt"
  execute (
      add_attempt_or_ignore (record {
        id = attempt_id;
        delivery_id = d.id;
        attempt = d.attempts;
        status = DeliveryStatus.unknown;
        error_code = some "delivery_lease_expired";
        external_message_id = none;
        created_at = timestamp;
      }))
  ensure_escalation d.action_id d.conversation_id actor
  record_audit actor "delivery.lease_recovered" "delivery" d.id "unknown"

unfoldable pub recover_stale : String → M ℕ
recover_stale actor = do
  timestamp ← utc_now
  transaction do
    rows ← query (λ db.
        select_where (λ d. is_sending d.status && lease_over timestamp d.lease_expires_at)
          db.deliveries)
    for_each rows (recover_delivery timestamp actor)
    pure (length rows)

abbrev pub claimed_delivery : ℕ → ℕ → String → Delivery → Delivery
claimed_delivery timestamp lease_expires_at worker_id d = record d {
  status = DeliveryStatus.sending;
  attempts = d.attempts + 1;
  claimed_at = some timestamp;
  lease_expires_at = some lease_expires_at;
  worker_id = some worker_id;
  updated_at = timestamp;
}

-- UPDATE deliveries SET ... WHERE id=? AND status='pending'
unfoldable pub set_pending_delivery : String → (Delivery → Delivery) → Db → Db
set_pending_delivery id f db = record db {
  deliveries = update_where (λ d. d.id == id && is_pending d.status) f db.deliveries;
}

unfoldable pub claim_delivery : ℕ → ℕ → String → Delivery → M (Option String)
claim_delivery timestamp lease_seconds worker_id d = do
  lease_expires_at ← after lease_seconds
  execute (set_pending_delivery d.id (claimed_delivery timestamp lease_expires_at worker_id))
  pure (some d.id)

unfoldable pub claim : ℕ → String → M (Option Delivery)
claim lease_seconds worker_id = do
  timestamp ← utc_now
  claimed ← transaction do
    row ←
        query (λ db.
          find_where (λ d. is_pending d.status && leb d.available_at timestamp) db.deliveries)
    on_row row (pure none) (claim_delivery timestamp lease_seconds worker_id)
  on_row claimed (pure none) λ id. query (λ db. find_where (λ d. d.id == id) db.deliveries)

abbrev pub suppressed_delivery : String → ℕ → Delivery → Delivery
suppressed_delivery reason timestamp d = record d {
  status = DeliveryStatus.suppressed;
  worker_id = none;
  lease_expires_at = none;
  last_error_code = some reason;
  updated_at = timestamp;
}

unfoldable pub hand_to_operator : Delivery → ℕ → String → M (Unit {0})
hand_to_operator d timestamp actor = do
  review_unless_present d.action_id ReviewKind.draft d.body_text actor
  execute (
      set_conversation d.conversation_id
        (λ c. record c { status = ConversationStatus.pending_review; updated_at = timestamp }))

unfoldable pub suppress : Delivery → String → String → M (Unit {0})
suppress d reason actor = do
  timestamp ← utc_now
  transaction do
    execute (set_delivery d.id (suppressed_delivery reason timestamp))
    execute (set_action_state d.action_id ActionState.suppressed timestamp)
    when (is_bot d.author_type) (hand_to_operator d timestamp actor)
    record_audit actor "delivery.suppressed" "delivery" d.id "suppressed"

abbrev pub failure_status : Bool → DeliveryStatus
failure_status true = DeliveryStatus.unknown
failure_status false = DeliveryStatus.failed

abbrev pub failure_name : Bool → String
failure_name true = "unknown"
failure_name false = "failed"

abbrev pub failed_delivery : String → Bool → ℕ → Delivery → Delivery
failed_delivery code ambiguous timestamp d = record d {
  status = failure_status ambiguous;
  last_error_code = some code;
  worker_id = none;
  lease_expires_at = none;
  updated_at = timestamp;
}

unfoldable pub finish_error : Delivery → String → Bool → String → M (Unit {0})
finish_error d code ambiguous actor = do
  timestamp ← utc_now
  transaction do
    execute (set_delivery d.id (failed_delivery code ambiguous timestamp))
    attempt_id ← new_id "datt"
    insert_attempt (record {
      id = attempt_id;
      delivery_id = d.id;
      attempt = d.attempts;
      status = failure_status ambiguous;
      error_code = some code;
      external_message_id = none;
      created_at = timestamp;
    })
    execute (set_action_state d.action_id ActionState.delivery_failed timestamp)
    ensure_escalation d.action_id d.conversation_id actor
    record_audit actor "delivery.failed" "delivery" d.id (failure_name ambiguous)
