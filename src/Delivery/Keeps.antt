-- ===== src/Delivery/Keeps.antt =====
-- What the parts of a run of the delivery worker keep, but for the claim: of the jobs and deliveries,
-- they only end deliveries.
use rrpp_agent_bridge.Common.{ℕ, String, Bool, true, false, refl, arith}
use rrpp_agent_bridge.Common.Text.{Python}
use rrpp_agent_bridge.Runtime.{get_mode, mode_of}
use rrpp_agent_bridge.Sender.{SendOutcome, sent, send_error}
use rrpp_agent_bridge.Store.Rows.{Db, Delivery, DeliveryAttempt, ReviewKind}
use rrpp_agent_bridge.Store.Monad.{record_audit, execute}
use rrpp_agent_bridge.Store.Keeps.{Keeps, Keeps-bind, Keeps-then, Keeps-new_id, keeps_rules}
use rrpp_agent_bridge.Kept.{Ends, IsEnded, audit-Keeps, end-Keeps, insert-Keeps, other-Keeps}
use rrpp_agent_bridge.Workspace.Keeps.{action-Keeps, conversation-Keeps, create_review-Keeps}
use rrpp_agent_bridge.Delivery.Permission.{Senders}
use rrpp_agent_bridge.Delivery.Worker.{
  add_attempt_or_ignore, ensure_escalation, expired_delivery, failed_delivery, finish_error,
  hand_to_operator, insert_attempt, recover_delivery, recover_stale, review_unless_present,
  set_delivery, suppress, suppressed_delivery,
}
use rrpp_agent_bridge.Delivery.Run.{
  finish, finish_sent, insert_outbound_message, reason_for, sent_delivery,
}

module _ {P : Db → Type 0} (kept : IsEnded P) where
  record_audit-Keeps :
      (actor operation entity_type entity_id outcome : String)
      → Keeps P (record_audit actor operation entity_type entity_id outcome)
  record_audit-Keeps = audit-Keeps kept

  ruleset delivery_rules =
      (keeps_rules, record_audit-Keeps, conversation-Keeps, action-Keeps, create_review-Keeps)

  unless_present-Keeps :
      (action_id : String) (kind : ReviewKind) (text actor : String)
      → Keeps P (review_unless_present action_id kind text actor)
  unfolding review_unless_present
  unless_present-Keeps action_id kind text actor = search (delivery_rules, create_review-Keeps)

  escalation-Keeps :
      (action_id conversation_id actor : String)
      → Keeps P (ensure_escalation action_id conversation_id actor)
  unfolding ensure_escalation
  escalation-Keeps action_id conversation_id actor = search (delivery_rules, unless_present-Keeps)

  attempt_or_ignore-Keeps : (a : DeliveryAttempt) → Keeps P (execute (add_attempt_or_ignore a))
  unfolding add_attempt_or_ignore
  attempt_or_ignore-Keeps a = other-Keeps kept _ (λ db. ground arith) (λ db. ground arith)

  expired-Ends : (timestamp : ℕ) → Ends (expired_delivery timestamp)
  expired-Ends timestamp = record { same_id = λ d. refl; not_pending = λ d. refl }

  recover_delivery-Keeps :
      (timestamp : ℕ) (actor : String) (d : Delivery) → Keeps P (recover_delivery timestamp actor d)
  unfolding recover_delivery
  recover_delivery-Keeps timestamp actor d =
      Keeps-then _ _ (end-Keeps kept d.id _ (expired-Ends timestamp))
        (search (delivery_rules, attempt_or_ignore-Keeps, escalation-Keeps) depth 9)

  pub recover_stale-Keeps : (actor : String) → Keeps P (recover_stale actor)
  unfolding recover_stale
  recover_stale-Keeps actor = search (delivery_rules, recover_delivery-Keeps) depth 9

  hand_to_operator-Keeps :
      (d : Delivery) (timestamp : ℕ) (actor : String) → Keeps P (hand_to_operator d timestamp actor)
  unfolding hand_to_operator
  hand_to_operator-Keeps d timestamp actor = search (delivery_rules, unless_present-Keeps)

  suppressed-Keeps :
      (id reason : String) (timestamp : ℕ)
      → Keeps P (execute (set_delivery id (suppressed_delivery reason timestamp)))
  suppressed-Keeps id reason timestamp =
      end-Keeps kept id _ (record { same_id = λ d. refl; not_pending = λ d. refl })

  pub suppress-Keeps : (d : Delivery) (reason actor : String) → Keeps P (suppress d reason actor)
  unfolding suppress
  suppress-Keeps d reason actor =
      search (delivery_rules, suppressed-Keeps, hand_to_operator-Keeps) depth 9

  insert_attempt-Keeps : (a : DeliveryAttempt) → Keeps P (insert_attempt a)
  unfolding insert_attempt
  insert_attempt-Keeps a = insert-Keeps kept _ _ (λ db. refl) (λ db. refl)

  failed-Keeps :
      (id code : String) (ambiguous : Bool) (timestamp : ℕ)
      → Keeps P (execute (set_delivery id (failed_delivery code ambiguous timestamp)))
  failed-Keeps id code true timestamp =
      end-Keeps kept id _ (record { same_id = λ d. refl; not_pending = λ d. refl })
  failed-Keeps id code false timestamp =
      end-Keeps kept id _ (record { same_id = λ d. refl; not_pending = λ d. refl })

  finish_error-Keeps :
      (d : Delivery) (code : String) (ambiguous : Bool) (actor : String)
      → Keeps P (finish_error d code ambiguous actor)
  unfolding finish_error
  finish_error-Keeps d code ambiguous actor =
      search (delivery_rules, failed-Keeps, insert_attempt-Keeps, escalation-Keeps) depth 12

  outbound-Keeps :
      (d : Delivery) (message_id : String) (timestamp : ℕ)
      → Keeps P (insert_outbound_message d message_id timestamp)
  unfolding insert_outbound_message
  outbound-Keeps d message_id timestamp =
      Keeps-bind _ _ (Keeps-new_id "msg") (λ id. insert-Keeps kept _ _ (λ db. refl) (λ db. refl))

  sent-Keeps :
      (id message_id : String) (timestamp : ℕ)
      → Keeps P (execute (set_delivery id (sent_delivery message_id timestamp)))
  sent-Keeps id message_id timestamp =
      end-Keeps kept id _ (record { same_id = λ d. refl; not_pending = λ d. refl })

  finish_sent-Keeps :
      (d : Delivery) (message_id worker_id : String) → Keeps P (finish_sent d message_id worker_id)
  unfolding finish_sent
  finish_sent-Keeps d message_id worker_id =
      search (delivery_rules, sent-Keeps, insert_attempt-Keeps, outbound-Keeps) depth 12

  pub finish-Keeps :
      (d : Delivery) (worker_id : String) (outcome : SendOutcome)
      → Keeps P (finish d worker_id outcome)
  unfolding finish
  finish-Keeps d worker_id (sent recipient message_id) = finish_sent-Keeps d message_id worker_id
  finish-Keeps d worker_id (send_error code ambiguous) =
      finish_error-Keeps d code ambiguous worker_id

  get_mode-Keeps : Keeps P get_mode
  unfolding get_mode mode_of
  get_mode-Keeps = search delivery_rules depth 9

  pub reason_for-Keeps :
      (python : Python) (senders : Senders) (d : Delivery) → Keeps P (reason_for python senders d)
  unfolding reason_for
  reason_for-Keeps python senders d = search (delivery_rules, get_mode-Keeps) depth 9
