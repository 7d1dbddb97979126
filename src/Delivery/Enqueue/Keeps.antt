-- ===== src/Delivery/Enqueue/Keeps.antt =====
-- What `enqueue_delivery` and `create_human_reply` of rrpp_bridge/delivery.py keep: they add deliveries
-- that wait.
use rrpp_agent_bridge.Common.{ℕ, String, refl}
use rrpp_agent_bridge.Runtime.{get_mode, mode_of}
use rrpp_agent_bridge.Store.Rows.{Action, Db, Delivery, PolicyRow}
use rrpp_agent_bridge.Store.Monad.{record_audit}
use rrpp_agent_bridge.Store.Keeps.{Keeps, Keeps-write, keeps_rules}
use rrpp_agent_bridge.Kept.{IsKept, audit-Keeps, insert-Keeps}
use rrpp_agent_bridge.Workspace.Keeps.{conversation-Keeps}
use rrpp_agent_bridge.Delivery.Enqueue.{
  Order, ReplyContext, create_human_reply, duplicate_delivery, enqueue_delivery, insert_action,
  insert_delivery, insert_policy_decision, store_delivery, store_human_reply,
}

module _ {P : Db → Type 0} (kept : IsKept P) where
  record_audit-Keeps :
      (actor operation entity_type entity_id outcome : String)
      → Keeps P (record_audit actor operation entity_type entity_id outcome)
  record_audit-Keeps = audit-Keeps kept.ended

  pub get_mode-Keeps : Keeps P get_mode
  unfolding get_mode mode_of
  get_mode-Keeps = search keeps_rules depth 9

  insert_delivery-Keeps : (d : Delivery) → Keeps P (insert_delivery d)
  unfolding insert_delivery
  insert_delivery-Keeps d = Keeps-write _ _ (λ db h fresh. kept.add_delivery db d fresh h)

  pub insert_action-Keeps : (a : Action) → Keeps P (insert_action a)
  unfolding insert_action
  insert_action-Keeps a = insert-Keeps kept.ended _ _ (λ db. refl) (λ db. refl)

  pub policy_decision-Keeps : (p : PolicyRow) → Keeps P (insert_policy_decision p)
  unfolding insert_policy_decision
  policy_decision-Keeps p = insert-Keeps kept.ended _ _ (λ db. refl) (λ db. refl)

  store_delivery-Keeps : (o : Order) → Keeps P (store_delivery o)
  unfolding store_delivery
  store_delivery-Keeps o = search (keeps_rules, record_audit-Keeps, insert_delivery-Keeps) depth 9

  duplicate-Keeps : (o : Order) (d : Delivery) → Keeps P (duplicate_delivery o d)
  unfolding duplicate_delivery
  duplicate-Keeps o d = search (keeps_rules, record_audit-Keeps)

  pub enqueue_delivery-Keeps : (o : Order) → Keeps P (enqueue_delivery o)
  unfolding enqueue_delivery
  enqueue_delivery-Keeps o = search (keeps_rules, store_delivery-Keeps, duplicate-Keeps) depth 9

  store_human_reply-Keeps :
      (conversation_id message actor : String) (timestamp : ℕ) (context : ReplyContext)
      → Keeps P (store_human_reply conversation_id message actor timestamp context)
  unfolding store_human_reply
  store_human_reply-Keeps conversation_id message actor timestamp context =
      search
        (
          keeps_rules, record_audit-Keeps, get_mode-Keeps, insert_action-Keeps,
          policy_decision-Keeps, enqueue_delivery-Keeps, conversation-Keeps,
        )
        depth 16

  pub create_human_reply-Keeps :
      (conversation_id message actor : String)
      → Keeps P (create_human_reply conversation_id message actor)
  unfolding create_human_reply
  create_human_reply-Keeps conversation_id message actor =
      search (keeps_rules, store_human_reply-Keeps) depth 12
