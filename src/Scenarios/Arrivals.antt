-- ===== src/Scenarios/Arrivals.antt =====
-- The theorem on repeated webhooks, at a concrete input: a webhook with a message that is stored.
use rrpp_agent_bridge.Common.{◌==◌, ◌≡◌, refl, any_where, find_where, update_where}
use rrpp_agent_bridge.Common.Text.{is_empty, is_space, lstrip, rstrip, strip, ◌⧺◌}
use rrpp_agent_bridge.Store.Monad.{calls, ok}
use rrpp_agent_bridge.Workspace.Conversations.{
  ensure_conversation, fold_ascii, new_account, nocase_eq, open_conversation, receiver_account,
  reopen, status_on_message,
}
use rrpp_agent_bridge.Queue.Enqueue.{
  accept, after_conflict, duplicate, enqueue_in_transaction, insert_event, insert_inbound_message,
  insert_job, postpone,
}
use rrpp_agent_bridge.Inbound.Instagram.{all_seen, events_of}
use rrpp_agent_bridge.Inbound.Webhook.{
  catch_all, enqueue_all, insert_receipt, receive, receive_in_transaction, respond, store_events,
}
use rrpp_agent_bridge.Inbound.Replays.{IsSame, receive-again}
use rrpp_agent_bridge.Scenarios.Data.{read_payload, world}

received : (receive 10 "d1" read_payload world).0 ≡ ok (respond 200 "EVENT_RECEIVED")
unfolding receive calls catch_all receive_in_transaction find_where store_events enqueue_all
    events_of all_seen enqueue_in_transaction ◌==◌ accept ensure_conversation receiver_account
    new_account any_where ◌⧺◌ reopen insert_event insert_job update_where is_empty is_space lstrip
    rstrip strip insert_receipt after_conflict duplicate insert_inbound_message postpone fold_ascii
    nocase_eq open_conversation status_on_message
received = refl

receive-again_example :
    let after = (receive 10 "d1" read_payload world).1 in
    ((receive 0 "d1" read_payload after).0 ≡ ok (respond 200 "EVENT_RECEIVED"))
    × IsSame "d1" after.db (receive 0 "d1" read_payload after).1.db
receive-again_example = receive-again "d1" 10 0 read_payload read_payload world received
