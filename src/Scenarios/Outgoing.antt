-- ===== src/Scenarios/Outgoing.antt =====
-- The theorems on the queue, the policy, the executor and the deliveries, at concrete inputs.
use rrpp_agent_bridge.Common.{
  ◌+◌, ◌*◌, ◌≤◌, true, false, none, some, [], ◌∷◌, ◌≡◌, refl, ◌⊎◌, arith, ◌==◌, count_where, min,
  find_where, any_where,
}
use rrpp_agent_bridge.Common.Json.{member}
use rrpp_agent_bridge.Models.{allowed, ignored, blocked}
use rrpp_agent_bridge.Queue.Claim.{works_on}
use rrpp_agent_bridge.Queue.Operations.{one_worker_per_conversation, perform_all}
use rrpp_agent_bridge.Queue.Recovery.{retry_delay}
use rrpp_agent_bridge.Queue.Retries.{retry_delay-bounds, retry_delay-doubles}
use rrpp_agent_bridge.Policy.Evaluation.{evaluation}
use rrpp_agent_bridge.Policy.Checks.{controlled_topic_present}
use rrpp_agent_bridge.Policy.Decide.{decide}
use rrpp_agent_bridge.Policy.Allowed.{
  IsSendable, IsSupported, IsUnguarded, ignore_action, reply_action, send_reply-allowed_iff,
}
use rrpp_agent_bridge.Policy.Outcomes.{
  IsSpamDecision, allowed-type, human_action, human_reply-allowed_iff, no_action-ignored_iff,
}
use rrpp_agent_bridge.Delivery.Permission.{
  Permission, account_reason, has_sender, mode_reason, newer_event, permission, permission_reason,
  policy_reason, stale_reason, token_of,
}
use rrpp_agent_bridge.Delivery.Permitted.{
  IsCurrent, IsReachable, SendsTo, permission_reason-none_iff,
}
use rrpp_agent_bridge.Delivery.Once.{is_request_for}
use rrpp_agent_bridge.Delivery.AtMostOnce.{after_runs, no_second_request}
use rrpp_agent_bridge.Executor.Context.{intended, payload_of, references}
use rrpp_agent_bridge.Executor.Sink.{decide_execution}
use rrpp_agent_bridge.Executor.Sinks.{decide_execution-executed_iff}
use rrpp_agent_bridge.Executor.Stage.{
  await_review, ignore_message, queue_delivery, auto_mode, next_step,
}
use rrpp_agent_bridge.Executor.Worker.{proposed}
use rrpp_agent_bridge.Executor.Safety.{IsAutomatic, next_step-delivery_iff}
use rrpp_agent_bridge.Executor.Review.{next_step-ignored, paused-awaits_review}
use rrpp_agent_bridge.Scenarios.Data.{
  python, senders, delivery, job, event, db, world, run_of, world-Once, world-IsSerial, operations,
  live, allowed_outcome, settings, greeting, spam, human_payload,
}

no_second_request_example :
    count_where (is_request_for "del_1") (after_runs (run_of "a" ∷ run_of "b" ∷ []) world).requests
    ≤ 1
no_second_request_example =
    no_second_request (run_of "a" ∷ run_of "b" ∷ []) world "del_1" world-Once

one_worker_example :
    count_where (works_on "instagram:club:customer") (perform_all operations world).db.jobs ≤ 1
one_worker_example =
    one_worker_per_conversation operations world "instagram:club:customer" world-IsSerial

paused-awaits_review_example :
    next_step settings (proposed settings job event true greeting none "live") ≡ await_review
paused-awaits_review_example =
    paused-awaits_review settings job event true greeting none "live" refl

greeting-delivered :
    next_step settings (proposed settings job event false greeting none "live") ≡ queue_delivery
unfolding evaluation next_step proposed intended auto_mode has_sender references
greeting-delivered = refl

spam-dropped :
    next_step settings (proposed settings job event false spam none "live") ≡ ignore_message
unfolding evaluation next_step proposed intended auto_mode has_sender references
spam-dropped = refl

next_step-delivery_iff_example :
    (auto_mode settings "live" "customer" ≡ true)
    × (has_sender senders "club" ≡ true)
    × IsAutomatic python greeting "openclaw" "instagram" "Hola" false
next_step-delivery_iff_example =
    (next_step-delivery_iff settings job event false greeting none "live").0 greeting-delivered

next_step-ignored_example :
    IsUnguarded python "Hola" false
    × (controlled_topic_present python "Hola" ≡ false)
    × IsSpamDecision (payload_of spam "openclaw")
next_step-ignored_example = next_step-ignored settings job event false spam none "live" spam-dropped

greeting-allowed :
    (decide python (reply_action (payload_of greeting "openclaw")) "instagram" "Hola" false).outcome
    ≡ allowed
unfolding evaluation references
greeting-allowed = refl

send_reply-allowed_iff_example :
    IsUnguarded python "Hola" false
    × IsSendable python (payload_of greeting "openclaw") "instagram"
    × IsSupported python (payload_of greeting "openclaw") "Hola"
send_reply-allowed_iff_example =
    (send_reply-allowed_iff python (payload_of greeting "openclaw") "instagram" "Hola" false).0
      greeting-allowed

spam-ignored :
    (decide python (ignore_action (payload_of spam "openclaw")) "instagram" "Hola" false).outcome
    ≡ ignored
unfolding evaluation references
spam-ignored = refl

no_action-ignored_iff_example :
    IsUnguarded python "Hola" false
    × (controlled_topic_present python "Hola" ≡ false)
    × IsSpamDecision (payload_of spam "openclaw")
no_action-ignored_iff_example =
    (no_action-ignored_iff python (payload_of spam "openclaw") "instagram" "Hola" false).0
      spam-ignored

human_reply-allowed_iff_example :
    (((decide python (human_action human_payload) "local" "Hola" false).outcome ≡ allowed)
      ⊎ ((decide python (human_action human_payload) "local" "Hola" false).outcome ≡ blocked))
human_reply-allowed_iff_example =
    (human_reply-allowed_iff python human_payload "local" "Hola" false).1

allowed-type_example :
    ((reply_action (payload_of greeting "openclaw")).type ≡ "send_reply")
    ⊎ ((reply_action (payload_of greeting "openclaw")).type ≡ "human_reply")
allowed-type_example =
    allowed-type python (reply_action (payload_of greeting "openclaw")) "instagram" "Hola" false
      greeting-allowed

delivery-permitted : permission_reason python senders db "live" delivery ≡ none
unfolding evaluation permission_reason permission policy_reason mode_reason account_reason
    stale_reason token_of has_sender newer_event find_where any_where
delivery-permitted = refl

permission_reason-none_iff_example :
    SendsTo python senders "live" delivery
    × IsReachable senders delivery
    × ((p : Permission) × (permission db delivery ≡ some p) × IsCurrent db delivery p)
permission_reason-none_iff_example =
    (permission_reason-none_iff python senders db "live" delivery).0 delivery-permitted

retry_delay-bounds_example : (5 ≤ retry_delay 4) × (retry_delay 4 ≤ 300)
retry_delay-bounds_example = retry_delay-bounds 4

retry_delay-doubles_example : retry_delay (2 + 1) ≡ min (2 * retry_delay 2) 300
retry_delay-doubles_example = retry_delay-doubles 2 (omega arith)

live-executed :
    ((decide_execution python "live" "allowed" "customer" []).status == "executed") ≡ true
unfolding decide_execution ◌==◌
live-executed = refl

decide_execution-executed_iff_example :
    (allowed_outcome ≡ "allowed")
    × ((live ≡ "live") ⊎ ((live ≡ "canary") × (member "customer" [] ≡ true)))
decide_execution-executed_iff_example =
    (decide_execution-executed_iff python "live" "allowed" "customer" []).0.0 live-executed
