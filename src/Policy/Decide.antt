-- ===== src/Policy/Decide.antt =====
-- `Policy.decide` of rrpp_bridge/policy.py, with the part for each kind of action on its own.
use rrpp_agent_bridge.Common.{
  [], ◌∷◌, String, Bool, not, ◌&&◌, ◌||◌, Option, none, some, ◌==◌, if◌then◌else◌,
}
use rrpp_agent_bridge.Common.Text.{Python, to_text, strip}
use rrpp_agent_bridge.Common.Json.{Value, Fields, get_field, member, has_exactly}
use rrpp_agent_bridge.Models.{
  IntendedAction, PolicyDecision, Outcome, allowed, blocked, escalated, pending_approval, ignored,
}
use rrpp_agent_bridge.Policy.Words.{known_actions, safe_reply_reasons, agent_payload_fields}
use rrpp_agent_bridge.Policy.Checks.{
  controlled_topic_present, human_review_required, restricted_operation_requested,
  prohibited_outbound_claim, valid_text, valid_language, valid_source, valid_references,
  valid_agent_payload, is_true, is_text, is_absent, is_truthy,
}

abbrev pub verdict : Outcome → String → String → PolicyDecision
verdict outcome policy_id reason = record {
  outcome = outcome;
  policy_id = policy_id;
  reason = reason;
}

unfoldable pub decide_human : Fields → String → PolicyDecision
decide_human payload channel =
    if not (channel == "instagram")
    then verdict blocked "policy.human-channel.v3"
        "Human delivery is not implemented for this channel"
    else if not (has_exactly ("text" ∷ []) payload) || not (valid_text (get_field "text" payload))
    then verdict blocked "policy.human-payload.v3" "Human delivery payload is invalid"
    else verdict allowed "policy.authenticated-human.v3"
        "Authenticated human response may use the delivery queue"

-- The conditions under which a complete spam decision is refused.
unfoldable pub incomplete_ignore : Fields → Bool
incomplete_ignore payload =
    not (has_exactly agent_payload_fields payload)
    || not (is_text "ignore" (get_field "agent_action" payload))
    || not (is_text "spam_or_non_message" (get_field "reason_code" payload))
    || not (is_absent (get_field "text" payload))
    || not (valid_language (get_field "language" payload))
    || not (valid_source (get_field "source" payload))
    || not (valid_references (get_field "referenced_items" payload))
    || is_truthy (get_field "referenced_items" payload)

unfoldable pub decide_ignore : Python → Fields → String → PolicyDecision
decide_ignore u payload incoming_text =
    if controlled_topic_present u incoming_text
    then verdict escalated "policy.ignore-guard.v3"
        "A controlled-topic message cannot be silently ignored"
    else if not (is_true (get_field "structured" payload))
    then verdict pending_approval "policy.structured-output.v3"
        "Unstructured model output cannot be ignored automatically"
    else if incomplete_ignore payload
    then verdict escalated "policy.ignore-guard.v3"
        "Only a complete structured spam decision may be ignored"
    else verdict ignored "policy.no-action.v3" "Structured non-message or spam requires no response"

-- str(payload[name]); the checks before it made sure of the field.
abbrev pub text_of : Python → Option Value → String
text_of u (some v) = to_text u v
text_of u none = ""

-- From the check of the reason on.
unfoldable pub decide_reason : Python → Fields → String → String → PolicyDecision
decide_reason u payload incoming_text reply_text =
    let reason_code = text_of u (get_field "reason_code" payload) in
    let references = is_truthy (get_field "referenced_items" payload) in
    let controlled_topic =
      controlled_topic_present u incoming_text || controlled_topic_present u reply_text in
    if not (text_of u (get_field "agent_action" payload) == "reply")
      || not (member reason_code safe_reply_reasons)
    then verdict escalated "policy.unsupported-decision.v3"
        "Decision is not eligible for automatic delivery"
    else if controlled_topic && not (reason_code == "catalog_answer")
    then verdict escalated "policy.controlled-topic-reference.v3"
        "Controlled-topic replies require verified catalog support"
    else if reason_code == "catalog_answer" && not references
    then verdict escalated "policy.catalog-reference.v3"
        "Catalog answers require verified catalog references"
    else if not (reason_code == "catalog_answer") && references
    then verdict escalated "policy.reference-mismatch.v3"
        "Low-risk conversational replies cannot claim catalog support"
    else verdict allowed "policy.safe-instagram-reply.v3"
        "Structured reply passed deterministic safety checks"

unfoldable pub decide_reply : Python → Fields → String → String → PolicyDecision
decide_reply u payload channel incoming_text =
    let reply_text = strip (text_of u (get_field "text" payload)) in
    if not (channel == "instagram")
    then verdict pending_approval "policy.channel-review.v3"
        "Automatic delivery is enabled only for Instagram"
    else if not (is_true (get_field "structured" payload))
    then verdict pending_approval "policy.structured-output.v3"
        "Unstructured model output cannot be sent automatically"
    else if not (valid_agent_payload payload)
    then verdict escalated "policy.invalid-payload.v3"
        "Automatic delivery payload is malformed or incomplete"
    else if prohibited_outbound_claim u reply_text
    then verdict escalated "policy.prohibited-claim.v3"
        "Proposed response claims or requests a prohibited operation"
    else if text_of u (get_field "agent_action" payload) == "ask_clarification"
        && text_of u (get_field "reason_code" payload) == "missing_details"
    then (if is_truthy (get_field "referenced_items" payload)
        then verdict escalated "policy.reference-mismatch.v3"
            "Clarifications cannot claim catalog support"
        else verdict allowed "policy.safe-clarification.v3"
            "A bounded clarification contains no unsupported decision")
    else decide_reason u payload incoming_text reply_text

-- What the agent proposes, when the conversation and the message let it.
unfoldable pub decide_proposal : Python → IntendedAction → String → String → Bool → PolicyDecision
decide_proposal u action channel incoming_text bot_paused =
    if bot_paused
    then verdict escalated "policy.conversation-paused.v3" "Bot is paused for this conversation"
    else if human_review_required u incoming_text
    then verdict escalated "policy.incident-or-credential.v3"
        "Incident, complaint, or supplied credential requires a human"
    else if restricted_operation_requested u incoming_text
    then verdict escalated "policy.restricted-operation.v3"
        "Customer-specific business operation requires a human"
    else if action.type == "no_action"
    then decide_ignore u action.payload incoming_text
    else decide_reply u action.payload channel incoming_text

unfoldable pub decide : Python → IntendedAction → String → String → Bool → PolicyDecision
decide u action channel incoming_text bot_paused =
    if not (member action.type known_actions)
    then verdict blocked "policy.unknown-action.v3" "Action type has no explicit policy coverage"
    else if action.type == "escalate_to_owner"
    then verdict escalated "policy.escalation.v3" "Request requires a human"
    else if action.type == "draft_reply"
    then verdict pending_approval "policy.compatibility-review.v3"
        "Legacy or unstructured output requires review"
    else if action.type == "human_reply"
    then decide_human action.payload channel
    else decide_proposal u action channel incoming_text bot_paused
