-- ===== src/Policy/Allowed.antt =====
-- Exactly which proposals the policy lets through.
use rrpp_agent_bridge.Common.{
  String, Bool, true, false, ◌||◌, if◌then◌else◌, ◌∙◌, ◌≡◌, ◌↔◌, ◌⊎◌, arith, refl, ◌==◌, ==→eq,
  ==-refl, inl, inr,
}
use rrpp_agent_bridge.Common.Text.{Python, strip}
use rrpp_agent_bridge.Common.Json.{Fields, get_field, member}
use rrpp_agent_bridge.Models.{IntendedAction, allowed, escalated}
use rrpp_agent_bridge.Policy.Words.{safe_reply_reasons}
use rrpp_agent_bridge.Policy.Checks.{
  controlled_topic_present, human_review_required, restricted_operation_requested,
  prohibited_outbound_claim, valid_agent_payload, is_true, is_truthy,
}
use rrpp_agent_bridge.Policy.Decide.{
  decide, decide_ignore, decide_proposal, decide_reply, decide_reason, text_of,
}

-- A clarification that claims no support from the catalog.
pub record IsClarification (u : Python) (payload : Fields) : Type 0 where
  pub action : text_of u (get_field "agent_action" payload) ≡ "ask_clarification"
  pub reason : text_of u (get_field "reason_code" payload) ≡ "missing_details"
  pub no_references : is_truthy (get_field "referenced_items" payload) ≡ false

-- A reply with a safe reason: it has references exactly when it answers from the catalog, and a
-- controlled topic, on either side, wants an answer from the catalog.
pub record IsGroundedReply (u : Python) (payload : Fields) (incoming reply : String) : Type 0 where
  pub action : text_of u (get_field "agent_action" payload) ≡ "reply"
  pub reason : member (text_of u (get_field "reason_code" payload)) safe_reply_reasons ≡ true
  pub references :
      is_truthy (get_field "referenced_items" payload)
      ≡ (text_of u (get_field "reason_code" payload) == "catalog_answer")
  pub incoming_topic :
      controlled_topic_present u incoming ≡ true
      → text_of u (get_field "reason_code" payload) ≡ "catalog_answer"
  pub reply_topic :
      controlled_topic_present u reply ≡ true
      → text_of u (get_field "reason_code" payload) ≡ "catalog_answer"

reason_sound :
    (u : Python) (payload : Fields) (incoming reply : String)
    → (decide_reason u payload incoming reply).outcome ≡ allowed
    → IsGroundedReply u payload incoming reply
unfolding decide_reason
reason_sound u payload incoming reply h = ground (
  arith,
  ==→eq (text_of u (get_field "agent_action" payload)) "reply",
  ==→eq (text_of u (get_field "reason_code" payload)) "catalog_answer",
)

reason_complete :
    (u : Python) (payload : Fields) (incoming reply : String)
    → IsGroundedReply u payload incoming reply
    → (decide_reason u payload incoming reply).outcome ≡ allowed
unfolding decide_reason
reason_complete u payload incoming reply h =
    ground (arith, ==-refl "reply", ==-refl "catalog_answer")

-- What a proposal needs, whatever it says.
pub record IsSendable (u : Python) (payload : Fields) (channel : String) : Type 0 where
  pub instagram : channel ≡ "instagram"
  pub structured : is_true (get_field "structured" payload) ≡ true
  pub valid : valid_agent_payload payload ≡ true
  pub no_claim : prohibited_outbound_claim u (strip (text_of u (get_field "text" payload))) ≡ false

abbrev pub IsSupported : Python → Fields → String → Type 0
IsSupported u payload incoming =
    IsClarification u payload
    ⊎ IsGroundedReply u payload incoming (strip (text_of u (get_field "text" payload)))

reply-ne-ask : ("reply" == "ask_clarification") ≡ false
unfolding ◌==◌
reply-ne-ask = refl

module _ (u : Python) (payload : Fields) (channel incoming : String) where
  reply_sound :
      (decide_reply u payload channel incoming).outcome ≡ allowed
      → IsSendable u payload channel × IsSupported u payload incoming
  unfolding decide_reply
  reply_sound h = ground (
    arith,
    ==→eq channel "instagram",
    ==→eq (text_of u (get_field "agent_action" payload)) "ask_clarification",
    ==→eq (text_of u (get_field "reason_code" payload)) "missing_details",
    reason_sound u payload incoming (strip (text_of u (get_field "text" payload))),
  )

  reply_complete :
      IsSendable u payload channel
      → IsSupported u payload incoming
      → (decide_reply u payload channel incoming).outcome ≡ allowed
  unfolding decide_reply
  reply_complete s (inl c) =
      ground (arith, ==-refl "instagram", ==-refl "ask_clarification", ==-refl "missing_details")
  reply_complete s (inr r) = ground (
    arith,
    ==-refl "instagram",
    reply-ne-ask,
    reason_complete u payload incoming (strip (text_of u (get_field "text" payload))) r,
  )

-- What the conversation and the message must be for a proposal to be considered.
pub record IsUnguarded (u : Python) (incoming : String) (bot_paused : Bool) : Type 0 where
  pub running : bot_paused ≡ false
  pub no_incident : human_review_required u incoming ≡ false
  pub no_operation : restricted_operation_requested u incoming ≡ false

ignore-ne-allowed :
    (u : Python) (payload : Fields) (incoming : String)
    → (decide_ignore u payload incoming).outcome ≡ allowed
    → ⊥
unfolding decide_ignore
ignore-ne-allowed u payload incoming h = ground arith

abbrev pub reply_action : Fields → IntendedAction
reply_action payload = record { type = "send_reply"; payload = payload }

abbrev pub ignore_action : Fields → IntendedAction
ignore_action payload = record { type = "no_action"; payload = payload }

send_reply-proposal :
    (u : Python) (payload : Fields) (channel incoming : String) (bot_paused : Bool)
    → (decide u (reply_action payload) channel incoming bot_paused).outcome ≡ (
        if bot_paused
          || human_review_required u incoming
          || restricted_operation_requested u incoming
        then escalated
        else (decide_reply u payload channel incoming).outcome)
unfolding decide decide_proposal member ◌==◌
send_reply-proposal u payload channel incoming bot_paused = ground arith

pub no_action-proposal :
    (u : Python) (payload : Fields) (channel incoming : String) (bot_paused : Bool)
    → (decide u (ignore_action payload) channel incoming bot_paused).outcome ≡ (
        if bot_paused
          || human_review_required u incoming
          || restricted_operation_requested u incoming
        then escalated
        else (decide_ignore u payload incoming).outcome)
unfolding decide decide_proposal member ◌==◌
no_action-proposal u payload channel incoming bot_paused = ground arith

-- A proposed reply is allowed exactly when the bot is not paused, the message needs no person and asks
-- for no restricted operation, the channel is Instagram, the payload is structured and valid, its text
-- claims nothing prohibited, and the reply is a clarification or is grounded.
pub send_reply-allowed_iff :
    (u : Python) (payload : Fields) (channel incoming : String) (bot_paused : Bool)
    → ((decide u (reply_action payload) channel incoming bot_paused).outcome ≡ allowed) ↔ (
        IsUnguarded u incoming bot_paused
        × IsSendable u payload channel
        × IsSupported u payload incoming)
send_reply-allowed_iff u payload channel incoming bot_paused = (
  λ h. ground (
    arith,
    send_reply-proposal u payload channel incoming bot_paused,
    reply_sound u payload channel incoming,
  ),
  λ (unguarded, sendable, supported).
      send_reply-proposal u payload channel incoming bot_paused
      ∙ ground (arith, unguarded, reply_complete u payload channel incoming sendable supported),
)
