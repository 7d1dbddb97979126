-- ===== src/Executor/Safety.antt =====
-- What the agent's answer must be for a message to be sent or dropped without a person:
-- `_action_for_job` of rrpp_bridge/executor.py with the policy of rrpp_bridge/policy.py.
use rrpp_agent_bridge.Common.{
  String, Bool, true, false, ◌&&◌, Option, ◌≡◌, refl, ◌↔◌, ◌⊎◌, inl, inr, arith, ◌==◌, ==-refl, ◌∙◌,
  sym, subst, if◌then◌else◌,
}
use rrpp_agent_bridge.Common.Json.{get_field}
use rrpp_agent_bridge.Common.Text.{Python}
use rrpp_agent_bridge.Models.{AgentDecision, Outcome, allowed}
use rrpp_agent_bridge.Store.Rows.{Event, Job}
use rrpp_agent_bridge.Policy.Decide.{decide, text_of}
use rrpp_agent_bridge.Policy.Allowed.{
  IsSendable, IsSupported, IsUnguarded, reply_action, send_reply-allowed_iff,
}
use rrpp_agent_bridge.Policy.Outcomes.{allowed-type}
use rrpp_agent_bridge.Delivery.Permission.{has_sender, is_allowed}
use rrpp_agent_bridge.Executor.Context.{intended, payload_of}
use rrpp_agent_bridge.Executor.Stage.{
  queue_delivery, ignore_message, await_review, Settings, auto_mode, next_step,
}
use rrpp_agent_bridge.Executor.Worker.{proposed}

agent_action-payload :
    (u : Python) (d : AgentDecision) (provider_id : String)
    → text_of u (get_field "agent_action" (payload_of d provider_id)) ≡ d.action
unfolding get_field ◌==◌
agent_action-payload u d provider_id = refl

allowed-of : (o : Outcome) → is_allowed o ≡ true → o ≡ allowed
allowed-of Outcome.allowed h = refl
allowed-of Outcome.blocked h = cc
allowed-of Outcome.escalated h = cc
allowed-of Outcome.pending_approval h = cc
allowed-of Outcome.ignored h = cc

intended-reply :
    (d : AgentDecision) (provider_id : String)
    → (intended d provider_id).type ≡ "send_reply"
    → intended d provider_id ≡ reply_action (payload_of d provider_id)
unfolding intended
intended-reply d provider_id h = ground arith

send-ne-human : ("send_reply" == "human_reply") ≡ false
unfolding ◌==◌
send-ne-human = refl

none-ne-human : ("no_action" == "human_reply") ≡ false
unfolding ◌==◌
none-ne-human = refl

escalate-ne-human : ("escalate_to_owner" == "human_reply") ≡ false
unfolding ◌==◌
escalate-ne-human = refl

never_human :
    (d : AgentDecision) (provider_id : String)
    → ((intended d provider_id).type == "human_reply") ≡ false
unfolding intended
never_human d provider_id = ground (arith, send-ne-human, none-ne-human, escalate-ne-human)

intended-human :
    (d : AgentDecision) (provider_id : String) → (intended d provider_id).type ≡ "human_reply" → ⊥
intended-human d provider_id h = ground (arith, never_human d provider_id, ==-refl "human_reply")

supported-action :
    (u : Python) (d : AgentDecision) (provider_id incoming : String)
    → IsSupported u (payload_of d provider_id) incoming
    → (d.action ≡ "ask_clarification") ⊎ (d.action ≡ "reply")
supported-action u d provider_id incoming (inl c) =
    inl (sym (agent_action-payload u d provider_id) ∙ c.action)
supported-action u d provider_id incoming (inr r) =
    inr (sym (agent_action-payload u d provider_id) ∙ r.action)

reply-intended :
    (d : AgentDecision) (provider_id : String)
    → (d.action ≡ "ask_clarification") ⊎ (d.action ≡ "reply")
    → intended d provider_id ≡ reply_action (payload_of d provider_id)
unfolding intended
reply-intended d provider_id (inl h) = ground (arith, h, ==-refl "ask_clarification")
reply-intended d provider_id (inr h) = ground (arith, h, ==-refl "reply")

module _ (u : Python) (d : AgentDecision) (provider_id channel incoming : String)
    (paused : Bool) where
  -- What the policy needs of a decision of the agent.
  abbrev pub IsAutomatic : Type 0
  IsAutomatic =
      IsUnguarded u incoming paused
      × IsSendable u (payload_of d provider_id) channel
      × IsSupported u (payload_of d provider_id) incoming

  allowed-IsAutomatic :
      (decide u (intended d provider_id) channel incoming paused).outcome ≡ allowed → IsAutomatic
  allowed-IsAutomatic h = elim (allowed-type u (intended d provider_id) channel incoming paused h) [
    | inl reply ↦ (send_reply-allowed_iff u (payload_of d provider_id) channel incoming paused).0 (
        subst (λ a. (decide u a channel incoming paused).outcome ≡ allowed)
          (intended-reply d provider_id reply) h)
    | inr human ↦ absurd (intended-human d provider_id human)
  ]

  IsAutomatic-allowed :
      IsAutomatic → (decide u (intended d provider_id) channel incoming paused).outcome ≡ allowed
  IsAutomatic-allowed h =
      subst (λ a. (decide u a channel incoming paused).outcome ≡ allowed)
        (sym (reply-intended d provider_id (supported-action u d provider_id incoming h.2)))
        ((send_reply-allowed_iff u (payload_of d provider_id) channel incoming paused).1 h)

sent-tests :
    (b c d x : Bool)
    → (if b && c && d then queue_delivery else if x then ignore_message else await_review)
      ≡ queue_delivery
    → (b ≡ true) × (c ≡ true) × (d ≡ true)
sent-tests true true true x h = (refl, refl, refl)
sent-tests true true false true h = cc h
sent-tests true true false false h = cc h
sent-tests true false d true h = cc h
sent-tests true false d false h = cc h
sent-tests false c d true h = cc h
sent-tests false c d false h = cc h

-- The executor chooses to queue a delivery for a message, which the delivery worker checks again before
-- it sends, exactly when the mode sends to the customer, the account has a sender, the bot is not
-- paused, the message needs no person and asks for no restricted operation, and the agent's answer is
-- structured, valid, claims nothing prohibited, and is a clarification or a grounded reply.
pub next_step-delivery_iff :
    (settings : Settings) (job : Job) (event : Event) (paused : Bool) (d : AgentDecision)
    (error : Option String) (mode : String)
    → (next_step settings (proposed settings job event paused d error mode) ≡ queue_delivery) ↔ (
        (auto_mode settings mode event.sender ≡ true)
        × (has_sender settings.senders event.recipient ≡ true)
        × IsAutomatic settings.python d settings.provider.provider_id event.channel event.body_text
            paused)
unfolding next_step proposed
next_step-delivery_iff settings job event paused d error mode =
    let u = settings.python in
    let id = settings.provider.provider_id in
    let outcome = (decide u (intended d id) event.channel event.body_text paused).outcome in
    (
      λ h.
          let (may, auto, sender) = sent-tests (is_allowed outcome) _ _ _ h in
          (
            auto,
            sender,
            allowed-IsAutomatic u d id event.channel event.body_text paused
                (allowed-of outcome may),
          ),
      λ (auto, sender, automatic). ground (
        arith,
        auto,
        sender,
        IsAutomatic-allowed u d id event.channel event.body_text paused automatic,
      ),
    )
