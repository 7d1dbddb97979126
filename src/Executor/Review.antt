-- ===== src/Executor/Review.antt =====
-- When a message is dropped without a person, and when it waits for one: `_action_for_job` of
-- rrpp_bridge/executor.py with the policy of rrpp_bridge/policy.py.
use rrpp_agent_bridge.Common.{
  String, Bool, true, false, ◌&&◌, Option, ◌≡◌, refl, arith, ◌==◌, ==→eq, subst, if◌then◌else◌,
}
use rrpp_agent_bridge.Models.{AgentDecision, Outcome, ignored}
use rrpp_agent_bridge.Store.Rows.{Event, Job}
use rrpp_agent_bridge.Policy.Checks.{controlled_topic_present}
use rrpp_agent_bridge.Policy.Decide.{decide}
use rrpp_agent_bridge.Policy.Allowed.{IsUnguarded, ignore_action}
use rrpp_agent_bridge.Policy.Outcomes.{IsSpamDecision, no_action-ignored_iff}
use rrpp_agent_bridge.Executor.Context.{intended, payload_of}
use rrpp_agent_bridge.Executor.Stage.{
  Next, queue_delivery, ignore_message, await_review, Settings, is_ignored, next_step,
}
use rrpp_agent_bridge.Executor.Worker.{proposed}
use rrpp_agent_bridge.Executor.Safety.{next_step-delivery_iff}

ignored-of : (o : Outcome) → is_ignored o ≡ true → o ≡ ignored
ignored-of Outcome.allowed h = cc
ignored-of Outcome.blocked h = cc
ignored-of Outcome.escalated h = cc
ignored-of Outcome.pending_approval h = cc
ignored-of Outcome.ignored h = refl

intended-ignore :
    (d : AgentDecision) (provider_id : String)
    → (intended d provider_id).type ≡ "no_action"
    → intended d provider_id ≡ ignore_action (payload_of d provider_id)
unfolding intended
intended-ignore d provider_id h = ground arith

dropped-tests :
    (b x y : Bool)
    → (if b then queue_delivery else if x && y then ignore_message else await_review)
      ≡ ignore_message
    → (x ≡ true) × (y ≡ true)
dropped-tests true x y h = cc h
dropped-tests false true true h = (refl, refl)
dropped-tests false true false h = cc h
dropped-tests false false y h = cc h

module _ (settings : Settings) (job : Job) (event : Event) (paused : Bool) (d : AgentDecision)
    (error : Option String) (mode : String) where
  abbrev chosen : Next
  chosen = next_step settings (proposed settings job event paused d error mode)

  -- A message is dropped without a person only if the bot is not paused, the message needs no person,
  -- asks for no restricted operation and touches no controlled topic, and the agent's answer is a
  -- complete spam decision without a text.
  pub next_step-ignored :
      next_step settings (proposed settings job event paused d error mode) ≡ ignore_message
      → IsUnguarded settings.python event.body_text paused
        × (controlled_topic_present settings.python event.body_text ≡ false)
        × IsSpamDecision (payload_of d settings.provider.provider_id)
  unfolding next_step proposed
  next_step-ignored h =
      let u = settings.python in
      let id = settings.provider.provider_id in
      let (kind, outcome) = dropped-tests _ ((intended d id).type == "no_action") _ h in
      (no_action-ignored_iff u (payload_of d id) event.channel event.body_text paused).0 (
        subst (λ a. (decide u a event.channel event.body_text paused).outcome ≡ ignored)
          (intended-ignore d id (==→eq (intended d id).type "no_action" kind))
          (ignored-of (decide u (intended d id) event.channel event.body_text paused).outcome
            outcome))

  unless_dropped : (n : Next) → chosen ≡ n → paused ≡ true → n ≡ await_review
  unless_dropped queue_delivery h p =
      cc (((next_step-delivery_iff settings job event paused d error mode).0 h).2.0.running, p)
  unless_dropped ignore_message h p = cc ((next_step-ignored h).0.running, p)
  unless_dropped await_review h p = refl

  -- Where the bot is paused, every message waits for a person, in every mode and whatever the agent
  -- answers.
  pub paused-awaits_review :
      paused ≡ true
      → next_step settings (proposed settings job event paused d error mode) ≡ await_review
  paused-awaits_review p = unless_dropped chosen refl p
