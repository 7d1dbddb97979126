-- ===== src/Policy/Outcomes.antt =====
-- Exactly which messages the policy ignores, which replies of a person it lets through, and which
-- actions can be let through at all.
use rrpp_agent_bridge.Common.{
  String, Bool, true, false, [], ◌∷◌, Option, none, some, ◌≡◌, refl, ◌∙◌, ◌↔◌, ◌⊎◌, arith, ◌==◌,
  ==→eq, ==-refl,
}
use rrpp_agent_bridge.Common.Text.{Python}
use rrpp_agent_bridge.Common.Json.{
  Value, arr, nil, cons, items_list, Fields, get_field, member, has_exactly, truthy,
}
use rrpp_agent_bridge.Models.{IntendedAction, allowed, blocked, ignored}
use rrpp_agent_bridge.Policy.Words.{agent_payload_fields}
use rrpp_agent_bridge.Policy.Checks.{
  controlled_topic_present, is_true, is_text, is_absent, is_truthy, valid_language, valid_source,
  valid_references, valid_items, valid_text,
}
use rrpp_agent_bridge.Policy.Decide.{
  decide, decide_human, decide_ignore, decide_proposal, incomplete_ignore,
}
use rrpp_agent_bridge.Policy.Allowed.{IsUnguarded, ignore_action, no_action-proposal}

-- A complete spam decision: all fields, no text and an empty list of references.
pub record IsSpamDecision (payload : Fields) : Type 0 where
  pub structured : is_true (get_field "structured" payload) ≡ true
  pub fields : has_exactly agent_payload_fields payload ≡ true
  pub action : is_text "ignore" (get_field "agent_action" payload) ≡ true
  pub reason : is_text "spam_or_non_message" (get_field "reason_code" payload) ≡ true
  pub no_text : is_absent (get_field "text" payload) ≡ true
  pub language : valid_language (get_field "language" payload) ≡ true
  pub source : valid_source (get_field "source" payload) ≡ true
  pub no_references : get_field "referenced_items" payload ≡ some (arr nil)

empty_references :
    (v : Option Value) → valid_references v ≡ true → is_truthy v ≡ false → v ≡ some (arr nil)
unfolding valid_references truthy
empty_references none h e = cc
empty_references (some (arr nil)) h e = refl
empty_references (some (arr (cons v vs))) h e = cc
empty_references (some _) h e = cc

no_references : valid_references (some (arr nil)) ≡ true
unfolding valid_references valid_items items_list
no_references = refl

falsy_nil : is_truthy (some (arr nil)) ≡ false
unfolding truthy
falsy_nil = refl

spam_sound :
    (payload : Fields)
    → is_true (get_field "structured" payload) ≡ true
    → incomplete_ignore payload ≡ false
    → IsSpamDecision payload
unfolding incomplete_ignore
spam_sound payload s h = ground (arith, empty_references (get_field "referenced_items" payload))

spam_complete : (payload : Fields) → IsSpamDecision payload → incomplete_ignore payload ≡ false
unfolding incomplete_ignore
spam_complete payload h = ground (arith, h.no_references, no_references, falsy_nil)

-- A message is ignored exactly when the bot is not paused, the message needs no person, asks for no
-- restricted operation and touches no controlled topic, and the decision is a complete spam decision.
pub no_action-ignored_iff :
    (u : Python) (payload : Fields) (channel incoming : String) (bot_paused : Bool)
    → ((decide u (ignore_action payload) channel incoming bot_paused).outcome ≡ ignored) ↔ (
        IsUnguarded u incoming bot_paused
        × (controlled_topic_present u incoming ≡ false)
        × IsSpamDecision payload)
unfolding decide_ignore
no_action-ignored_iff u payload channel incoming bot_paused = (
  λ h. ground (arith, no_action-proposal u payload channel incoming bot_paused, spam_sound payload),
  λ (unguarded, topic, spam).
      no_action-proposal u payload channel incoming bot_paused
      ∙ ground (arith, unguarded, topic, spam.structured, spam_complete payload spam),
)

abbrev pub human_action : Fields → IntendedAction
human_action payload = record { type = "human_reply"; payload = payload }

human-dispatch :
    (u : Python) (payload : Fields) (channel incoming : String) (bot_paused : Bool)
    → decide u (human_action payload) channel incoming bot_paused ≡ decide_human payload channel
unfolding decide member ◌==◌
human-dispatch u payload channel incoming bot_paused = refl

-- A person's reply is allowed exactly on Instagram with a payload that is one valid text: neither a
-- paused bot nor the message it answers has a part in it. Otherwise it is blocked.
pub human_reply-allowed_iff :
    (u : Python) (payload : Fields) (channel incoming : String) (bot_paused : Bool)
    → (((decide u (human_action payload) channel incoming bot_paused).outcome ≡ allowed) ↔ (
        (channel ≡ "instagram")
        × (has_exactly ("text" ∷ []) payload ≡ true)
        × (valid_text (get_field "text" payload) ≡ true)))
      × (((decide u (human_action payload) channel incoming bot_paused).outcome ≡ allowed)
          ⊎ ((decide u (human_action payload) channel incoming bot_paused).outcome ≡ blocked))
unfolding decide_human
human_reply-allowed_iff u payload channel incoming bot_paused = rw human-dispatch (
  (
    λ h. ground (arith, ==→eq channel "instagram"),
    λ (instagram, fields, valid). ground (arith, instagram, fields, valid, ==-refl "instagram"),
  ),
  ground arith,
)

-- Only a proposed reply and a person's reply can be allowed.
pub allowed-type :
    (u : Python) (action : IntendedAction) (channel incoming : String) (bot_paused : Bool)
    → (decide u action channel incoming bot_paused).outcome ≡ allowed
    → (action.type ≡ "send_reply") ⊎ (action.type ≡ "human_reply")
unfolding decide decide_proposal decide_ignore member
allowed-type u action channel incoming bot_paused h =
    ground (arith, ==→eq action.type "send_reply", ==→eq action.type "human_reply")
