-- ===== src/Delivery/Permission.antt =====
-- `DeliveryExecutor._permission_reason` of rrpp_bridge/delivery.py: why a claimed delivery may not be
-- sent, if there is a reason.
use rrpp_agent_bridge.Common.{
  ℕ, String, Bool, true, false, not, ◌&&◌, ◌||◌, Option, none, some, List, [], ◌∷◌, leb, ◌==◌,
  if◌then◌else◌, find_where, any_where,
}
use rrpp_agent_bridge.Common.Json.{member}
use rrpp_agent_bridge.Common.Text.{Python, strip, is_empty, text_length}
use rrpp_agent_bridge.Models.{Outcome}
use rrpp_agent_bridge.Store.Rows.{Db, Action, AuthorType, Conversation, Delivery, Event, PolicyRow}

-- What `DeliveryExecutor` is made with: the accounts that have a sender, those that are configured
-- with whether they have a token, and the senders of the canary mode.
pub record Senders : Type 0 where
  pub accounts : List String
  pub account_tokens : List (String × Bool)
  pub send_enabled : Bool
  pub canary_senders : List String
  pub lease_seconds : ℕ

unfoldable pub has_sender : Senders → String → Bool
has_sender senders account_id = member account_id senders.accounts

-- account_tokens.get(account_id)
unfoldable pub token_of : String → List (String × Bool) → Option Bool
token_of account_id [] = none
token_of account_id ((id, token) ∷ l) =
    if id == account_id then some token else token_of account_id l

abbrev pub is_bot : AuthorType → Bool
is_bot AuthorType.bot = true
is_bot AuthorType.human = false

abbrev pub is_allowed : Outcome → Bool
is_allowed Outcome.allowed = true
is_allowed _ = false

-- An event of the conversation that was stored after the event.
unfoldable pub newer_event : String → String → List Event → Bool
newer_event event_id conversation_id [] = false
newer_event event_id conversation_id (e ∷ l) =
    if e.id == event_id
    then any_where (λ o. o.conversation_id == conversation_id) l
    else newer_event event_id conversation_id l

-- The row of the join of the delivery with its action, the decision, the conversation and the event.
pub record Permission : Type 0 where
  pub outcome : Outcome
  pub bot_paused : Bool
  pub event_id : String

abbrev pub permission_of : Option PolicyRow → Option Conversation → Option Event → Option Permission
permission_of (some p) (some c) (some e) =
    some (record { outcome = p.outcome; bot_paused = c.bot_paused; event_id = e.id })
permission_of _ _ _ = none

abbrev pub permission_from : Db → Delivery → Option Action → Option Permission
permission_from db d none = none
permission_from db d (some a) =
    permission_of (find_where (λ p. p.action_id == a.id) db.policy_decisions)
      (find_where (λ c. c.id == d.conversation_id) db.conversations)
      (find_where (λ e. e.id == a.event_id) db.events)

unfoldable pub permission : Db → Delivery → Option Permission
permission db d = permission_from db d (find_where (λ a. a.id == d.action_id) db.actions)

unfoldable pub policy_reason : Delivery → Option Permission → Option String
policy_reason d none = some "policy_block"
policy_reason d (some p) =
    if not (is_allowed p.outcome) || (is_bot d.author_type && p.bot_paused)
    then some "policy_block"
    else none

unfoldable pub mode_reason : Python → Senders → String → Delivery → Option String
mode_reason python senders mode d =
    if mode == "shadow" || mode == "dry-run"
    then some "mode_not_live"
    else if mode == "canary"
        && not (member (python.casefold d.recipient_external_id) senders.canary_senders)
    then some "canary_restriction"
    else if not (mode == "canary" || mode == "live")
    then some "mode_not_live"
    else none

abbrev pub token_reason : Option Bool → Bool → Option String
token_reason none has = some "account_not_configured"
token_reason (some false) has = some "missing_access_token"
token_reason (some true) false = some "account_not_configured"
token_reason (some true) true = none

unfoldable pub account_reason : Senders → Delivery → Option String
account_reason senders d =
    if is_empty (strip d.recipient_external_id)
      || not (leb (text_length (strip d.recipient_external_id)) 200)
    then some "invalid_recipient"
    else if not senders.send_enabled
    then some "send_disabled"
    else token_reason (token_of d.sender_account_id senders.account_tokens)
        (has_sender senders d.sender_account_id)

unfoldable pub stale_reason : Db → Delivery → Option Permission → Option String
stale_reason db d none = none
stale_reason db d (some p) =
    if is_bot d.author_type && newer_event p.event_id d.conversation_id db.events
    then some "idempotency_guard"
    else none

-- The first reason.
infixr 30 ◌else_try◌
abbrev pub ◌else_try◌ : Option String → Option String → Option String
none else_try other = other
some reason else_try other = some reason

-- `_permission_reason`, after the mode was read.
unfoldable pub permission_reason : Python → Senders → Db → String → Delivery → Option String
permission_reason python senders db mode d =
    let context = permission db d in
    policy_reason d context
    else_try mode_reason python senders mode d
    else_try account_reason senders d
    else_try stale_reason db d context
