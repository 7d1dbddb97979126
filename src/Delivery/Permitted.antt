-- ===== src/Delivery/Permitted.antt =====
-- Exactly when a claimed delivery may be sent: `DeliveryExecutor._permission_reason` of
-- rrpp_bridge/delivery.py.
use rrpp_agent_bridge.Common.{
  String, Bool, true, false, ◌&&◌, Option, none, some, ◌≡◌, refl, ◌↔◌, ◌⊎◌, inl, inr, arith, ◌==◌,
  ==→eq, ==-refl, sym, subst, leb,
}
use rrpp_agent_bridge.Common.Json.{member}
use rrpp_agent_bridge.Common.Text.{Python, strip, is_empty, text_length}
use rrpp_agent_bridge.Store.Rows.{Db, Delivery}
use rrpp_agent_bridge.Delivery.Permission.{
  Permission, Senders, account_reason, has_sender, is_allowed, is_bot, mode_reason, newer_event,
  permission, permission_reason, policy_reason, stale_reason, token_of, token_reason, ◌else_try◌,
}

-- The mode sends to the customer.
abbrev pub SendsTo : Python → Senders → String → Delivery → Type 0
SendsTo python senders mode d =
    (mode ≡ "live")
    ⊎ ((mode ≡ "canary")
        × (member (python.casefold d.recipient_external_id) senders.canary_senders ≡ true))

-- The account and the customer are as a request needs them.
pub record IsReachable (senders : Senders) (d : Delivery) : Type 0 where
  pub named : is_empty (strip d.recipient_external_id) ≡ false
  pub short : leb (text_length (strip d.recipient_external_id)) 200 ≡ true
  pub enabled : senders.send_enabled ≡ true
  pub token : token_of d.sender_account_id senders.account_tokens ≡ some true
  pub sender : has_sender senders d.sender_account_id ≡ true

-- The policy lets the delivery pass, and a delivery of the bot is neither paused nor overtaken by a
-- newer message of the conversation.
pub record IsCurrent (db : Db) (d : Delivery) (p : Permission) : Type 0 where
  pub allowed : is_allowed p.outcome ≡ true
  pub running : (is_bot d.author_type && p.bot_paused) ≡ false
  pub newest : (is_bot d.author_type && newer_event p.event_id d.conversation_id db.events) ≡ false

live-ne-shadow : ("live" == "shadow") ≡ false
unfolding ◌==◌
live-ne-shadow = refl

live-ne-dry : ("live" == "dry-run") ≡ false
unfolding ◌==◌
live-ne-dry = refl

live-ne-canary : ("live" == "canary") ≡ false
unfolding ◌==◌
live-ne-canary = refl

canary-ne-shadow : ("canary" == "shadow") ≡ false
unfolding ◌==◌
canary-ne-shadow = refl

canary-ne-dry : ("canary" == "dry-run") ≡ false
unfolding ◌==◌
canary-ne-dry = refl

some-inj : {A : Type 0} (a b : A) → some a ≡ some b → a ≡ b
some-inj a b h = cc h

module _ (python : Python) (senders : Senders) (db : Db) (mode : String) (d : Delivery) where
  mode-sends : mode_reason python senders mode d ≡ none → SendsTo python senders mode d
  unfolding mode_reason
  mode-sends h = ground (arith, ==→eq mode "canary", ==→eq mode "live")

  sends-mode : SendsTo python senders mode d → mode_reason python senders mode d ≡ none
  unfolding mode_reason
  sends-mode (inl live) =
      ground (arith, live, live-ne-shadow, live-ne-dry, live-ne-canary, ==-refl "live")
  sends-mode (inr (canary, listed)) =
      ground (arith, canary, listed, canary-ne-shadow, canary-ne-dry, ==-refl "canary")

  token-tests :
      (t : Option Bool) (has : Bool) → token_reason t has ≡ none → (t ≡ some true) × (has ≡ true)
  token-tests none has h = cc h
  token-tests (some false) has h = cc h
  token-tests (some true) false h = cc h
  token-tests (some true) true h = (refl, refl)

  reachable : account_reason senders d ≡ none → IsReachable senders d
  unfolding account_reason
  reachable h = ground (
    arith,
    token-tests (token_of d.sender_account_id senders.account_tokens)
        (has_sender senders d.sender_account_id),
  )

  reachable-account : IsReachable senders d → account_reason senders d ≡ none
  unfolding account_reason
  reachable-account h = ground (arith, h.token, h.sender)

  else-none : (a b : Option String) → (a else_try b) ≡ none → (a ≡ none) × (b ≡ none)
  else-none none b h = (refl, h)
  else-none (some r) b h = cc h

  policy-none :
      (c : Option Permission)
      → policy_reason d c ≡ none
      → stale_reason db d c ≡ none
      → (p : Permission) × (c ≡ some p) × IsCurrent db d p
  unfolding policy_reason stale_reason
  policy-none none h k = cc h
  policy-none (some p) h k = (
    p,
    refl,
    record { allowed = ground (arith, h); running = ground (arith, h); newest = ground (arith, k) },
  )

  current-none :
      (p : Permission) (c : Option Permission)
      → c ≡ some p
      → IsCurrent db d p
      → (policy_reason d c ≡ none) × (stale_reason db d c ≡ none)
  unfolding policy_reason stale_reason
  current-none p none h k = cc h
  current-none p (some q) h k =
      subst (λ q. (policy_reason d (some q) ≡ none) × (stale_reason db d (some q) ≡ none))
        (sym (some-inj q p h)) (ground (arith, k.allowed, k.running), ground (arith, k.newest))

  none_sound :
      permission_reason python senders db mode d ≡ none
      → SendsTo python senders mode d
        × IsReachable senders d
        × ((p : Permission) × (permission db d ≡ some p) × IsCurrent db d p)
  unfolding permission_reason
  none_sound h =
      let (policy, h') = else-none (policy_reason d (permission db d)) _ h in
      let (mode_ok, h'') = else-none (mode_reason python senders mode d) _ h' in
      let (account, stale) = else-none (account_reason senders d) _ h'' in
      (mode-sends mode_ok, reachable account, policy-none (permission db d) policy stale)

  none_complete :
      SendsTo python senders mode d
        × IsReachable senders d
        × ((p : Permission) × (permission db d ≡ some p) × IsCurrent db d p)
      → permission_reason python senders db mode d ≡ none
  unfolding permission_reason
  none_complete (sends, reach, (p, found, current)) =
      let (policy, stale) = current-none p (permission db d) found current in
      rw (policy, sends-mode sends, reachable-account reach) stale

  -- A claimed delivery may be sent exactly when the mode sends to its customer, the customer's
  -- identifier is valid, sending is enabled, the account is configured with a token and a sender, its
  -- action was allowed, and, where the bot wrote it, the bot is not paused and the conversation has no
  -- newer message.
  pub permission_reason-none_iff : (permission_reason python senders db mode d ≡ none) ↔ (
      SendsTo python senders mode d
      × IsReachable senders d
      × ((p : Permission) × (permission db d ≡ some p) × IsCurrent db d p))
  permission_reason-none_iff = (none_sound, none_complete)
