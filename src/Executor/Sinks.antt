-- ===== src/Executor/Sinks.antt =====
-- Exactly when the local sink executes an action: `decide_execution` of rrpp_bridge/action_executor.py.
use rrpp_agent_bridge.Common.{
  String, true, false, List, ◌≡◌, refl, ◌↔◌, ◌⊎◌, inl, inr, arith, ◌==◌, ==→eq, ==-refl,
}
use rrpp_agent_bridge.Common.Json.{member}
use rrpp_agent_bridge.Common.Text.{Python}
use rrpp_agent_bridge.Executor.Sink.{decide_execution}

suppressed-ne : ("suppressed" == "executed") ≡ false
unfolding ◌==◌
suppressed-ne = refl

live-ne :
    (("live" == "shadow") ≡ false)
    × (("live" == "dry-run") ≡ false)
    × (("live" == "canary") ≡ false)
unfolding ◌==◌
live-ne = (refl, refl, refl)

canary-ne : (("canary" == "shadow") ≡ false) × (("canary" == "dry-run") ≡ false)
unfolding ◌==◌
canary-ne = (refl, refl)

executes :
    (python : Python) (mode outcome sender : String) (canary_senders : List String)
    → outcome ≡ "allowed"
    → (mode ≡ "live")
      ⊎ ((mode ≡ "canary") × (member (python.casefold sender) canary_senders ≡ true))
    → ((decide_execution python mode outcome sender canary_senders).status == "executed") ≡ true
unfolding decide_execution
executes python mode outcome sender canary_senders allowed (inl live) = ground (
  arith,
  allowed,
  live,
  live-ne.0,
  live-ne.1,
  live-ne.2,
  ==-refl "live",
  ==-refl "allowed",
  ==-refl "executed",
)
executes python mode outcome sender canary_senders allowed (inr (canary, listed)) = ground (
  arith,
  allowed,
  canary,
  listed,
  canary-ne.0,
  canary-ne.1,
  ==-refl "canary",
  ==-refl "allowed",
  ==-refl "executed",
)

-- The local sink executes an action exactly when its outcome is "allowed" and the mode is "live", or is
-- "canary" with a sender of the list; every other action it suppresses.
pub decide_execution-executed_iff :
    (python : Python) (mode outcome sender : String) (canary_senders : List String)
    → ((((decide_execution python mode outcome sender canary_senders).status == "executed") ≡ true)
        ↔ ((outcome ≡ "allowed")
            × ((mode ≡ "live")
                ⊎ ((mode ≡ "canary") × (member (python.casefold sender) canary_senders ≡ true)))))
      × (((decide_execution python mode outcome sender canary_senders).status == "executed") ≡ false
          → (decide_execution python mode outcome sender canary_senders).status ≡ "suppressed")
unfolding decide_execution
decide_execution-executed_iff python mode outcome sender canary_senders = (
  (
    λ h.
        ground (
          arith,
          h,
          suppressed-ne,
          ==→eq outcome "allowed",
          ==→eq mode "live",
          ==→eq mode "canary",
        ),
    λ (allowed, sends). executes python mode outcome sender canary_senders allowed sends,
  ),
  λ h. ground (arith, h, ==-refl "executed"),
)
