-- ===== src/Scenarios/Incoming.antt =====
-- The theorems on incoming messages and on the catalog, at concrete inputs.
use rrpp_agent_bridge.Common.{◌+◌, ◌≤◌, true, [], ◌∷◌, ◌≡◌, refl, ◌⊎◌, ◌==◌, length}
use rrpp_agent_bridge.Common.Json.{get_field, member}
use rrpp_agent_bridge.Store.Monad.{ok}
use rrpp_agent_bridge.Policy.Evaluation.{evaluation}
use rrpp_agent_bridge.Inbound.Routing.{account, receiver_account, receiver_account-configured}
use rrpp_agent_bridge.Inbound.Instagram.{
  accept_message, from_timestamp, identifier, normalize, read_body, read_entries, read_entry,
  read_item, read_items, read_message, read_messaging, route_message, text_or_empty, timestamp,
}
use rrpp_agent_bridge.Inbound.Attempt.{attempt, demand}
use rrpp_agent_bridge.Inbound.Accepted.{EventsAccepted}
use rrpp_agent_bridge.Inbound.Messages.{normalize-accounts_for_all, payload_items}
use rrpp_agent_bridge.Inbound.Webhook.{call, total}
use rrpp_agent_bridge.Inbound.Requests.{IsSigned, call-needs_signature}
use rrpp_agent_bridge.Catalog.Snapshot.{load_snapshot}
use rrpp_agent_bridge.Catalog.Bounds.{length-load_snapshot}
use rrpp_agent_bridge.Scenarios.Data.{
  python, db, world, club, other, payload, app, read_payload, environ,
}

account-chosen : receiver_account "club" "other" ("club" ∷ []) ≡ account "club"
unfolding receiver_account member ◌==◌
account-chosen = refl

receiver_account-configured_example :
    (member club (club ∷ []) ≡ true)
    × ((club ≡ club) ⊎ (club ≡ other))
    × (member club (club ∷ []) ≡ true → club ≡ club)
    × (member other (club ∷ []) ≡ true → club ≡ other)
receiver_account-configured_example =
    receiver_account-configured "club" "other" "club" ("club" ∷ []) account-chosen

payload-read : normalize python ("club" ∷ []) payload ≡ ok read_payload
unfolding evaluation normalize read_entries read_entry read_messaging read_items read_item
    read_message route_message read_body accept_message identifier text_or_empty timestamp
    from_timestamp attempt demand receiver_account
payload-read = refl

normalize-accounts_for_all_example :
    EventsAccepted ("club" ∷ []) read_payload.events
    × (length read_payload.events + total read_payload.ignored_reasons
        ≡ payload_items (get_field "entry" payload))
normalize-accounts_for_all_example =
    normalize-accounts_for_all python ("club" ∷ []) payload read_payload payload-read

call-needs_signature_example :
    ((call app environ world).1.db ≡ world.db)
    ⊎ ((app.enabled ≡ true)
        × ((environ.path == "/webhooks/instagram") ≡ true)
        × ((environ.method == "POST") ≡ true)
        × IsSigned app environ)
call-needs_signature_example = call-needs_signature app environ world

length-load_snapshot_example : length (load_snapshot db 50) ≤ 50
length-load_snapshot_example = length-load_snapshot db 50
