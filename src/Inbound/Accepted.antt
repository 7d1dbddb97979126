-- ===== src/Inbound/Accepted.antt =====
-- When an event of `normalize` of rrpp_bridge/adapters/instagram.py is right, and what its single
-- tests give.
use rrpp_agent_bridge.Common.{
  ℕ, ◌+◌, String, Bool, true, false, ◌||◌, Option, none, some, List, [], ◌∷◌, ◌++◌, ◌≡◌, refl,
  arith, ◌==◌, subst, if◌then◌else◌, length,
}
use rrpp_agent_bridge.Common.Json.{Value, obj, text, get_field, member}
use rrpp_agent_bridge.Common.Text.{strip, is_empty}
use rrpp_agent_bridge.Models.{NormalizedEvent}
use rrpp_agent_bridge.Store.Monad.{Result, ok}
use rrpp_agent_bridge.Inbound.Attempt.{attempt-ok, demand-ok}
use rrpp_agent_bridge.Inbound.Instagram.{
  messaging, new_event, body_of, Seen, accepted, ignored, accept_message, conversation_key, counter,
  events_of, ignored_of, read_body, reasons,
}
use rrpp_agent_bridge.Inbound.Reasons.{reasons-known, total-counter, total-none}
use rrpp_agent_bridge.Inbound.Webhook.{total}

-- An event that is queued: its receiver is configured, its sender is not and is named, it has a
-- message identifier and a text, and it belongs to the conversation of its receiver and sender.
pub record IsAccepted (allowed : List String) (e : NormalizedEvent) : Type 0 where
  pub receiver : member e.recipient allowed ≡ true
  pub sender : member e.sender allowed ≡ false
  pub other : (e.sender == e.recipient) ≡ false
  pub named : is_empty e.sender ≡ false
  pub identified : is_empty e.external_message_id ≡ false
  pub nonblank : is_empty e.body_text ≡ false
  pub key : e.work_key ≡ conversation_key e.recipient e.sender

abbrev pub SeenIsAccepted : List String → Seen → Type 0
SeenIsAccepted allowed (ignored reason) = member reason reasons ≡ true
SeenIsAccepted allowed (accepted message e) = IsAccepted allowed e

unfoldable pub AllAccepted : List String → List Seen → Type 0
AllAccepted allowed [] = Unit
AllAccepted allowed (s ∷ l) = SeenIsAccepted allowed s × AllAccepted allowed l

-- The number of items in an entry.
unfoldable pub items_in : Value → ℕ
items_in (obj entry) = elim (messaging (get_field "messaging" entry)) [
  | none ↦ 0
  | some l ↦ length l
]
items_in _ = 0

unfoldable pub total_items : List Value → ℕ
unfolding items_in
total_items [] = 0
total_items (entry ∷ entries) = items_in entry + total_items entries

unfoldable pub EventsAccepted : List String → List NormalizedEvent → Type 0
EventsAccepted allowed [] = Unit
EventsAccepted allowed (e ∷ l) = IsAccepted allowed e × EventsAccepted allowed l

pub length-append : {A : Type 0} (l m : List A) → length (l ++ m) ≡ length l + length m
length-append [] m = omega arith
length-append (a ∷ l) m = ground (arith, length-append l m)

pub append-AllAccepted :
    (allowed : List String) (l m : List Seen)
    → AllAccepted allowed l
    → AllAccepted allowed m
    → AllAccepted allowed (l ++ m)
unfolding AllAccepted
append-AllAccepted allowed [] m h k = k
append-AllAccepted allowed (s ∷ l) m (h, hs) k = (h, append-AllAccepted allowed l m hs k)

pub events-lem :
    (allowed : List String) (l : List Seen)
    → AllAccepted allowed l
    → EventsAccepted allowed (events_of l)
      × (length (events_of l) + total (counter reasons (ignored_of l)) ≡ length l)
unfolding AllAccepted EventsAccepted events_of ignored_of
events-lem allowed [] h = (tt, omega (arith, total-none))
events-lem allowed (ignored reason ∷ l) (h, hs) =
    let (events, same) = events-lem allowed l hs in
    (events, omega (arith, same, total-counter reason (ignored_of l) h))
events-lem allowed (accepted message e ∷ l) (h, hs) =
    let (events, same) = events-lem allowed l hs in ((h, events), omega (arith, same))

pub ok-inj : {A : Type 0} (a b : A) → ok a ≡ ok b → a ≡ b
ok-inj a b h = cc h

pub accepted-by :
    (allowed : List String) (entry_id sender recipient recipient_id message_id body : String)
    (time : Option Value) (s : Seen)
    → ((t : ℕ) → IsAccepted allowed (new_event sender recipient recipient_id message_id body t))
    → accept_message entry_id sender recipient recipient_id message_id body time ≡ ok s
    → SeenIsAccepted allowed s
unfolding accept_message
accepted-by allowed entry_id sender recipient recipient_id message_id body time s good h =
    let (within, h') = demand-ok _ _ _ s h in
    let (t, read, made) = attempt-ok _ _ s h' in
    subst (SeenIsAccepted allowed) (ok-inj _ s made) (good t)

pub body_of-nonblank :
    (v : Option Value) (b : String) → body_of v ≡ some b → is_empty (strip b) ≡ false
body_of-nonblank none b h = cc h
body_of-nonblank (some (text s)) b h = ground (arith, h)
body_of-nonblank (some _) b h = cc h

pub read_body-lem :
    (allowed : List String) (entry_id sender recipient recipient_id message_id : String)
    (b : Option String) (time : Option Value) (s : Seen)
    → ((body : String) (t : ℕ)
        → b ≡ some body
        → IsAccepted allowed (new_event sender recipient recipient_id message_id body t))
    → read_body entry_id sender recipient recipient_id message_id b time ≡ ok s
    → SeenIsAccepted allowed s
unfolding read_body
read_body-lem allowed entry_id sender recipient recipient_id message_id none time s good h =
    subst (SeenIsAccepted allowed) (ok-inj _ s h) reasons-known.7
read_body-lem allowed entry_id sender recipient recipient_id message_id (some body) time s good h =
    accepted-by allowed entry_id sender recipient recipient_id message_id body time s
      (λ t. good body t refl) h

-- The three tests of `route_message`.
pub routed :
    (allowed : List String) (self no_sender no_id : Bool) (r : Result Seen) (s : Seen)
    → (self ≡ false → no_sender ≡ false → no_id ≡ false → r ≡ ok s → SeenIsAccepted allowed s)
    → (if self
        then ok (ignored "self_message")
        else if no_sender
        then ok (ignored "missing_sender")
        else if no_id
        then ok (ignored "missing_message_id")
        else r)
      ≡ ok s
    → SeenIsAccepted allowed s
routed allowed true no_sender no_id r s good h =
    subst (SeenIsAccepted allowed) (ok-inj _ s h) reasons-known.5
routed allowed false true no_id r s good h =
    subst (SeenIsAccepted allowed) (ok-inj _ s h) reasons-known.4
routed allowed false false true r s good h =
    subst (SeenIsAccepted allowed) (ok-inj _ s h) reasons-known.3
routed allowed false false false r s good h = good refl refl refl h

pub or-false : (a b : Bool) → (a || b) ≡ false → (a ≡ false) × (b ≡ false)
or-false false b h = (refl, h)
or-false true b h = cc h

pub unless_echo :
    (allowed : List String) (echo : Bool) (r : Result Seen) (s : Seen)
    → (r ≡ ok s → SeenIsAccepted allowed s)
    → (if echo then ok (ignored "echo_message") else r) ≡ ok s
    → SeenIsAccepted allowed s
unless_echo allowed true r s good h = subst (SeenIsAccepted allowed) (ok-inj _ s h) reasons-known.2
unless_echo allowed false r s good h = good h
