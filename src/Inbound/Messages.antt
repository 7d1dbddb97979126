-- ===== src/Inbound/Messages.antt =====
-- What `normalize` of rrpp_bridge/adapters/instagram.py makes of a payload that it accepts.
use rrpp_agent_bridge.Common.{
  ℕ, ◌+◌, String, ◌||◌, Option, none, some, List, [], ◌∷◌, ◌≡◌, refl, arith, ◌==◌, subst, ◌∙◌, ap,
  suc, length,
}
use rrpp_agent_bridge.Common.Json.{Value, Fields, arr, obj, get_field, items_list, member}
use rrpp_agent_bridge.Common.Text.{Python, is_empty}
use rrpp_agent_bridge.Store.Monad.{ok}
use rrpp_agent_bridge.Inbound.Attempt.{attempt-ok, demand-ok}
use rrpp_agent_bridge.Inbound.Routing.{
  Receiver, account, account_id_mismatch, account_not_configured, receiver_account,
  receiver_account-configured,
}
use rrpp_agent_bridge.Inbound.Instagram.{
  messaging, from_entries, normalized, text_or_empty, Entry, Normalized, body_of, is_echo, Seen,
  all_seen, normalize, read_body, read_entries, read_entry, read_item, read_items, read_message,
  read_messaging, route_message,
}
use rrpp_agent_bridge.Inbound.Webhook.{total}
use rrpp_agent_bridge.Inbound.Reasons.{reasons-known}
use rrpp_agent_bridge.Inbound.Accepted.{
  SeenIsAccepted, AllAccepted, items_in, total_items, EventsAccepted, length-append,
  append-AllAccepted, events-lem, ok-inj, body_of-nonblank, read_body-lem, routed, or-false,
  unless_echo,
}

module _ (python : Python) (allowed : List String) where
  route-lem :
      (entry_id sender recipient_id : String) (message : Fields) (time : Option Value)
      (receiver : Receiver) (s : Seen)
      → receiver_account entry_id recipient_id allowed ≡ receiver
      → route_message python allowed entry_id sender recipient_id message time receiver ≡ ok s
      → SeenIsAccepted allowed s
  unfolding route_message
  route-lem entry_id sender recipient_id message time account_id_mismatch s r h =
      subst (SeenIsAccepted allowed) (ok-inj _ s h) reasons-known.0
  route-lem entry_id sender recipient_id message time account_not_configured s r h =
      subst (SeenIsAccepted allowed) (ok-inj _ s h) reasons-known.1
  route-lem entry_id sender recipient_id message time (account recipient) s r h =
      let message_id = text_or_empty python (get_field "mid" message) in
      let body = body_of (get_field "text" message) in
      routed allowed (member sender allowed || sender == recipient) (is_empty sender)
        (is_empty message_id)
        (read_body entry_id sender recipient recipient_id message_id body time) s
        (λ self named identified h'.
          read_body-lem allowed entry_id sender recipient recipient_id message_id body time s
            (λ b t is_text. record {
              receiver = (receiver_account-configured entry_id recipient_id recipient allowed r).0;
              sender = (or-false _ _ self).0;
              other = (or-false _ _ self).1;
              named = named;
              identified = identified;
              nonblank = body_of-nonblank (get_field "text" message) b is_text;
              key = refl;
            })
            h')
        h

  message-lem :
      (entry_id sender recipient_id : String) (m time : Option Value) (s : Seen)
      → read_message python allowed entry_id sender recipient_id m time ≡ ok s
      → SeenIsAccepted allowed s
  unfolding read_message
  message-lem entry_id sender recipient_id (some (obj message)) time s h =
      unless_echo allowed (is_echo (get_field "is_echo" message))
        (route_message python allowed entry_id sender recipient_id message time
          (receiver_account entry_id recipient_id allowed))
        s
        (route-lem entry_id sender recipient_id message time
          (receiver_account entry_id recipient_id allowed) s refl)
        h
  message-lem entry_id sender recipient_id _ time s h =
      subst (SeenIsAccepted allowed) (ok-inj _ s h) reasons-known.6

  item-lem :
      (entry_id : String) (item : Value) (s : Seen)
      → read_item python allowed entry_id item ≡ ok s
      → SeenIsAccepted allowed s
  unfolding read_item
  item-lem entry_id (obj item) s h =
      let (sender, _, h') = attempt-ok _ _ s h in
      let (recipient_id, _, h'') = attempt-ok _ _ s h' in
      message-lem entry_id sender recipient_id _ _ s h''
  item-lem entry_id _ s h = cc h

  items-lem :
      (entry_id : String) (items : List Value) (l : List Seen)
      → read_items python allowed entry_id items ≡ ok l
      → AllAccepted allowed l × (length l ≡ length items)
  unfolding read_items AllAccepted
  items-lem entry_id [] l h =
      subst (λ l. AllAccepted allowed l × (length l ≡ 0)) (ok-inj [] l h) (tt, refl)
  items-lem entry_id (item ∷ items) l h =
      let (s, item_read, h') = attempt-ok _ _ l h in
      let (rest, rest_read, made) = attempt-ok _ _ l h' in
      let (all, same) = items-lem entry_id items rest rest_read in
      subst (λ l. AllAccepted allowed l × (length l ≡ suc (length items))) (ok-inj _ l made)
        ((item-lem entry_id item s item_read, all), ap suc same)

  messaging-lem :
      (entry_id : String) (m : Option (List Value)) (e : Entry)
      → read_messaging python allowed entry_id m ≡ ok e
      → AllAccepted allowed e.seen
        × (length e.seen ≡ elim m as (λ _. ℕ) [ none ↦ 0 | some l ↦ length l ])
  unfolding read_messaging
  messaging-lem entry_id none e h = cc h
  messaging-lem entry_id (some items) e h =
      let (seen, items_read, made) = attempt-ok _ _ e h in
      subst (λ e. AllAccepted allowed e.seen × (length e.seen ≡ length items)) (ok-inj _ e made)
        (items-lem entry_id items seen items_read)

  entry-lem :
      (entry : Value) (e : Entry)
      → read_entry python allowed entry ≡ ok e
      → AllAccepted allowed e.seen × (length e.seen ≡ items_in entry)
  unfolding read_entry read_messaging items_in
  entry-lem (obj entry) e h = messaging-lem _ (messaging (get_field "messaging" entry)) e h
  entry-lem _ e h = cc h

  entries-lem :
      (entries : List Value) (l : List Entry)
      → read_entries python allowed entries ≡ ok l
      → AllAccepted allowed (all_seen l) × (length (all_seen l) ≡ total_items entries)
  unfolding read_entries all_seen total_items AllAccepted
  entries-lem [] l h =
      subst (λ l. AllAccepted allowed (all_seen l) × (length (all_seen l) ≡ 0)) (ok-inj [] l h)
        (tt, refl)
  entries-lem (entry ∷ entries) l h =
      let (e, entry_read, h') = attempt-ok _ _ l h in
      let (rest, rest_read, made) = attempt-ok _ _ l h' in
      let (these, same) = entry-lem entry e entry_read in
      let (others, same') = entries-lem entries rest rest_read in
      subst
        (λ l.
          AllAccepted allowed (all_seen l)
          × (length (all_seen l) ≡ items_in entry + total_items entries))
        (ok-inj _ l made)
        (
          append-AllAccepted allowed e.seen (all_seen rest) these others,
          omega (arith, length-append e.seen (all_seen rest), same, same'),
        )

-- The number of the items of a payload.
abbrev pub payload_items : Option Value → ℕ
payload_items (some (arr entries)) = total_items (items_list entries)
payload_items _ = 0

payload-lem :
    (python : Python) (allowed : List String) (entry : Option Value) (n : Normalized)
    → from_entries python allowed entry ≡ ok n
    → EventsAccepted allowed n.events
      × (length n.events + total n.ignored_reasons ≡ payload_items entry)
payload-lem python allowed (some (arr vs)) n h =
    let (entries, entries_read, made) = attempt-ok _ _ n h in
    let (all, same) = entries-lem python allowed (items_list vs) entries entries_read in
    let (events, kept) = events-lem allowed (all_seen entries) all in
    subst
      (λ n.
        EventsAccepted allowed n.events
        × (length n.events + total n.ignored_reasons ≡ payload_items (some (arr vs))))
      (ok-inj (normalized entries) n made) (events, kept ∙ same)
payload-lem python allowed _ n h = cc h

-- A payload that is not refused: its items are as many as the events and the ignored items that the
-- returned reasons count, and each event goes to a configured account, comes from a sender that is none, and has a sender, a
-- message identifier, a text and the conversation key of its account and sender.
pub normalize-accounts_for_all :
    (python : Python) (allowed : List String) (payload : Fields) (n : Normalized)
    → normalize python allowed payload ≡ ok n
    → EventsAccepted allowed n.events
      × (length n.events + total n.ignored_reasons ≡ payload_items (get_field "entry" payload))
unfolding normalize
normalize-accounts_for_all python allowed payload n h =
    payload-lem python allowed (get_field "entry" payload) n (demand-ok _ _ _ n h).1
