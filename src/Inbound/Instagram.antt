-- ===== src/Inbound/Instagram.antt =====
-- `normalize` of rrpp_bridge/adapters/instagram.py.
use rrpp_agent_bridge.Common.{
  ℕ, String, Bool, true, false, ◌&&◌, ◌||◌, Option, none, some, List, [], ◌∷◌, ◌++◌, leb, ltb, ◌==◌,
  if◌then◌else◌, count_where,
}
use rrpp_agent_bridge.Common.Json.{
  Value, Fields, null, num, bool, text, arr, obj, field, end, get_field, items_list, member, truthy,
}
use rrpp_agent_bridge.Common.Text.{Python, to_text, strip, is_empty, text_length, ◌⧺◌}
use rrpp_agent_bridge.Models.{NormalizedEvent}
use rrpp_agent_bridge.Store.Monad.{
  Result, ok, err, Exception, value_error, attribute_error, overflow_error,
}
use rrpp_agent_bridge.Inbound.Attempt.{attempt, demand}
use rrpp_agent_bridge.Inbound.Routing.{
  Receiver, account, account_id_mismatch, account_not_configured, receiver_account,
}

abbrev invalid_timestamp : Exception
invalid_timestamp = value_error "Instagram message has an invalid timestamp"

-- The first millisecond of the year 10000, and the first that `time_t` does not hold.
abbrev year_limit : ℕ
year_limit = 253402300800000

abbrev platform_limit : ℕ
platform_limit = 9223372036854775808000

unfoldable pub from_timestamp : ℕ → Result ℕ
from_timestamp n =
    if ltb n year_limit
    then ok n
    else if ltb n platform_limit
    then err (value_error "year is out of range")
    else err overflow_error

-- `_timestamp`. A Boolean is a number of Python.
unfoldable pub timestamp : Option Value → Result ℕ
timestamp (some (num negative n)) =
    if negative && ltb 0 n then err invalid_timestamp else from_timestamp n
timestamp (some (bool b)) = ok (if b then 1 else 0)
timestamp _ = err invalid_timestamp

-- str(value or "").strip()
unfoldable pub text_or_empty : Python → Option Value → String
text_or_empty python none = ""
text_or_empty python (some v) = if truthy v then strip (to_text python v) else ""

-- str((value or {}).get("id") or "").strip()
unfoldable pub identifier : Python → Option Value → Result String
identifier python none = ok ""
identifier python (some (obj fs)) = ok (text_or_empty python (get_field "id" fs))
identifier python (some v) = if truthy v then err attribute_error else ok ""

-- An entry of "messages" of what is kept of the payload.
pub record SafeMessage : Type 0 where
  pub sender_id : String
  pub provider_recipient_id : String
  pub receiver_account_id : String
  pub message_id : String
  pub text : String
  pub timestamp : Value

-- What becomes of an item of "messaging".
pub data Seen : Type 0 where
  ignored : String → Seen
  accepted : SafeMessage → NormalizedEvent → Seen

abbrev pub conversation_key : String → String → String
conversation_key recipient sender = "instagram:" ⧺ recipient ⧺ ":" ⧺ sender

abbrev within_limits : String → String → String → String → String → String → Bool
within_limits sender recipient recipient_id entry_id message_id body =
    leb (text_length sender) 200
    && leb (text_length recipient) 200
    && leb (text_length recipient_id) 200
    && leb (text_length entry_id) 200
    && leb (text_length message_id) 500
    && leb (text_length body) 20000

abbrev new_message : String → String → String → String → String → Value → SafeMessage
new_message sender recipient recipient_id message_id body time = record {
  sender_id = sender;
  provider_recipient_id = recipient_id;
  receiver_account_id = recipient;
  message_id = message_id;
  text = body;
  timestamp = time;
}

abbrev pub new_event : String → String → String → String → String → ℕ → NormalizedEvent
new_event sender recipient recipient_id message_id body received_at = record {
  channel = "instagram";
  external_message_id = message_id;
  sender = sender;
  recipient = recipient;
  subject = "Instagram DM";
  body_text = strip body;
  work_key = conversation_key recipient sender;
  metadata = field "native_message_id" (text message_id) (
      field "native_conversation_id" (text (conversation_key recipient sender)) (
        field "instagram_sender_id" (text sender) (
          field "instagram_recipient_id" (text recipient)
            (field "raw_payload_reference" (text ("instagram:" ⧺ message_id)) end))));
  received_at = some received_at;
}

-- item["timestamp"], which `_timestamp` has accepted.
abbrev or_null : Option Value → Value
or_null none = null
or_null (some v) = v

-- From the check of the limits on.
unfoldable pub accept_message :
    String → String → String → String → String → String → Option Value → Result Seen
accept_message entry_id sender recipient recipient_id message_id body time =
    demand (within_limits sender recipient recipient_id entry_id message_id body)
      (value_error "Instagram message exceeds accepted limits")
      (attempt (timestamp time) λ received_at. ok (
        accepted (new_message sender recipient recipient_id message_id body (or_null time))
          (new_event sender recipient recipient_id message_id body received_at)))

-- isinstance(text, str) and text.strip()
abbrev pub body_of : Option Value → Option String
body_of (some (text s)) = if is_empty (strip s) then none else some s
body_of _ = none

unfoldable pub read_body :
    String → String → String → String → String → Option String → Option Value → Result Seen
read_body entry_id sender recipient recipient_id message_id none time =
    ok (ignored "unsupported_message_content")
read_body entry_id sender recipient recipient_id message_id (some body) time =
    accept_message entry_id sender recipient recipient_id message_id body time

-- From the resolution of the receiver on.
unfoldable pub route_message :
    Python → List String → String → String → String → Fields → Option Value → Receiver → Result Seen
route_message python allowed entry_id sender recipient_id message time account_id_mismatch =
    ok (ignored "account_id_mismatch")
route_message python allowed entry_id sender recipient_id message time account_not_configured =
    ok (ignored "account_not_configured")
route_message python allowed entry_id sender recipient_id message time (account recipient) =
    let message_id = text_or_empty python (get_field "mid" message) in
    if member sender allowed || sender == recipient
    then ok (ignored "self_message")
    else if is_empty sender
    then ok (ignored "missing_sender")
    else if is_empty message_id
    then ok (ignored "missing_message_id")
    else read_body entry_id sender recipient recipient_id message_id
        (body_of (get_field "text" message)) time

abbrev pub is_echo : Option Value → Bool
is_echo (some (bool true)) = true
is_echo _ = false

unfoldable pub read_message :
    Python → List String → String → String → String → Option Value → Option Value → Result Seen
read_message python allowed entry_id sender recipient_id (some (obj message)) time =
    if is_echo (get_field "is_echo" message)
    then ok (ignored "echo_message")
    else route_message python allowed entry_id sender recipient_id message time
        (receiver_account entry_id recipient_id allowed)
read_message python allowed entry_id sender recipient_id _ time = ok (ignored "unsupported_event")

-- One turn of the loop on "messaging".
unfoldable pub read_item : Python → List String → String → Value → Result Seen
read_item python allowed entry_id (obj item) =
    attempt (identifier python (get_field "sender" item)) λ sender.
      attempt (identifier python (get_field "recipient" item)) λ recipient_id.
        read_message python allowed entry_id sender recipient_id (get_field "message" item)
          (get_field "timestamp" item)
read_item python allowed entry_id _ = err (value_error "Malformed Instagram messaging event")

unfoldable pub read_items : Python → List String → String → List Value → Result (List Seen)
read_items python allowed entry_id [] = ok []
read_items python allowed entry_id (item ∷ items) =
    attempt (read_item python allowed entry_id item)
      λ seen. attempt (read_items python allowed entry_id items) λ rest. ok (seen ∷ rest)

-- entry.get("messaging", []), if it is a list.
abbrev pub messaging : Option Value → Option (List Value)
messaging none = some []
messaging (some (arr vs)) = some (items_list vs)
messaging (some v) = none

pub record Entry : Type 0 where
  pub entry_id : String
  pub seen : List Seen

abbrev malformed_entry : Exception
malformed_entry = value_error "Malformed Instagram webhook entry"

unfoldable pub read_messaging : Python → List String → String → Option (List Value) → Result Entry
read_messaging python allowed entry_id none = err malformed_entry
read_messaging python allowed entry_id (some items) =
    attempt (read_items python allowed entry_id items)
      λ seen. ok (record { entry_id = entry_id; seen = seen })

-- One turn of the loop on "entry".
unfoldable pub read_entry : Python → List String → Value → Result Entry
read_entry python allowed (obj entry) =
    read_messaging python allowed (text_or_empty python (get_field "id" entry))
      (messaging (get_field "messaging" entry))
read_entry python allowed _ = err malformed_entry

unfoldable pub read_entries : Python → List String → List Value → Result (List Entry)
read_entries python allowed [] = ok []
read_entries python allowed (entry ∷ entries) =
    attempt (read_entry python allowed entry)
      λ e. attempt (read_entries python allowed entries) λ rest. ok (e ∷ rest)

unfoldable pub events_of : List Seen → List NormalizedEvent
events_of [] = []
events_of (ignored reason ∷ l) = events_of l
events_of (accepted message event ∷ l) = event ∷ events_of l

unfoldable pub messages_of : List Seen → List SafeMessage
messages_of [] = []
messages_of (ignored reason ∷ l) = messages_of l
messages_of (accepted message event ∷ l) = message ∷ messages_of l

unfoldable pub ignored_of : List Seen → List String
ignored_of [] = []
ignored_of (ignored reason ∷ l) = reason ∷ ignored_of l
ignored_of (accepted message event ∷ l) = ignored_of l

unfoldable pub all_seen : List Entry → List Seen
all_seen [] = []
all_seen (e ∷ l) = e.seen ++ all_seen l

-- The reasons that `normalize` counts, in the order of the sorted dictionary.
abbrev pub reasons : List String
reasons =
    "account_id_mismatch" ∷ "account_not_configured" ∷ "echo_message" ∷ "missing_message_id"
    ∷ "missing_sender" ∷ "self_message" ∷ "unsupported_event" ∷ "unsupported_message_content" ∷ []

-- dict(sorted(ignored_reasons.items())): the reasons with their numbers, less those with none.
unfoldable pub counter : List String → List String → List (String × ℕ)
counter [] seen = []
counter (r ∷ rs) seen =
    let rest = counter rs seen in
    let n = count_where (λ s. s == r) seen in if ltb 0 n then (r, n) ∷ rest else rest

-- The events, and what is kept of the payload, with the counts of the reasons.
pub record Normalized : Type 0 where
  pub events : List NormalizedEvent
  pub entries : List Entry
  pub ignored_reasons : List (String × ℕ)

abbrev unsupported : Exception
unsupported = value_error "Unsupported Instagram webhook payload"

abbrev is_instagram : Option Value → Bool
is_instagram (some (text s)) = s == "instagram"
is_instagram _ = false

abbrev pub normalized : List Entry → Normalized
normalized entries = record {
  events = events_of (all_seen entries);
  entries = entries;
  ignored_reasons = counter reasons (ignored_of (all_seen entries));
}

abbrev pub from_entries : Python → List String → Option Value → Result Normalized
from_entries python allowed (some (arr vs)) =
    attempt (read_entries python allowed (items_list vs)) λ entries. ok (normalized entries)
from_entries python allowed _ = err unsupported

unfoldable pub normalize : Python → List String → Fields → Result Normalized
normalize python allowed payload =
    demand (is_instagram (get_field "object" payload)) unsupported
      (from_entries python allowed (get_field "entry" payload))
