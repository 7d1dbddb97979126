-- ===== src/Inbound/Local.antt =====
-- `normalize` of rrpp_bridge/adapters/local.py.
use rrpp_agent_bridge.Common.{String, Option, none, some, leb, if◌then◌else◌}
use rrpp_agent_bridge.Common.Json.{Value, Fields, text, end, get_field}
use rrpp_agent_bridge.Common.Text.{Python, strip, is_empty, text_length, ◌⧺◌}
use rrpp_agent_bridge.Models.{NormalizedEvent}
use rrpp_agent_bridge.Store.Monad.{Result, ok, err, value_error}
use rrpp_agent_bridge.Inbound.Attempt.{attempt, demand}

-- A field that must be a text that is not blank.
unfoldable pub required : String → Option Value → Result String
required name (some (text s)) =
    if is_empty (strip s)
    then err (value_error (name ⧺ " must be a non-empty string"))
    else ok (strip s)
required name v = err (value_error (name ⧺ " must be a non-empty string"))

unfoldable pub subject_of : Option Value → Result String
subject_of none = ok ""
subject_of (some (text s)) =
    if leb (text_length s) 500
    then ok (strip s)
    else err (value_error "subject must be a string of at most 500 characters")
subject_of (some v) = err (value_error "subject must be a string of at most 500 characters")

unfoldable pub normalize : Python → Fields → Result NormalizedEvent
normalize python payload =
    attempt (required "external_message_id" (get_field "external_message_id" payload)) λ id.
      attempt (required "sender" (get_field "sender" payload)) λ sender.
        attempt (required "recipient" (get_field "recipient" payload)) λ recipient.
          attempt (required "body_text" (get_field "body_text" payload)) λ body.
            demand (leb (text_length body) 20000) (value_error "body_text exceeds 20000 characters")
              (attempt (subject_of (get_field "subject" payload)) λ subject. ok (record {
                channel = "local";
                external_message_id = id;
                sender = sender;
                recipient = recipient;
                subject = subject;
                body_text = body;
                work_key = "local:" ⧺ python.casefold sender ⧺ ":" ⧺ python.casefold recipient;
                metadata = end;
                received_at = none;
              }))
