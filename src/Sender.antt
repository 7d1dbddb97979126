-- ===== src/Sender.antt =====
-- The client of the Send API: rrpp_bridge/instagram_sender.py. The answer to a request is a parameter:
-- the exception of the request, or a body, as its size and what `json.loads` makes of it. An exception
-- that `send_text` does not catch, one of `http.client` or the RecursionError of `json.loads`, leaves it.
use rrpp_agent_bridge.Common.{
  ℕ, ◌*◌, String, Bool, true, false, not, ◌&&◌, Option, some, [], ◌∷◌, ◌++◌, leb, ltb,
  if◌then◌else◌,
}
use rrpp_agent_bridge.Common.Json.{Value, obj, get_field}
use rrpp_agent_bridge.Common.Text.{Python, to_text, strip, is_empty, text_length}
use rrpp_agent_bridge.Store.Monad.{M, Request, Result, err, ok, unhandled}

pub data Answer : Type 0 where
  http_error : ℕ → Answer
  network_error : Answer
  uncaught : String → Answer
  body : ℕ → Option Value → Answer

-- What the far side answers to a request.
abbrev pub Remote : Type 0
Remote = Request → Answer

-- `InstagramSendResult`, or `InstagramSendError` with its code and whether it is ambiguous.
pub data SendOutcome : Type 0 where
  sent : String → String → SendOutcome
  send_error : String → Bool → SendOutcome

abbrev pub max_response_bytes : ℕ
max_response_bytes = 64 * 1024

abbrev pub bounded_text : ℕ → String → Bool
bounded_text limit s = not (is_empty s) && leb (text_length s) limit

-- The two identifiers of a body that is an object with both fields.
abbrev pub identifiers : Python → Option Value → Option Value → SendOutcome
identifiers python (some recipient) (some message) =
    if bounded_text 200 (strip (to_text python recipient))
      && bounded_text 500 (strip (to_text python message))
    then sent (strip (to_text python recipient)) (strip (to_text python message))
    else send_error "instagram_invalid_response" true
identifiers python _ _ = send_error "instagram_invalid_response" true

unfoldable pub read_payload : Python → Option Value → SendOutcome
read_payload python (some (obj fs)) =
    identifiers python (get_field "recipient_id" fs) (get_field "message_id" fs)
read_payload python _ = send_error "instagram_invalid_response" true

unfoldable pub read_answer : Python → Answer → Result SendOutcome
read_answer python (http_error code) =
    if leb 400 code && ltb code 500
    then ok (send_error "instagram_rejected" false)
    else ok (send_error "instagram_delivery_unknown" true)
read_answer python network_error = ok (send_error "instagram_delivery_unknown" true)
read_answer python (uncaught name) = err (unhandled name)
read_answer python (body size payload) =
    if ltb max_response_bytes size
    then ok (send_error "instagram_invalid_response" true)
    else ok (read_payload python payload)

unfoldable pub request : Python → Remote → Request → M SendOutcome
request python remote r w =
    (read_answer python (remote r), record w { requests = w.requests ++ r ∷ [] })

abbrev pub refuse : M SendOutcome
refuse w = (ok (send_error "instagram_invalid_delivery" false), w)

-- `send_text` of the account's sender. The identifier of the delivery is carried along for the
-- record of the requests only.
unfoldable pub send_text : Python → Remote → String → String → String → String → M SendOutcome
send_text python remote delivery_id account_id recipient_id message =
    elim (bounded_text 200 (strip recipient_id) && bounded_text 1000 (strip message)) [
      | false ↦ refuse
      | true ↦ request python remote (record {
        delivery_id = delivery_id;
        sender_account_id = account_id;
        recipient_id = strip recipient_id;
        text = strip message;
      })
    ]
