-- ===== src/Inbound/Webhook.antt =====
-- `InstagramWebhookApplication` of rrpp_bridge/instagram_webhook.py. The digests, `json.loads` and
-- `int` are parameters; a body is the sequence of its bytes.
use Prim.Native.Char.{code}
use rrpp_agent_bridge.Common.{
  ℕ, ◌+◌, String, Bool, true, false, not, ◌&&◌, ◌||◌, List, [], ◌∷◌, ◌++◌, ltb, eqb, ◌==◌,
  if◌then◌else◌, find_where, any_where,
}
use rrpp_agent_bridge.Common.Json.{Value, obj}
use rrpp_agent_bridge.Common.Text.{
  drop_chars, Python, strip, prefix, text_length, is_prefix, any_char,
}
use rrpp_agent_bridge.Models.{NormalizedEvent}
use rrpp_agent_bridge.Store.Rows.{Receipt}
use rrpp_agent_bridge.Store.Monad.{
  M, Result, ok, err, Exception, value_error, type_error, pure, raise, query, write_unless, on_row,
  transaction, utc_now, new_id, record_audit, ◌>>=◌, ◌>>◌,
}
use rrpp_agent_bridge.Queue.Enqueue.{enqueue_in_transaction}
use rrpp_agent_bridge.Inbound.Attempt.{demand}
use rrpp_agent_bridge.Inbound.Instagram.{Normalized, normalize}

-- What the application calls and is configured with.
pub record Application : Type 0 where
  pub python : Python
  -- json.loads(body.decode("utf-8")), or what one of them raises
  pub parse : String → Result Value
  -- hmac.new(secret, body, hashlib.sha256).hexdigest()
  pub hmac_sha256 : String → String → String
  -- hashlib.sha256(body).hexdigest()
  pub sha256 : String → String
  pub enabled : Bool
  -- Whether the database file opens and `prepare_runtime` accepts it. The tables are then as they are here,
  -- and nothing is applied.
  pub is_ready : Bool
  pub verify_token : String
  pub app_secret : String
  pub account_ids : List String
  pub debounce_seconds : ℕ

-- int(environ.get("CONTENT_LENGTH") or -1), if it is a number.
pub data Length : Type 0 where
  not_a_number : Length
  negative : Length
  declared : ℕ → Length

pub record Environ : Type 0 where
  pub path : String
  pub method : String
  pub content_type : String
  pub content_length : Length
  pub signature : String
  pub input : String
  pub hub_mode : String
  pub hub_verify_token : String
  pub hub_challenge : String

pub record Response : Type 0 where
  pub status : ℕ
  pub body : String

abbrev pub respond : ℕ → String → Response
respond status body = record { status = status; body = body }

abbrev pub max_body_bytes : ℕ
max_body_bytes = 262144

-- value.split(";", 1)[0]
unfoldable pub before_semicolon : String → String
before_semicolon String.[] = String.[]
before_semicolon (String.◌∷◌ c s) =
    let rest = before_semicolon s in if eqb (code c) b';' then String.[] else String.◌∷◌ c rest

unfoldable pub read_length : String → Length → Result String
read_length input not_a_number = err (value_error "Invalid content length")
read_length input negative = err (value_error "Invalid request size")
read_length input (declared n) =
    if ltb max_body_bytes n
    then err (value_error "Invalid request size")
    else if eqb (text_length (prefix n input)) n
    then ok (prefix n input)
    else err (value_error "Incomplete request body")

unfoldable pub read_body : Application → Environ → Result String
read_body app environ =
    demand
      (app.python.casefold (strip (before_semicolon environ.content_type)) == "application/json")
      (value_error "Unsupported content type") (read_length environ.input environ.content_length)

-- hmac.compare_digest of two texts, which takes ASCII only.
unfoldable pub compare_digest : String → String → Result Bool
compare_digest a b =
    if any_char (ltb 127) a || any_char (ltb 127) b then err type_error else ok (a == b)

unfoldable pub verify_signature : Application → Environ → String → Result Bool
verify_signature app environ body =
    if is_prefix "sha256=" environ.signature && eqb (text_length environ.signature) 71
    then compare_digest (app.python.casefold (drop_chars 7 environ.signature))
        (app.hmac_sha256 app.app_secret body)
    else ok false

-- What a call of the code without state gives to the code around it.
unfoldable pub lift : {A : Type 0} → Result A → M A
lift (ok a) = pure a
lift (err e) = raise e

unfoldable pub verify_get : Application → Environ → M Response
verify_get app environ =
    if environ.hub_mode == "subscribe"
    then (do
      same ← lift (compare_digest environ.hub_verify_token app.verify_token)
      pure (if same then respond 200 environ.hub_challenge else respond 403 "Forbidden"))
    else pure (respond 403 "Forbidden")

-- The numbers of accepted and of duplicate events.
unfoldable pub enqueue_all : ℕ → List NormalizedEvent → M (ℕ × ℕ)
enqueue_all debounce_seconds [] = pure (0, 0)
enqueue_all debounce_seconds (event ∷ events) = do
  (id, created) ← enqueue_in_transaction debounce_seconds event
  (accepted, duplicates) ← enqueue_all debounce_seconds events
  pure (if created then (accepted + 1, duplicates) else (accepted, duplicates + 1))

abbrev pub total : List (String × ℕ) → ℕ
total [] = 0
total ((reason, n) ∷ l) = n + total l

abbrev pub receipt_status : ℕ → String
receipt_status accepted = if ltb 0 accepted then "accepted" else "ignored"

unfoldable pub insert_receipt : Receipt → M (Unit {0})
insert_receipt r =
    write_unless
      (λ db.
        any_where
          (λ o. o.id == r.id || (o.provider == r.provider && o.payload_sha256 == r.payload_sha256))
          db.webhook_receipts)
      (λ db. record db { webhook_receipts = db.webhook_receipts ++ r ∷ [] })

unfoldable pub store_events : ℕ → String → Normalized → M Response
store_events debounce_seconds digest n = do
  (accepted, duplicates) ← enqueue_all debounce_seconds n.events
  receipt_id ← new_id "wh"
  timestamp ← utc_now
  insert_receipt (record {
    id = receipt_id;
    provider = "instagram";
    payload_sha256 = digest;
    status = receipt_status accepted;
    accepted_count = accepted;
    duplicate_count = duplicates;
    ignored_count = total n.ignored_reasons;
    received_at = timestamp;
  })
  record_audit "adapter.instagram" "webhook.received" "webhook_receipt" receipt_id
      (receipt_status accepted)
  pure (respond 200 "EVENT_RECEIVED")

unfoldable pub duplicate_webhook : Receipt → M Response
duplicate_webhook prior = do
  record_audit "adapter.instagram" "webhook.duplicate" "webhook_receipt" prior.id "ignored"
  pure (respond 200 "EVENT_RECEIVED")

abbrev pub has_digest : String → Receipt → Bool
has_digest digest r = r.provider == "instagram" && r.payload_sha256 == digest

unfoldable pub receive_in_transaction : ℕ → String → Normalized → M Response
receive_in_transaction debounce_seconds digest n = do
  prior ← query (λ db. find_where (has_digest digest) db.webhook_receipts)
  on_row prior (store_events debounce_seconds digest n) duplicate_webhook

-- try: ... except Exception: ...
unfoldable pub catch_all : {A : Type 0} → M A → A → M A
catch_all m fallback w =
    let (r, w') = m w in elim r [ ok a ↦ (ok a, w') | err e ↦ (ok fallback, w') ]

unfoldable pub receive : ℕ → String → Normalized → M Response
receive debounce_seconds digest n =
    catch_all (transaction (receive_in_transaction debounce_seconds digest n))
      (respond 500 "Temporary failure")

abbrev invalid : Response
invalid = respond 400 "Invalid request"

-- except (UnicodeDecodeError, json.JSONDecodeError, ValueError)
unfoldable pub after_error : Exception → M Response
after_error (value_error message) = pure invalid
after_error e = raise e

unfoldable pub normalized_payload : Application → Result Value → Result Normalized
normalized_payload app (ok (obj payload)) = normalize app.python app.account_ids payload
normalized_payload app (ok v) = err (value_error "Payload must be an object")
normalized_payload app (err e) = err e

unfoldable pub receive_payload : Application → String → Result Normalized → M Response
receive_payload app body (ok n) = receive app.debounce_seconds (app.sha256 body) n
receive_payload app body (err e) = after_error e

unfoldable pub post_signed : Application → String → Result Bool → M Response
post_signed app body (err e) = raise e
post_signed app body (ok false) = pure (respond 403 "Forbidden")
post_signed app body (ok true) = receive_payload app body (normalized_payload app (app.parse body))

unfoldable pub post_body : Application → Environ → Result String → M Response
post_body app environ (err e) = after_error e
post_body app environ (ok body) = post_signed app body (verify_signature app environ body)

unfoldable pub post : Application → Environ → M Response
post app environ = post_body app environ (read_body app environ)

-- The path `/healthz`
unfoldable pub health : Application → Environ → Response
health app environ =
    if not (environ.method == "GET")
    then respond 405 "Method not allowed"
    else if not app.enabled
    then respond 503 "Unavailable"
    else if app.is_ready
    then respond 200 "OK"
    else respond 503 "Unavailable"

-- `__call__`
unfoldable pub call : Application → Environ → M Response
call app environ =
    if environ.path == "/healthz"
    then pure (health app environ)
    else if not app.enabled
    then pure (respond 404 "Not found")
    else if not (environ.path == "/webhooks/instagram")
    then pure (respond 404 "Not found")
    else if environ.method == "GET"
    then verify_get app environ
    else if environ.method == "POST"
    then post app environ
    else pure (respond 405 "Method not allowed")
