-- ===== src/OpenClaw/Failure.antt =====
-- `AgentProviderError` of rrpp_bridge/agent_provider.py, and what the Gateway answers: how
-- rrpp_bridge/openclaw_client.py turns the exceptions of a request into it.
use rrpp_agent_bridge.Common.{
  ℕ, ◌*◌, String, Bool, true, false, ◌&&◌, ◌||◌, Option, eqb, leb, ltb, if◌then◌else◌,
}
use rrpp_agent_bridge.Common.Json.{Value, num}
use rrpp_agent_bridge.Common.Text.{Python, ◌⧺◌}

pub record Failure : Type 0 where
  pub code : String
  pub diagnostic : String

-- What the code gives: a result, an `AgentProviderError`, or an exception that it does not catch.
pub data Checked (A : Type 0) : Type 0 where
  good : A → Checked A
  bad : Failure → Checked A
  escapes : String → Checked A

unfoldable pub and_then : {A B : Type 0} → Checked A → (A → Checked B) → Checked B
and_then (good a) next = next a
and_then (bad f) next = bad f
and_then (escapes name) next = escapes name

abbrev pub fail_with : {A : Type 0} → String → String → Checked A
fail_with code diagnostic = bad (record { code = code; diagnostic = diagnostic })

-- What the handler of the `try` block makes of a KeyError, a TypeError, a ValueError and the like.
abbrev pub invalid : {A : Type 0} → Checked A
invalid = fail_with "invalid_response" ""

unfoldable pub require : {A : Type 0} → Bool → Checked A → Checked A
require true r = r
require false r = invalid

-- An answer of the Gateway: the exception of the request, or a body, as its size and its text, if it is
-- one in UTF-8. The exceptions of `http.client` that are no OSError, such as those for a malformed
-- status line and for an incomplete body, are `broken`.
pub data Reply : Type 0 where
  timed_out : Reply
  http_status : ℕ → Reply
  network_error : Reply
  broken : String → Reply
  body : ℕ → Option String → Reply

-- What `json.loads` makes of a text. It raises a ValueError that is no JSONDecodeError for a number
-- with too many digits, and a RecursionError for a value that is nested too deeply.
pub data Loaded : Type 0 where
  loaded : Value → Loaded
  not_json : Loaded
  unreadable : Loaded
  too_deep : Loaded

abbrev pub max_response_bytes : ℕ
max_response_bytes = 64 * 1024

-- `_http_error`
unfoldable pub http_error : Python → ℕ → Failure
http_error python code =
    if eqb code 401 || eqb code 403 || eqb code 429
    then record { code = "auth_failed"; diagnostic = if eqb code 429 then "rate_limited" else "" }
    else if eqb code 404
    then record { code = "agent_missing"; diagnostic = "" }
    else if leb 400 code && ltb code 500
    then record { code = "invalid_response"; diagnostic = "http_" ⧺ python.show (num false code) }
    else record { code = "unreachable"; diagnostic = "http_" ⧺ python.show (num false code) }

-- The body of an answer, or the error for it.
unfoldable pub read_reply : Python → String → Reply → Checked (Option String)
read_reply python too_large timed_out = fail_with "unreachable" "timeout"
read_reply python too_large (http_status code) = bad (http_error python code)
read_reply python too_large network_error = fail_with "unreachable" ""
read_reply python too_large (broken name) = escapes name
read_reply python too_large (body size content) =
    if ltb max_response_bytes size then fail_with "invalid_response" too_large else good content
