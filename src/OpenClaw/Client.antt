-- ===== src/OpenClaw/Client.antt =====
-- `OpenClawAgentProvider` of rrpp_bridge/openclaw_client.py: `generate_decision`, `diagnose` and the
-- forms of an answer that `_parse_response` takes. The Gateway is a parameter.
use rrpp_agent_bridge.Common.{
  ◌-◌, ◌*◌, String, Bool, true, false, not, ◌&&◌, Option, none, some, List, [], ◌∷◌, leb, ◌==◌,
  if◌then◌else◌,
}
use rrpp_agent_bridge.Common.Json.{
  Value, arr, cons, get_field, items_list, member, nil, obj, text, truthy,
}
use rrpp_agent_bridge.Common.Text.{
  Python, drop_chars, is_empty, is_prefix, prefix, strip, text_length, ◌⧺◌,
}
use rrpp_agent_bridge.Models.{AgentDecision, CatalogItem}
use rrpp_agent_bridge.Store.Monad.{Result, ok, err, provider_error, unhandled}
use rrpp_agent_bridge.Agent.{AgentContext, Provider, decisions}
use rrpp_agent_bridge.OpenClaw.Failure.{
  Checked, Loaded, Reply, and_then, bad, escapes, fail_with, good, invalid, loaded, not_json,
  read_reply, require, too_deep, unreadable,
}
use rrpp_agent_bridge.OpenClaw.Decision.{check_arguments, has_nul, max_reply_characters}
use rrpp_agent_bridge.OpenClaw.Payload.{Writer, request_payload}

-- A request to the Gateway: its method, the end of its address, the value of its body, and the headers
-- that depend on the call.
pub record GatewayRequest : Type 0 where
  pub method : String
  pub url : String
  pub content : Option Value
  pub agent_id : Option String
  pub channel : Option String

-- What the client is made with, and what it calls.
pub record Gateway : Type 0 where
  pub python : Python
  pub writer : Writer
  -- json.loads(value)
  pub loads : String → Loaded
  pub opener : GatewayRequest → Reply
  pub base_url : String
  pub agent_id : String

abbrev pub fence : String
fence = "```"

-- The inner part of a text, if it stands between two fences.
abbrev pub inside_fences : String → Option String
inside_fences s =
    let n = text_length s in
    if leb 6 n && is_prefix fence s && drop_chars (n - 3) s == fence
    then some (drop_chars 3 (prefix (n - 3) s))
    else none

-- (?:json)?
abbrev pub after_json : String → String
after_json s = if is_prefix "json" s then drop_chars 4 s else s

-- re.fullmatch(r"```(?:json)?\s*(.*?)\s*```", content, re.DOTALL): the group, or the whole content.
unfoldable pub unfenced : String → String
unfenced content = elim (inside_fences content) [
  | some inner ↦ strip (after_json inner)
  | none ↦ content
]

-- AgentDecision("human_required", content, "unknown", "unstructured_provider_output", structured=False)
abbrev pub unstructured : String → AgentDecision
unstructured content = record {
  action = "human_required";
  text = content;
  language = "unknown";
  reason_code = "unstructured_provider_output";
  referenced_items = [];
  structured = false;
}

-- bool(message.get("tool_calls"))
abbrev pub has_calls : Option Value → Bool
has_calls none = false
has_calls (some v) = truthy v

abbrev pub calls_of : Option Value → Value
calls_of none = Value.null
calls_of (some v) = v

module _ (gateway : Gateway) (known : List CatalogItem) where
  -- The arguments of the one tool call.
  unfoldable pub read_arguments : Loaded → Checked AgentDecision
  read_arguments (loaded v) = check_arguments gateway.python known v
  read_arguments too_deep = escapes "RecursionError"
  read_arguments _ = invalid

  unfoldable pub read_function : Option Value → Option Value → Checked AgentDecision
  read_function (some (text name)) (some (text arguments)) =
      require (name == "submit_decision") (read_arguments (gateway.loads arguments))
  read_function _ _ = invalid

  unfoldable pub read_call : Option Value → Checked AgentDecision
  read_call (some (obj function)) =
      read_function (get_field "name" function) (get_field "arguments" function)
  read_call _ = invalid

  unfoldable pub read_tool_calls : Value → Checked AgentDecision
  read_tool_calls (arr (cons (obj call) nil)) = read_call (get_field "function" call)
  read_tool_calls _ = invalid

  -- What is made of a content by what its candidate is in JSON.
  unfoldable pub read_candidate : String → Loaded → Checked AgentDecision
  read_candidate content (loaded v) = check_arguments gateway.python known v
  read_candidate content not_json =
      require (leb (text_length content) max_reply_characters) (good (unstructured content))
  read_candidate content unreadable = invalid
  read_candidate content too_deep = escapes "RecursionError"

  unfoldable pub read_stripped : String → Checked AgentDecision
  read_stripped content =
      require
        (not (is_empty content)
          && leb (text_length content) (max_reply_characters * 4)
          && not (has_nul content))
        (read_candidate content (gateway.loads (unfenced content)))

  unfoldable pub read_content : Option Value → Checked AgentDecision
  read_content (some (text s)) = read_stripped (strip s)
  read_content _ = invalid

  unfoldable pub read_message : Option Value → Checked AgentDecision
  read_message (some (obj message)) =
      let calls = get_field "tool_calls" message in
      elim (has_calls calls) [
        | true ↦ read_tool_calls (calls_of calls)
        | false ↦ read_content (get_field "content" message)
      ]
  read_message _ = invalid

  unfoldable pub read_choices : Option Value → Checked AgentDecision
  read_choices (some (arr (cons (obj choice) nil))) = read_message (get_field "message" choice)
  read_choices _ = invalid

  unfoldable pub read_payload : Loaded → Checked AgentDecision
  read_payload (loaded (obj payload)) = read_choices (get_field "choices" payload)
  read_payload too_deep = escapes "RecursionError"
  read_payload _ = invalid

  -- `_parse_response`, of a body that was decoded or not.
  unfoldable pub parse_response : Option String → Checked AgentDecision
  parse_response (some content) = read_payload (gateway.loads content)
  parse_response none = invalid

unfoldable pub decision_request : Gateway → AgentContext → GatewayRequest
decision_request gateway context = record {
  method = "POST";
  url = gateway.base_url ⧺ "/v1/chat/completions";
  content = some (request_payload gateway.writer gateway.agent_id context);
  agent_id = some gateway.agent_id;
  channel = some context.channel;
}

unfoldable pub generate_checked : Gateway → AgentContext → Checked AgentDecision
generate_checked gateway context =
    and_then
      (read_reply gateway.python "response_too_large"
        (gateway.opener (decision_request gateway context)))
      (parse_response gateway context.catalog_items)

-- The exception carries its code: only the command line shows the diagnostic.
abbrev pub as_result : {A : Type 0} → Checked A → Result A
as_result (good a) = ok a
as_result (bad f) = err (provider_error f.code)
as_result (escapes name) = err (unhandled name)

unfoldable pub generate_decision : Gateway → AgentContext → Result AgentDecision
generate_decision gateway context = as_result (generate_checked gateway context)

unfoldable pub open_claw : Gateway → Provider
open_claw gateway = record {
  provider_id = "openclaw";
  contract = decisions (generate_decision gateway);
}

abbrev pub models_request : Gateway → GatewayRequest
models_request gateway = record {
  method = "GET";
  url = gateway.base_url ⧺ "/v1/models";
  content = none;
  agent_id = none;
  channel = none;
}

abbrev cons_text : Option Value → List String → List String
cons_text (some (text id)) ids = id ∷ ids
cons_text _ ids = ids

-- The texts under "id" of the items that are objects.
unfoldable pub model_ids : List Value → List String
model_ids [] = []
model_ids (obj item ∷ l) = cons_text (get_field "id" item) (model_ids l)
model_ids (_ ∷ l) = model_ids l

unfoldable pub read_models : Option Value → Checked (List String)
read_models (some (arr models)) = good (model_ids (items_list models))
read_models _ = fail_with "invalid_response" "models_response_invalid"

unfoldable pub parse_models : Loaded → Checked (List String)
parse_models (loaded (obj payload)) = read_models (get_field "data" payload)
parse_models too_deep = escapes "RecursionError"
parse_models _ = fail_with "invalid_response" "models_response_invalid"

unfoldable pub load_models : Gateway → Option String → Checked (List String)
load_models gateway (some content) = parse_models (gateway.loads content)
load_models gateway none = fail_with "invalid_response" "models_response_invalid"

unfoldable pub diagnose : Gateway → Checked (Unit {0})
diagnose gateway =
    and_then
      (read_reply gateway.python "models_response_too_large"
        (gateway.opener (models_request gateway)))
      λ content. and_then (load_models gateway content) λ ids.
        elim (member ("openclaw/" ⧺ gateway.agent_id) ids) [
          | true ↦ good tt
          | false ↦ fail_with "agent_missing" ""
        ]
