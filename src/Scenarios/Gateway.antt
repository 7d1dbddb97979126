-- ===== src/Scenarios/Gateway.antt =====
-- The theorems on the client of the OpenClaw Gateway, at concrete inputs.
use rrpp_agent_bridge.Common.{false, some, [], ◌∷◌, ◌≡◌, refl, arith}
use rrpp_agent_bridge.Common.Json.{Fields, Value, arr, end, field, nil, obj, text}
use rrpp_agent_bridge.Common.Text.{
  any_char, is_empty, is_prefix, is_space, lstrip, rstrip, text_length,
}
use rrpp_agent_bridge.Models.{CatalogItem}
use rrpp_agent_bridge.Agent.{AgentContext, generate}
use rrpp_agent_bridge.Executor.Worker.{answer}
use rrpp_agent_bridge.OpenClaw.Failure.{body, loaded}
use rrpp_agent_bridge.OpenClaw.Decision.{check_arguments, fields_diagnostic}
use rrpp_agent_bridge.OpenClaw.Client.{Gateway, generate_decision, open_claw, read_message}
use rrpp_agent_bridge.OpenClaw.Answers.{
  Answered, Escapes, GoesOn, generate_decision-Answered, open_claw-answer,
}
use rrpp_agent_bridge.OpenClaw.Fences.{IsTrimmed, fenced}
use rrpp_agent_bridge.OpenClaw.Formats.{IsArguments, called, formats_agree, said}
use rrpp_agent_bridge.OpenClaw.Diagnostics.{fields_diagnostic-safe, is_unsafe}
use rrpp_agent_bridge.Scenarios.Data.{python, world}

abbrev item : CatalogItem
item = record { type = "event"; id = "evt_1"; verified_at = "2026-01-01"; content = end }

abbrev greeting : Value
greeting = obj (
    field "action" (text "reply") (
      field "text" (text " Hola! ") (
        field "language" (text "ca")
          (field "reason_code" (text "greeting") (field "referenced_items" (arr nil) end)))))

abbrev gateway : Gateway
gateway = record {
  python = python;
  writer = record { dumps = λ v. "{}"; time_text = λ t. "2026-01-01T00:00:00.000+00:00" };
  loads = λ s. loaded greeting;
  opener = λ r. body 2 (some "{}");
  base_url = "http://127.0.0.1:18789";
  agent_id = "rrpp";
}

abbrev context : AgentContext
context = record {
  correlation_id = "evt_1";
  conversation_id = "conv_1";
  channel = "instagram";
  receiver_account_id = "club";
  external_user_id = "customer";
  language_hint = "ca";
  incoming_message = "Hola";
  history = [];
  catalog_items = item ∷ [];
  bot_paused = false;
}

generate_decision-Answered_example :
    Answered (item ∷ []) (Escapes gateway context) (generate_decision gateway context)
generate_decision-Answered_example = generate_decision-Answered gateway context

open_claw-answer_example :
    GoesOn
      (item ∷ [])
      (Escapes gateway context)
      context
      world
      (answer context (generate python (open_claw gateway).contract context) world)
open_claw-answer_example = open_claw-answer gateway python context world

braces-IsTrimmed : IsTrimmed "{}"
unfolding lstrip rstrip is_empty is_space
braces-IsTrimmed = record { left = refl; right = refl; nonempty = refl }

braces-IsArguments : IsArguments "{}"
unfolding is_prefix text_length any_char
braces-IsArguments = record {
  trimmed = braces-IsTrimmed;
  unfenced = refl;
  short = omega arith;
  clean = refl;
}

formats_agree_example :
    (read_message gateway [] (some (obj (called "{}"))) ≡ check_arguments python [] greeting)
    × (read_message gateway [] (some (obj (said "{}"))) ≡ check_arguments python [] greeting)
    × (read_message gateway [] (some (obj (said (fenced "{}"))))
        ≡ check_arguments python [] greeting)
formats_agree_example = formats_agree gateway [] greeting "{}" refl braces-IsArguments

abbrev strange : Fields
strange = field "decision" (text "reply") (field "a b" (text "") end)

fields_diagnostic-safe_example : any_char is_unsafe (fields_diagnostic strange) ≡ false
fields_diagnostic-safe_example = fields_diagnostic-safe strange
