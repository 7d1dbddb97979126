-- ===== src/OpenClaw/Decision.antt =====
-- What `_parse_response` of rrpp_bridge/openclaw_client.py makes of the arguments of a decision.
use rrpp_agent_bridge.Common.{
  ℕ, String, Bool, true, false, not, ◌&&◌, ◌||◌, Option, some, List, [], ◌∷◌, map, eqb, leb, ◌==◌,
  any_where, if◌then◌else◌, length, select_where,
}
use rrpp_agent_bridge.Common.Json.{
  Fields, Value, arr, get_field, has_exactly, items_list, keys, member, null, obj, text,
}
use rrpp_agent_bridge.Common.Regex.{full_match}
use rrpp_agent_bridge.Common.Text.{Python, any_char, is_empty, strip, text_length, ◌⧺◌}
use rrpp_agent_bridge.Models.{AgentDecision, CatalogItem, ReferencedItem}
use rrpp_agent_bridge.Catalog.Order.{text_le}
use rrpp_agent_bridge.Policy.Patterns.{language_pattern}
use rrpp_agent_bridge.OpenClaw.Failure.{Checked, and_then, fail_with, good, invalid, require}

abbrev pub max_reply_characters : ℕ
max_reply_characters = 1000

abbrev pub decision_actions : List String
decision_actions = "ask_clarification" ∷ "human_required" ∷ "ignore" ∷ "reply" ∷ []

abbrev pub reason_codes : List String
reason_codes =
    "catalog_answer" ∷ "customer_requested_human" ∷ "farewell" ∷ "greeting" ∷ "missing_details"
    ∷ "sensitive_request" ∷ "spam_or_non_message" ∷ "thanks" ∷ "unknown_information"
    ∷ "unsupported_request" ∷ []

-- sorted(expected_fields)
abbrev pub expected_fields : List String
expected_fields = "action" ∷ "language" ∷ "reason_code" ∷ "referenced_items" ∷ "text" ∷ []

-- [A-Za-z0-9_-]
unfoldable pub is_safe_char : ℕ → Bool
is_safe_char c =
    (leb b'A' c && leb c b'Z')
    || (leb b'a' c && leb c b'z')
    || (leb b'0' c && leb c b'9')
    || eqb c b'_'
    || eqb c b'-'

-- The name of a field, if it may be shown.
unfoldable pub safe_field : String → String
safe_field name =
    if leb 1 (text_length name)
      && leb (text_length name) 40
      && not (any_char (λ c. not (is_safe_char c)) name)
    then name
    else "invalid"

-- sorted(values) of a set: an element that is there already is not added.
unfoldable pub insert_name : String → List String → List String
insert_name s [] = s ∷ []
insert_name s (t ∷ l) =
    let rest = insert_name s l in
    if s == t then t ∷ l else if text_le s t then s ∷ t ∷ l else t ∷ rest

unfoldable pub sorted_names : List String → List String
sorted_names [] = []
sorted_names (s ∷ l) = insert_name s (sorted_names l)

-- ",".join(values)
unfoldable pub join_commas : List String → String
join_commas [] = ""
join_commas (s ∷ []) = s
join_commas (s ∷ t ∷ l) = s ⧺ "," ⧺ join_commas (t ∷ l)

-- values or "none"
abbrev pub or_none : String → String
or_none s = if is_empty s then "none" else s

unfoldable pub fields_diagnostic : Fields → String
fields_diagnostic arguments =
    let safe = map safe_field (keys arguments) in
    let missing = select_where (λ name. not (member name safe)) expected_fields in
    let extra = sorted_names (select_where (λ name. not (member name expected_fields)) safe) in
    "missing=" ⧺ or_none (join_commas missing) ⧺ ";extra=" ⧺ or_none (join_commas extra)

-- An item whose type, identifier and time of verification are those of an item of the catalog.
abbrev pub is_item : String → String → String → CatalogItem → Bool
is_item t i v item = item.type == t && item.id == i && item.verified_at == v

unfoldable pub known_reference :
    List CatalogItem → Option Value → Option Value → Option Value → Checked ReferencedItem
known_reference known (some (text t)) (some (text i)) (some (text v)) =
    require (any_where (is_item t i v) known) (good (record { type = t; id = i; verified_at = v }))
known_reference known _ _ _ = invalid

unfoldable pub read_reference : List CatalogItem → Value → Checked ReferencedItem
read_reference known (obj fs) =
    require (has_exactly ("type" ∷ "id" ∷ "verified_at" ∷ []) fs)
      (known_reference known (get_field "type" fs) (get_field "id" fs) (get_field "verified_at" fs))
read_reference known _ = invalid

unfoldable pub read_references : List CatalogItem → List Value → Checked (List ReferencedItem)
read_references known [] = good []
read_references known (v ∷ l) =
    and_then (read_reference known v)
      λ item. and_then (read_references known l) λ items. good (item ∷ items)

-- "" if value is None else value.strip()
unfoldable pub read_text : Option Value → Checked String
read_text (some null) = good ""
read_text (some (text s)) = good (strip s)
read_text _ = invalid

unfoldable pub read_language : Python → Option Value → Checked String
read_language python (some (text s)) = good (python.casefold (strip s))
read_language python _ = invalid

-- A value that is a member of a set of texts.
unfoldable pub read_choice : List String → Option Value → Checked String
read_choice choices (some (text s)) = require (member s choices) (good s)
read_choice choices _ = invalid

unfoldable pub read_items : Option Value → Checked (List Value)
read_items (some (arr l)) = require (leb (length (items_list l)) 10) (good (items_list l))
read_items _ = invalid

abbrev pub has_nul : String → Bool
has_nul s = any_char (λ c. eqb c 0) s

-- The conditions on the action and the text.
abbrev pub fits : String → String → Bool
fits action reply =
    leb (text_length reply) max_reply_characters
    && not (has_nul reply)
    && not ((action == "reply" || action == "ask_clarification") && is_empty reply)
    && not (action == "ignore" && not (is_empty reply))

-- The checks of an object with the expected fields: each that fails raises the same error.
unfoldable pub read_decision : Python → List CatalogItem → Fields → Checked AgentDecision
read_decision python known fs = and_then (read_text (get_field "text" fs)) λ reply.
    and_then (read_language python (get_field "language" fs)) λ language.
      and_then (read_choice decision_actions (get_field "action" fs)) λ action.
        and_then (read_choice reason_codes (get_field "reason_code" fs)) λ reason_code.
          and_then (read_items (get_field "referenced_items" fs)) λ items.
            require (full_match language_pattern language && fits action reply) (
              and_then (read_references known items) λ references. good (record {
                action = action;
                text = reply;
                language = language;
                reason_code = reason_code;
                referenced_items = references;
                structured = true;
              }))

-- From `if not isinstance(arguments, dict)` on.
unfoldable pub check_arguments : Python → List CatalogItem → Value → Checked AgentDecision
check_arguments python known (obj fs) = elim (has_exactly expected_fields fs) [
  | true ↦ read_decision python known fs
  | false ↦ fail_with "invalid_response" (fields_diagnostic fs)
]
check_arguments python known _ = fail_with "invalid_response" "decision_not_object"
