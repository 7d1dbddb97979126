-- ===== src/Policy/Checks.antt =====
-- The checks of rrpp_bridge/policy.py on texts and payloads. A text that is no text, which the
-- checks refuse, cannot be given here.
use rrpp_agent_bridge.Common.{
  ℕ, String, Bool, true, false, not, ◌&&◌, ◌||◌, Option, none, some, List, [], ◌∷◌, leb, ltb, eqb,
  ◌==◌, length,
}
use rrpp_agent_bridge.Common.Text.{
  Python, strip, is_empty, text_length, any_char, count_chars, alnum_runs, join_words, contains,
  ◌⧺◌,
}
use rrpp_agent_bridge.Common.Json.{
  Value, null, bool, text, arr, obj, Fields, get_field, items_list, member, has_exactly, truthy,
}
use rrpp_agent_bridge.Common.Regex.{Regex, matches_in, full_match}
use rrpp_agent_bridge.Policy.Words.{
  max_reply_characters, max_references, reference_types, agent_payload_fields,
  controlled_topic_words, controlled_topic_phrases, incident_words,
}
use rrpp_agent_bridge.Policy.Patterns.{
  restricted_operation_patterns, credential_patterns, prohibited_outbound_patterns,
  language_pattern, source_pattern,
}

-- `_normalized_text`, as its words and joined.
unfoldable pub normalized_words : Python → String → List String
normalized_words u s = alnum_runs (u.without_marks (u.casefold s))

unfoldable pub normalized_text : Python → String → String
unfolding normalized_words
normalized_text u s = join_words (normalized_words u s)

-- bool(words & names)
unfoldable pub any_member : List String → List String → Bool
any_member [] names = false
any_member (w ∷ ws) names = member w names || any_member ws names

unfoldable pub contains_phrase : String → List String → Bool
contains_phrase normalized [] = false
contains_phrase normalized (phrase ∷ phrases) =
    contains (" " ⧺ phrase ⧺ " ") (" " ⧺ normalized ⧺ " ") || contains_phrase normalized phrases

unfoldable pub any_matches : List Regex → String → Bool
any_matches [] s = false
any_matches (r ∷ rs) s = matches_in r s || any_matches rs s

unfoldable pub controlled_topic_present : Python → String → Bool
controlled_topic_present u s =
    any_member (normalized_words u s) controlled_topic_words
    || contains_phrase (normalized_text u s) controlled_topic_phrases

-- Between 12 and 19 digits beside a word for a card.
unfoldable pub card_number_given : Python → String → Bool
card_number_given u s =
    any_member (normalized_words u s) ("targeta" ∷ "tarjeta" ∷ "card" ∷ "cards" ∷ [])
    && leb 12 (count_chars u.is_decimal s)
    && leb (count_chars u.is_decimal s) 19

unfoldable pub human_review_required : Python → String → Bool
human_review_required u s =
    any_member (normalized_words u s) incident_words
    || any_matches credential_patterns (normalized_text u s)
    || card_number_given u s

unfoldable pub restricted_operation_requested : Python → String → Bool
restricted_operation_requested u s = any_matches restricted_operation_patterns (normalized_text u s)

unfoldable pub prohibited_outbound_claim : Python → String → Bool
prohibited_outbound_claim u s = any_matches prohibited_outbound_patterns (normalized_text u s)

-- ord(character) < 32 and character not in "\r\n\t"
abbrev pub is_control : ℕ → Bool
is_control c = ltb c 32 && not (eqb c 13 || eqb c 10 || eqb c 9)

unfoldable pub valid_text : Option Value → Bool
valid_text (some (text s)) =
    not (is_empty (strip s))
    && leb (text_length (strip s)) max_reply_characters
    && not (any_char (λ c. eqb c 0) (strip s))
    && not (any_char is_control (strip s))
valid_text _ = false

unfoldable pub valid_language : Option Value → Bool
valid_language (some (text s)) = full_match language_pattern s
valid_language _ = false

unfoldable pub valid_source : Option Value → Bool
valid_source (some (text s)) = full_match source_pattern s
valid_source _ = false

-- value == value.strip() and 1 <= len(value) <= 100
unfoldable pub valid_key_part : String → Bool
valid_key_part s = s == strip s && leb 1 (text_length s) && leb (text_length s) 100

pub record ReferenceKey : Type 0 where
  pub type : String
  pub id : String
  pub verified_at : String

abbrev pub same_reference : ReferenceKey → ReferenceKey → Bool
same_reference a b = a.type == b.type && a.id == b.id && a.verified_at == b.verified_at

unfoldable pub seen_before : ReferenceKey → List ReferenceKey → Bool
seen_before key [] = false
seen_before key (k ∷ ks) = same_reference key k || seen_before key ks

abbrev pub key_of_texts : Option Value → Option Value → Option Value → Option ReferenceKey
key_of_texts (some (text t)) (some (text i)) (some (text v)) =
    some (record { type = t; id = i; verified_at = v })
key_of_texts _ _ _ = none

-- The key of an item that is an object of exactly three texts.
unfoldable pub reference_key : Value → Option ReferenceKey
reference_key (obj fs) = elim (has_exactly ("type" ∷ "id" ∷ "verified_at" ∷ []) fs) [
  | true ↦ key_of_texts (get_field "type" fs) (get_field "id" fs) (get_field "verified_at" fs)
  | false ↦ none
]
reference_key _ = none

abbrev pub valid_key : ReferenceKey → Bool
valid_key k = member k.type reference_types && valid_key_part k.id && valid_key_part k.verified_at

unfoldable pub valid_items : List Value → List ReferenceKey → Bool
valid_items [] seen = true
valid_items (v ∷ vs) seen = elim (reference_key v) [
  | none ↦ false
  | some key ↦ elim (valid_key key && not (seen_before key seen)) [
    | true ↦ valid_items vs (key ∷ seen)
    | false ↦ false
  ]
]

-- The values under "type" can be members of a set, as the texts are that the agent's answers give: Python
-- raises a TypeError for a list or an object there.
unfoldable pub valid_references : Option Value → Bool
valid_references (some (arr items)) =
    leb (length (items_list items)) max_references && valid_items (items_list items) []
valid_references _ = false

unfoldable pub valid_agent_payload : Fields → Bool
valid_agent_payload payload =
    has_exactly agent_payload_fields payload
    && valid_text (get_field "text" payload)
    && valid_language (get_field "language" payload)
    && valid_source (get_field "source" payload)
    && valid_references (get_field "referenced_items" payload)

-- payload.get(key) is True
abbrev pub is_true : Option Value → Bool
is_true (some (bool b)) = b
is_true _ = false

-- payload.get(key) == name
abbrev pub is_text : String → Option Value → Bool
is_text name (some (text s)) = s == name
is_text name _ = false

-- value is None or value == ""
abbrev pub is_absent : Option Value → Bool
is_absent none = true
is_absent (some null) = true
is_absent (some (text s)) = s == ""
is_absent _ = false

abbrev pub is_truthy : Option Value → Bool
is_truthy none = false
is_truthy (some v) = truthy v
