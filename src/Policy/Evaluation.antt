-- ===== src/Policy/Evaluation.antt =====
-- What a computation of the policy on a concrete message opens.
use rrpp_agent_bridge.Common.{◌==◌}
use rrpp_agent_bridge.Common.Json.{all_in, get_field, has_exactly, items_list, keys, member, truthy}
use rrpp_agent_bridge.Common.Regex.{
  between, full_match, is_word, lit, match_from, matches_in, repeat, search_from, step_range, times,
  up_to,
}
use rrpp_agent_bridge.Common.Text.{
  alnum_runs, any_char, contains, count_chars, is_empty, is_prefix, is_space, join_words, lstrip,
  rstrip, strip, text_length, ◌⧺◌,
}
use rrpp_agent_bridge.Policy.Patterns.{
  credential_patterns, language_pattern, one_of, prohibited_outbound_patterns,
  restricted_operation_patterns, source_pattern,
}
use rrpp_agent_bridge.Policy.Checks.{
  any_matches, any_member, card_number_given, contains_phrase, controlled_topic_present,
  human_review_required, normalized_text, normalized_words, prohibited_outbound_claim,
  reference_key, restricted_operation_requested, seen_before, valid_agent_payload, valid_items,
  valid_key_part, valid_language, valid_references, valid_source, valid_text,
}
use rrpp_agent_bridge.Policy.Decide.{
  decide, decide_human, decide_ignore, decide_proposal, decide_reason, decide_reply,
  incomplete_ignore,
}

unfoldable pub evaluation : Unit {0}
unfolding ◌==◌ all_in get_field has_exactly items_list keys member truthy between full_match is_word
    lit match_from matches_in repeat search_from step_range times up_to alnum_runs any_char contains
    count_chars is_empty is_prefix is_space join_words lstrip rstrip strip text_length ◌⧺◌
    credential_patterns language_pattern one_of prohibited_outbound_patterns
    restricted_operation_patterns source_pattern any_matches any_member card_number_given
    contains_phrase controlled_topic_present human_review_required normalized_text normalized_words
    prohibited_outbound_claim reference_key restricted_operation_requested seen_before
    valid_agent_payload valid_items valid_key_part valid_language valid_references valid_source
    valid_text decide decide_human decide_ignore decide_proposal decide_reason decide_reply
    incomplete_ignore
evaluation = tt
