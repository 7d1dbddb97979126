-- ===== src/OpenClaw/Formats.antt =====
-- The three forms of an answer that `_parse_response` of rrpp_bridge/openclaw_client.py takes: a call of
-- the function, a bare object, and an object between fences.
use rrpp_agent_bridge.Common.{
  ◌+◌, ◌≤◌, String, Bool, true, false, List, ◌&&◌, ◌||◌, none, some, ◌≡◌, refl, ◌∙◌, arith, ◌==◌,
  eqb, leb, le→leb, if◌then◌else◌,
}
use rrpp_agent_bridge.Common.Json.{
  Fields, Value, arr, cons, end, field, get_field, nil, obj, text, truthy,
}
use rrpp_agent_bridge.Common.Text.{any_char, is_empty, is_prefix, strip, text_length, ◌⧺◌}
use rrpp_agent_bridge.Models.{CatalogItem}
use rrpp_agent_bridge.OpenClaw.Failure.{loaded, require}
use rrpp_agent_bridge.OpenClaw.Decision.{check_arguments, has_nul}
use rrpp_agent_bridge.OpenClaw.Client.{
  Gateway, after_json, read_arguments, read_call, read_candidate, read_content, read_function,
  read_message, read_stripped, read_tool_calls, unfenced,
}
use rrpp_agent_bridge.OpenClaw.Fences.{
  IsTrimmed, any_char-append, fenced, length-append, strip-fenced, strip-trimmed, unfenced-fenced,
}

-- The messages of the three forms.
abbrev pub called : String → Fields
called arguments =
    field "tool_calls"
      (arr (
        cons
          (obj (
            field "function"
              (obj (field "name" (text "submit_decision") (field "arguments" (text arguments) end)))
              end))
          nil))
      end

abbrev pub said : String → Fields
said content = field "content" (text content) end

-- What the text of an object in JSON satisfies, where the answer is not too long.
pub record IsArguments (s : String) : Type 0 where
  pub trimmed : IsTrimmed s
  pub unfenced : is_prefix "```" s ≡ false
  pub short : text_length s + 12 ≤ 4000
  pub clean : has_nul s ≡ false

module _ (gateway : Gateway) (known : List CatalogItem) (v : Value) where
  called-read :
      (s : String)
      → gateway.loads s ≡ loaded v
      → read_message gateway known (some (obj (called s))) ≡ check_arguments gateway.python known v
  unfolding read_message get_field ◌==◌ truthy read_tool_calls read_call read_function require
      read_arguments
  called-read s h = rw h refl

  stripped-read :
      (s candidate : String)
      → is_empty s ≡ false
      → text_length s ≤ 4000
      → has_nul s ≡ false
      → unfenced s ≡ candidate
      → gateway.loads candidate ≡ loaded v
      → read_stripped gateway known s ≡ check_arguments gateway.python known v
  unfolding read_stripped require read_candidate
  stripped-read s candidate nonempty short clean inner h =
      rw (inner, h, nonempty, clean, le→leb (text_length s) 4000 short) refl

  said-read :
      (s : String)
      → strip s ≡ s
      → read_stripped gateway known s ≡ check_arguments gateway.python known v
      → read_message gateway known (some (obj (said s))) ≡ check_arguments gateway.python known v
  unfolding read_message get_field ◌==◌ read_content
  said-read s trimmed h = rw trimmed h

bare :
    (b c : Bool) (inner s : String)
    → elim (if b && false && c then some inner else none) as (λ _. String) [
      | some inner ↦ strip (after_json inner)
      | none ↦ s
    ]
      ≡ s
bare true c inner s = refl
bare false c inner s = refl

bare-unfenced : (s : String) → is_prefix "```" s ≡ false → unfenced s ≡ s
unfolding unfenced
bare-unfenced s h = rw (unfenced, h) (bare (leb 6 (text_length s)) _ _ s)

clean-fences : (has_nul "```json\n" || (false || has_nul "\n```")) ≡ false
unfolding any_char
clean-fences = refl

clean-fenced : (s : String) → has_nul s ≡ false → has_nul (fenced s) ≡ false
clean-fenced s h =
    any_char-append (λ c. eqb c 0) "```json\n" (s ⧺ "\n```")
    ∙ rw (any_char-append (λ c. eqb c 0) s "\n```", h) clean-fences

nonempty-fenced : (s : String) → is_empty (fenced s) ≡ false
unfolding is_empty ◌⧺◌
nonempty-fenced s = refl

length-fenced : (s : String) → text_length (fenced s) ≡ text_length s + 12
unfolding text_length ◌⧺◌
length-fenced s = omega (arith, length-append s "\n```")

-- An object in JSON is checked in the same way, and gives the same decision or the same error, whether
-- the agent passes it to the function, says it, or says it between fences: where its text has no white
-- space at its ends, does not begin with a fence, has no NUL and at most 3988 characters.
pub formats_agree :
    (gateway : Gateway) (known : List CatalogItem) (v : Value) (s : String)
    → gateway.loads s ≡ loaded v
    → IsArguments s
    → (read_message gateway known (some (obj (called s))) ≡ check_arguments gateway.python known v)
      × (read_message gateway known (some (obj (said s))) ≡ check_arguments gateway.python known v)
      × (read_message gateway known (some (obj (said (fenced s))))
          ≡ check_arguments gateway.python known v)
formats_agree gateway known v s h a = (
  called-read gateway known v s h,
  said-read gateway known v s (strip-trimmed s a.trimmed) (
      stripped-read gateway known v s s a.trimmed.nonempty (omega (arith, a.short)) a.clean
        (bare-unfenced s a.unfenced) h),
  said-read gateway known v (fenced s) (strip-fenced s) (
      stripped-read gateway known v (fenced s) s (nonempty-fenced s)
        (omega (arith, a.short, length-fenced s)) (clean-fenced s a.clean)
        (unfenced-fenced s a.trimmed) h),
)
