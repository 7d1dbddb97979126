-- ===== src/OpenClaw/Answers.antt =====
-- What the client of the Gateway returns or raises, whatever it is answered: `generate_decision` of
-- rrpp_bridge/openclaw_client.py, and its handler in rrpp_bridge/executor.py.
use rrpp_agent_bridge.Common.{
  ℕ, ◌≤◌, String, Bool, true, false, ◌||◌, Option, none, some, List, [], ◌∷◌, ◌≡◌, refl, ◌⊎◌, inl,
  inr, arith, ◌==◌, all_where, any_where, length, ltb, and-true, if-both,
}
use rrpp_agent_bridge.Common.Json.{
  Fields, Value, arr, cons, get_field, member, nil, null, obj, text, has_exactly,
}
use rrpp_agent_bridge.Common.Regex.{full_match}
use rrpp_agent_bridge.Common.Text.{Python, is_empty, text_length, strip}
use rrpp_agent_bridge.Models.{AgentDecision, CatalogItem, ReferencedItem}
use rrpp_agent_bridge.Store.Monad.{calls, Result, World, err, ok, provider_error, unhandled}
use rrpp_agent_bridge.Policy.Patterns.{language_pattern}
use rrpp_agent_bridge.Agent.{AgentContext, generate, human_required}
use rrpp_agent_bridge.Executor.Worker.{answer}
use rrpp_agent_bridge.OpenClaw.Failure.{
  Checked, Failure, Loaded, Reply, and_then, bad, body, broken, escapes, fail_with, good,
  http_error, http_status, loaded, max_response_bytes, network_error, not_json, read_reply, require,
  timed_out, too_deep, unreadable,
}
use rrpp_agent_bridge.OpenClaw.Decision.{
  check_arguments, decision_actions, expected_fields, fits, has_nul, is_item, known_reference,
  max_reply_characters, read_choice, read_decision, read_items, read_language, read_reference,
  read_references, read_text, reason_codes, fields_diagnostic,
}
use rrpp_agent_bridge.OpenClaw.Client.{
  Gateway, as_result, decision_request, unfenced, generate_checked, generate_decision, open_claw,
  parse_response, read_arguments, read_call, read_candidate, read_choices, read_content,
  read_function, read_message, read_payload, read_stripped, read_tool_calls, calls_of, has_calls,
}

abbrev pub failure_codes : List String
failure_codes = "unreachable" ∷ "auth_failed" ∷ "agent_missing" ∷ "invalid_response" ∷ []

abbrev pub IsFailure : Failure → Type 0
IsFailure f = member f.code failure_codes ≡ true

abbrev is_grounded : List CatalogItem → ReferencedItem → Bool
is_grounded known r = any_where (is_item r.type r.id r.verified_at) known

-- A structured decision: what the policy and the operator read of it.
pub record IsStructured (known : List CatalogItem) (d : AgentDecision) : Type 0 where
  pub structured : d.structured ≡ true
  pub reason : member d.reason_code reason_codes ≡ true
  pub language : full_match language_pattern d.language ≡ true
  pub few : length d.referenced_items ≤ 10
  pub grounded : all_where (is_grounded known) d.referenced_items ≡ true
  pub answers :
      (d.action == "reply" || d.action == "ask_clarification") ≡ true → is_empty d.text ≡ false
  pub silent : (d.action == "ignore") ≡ true → is_empty d.text ≡ true

-- A text of the agent that is no decision: it is for a person.
pub record IsUnstructured (d : AgentDecision) : Type 0 where
  pub structured : d.structured ≡ false
  pub action : d.action ≡ "human_required"
  pub unreferenced : d.referenced_items ≡ []

pub record IsDecision (known : List CatalogItem) (d : AgentDecision) : Type 0 where
  pub action : member d.action decision_actions ≡ true
  pub short : text_length d.text ≤ max_reply_characters
  pub clean : has_nul d.text ≡ false
  pub kind : IsStructured known d ⊎ IsUnstructured d

-- An answer on which an exception leaves the client: one of `http.client`, or a text on which
-- `json.loads` raises a RecursionError.
abbrev pub Escapes : Gateway → AgentContext → Type 0
Escapes gateway context =
    ((name : String) × (gateway.opener (decision_request gateway context) ≡ broken name))
    ⊎ ((s : String) × (gateway.loads s ≡ too_deep))

module _ (E : Type 0) where
  -- A result that satisfies a property, a failure of the client, or an exception that it does not catch.
  abbrev Yields : {A : Type 0} → (A → Type 0) → Checked A → Type 0
  Yields P (good a) = P a
  Yields P (bad f) = IsFailure f
  Yields P (escapes name) = E

  is_invalid : member "invalid_response" failure_codes ≡ true
  unfolding member ◌==◌
  is_invalid = refl

  is_unreachable : member "unreachable" failure_codes ≡ true
  unfolding member ◌==◌
  is_unreachable = refl

  and_then-Yields :
      {A B : Type 0} (P : A → Type 0) (Q : B → Type 0) (r : Checked A) (next : A → Checked B)
      → Yields P r
      → ((a : A) → P a → Yields Q (next a))
      → Yields Q (and_then r next)
  unfolding and_then
  and_then-Yields P Q (good a) next h step = step a h
  and_then-Yields P Q (bad f) next h step = h
  and_then-Yields P Q (escapes name) next h step = h

  require-Yields :
      {A : Type 0} (P : A → Type 0) (b : Bool) (r : Checked A)
      → (b ≡ true → Yields P r)
      → Yields P (require b r)
  unfolding require
  require-Yields P true r h = h refl
  require-Yields P false r h = is_invalid

  is_known :
      (member "auth_failed" failure_codes ≡ true) × (member "agent_missing" failure_codes ≡ true)
  unfolding member ◌==◌
  is_known = (refl, refl)

  http_error-IsFailure : (python : Python) (code : ℕ) → IsFailure (http_error python code)
  unfolding http_error
  http_error-IsFailure python code =
      if-both IsFailure _ _ _ is_known.0
        (if-both IsFailure _ _ _ is_known.1 (if-both IsFailure _ _ _ is_invalid is_unreachable))

  abbrev Anything : {A : Type 0} → A → Type 0
  Anything a = Unit

  read_reply-Yields :
      (python : Python) (too_large : String) (reply : Reply)
      → ((name : String) → reply ≡ broken name → E)
      → Yields Anything (read_reply python too_large reply)
  unfolding read_reply
  read_reply-Yields python too_large timed_out b = is_unreachable
  read_reply-Yields python too_large (http_status code) b = http_error-IsFailure python code
  read_reply-Yields python too_large network_error b = is_unreachable
  read_reply-Yields python too_large (broken name) b = b name refl
  read_reply-Yields python too_large (body size content) b =
      if-both (Yields {A = Option String} Anything) (ltb max_response_bytes size)
        (fail_with "invalid_response" too_large) (good content) is_invalid (tt {0})

  module _ (known : List CatalogItem) where
    known_reference-Yields :
        (t i v : Option Value)
        → Yields (λ r. is_grounded known r ≡ true) (known_reference known t i v)
    unfolding known_reference
    known_reference-Yields (some (text t)) (some (text i)) (some (text v)) =
        require-Yields (λ r. is_grounded known r ≡ true) _ _ (λ h. h)
    known_reference-Yields _ _ _ = is_invalid

    read_reference-Yields :
        (v : Value) → Yields (λ r. is_grounded known r ≡ true) (read_reference known v)
    unfolding read_reference
    read_reference-Yields (obj fs) =
        require-Yields (λ r. is_grounded known r ≡ true) _ _
          (λ _.
            known_reference-Yields (get_field "type" fs) (get_field "id" fs)
              (get_field "verified_at" fs))
    read_reference-Yields _ = is_invalid

    abbrev AreGrounded : ℕ → List ReferencedItem → Type 0
    AreGrounded n rs = (all_where (is_grounded known) rs ≡ true) × (length rs ≡ n)

    read_references-Yields :
        (l : List Value) → Yields (AreGrounded (length l)) (read_references known l)
    unfolding read_references all_where
    read_references-Yields [] = (refl, refl)
    read_references-Yields (v ∷ l) =
        and_then-Yields (λ r. is_grounded known r ≡ true) (AreGrounded (length (v ∷ l))) _ _
          (read_reference-Yields v)
          (λ r h.
            and_then-Yields (AreGrounded (length l)) (AreGrounded (length (v ∷ l))) _ _
              (read_references-Yields l) (λ rs hs. (ground (arith, h, hs.0), ground (arith, hs.1))))

  read_choice-Yields :
      (choices : List String) (v : Option Value)
      → Yields (λ s. member s choices ≡ true) (read_choice choices v)
  unfolding read_choice
  read_choice-Yields choices (some (text s)) =
      require-Yields (λ s. member s choices ≡ true) _ _ (λ h. h)
  read_choice-Yields choices _ = is_invalid

  read_items-Yields : (v : Option Value) → Yields (λ l. length l ≤ 10) (read_items v)
  unfolding read_items
  read_items-Yields (some (arr l)) =
      require-Yields (λ l. length l ≤ 10) _ _ (λ h. ground (arith, h))
  read_items-Yields _ = is_invalid

  read_text-Yields : (v : Option Value) → Yields Anything (read_text v)
  unfolding read_text
  read_text-Yields (some null) = tt
  read_text-Yields (some (text s)) = tt
  read_text-Yields _ = is_invalid

  read_language-Yields :
      (python : Python) (v : Option Value) → Yields Anything (read_language python v)
  unfolding read_language
  read_language-Yields python (some (text s)) = tt
  read_language-Yields python _ = is_invalid

  fits-short :
      (action reply : String) → fits action reply ≡ true → text_length reply ≤ max_reply_characters
  fits-short action reply h = ground (arith, h)

  fits-clean : (action reply : String) → fits action reply ≡ true → has_nul reply ≡ false
  fits-clean action reply h = ground (arith, h)

  read_decision-Yields :
      (python : Python) (known : List CatalogItem) (fs : Fields)
      → Yields (IsDecision known) (read_decision python known fs)
  unfolding read_decision
  read_decision-Yields python known fs =
      let P = IsDecision known in
      and_then-Yields Anything P _ _ (read_text-Yields _) λ reply _.
        and_then-Yields Anything P _ _ (read_language-Yields python _) λ language _.
          and_then-Yields (λ s. member s decision_actions ≡ true) P _ _
            (read_choice-Yields decision_actions _)
            λ action chosen.
              and_then-Yields (λ s. member s reason_codes ≡ true) P _ _
                (read_choice-Yields reason_codes _)
                λ reason reasoned.
                  and_then-Yields (λ l. length l ≤ 10) P _ _ (read_items-Yields _)
                    λ items few. require-Yields P _ _ λ ok.
                      and_then-Yields (AreGrounded known (length items)) P _ _
                        (read_references-Yields known items)
                        λ rs grounded.
                          decided reply language action reason rs chosen reasoned
                            (and-true _ _ ok).0 (and-true _ _ ok).1 grounded.0
                            (omega (arith, few, grounded.1))
    where
      decided :
          (reply language action reason : String) (rs : List ReferencedItem)
          → member action decision_actions ≡ true
          → member reason reason_codes ≡ true
          → full_match language_pattern language ≡ true
          → fits action reply ≡ true
          → all_where (is_grounded known) rs ≡ true
          → length rs ≤ 10
          → IsDecision known (record {
            action = action;
            text = reply;
            language = language;
            reason_code = reason;
            referenced_items = rs;
            structured = true;
          })
      decided reply language action reason rs chosen reasoned spoken fitting grounded few = record {
        action = chosen;
        short = fits-short action reply fitting;
        clean = fits-clean action reply fitting;
        kind = inl (record {
          structured = refl;
          reason = reasoned;
          language = spoken;
          few = few;
          grounded = grounded;
          answers = λ h. ground (arith, fitting, h);
          silent = λ h. ground (arith, fitting, h);
        });
      }

  check_arguments-Yields :
      (python : Python) (known : List CatalogItem) (v : Value)
      → Yields (IsDecision known) (check_arguments python known v)
  unfolding check_arguments
  check_arguments-Yields python known (obj fs) =
      elim (has_exactly expected_fields fs)
        as (λ b. Yields (IsDecision known) (elim b as (λ _. Checked AgentDecision) [
          | true ↦ read_decision python known fs
          | false ↦ fail_with "invalid_response" (fields_diagnostic fs)
        ])) [ true ↦ read_decision-Yields python known fs | false ↦ is_invalid ]
  check_arguments-Yields python known _ = is_invalid

  human_required-ne :
      (("human_required" == "reply" || "human_required" == "ask_clarification") ≡ false)
      × (member "human_required" decision_actions ≡ true)
  unfolding member ◌==◌
  human_required-ne = (refl, refl)

  module _ (gateway : Gateway) (known : List CatalogItem)
      (deep : (s : String) → gateway.loads s ≡ too_deep → E) where
    abbrev P : AgentDecision → Type 0
    P = IsDecision known

    arguments-Yields : (l : Loaded) → (l ≡ too_deep → E) → Yields P (read_arguments gateway known l)
    unfolding read_arguments
    arguments-Yields (loaded v) d = check_arguments-Yields gateway.python known v
    arguments-Yields too_deep d = d refl
    arguments-Yields _ d = is_invalid

    function-Yields : (n a : Option Value) → Yields P (read_function gateway known n a)
    unfolding read_function
    function-Yields (some (text name)) (some (text arguments)) =
        require-Yields P _ _ (λ _. arguments-Yields (gateway.loads arguments) (deep arguments))
    function-Yields _ _ = is_invalid

    call-Yields : (v : Option Value) → Yields P (read_call gateway known v)
    unfolding read_call
    call-Yields (some (obj function)) =
        function-Yields (get_field "name" function) (get_field "arguments" function)
    call-Yields _ = is_invalid

    tool_calls-Yields : (v : Value) → Yields P (read_tool_calls gateway known v)
    unfolding read_tool_calls
    tool_calls-Yields (arr (cons (obj call) nil)) = call-Yields (get_field "function" call)
    tool_calls-Yields _ = is_invalid

    candidate-Yields :
        (content : String) (l : Loaded)
        → has_nul content ≡ false
        → (l ≡ too_deep → E)
        → Yields P (read_candidate gateway known content l)
    unfolding read_candidate
    candidate-Yields content (loaded v) clean d = check_arguments-Yields gateway.python known v
    candidate-Yields content not_json clean d = require-Yields P _ _ λ short. record {
      action = human_required-ne.1;
      short = ground (arith, short);
      clean = clean;
      kind = inr (record { structured = refl; action = refl; unreferenced = refl });
    }
    candidate-Yields content unreadable clean d = is_invalid
    candidate-Yields content too_deep clean d = d refl

    stripped-Yields : (content : String) → Yields P (read_stripped gateway known content)
    unfolding read_stripped
    stripped-Yields content =
        require-Yields P _ _
          (λ h. candidate-Yields content _ (ground (arith, h)) (deep (unfenced content)))

    content-Yields : (v : Option Value) → Yields P (read_content gateway known v)
    unfolding read_content
    content-Yields (some (text s)) = stripped-Yields (strip s)
    content-Yields _ = is_invalid

    message-Yields : (v : Option Value) → Yields P (read_message gateway known v)
    unfolding read_message
    message-Yields (some (obj message)) =
        elim (has_calls (get_field "tool_calls" message))
          as (λ b. Yields P (elim b as (λ _. Checked AgentDecision) [
            | true ↦ read_tool_calls gateway known (calls_of (get_field "tool_calls" message))
            | false ↦ read_content gateway known (get_field "content" message)
          ])) [ true ↦ tool_calls-Yields _ | false ↦ content-Yields (get_field "content" message) ]
    message-Yields _ = is_invalid

    choices-Yields : (v : Option Value) → Yields P (read_choices gateway known v)
    unfolding read_choices
    choices-Yields (some (arr (cons (obj choice) nil))) =
        message-Yields (get_field "message" choice)
    choices-Yields _ = is_invalid

    payload-Yields : (l : Loaded) → (l ≡ too_deep → E) → Yields P (read_payload gateway known l)
    unfolding read_payload
    payload-Yields (loaded (obj payload)) d = choices-Yields (get_field "choices" payload)
    payload-Yields too_deep d = d refl
    payload-Yields _ d = is_invalid

    response-Yields : (content : Option String) → Yields P (parse_response gateway known content)
    unfolding parse_response
    response-Yields (some content) = payload-Yields (gateway.loads content) (deep content)
    response-Yields none = is_invalid

checked-Yields :
    (gateway : Gateway) (context : AgentContext)
    → Yields
        (Escapes gateway context)
        (IsDecision context.catalog_items)
        (generate_checked gateway context)
unfolding generate_checked
checked-Yields gateway context =
    let E = Escapes gateway context in
    and_then-Yields E (Anything E) (IsDecision context.catalog_items) _ _
      (read_reply-Yields E gateway.python "response_too_large" _ (λ name b. inl (name, b)))
      (λ content _. response-Yields E gateway context.catalog_items (λ s d. inr (s, d)) content)

-- What `generate_decision` gives: a decision, one of four errors, or an exception that nothing of the
-- client catches.
abbrev pub Answered : List CatalogItem → Type 0 → Result AgentDecision → Type 0
Answered known escape r =
    ((d : AgentDecision) × (r ≡ ok d) × IsDecision known d)
    ⊎ (((code : String) × (r ≡ err (provider_error code)) × (member code failure_codes ≡ true))
        ⊎ ((name : String) × (r ≡ err (unhandled name)) × escape))

as_result-Answered :
    (known : List CatalogItem) (E : Type 0) (r : Checked AgentDecision)
    → Yields E (IsDecision known) r
    → Answered known E (as_result r)
as_result-Answered known E (good d) h = inl (d, refl, h)
as_result-Answered known E (bad f) h = inr (inl (f.code, refl, h))
as_result-Answered known E (escapes name) h = inr (inr (name, refl, h))

-- Whatever the Gateway answers (no answer, an HTTP status, or a body of any size and text), the client
-- raises a provider error with one of four codes, or returns a decision with a known action and a text
-- of at most 1000 characters without NUL. The decision is for a person and refers to nothing, or it has
-- a known reason and a language tag, refers to at most ten items, each with the exact identity of an
-- item that the client was given, has a text where it answers, and none where it ignores. Another
-- exception leaves the client only where the request ends in one of http.client that is no OSError, or
-- where json.loads raises a RecursionError on some text.
pub generate_decision-Answered :
    (gateway : Gateway) (context : AgentContext)
    → Answered context.catalog_items (Escapes gateway context) (generate_decision gateway context)
unfolding generate_decision
generate_decision-Answered gateway context =
    as_result-Answered context.catalog_items (Escapes gateway context)
      (generate_checked gateway context) (checked-Yields gateway context)

-- What the executor goes on with: a decision, a person for one of the four errors, or the exception.
abbrev pub GoesOn :
    List CatalogItem
    → Type 0
    → AgentContext
    → World
    → Result (AgentDecision × Option String) × World
    → Type 0
GoesOn known escape context w out =
    ((d : AgentDecision) × (out ≡ (ok (d, none), w)) × IsDecision known d)
    ⊎ (((code : String) × (out
            ≡ (ok (human_required "" context.language_hint "unknown_information", some code), w))
          × (member code failure_codes ≡ true))
        ⊎ ((name : String) × (out ≡ (err (unhandled name), w)) × escape))

answered :
    (known : List CatalogItem) (E : Type 0) (context : AgentContext) (r : Result AgentDecision)
    (w : World)
    → Answered known E r
    → GoesOn known E context w (answer context r w)
unfolding answer calls
answered known E context r w (inl (d, e, h)) = inl (d, rw e refl, h)
answered known E context r w (inr (inl (code, e, h))) = inr (inl (code, rw e refl, h))
answered known E context r w (inr (inr (name, e, h))) = inr (inr (name, rw e refl, h))

-- What the executor goes on with after it asked the client: a decision with a known action and a short
-- text that is grounded or for a person, as the client returned it, without an error; or, for a provider
-- error with one of four codes, a decision for a person, with the code. It raises only where the request
-- ends in an exception of http.client that is no OSError, or where json.loads raises a RecursionError
-- on some text.
pub open_claw-answer :
    (gateway : Gateway) (python : Python) (context : AgentContext) (w : World)
    → GoesOn context.catalog_items
        (Escapes gateway context)
        context
        w
        (answer context (generate python (open_claw gateway).contract context) w)
unfolding generate open_claw
open_claw-answer gateway python context w =
    answered context.catalog_items (Escapes gateway context) context
      (generate_decision gateway context) w (generate_decision-Answered gateway context)
