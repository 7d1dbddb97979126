-- ===== src/Agent.antt =====
-- What proposes an answer to a message: rrpp_bridge/agent.py and rrpp_bridge/agent_provider.py.
use rrpp_agent_bridge.Common.{
  ℕ, String, Bool, true, false, not, ◌||◌, none, some, List, [], ◌∷◌, ltb, eqb, ◌==◌, if◌then◌else◌,
  any_where, count_where,
}
use rrpp_agent_bridge.Common.Json.{Fields, text, end, field, get_field, member}
use rrpp_agent_bridge.Common.Text.{Python, to_text, contains, is_space}
use Prim.Native.Char.{Char, code}
use rrpp_agent_bridge.Models.{AgentDecision, CatalogItem, IntendedAction}
use rrpp_agent_bridge.Store.Monad.{Result, ok, err, provider_error}

pub record ConversationTurn : Type 0 where
  pub direction : String
  pub author_type : String
  pub body_text : String
  pub created_at : ℕ

pub record AgentContext : Type 0 where
  pub correlation_id : String
  pub conversation_id : String
  pub channel : String
  pub receiver_account_id : String
  pub external_user_id : String
  pub language_hint : String
  pub incoming_message : String
  pub history : List ConversationTurn
  pub catalog_items : List CatalogItem
  pub bot_paused : Bool

-- What a provider has: `generate_decision`, or only the `generate_action` of the older ones, or
-- neither. A call may raise.
pub data Contract : Type 0 where
  decisions : (AgentContext → Result AgentDecision) → Contract
  actions : (AgentContext → Result IntendedAction) → Contract
  nothing : Contract

pub record Provider : Type 0 where
  pub provider_id : String
  pub contract : Contract

abbrev pub text_field : Python → String → String → Fields → String
text_field python name default fs = elim (get_field name fs) [
  | none ↦ default
  | some v ↦ to_text python v
]

-- AgentDecision("human_required", text, language, reason_code, structured=False)
abbrev pub human_required : String → String → String → AgentDecision
human_required reply language reason_code = record {
  action = "human_required";
  text = reply;
  language = language;
  reason_code = reason_code;
  referenced_items = [];
  structured = false;
}

abbrev sensitive_terms : List String
sensitive_terms =
    "vip" ∷ "taula" ∷ "mesa" ∷ "reserva" ∷ "reservation" ∷ "pagament" ∷ "pago" ∷ "payment"
    ∷ "queixa" ∷ "queja" ∷ "complaint" ∷ []

abbrev template : String → String
template language =
    if language == "es"
    then "Gracias por tu mensaje. El equipo lo revisará y te responderá pronto."
    else "Gràcies pel teu missatge. L’equip el revisarà i et respondrà aviat."

unfoldable pub generate_action : Python → String → String → IntendedAction
generate_action python body language =
    if any_where (λ term. contains term (python.casefold body)) sensitive_terms
    then record {
      type = "escalate_to_owner";
      payload = field "reason" (text "sensitive_or_business_request") end;
    }
    else record { type = "draft_reply"; payload = field "text" (text (template language)) end }

-- `DeterministicAgentProvider.generate_decision`
unfoldable pub deterministic_decision : Python → AgentContext → AgentDecision
deterministic_decision python context =
    let language =
      if member context.language_hint ("ca" ∷ "es" ∷ []) then context.language_hint else "ca" in
    let action = generate_action python context.incoming_message language in
    if action.type == "escalate_to_owner"
    then human_required "" language "sensitive_request"
    else human_required (text_field python "text" "" action.payload) language
        "unstructured_provider_output"

abbrev pub deterministic : Python → Provider
deterministic python = record {
  provider_id = "deterministic";
  contract = decisions (λ context. ok (deterministic_decision python context));
}

unfoldable pub legacy_action_to_decision : Python → IntendedAction → String → AgentDecision
legacy_action_to_decision python action language =
    if action.type == "escalate_to_owner"
    then human_required "" language "sensitive_request"
    else if action.type == "no_action"
    then record {
      action = "ignore";
      text = "";
      language = language;
      reason_code = "spam_or_non_message";
      referenced_items = [];
      structured = false;
    }
    else human_required (text_field python "text" "" action.payload)
        (text_field python "language" language action.payload) "unstructured_provider_output"

-- A separator of the words: white space, or a mark that is replaced by it.
abbrev separates : ℕ → Bool
separates c = is_space c || eqb c b'?' || eqb c b'!'

abbrev begins_word : String → Bool
begins_word String.[] = false
begins_word (String.◌∷◌ c s) = not (separates (code c))

abbrev join_word : Char → Bool → List String → List String
join_word c true (w ∷ ws) = String.◌∷◌ c w ∷ ws
join_word c _ ws = String.◌∷◌ c String.[] ∷ ws

-- value.replace("?", " ").replace("!", " ").split()
unfoldable pub split_words : String → List String
split_words String.[] = []
split_words (String.◌∷◌ c s) =
    let rest = split_words s in
    if separates (code c) then rest else join_word c (begins_word s) rest

abbrev catalan : List String
catalan =
    "gràcies" ∷ "teniu" ∷ "entrades" ∷ "aquesta" ∷ "quan" ∷ "quina" ∷ "quin" ∷ "puc" ∷ "vull"
    ∷ "vosaltres" ∷ "amb" ∷ "què" ∷ "com" ∷ "avui" ∷ []

abbrev spanish : List String
spanish =
    "gracias" ∷ "tenéis" ∷ "entradas" ∷ "esta" ∷ "cuando" ∷ "donde" ∷ "puedo" ∷ "quiero"
    ∷ "vosotros" ∷ "con" ∷ "para" ∷ "qué" ∷ "cómo" ∷ "hoy" ∷ []

-- len(words & vocabulary)
abbrev score : List String → List String → ℕ
score words vocabulary = count_where (λ w. member w words) vocabulary

abbrev language_of : ℕ → ℕ → String
language_of ca_score es_score =
    if ltb es_score ca_score then "ca" else if ltb ca_score es_score then "es" else "unknown"

unfoldable pub detect_language_hint : Python → String → String
detect_language_hint python body =
    let words = split_words (python.casefold body) in
    language_of (score words catalan) (score words spanish)

-- attempt the older contract's action as a decision
abbrev from_action : Python → String → Result IntendedAction → Result AgentDecision
from_action python language (ok action) = ok (legacy_action_to_decision python action language)
from_action python language (err e) = err e

-- `Executor._generate`
unfoldable pub generate : Python → Contract → AgentContext → Result AgentDecision
generate python (decisions f) context = f context
generate python (actions f) context = from_action python context.language_hint (f context)
generate python nothing context = err (provider_error "agent_provider_contract_invalid")
