-- ===== src/Configuration/Local.antt =====
-- `load_local_env` of rrpp_bridge/config.py. The file's text, str.splitlines and the text of a line's
-- number are parameters.
use Prim.Native.Char.{code}
use rrpp_agent_bridge.Common.{
  ℕ, suc, String, Bool, true, false, not, ◌||◌, Option, none, some, List, [], ◌∷◌, eqb, ◌==◌,
  if◌then◌else◌,
}
use rrpp_agent_bridge.Common.Json.{member, num}
use rrpp_agent_bridge.Common.Regex.{Regex, full_match, lit, range, up_to, ◌or◌, ◌then◌}
use rrpp_agent_bridge.Common.Text.{Python, any_char, is_empty, is_prefix, strip, ◌⧺◌}
use rrpp_agent_bridge.Policy.Patterns.{one_of}
use rrpp_agent_bridge.Store.Monad.{Result, err, ok, value_error}

-- os.environ
abbrev pub Variables : Type 0
Variables = String → Option String

abbrev pub rrpp_env_keys : List String
rrpp_env_keys =
    "RRPP_DATABASE_PATH" ∷ "RRPP_MODE" ∷ "RRPP_DASHBOARD_USER" ∷ "RRPP_DASHBOARD_PASSWORD"
    ∷ "RRPP_SESSION_SECRET" ∷ "RRPP_HOST" ∷ "RRPP_PORT" ∷ "RRPP_MAX_ATTEMPTS" ∷ "RRPP_LEASE_SECONDS"
    ∷ "RRPP_RESPONSE_DEBOUNCE_SECONDS" ∷ "RRPP_CANARY_SENDERS" ∷ "RRPP_BACKUP_DIR"
    ∷ "RRPP_BACKUP_EXPORT_DIR" ∷ "RRPP_BACKUP_AGE_RECIPIENT" ∷ "RRPP_BACKUP_HOUR"
    ∷ "RRPP_BACKUP_TIMEZONE" ∷ "RRPP_INSTAGRAM_ENABLED" ∷ "RRPP_INSTAGRAM_PORT"
    ∷ "RRPP_INSTAGRAM_SEND_ENABLED" ∷ "RRPP_INSTAGRAM_GRAPH_BASE_URL"
    ∷ "RRPP_INSTAGRAM_GRAPH_API_VERSION" ∷ "RRPP_INSTAGRAM_SEND_TIMEOUT_SECONDS" ∷ []

unfoldable pub env_key : Regex
env_key =
    (lit "INSTAGRAM_"
      then (one_of (
            "VERIFY_TOKEN" ∷ "APP_SECRET" ∷ "PAGE_ACCESS_TOKEN" ∷ "BUSINESS_ACCOUNT_ID"
            ∷ "WEBHOOK_ACCOUNT_ID" ∷ "ACCOUNTS_JSON" ∷ [])
          or (lit "ACCOUNT_"
              then range b'A' b'Z'
              then up_to 31 (range b'A' b'Z' or range b'0' b'9' or lit "_")
              then lit "_ACCESS_TOKEN")))
    or (lit "OPENCLAW_"
        then one_of (
            "ENABLED" ∷ "BASE_URL" ∷ "AGENT_ID" ∷ "AGENT_NAME" ∷ "TIMEOUT_SECONDS" ∷ "GATEWAY_TOKEN"
            ∷ []))

unfoldable pub is_env_key : String → Bool
is_env_key key = member key rrpp_env_keys || full_match env_key key

-- line.split("=", 1)[0] and line.split("=", 1)[1]
unfoldable pub before_equals : String → String
before_equals String.[] = String.[]
before_equals (String.◌∷◌ c s) =
    let rest = before_equals s in if eqb (code c) b'=' then String.[] else String.◌∷◌ c rest

unfoldable pub after_equals : String → String
after_equals String.[] = String.[]
after_equals (String.◌∷◌ c s) = let rest = after_equals s in if eqb (code c) b'=' then s else rest

-- os.environ[key] = value
unfoldable pub set_variable : String → String → Variables → Variables
set_variable key value variables name = if name == key then some value else variables name

abbrev pub is_set : Option String → Bool
is_set none = false
is_set (some value) = true

-- What a line with a key and a value does.
unfoldable pub assign : Bool → String → String → Variables → Variables
assign override key value variables =
    if override || not (is_set (variables key)) then set_variable key value variables else variables

unfoldable pub invalid_line : Python → String → ℕ → Result (Unit {0})
invalid_line python what number =
    err (value_error ("Invalid .env " ⧺ what ⧺ " on line " ⧺ python.show (num false number)))

-- What was assigned before a line that is refused stays assigned.
unfoldable pub load_lines :
    Python → Bool → ℕ → List String → Variables → Result (Unit {0}) × Variables
load_lines python override number [] variables = (ok tt, variables)
load_lines python override number (raw_line ∷ lines) variables =
    let line = strip raw_line in
    let key = strip (before_equals line) in
    elim (is_empty line || is_prefix "#" line) [
      | true ↦ load_lines python override (suc number) lines variables
      | false ↦ elim (any_char (eqb b'=') line) [
        | false ↦ (invalid_line python "entry" number, variables)
        | true ↦ elim (is_env_key key) [
          | false ↦ (invalid_line python "key" number, variables)
          | true ↦
              load_lines python override (suc number) lines
                (assign override key (strip (after_equals line)) variables)
        ]
      ]
    ]

-- The lines of the file, if there is one.
unfoldable pub load_local_env :
    Python → Option (List String) → Bool → Variables → Result (Unit {0}) × Variables
load_local_env python none override variables = (ok tt, variables)
load_local_env python (some lines) override variables = load_lines python override 1 lines variables
