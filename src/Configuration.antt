-- ===== src/Configuration.antt =====
-- The Instagram accounts of the settings: `_instagram_accounts_from_json` of rrpp_bridge/config.py. The
-- environment, json.loads and str.upper are parameters.
use rrpp_agent_bridge.Common.{
  ℕ, String, Bool, true, false, not, ◌&&◌, ◌||◌, Option, none, some, List, [], ◌∷◌, leb,
  if◌then◌else◌,
}
use rrpp_agent_bridge.Common.Json.{
  Value, all_in, arr, get_field, has_exactly, items_list, keys, list_items, member, obj, text,
}
use rrpp_agent_bridge.Common.Regex.{Regex, full_match, lit, match_from, range, up_to, ◌or◌, ◌then◌}
use rrpp_agent_bridge.Common.Text.{
  Python, is_empty, is_space, lstrip, rstrip, strip, text_length, ◌⧺◌,
}
use rrpp_agent_bridge.Store.Monad.{Result, err, ok, value_error}
pub mod Accounts
pub mod Local
pub mod Environ

-- What is called that is not of this repository.
pub record Environment : Type 0 where
  pub python : Python
  -- json.loads(raw), or none for a JSONDecodeError
  pub loads : String → Option Value
  -- value.upper()
  pub upper : String → String
  -- os.getenv(name, "")
  pub getenv : String → String

pub record InstagramAccountSettings : Type 0 where
  pub alias : String
  pub webhook_account_id : String
  pub business_account_id : String
  pub access_token : String

-- The accounts that were read so far: their aliases and their folded identifiers.
pub record Seen : Type 0 where
  pub aliases : List String
  pub webhook_ids : List String
  pub business_ids : List String

abbrev pub none_seen : Seen
none_seen = record { aliases = []; webhook_ids = []; business_ids = [] }

unfoldable pub instagram_account_alias : Regex
instagram_account_alias =
    range b'a' b'z' then up_to 31 (range b'a' b'z' or range b'0' b'9' or lit "_")

abbrev pub allowed_keys : List String
allowed_keys = "alias" ∷ "webhook_account_id" ∷ "business_account_id" ∷ []

unfoldable pub and_then : {A B : Type 0} → Result A → (A → Result B) → Result B
and_then (ok a) next = next a
and_then (err e) next = err e

-- if not ...: raise ValueError(...)
unfoldable pub require : {A : Type 0} → Bool → String → Result A → Result A
require true message next = next
require false message next = err (value_error message)

unfoldable pub read_alias : Option Value → Result String
read_alias (some (text s)) =
    require (full_match instagram_account_alias s)
      "Instagram account aliases must use lowercase letters, digits, or underscores" (ok (strip s))
read_alias _ =
    err (value_error "Instagram account aliases must use lowercase letters, digits, or underscores")

unfoldable pub read_id : String → Option Value → Result String
read_id message (some (text s)) =
    require (not (is_empty (strip s)) && leb (text_length (strip s)) 200) message (ok (strip s))
read_id message _ = err (value_error message)

unfoldable pub access_token_of : Environment → String → String
access_token_of environment alias =
    strip (environment.getenv ("INSTAGRAM_ACCOUNT_" ⧺ environment.upper alias ⧺ "_ACCESS_TOKEN"))

unfoldable pub check_account :
    Environment → Bool → Seen → InstagramAccountSettings → Result InstagramAccountSettings
check_account environment send_enabled seen account =
    require
      (not (member account.alias seen.aliases)
        && not (member (environment.python.casefold account.webhook_account_id) seen.webhook_ids))
      "Instagram account aliases and webhook account IDs must be unique"
      (require
        (not (member (environment.python.casefold account.business_account_id) seen.business_ids))
        "Instagram business account IDs must be unique"
        (require (not send_enabled || not (is_empty account.access_token))
          ("Instagram account " ⧺ account.alias ⧺ " requires its access token environment variable")
          (ok account)))

unfoldable pub read_account : Environment → Bool → Seen → Value → Result InstagramAccountSettings
read_account environment send_enabled seen (obj fs) =
    require (has_exactly allowed_keys fs)
      ("Each Instagram account must contain only alias, webhook_account_id, "
        ⧺ "and business_account_id")
      (and_then (read_alias (get_field "alias" fs)) λ alias.
        and_then
          (read_id "Instagram webhook account IDs must contain 1 to 200 characters"
            (get_field "webhook_account_id" fs))
          λ webhook_id.
            and_then
              (read_id "Instagram business account IDs must contain 1 to 200 characters"
                (get_field "business_account_id" fs))
              λ business_id. check_account environment send_enabled seen (record {
                alias = alias;
                webhook_account_id = webhook_id;
                business_account_id = business_id;
                access_token = access_token_of environment alias;
              }))
read_account environment send_enabled seen _ = err (
    value_error (
      "Each Instagram account must contain only alias, webhook_account_id, "
      ⧺ "and business_account_id"))

unfoldable pub add_seen : Python → InstagramAccountSettings → Seen → Seen
add_seen python account seen = record {
  aliases = account.alias ∷ seen.aliases;
  webhook_ids = python.casefold account.webhook_account_id ∷ seen.webhook_ids;
  business_ids = python.casefold account.business_account_id ∷ seen.business_ids;
}

unfoldable pub read_accounts :
    Environment → Bool → Seen → List Value → Result (List InstagramAccountSettings)
read_accounts environment send_enabled seen [] = ok []
read_accounts environment send_enabled seen (v ∷ values) =
    and_then (read_account environment send_enabled seen v) λ account.
      and_then
        (read_accounts environment send_enabled (add_seen environment.python account seen) values)
        λ accounts. ok (account ∷ accounts)

unfoldable pub read_array : Environment → Bool → List Value → Result (List InstagramAccountSettings)
read_array environment send_enabled [] =
    err (value_error "INSTAGRAM_ACCOUNTS_JSON must be a non-empty array")
read_array environment send_enabled (v ∷ values) =
    read_accounts environment send_enabled none_seen (v ∷ values)

unfoldable pub accounts_of_json :
    Environment → Bool → Option Value → Result (List InstagramAccountSettings)
accounts_of_json environment send_enabled none =
    err (value_error "INSTAGRAM_ACCOUNTS_JSON must be valid JSON")
accounts_of_json environment send_enabled (some (arr items)) =
    read_array environment send_enabled (items_list items)
accounts_of_json environment send_enabled (some _) =
    err (value_error "INSTAGRAM_ACCOUNTS_JSON must be a non-empty array")

unfoldable pub instagram_accounts_from_json :
    Environment → String → Bool → Result (List InstagramAccountSettings)
instagram_accounts_from_json environment raw send_enabled =
    require (leb (text_length raw) 32768) "INSTAGRAM_ACCOUNTS_JSON is too large"
      (accounts_of_json environment send_enabled (environment.loads raw))

-- What the reading of the accounts opens.
unfoldable pub reading : Unit {0}
unfolding instagram_account_alias and_then require read_alias read_id access_token_of check_account
    read_account add_seen read_accounts read_array accounts_of_json instagram_accounts_from_json
    full_match match_from is_empty lit up_to strip lstrip rstrip is_space text_length ◌⧺◌ member
    has_exactly all_in keys get_field items_list list_items
reading = tt
