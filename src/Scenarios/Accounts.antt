-- ===== src/Scenarios/Accounts.antt =====
-- The theorem on the accounts of the settings, at a concrete input.
use rrpp_agent_bridge.Common.{String, true, some, List, [], ◌∷◌, map, ◌≡◌, refl, ◌==◌}
use rrpp_agent_bridge.Common.Json.{Value, arr, end, field, list_items, obj, text}
use rrpp_agent_bridge.Configuration.{Environment, InstagramAccountSettings, reading}
use rrpp_agent_bridge.Configuration.Accounts.{
  all_complete, distinct, instagram_accounts_from_json-IsValid,
}
use rrpp_agent_bridge.Scenarios.Data.{python}

abbrev account : String → String → String → Value
account alias webhook business = obj (
    field "alias" (text alias)
      (field "webhook_account_id" (text webhook) (field "business_account_id" (text business) end)))

abbrev environment : Environment
environment = record {
  python = python;
  loads = λ raw. some (arr (list_items (account "a" "w1" " b1" ∷ account "b_2" "w2" "b2" ∷ [])));
  upper = λ s. s;
  getenv = λ name. "token";
}

abbrev accounts : List InstagramAccountSettings
accounts =
    record {
      alias = "a";
      webhook_account_id = "w1";
      business_account_id = "b1";
      access_token = "token";
    }
    ∷ record {
      alias = "b_2";
      webhook_account_id = "w2";
      business_account_id = "b2";
      access_token = "token";
    }
    ∷ []

instagram_accounts_from_json-IsValid_example :
    (distinct (map (λ a. a.alias) accounts) ≡ true)
    × (distinct (map (λ a. python.casefold a.webhook_account_id) accounts) ≡ true)
    × (distinct (map (λ a. python.casefold a.business_account_id) accounts) ≡ true)
    × (all_complete true accounts ≡ true)
unfolding reading ◌==◌
instagram_accounts_from_json-IsValid_example =
    instagram_accounts_from_json-IsValid environment "[...]" true accounts refl
