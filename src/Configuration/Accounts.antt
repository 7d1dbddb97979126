-- ===== src/Configuration/Accounts.antt =====
-- What the accounts of the settings of rrpp_bridge/config.py satisfy.
use rrpp_agent_bridge.Common.{
  String, Bool, true, false, not, ◌&&◌, ◌||◌, Option, none, some, List, [], ◌∷◌, map, ◌≡◌, refl,
  arith, any_where, leb, ◌==◌, and-true, subst, ap,
}
use rrpp_agent_bridge.Common.Json.{
  Value, arr, bool, get_field, items_list, member, null, num, obj, text,
}
use rrpp_agent_bridge.Common.Text.{is_empty, text_length}
use rrpp_agent_bridge.Store.Monad.{Result, err, ok}
use rrpp_agent_bridge.Configuration.{
  accounts_of_json, add_seen, and_then, check_account, Environment, instagram_accounts_from_json,
  InstagramAccountSettings, none_seen, read_account, read_accounts, read_alias, read_array, read_id,
  require, Seen,
}

-- No two texts of a list are equal.
unfoldable pub distinct : List String → Bool
distinct [] = true
distinct (s ∷ l) = not (any_where (λ t. t == s) l) && distinct l

-- No text of a list is in `seen`.
unfoldable fresh : List String → List String → Bool
fresh seen [] = true
fresh seen (s ∷ l) = not (member s seen) && fresh seen l

-- The identifiers have 1 to 200 characters, and where messages are to be sent there is a token.
abbrev pub complete : Bool → InstagramAccountSettings → Bool
complete send_enabled account =
    not (is_empty account.webhook_account_id)
    && leb (text_length account.webhook_account_id) 200
    && not (is_empty account.business_account_id)
    && leb (text_length account.business_account_id) 200
    && (not send_enabled || not (is_empty account.access_token))

unfoldable pub all_complete : Bool → List InstagramAccountSettings → Bool
all_complete send_enabled [] = true
all_complete send_enabled (a ∷ l) = complete send_enabled a && all_complete send_enabled l

fresh-tail :
    (s : String) (seen l : List String)
    → fresh (s ∷ seen) l ≡ true
    → (not (any_where (λ t. t == s) l) && fresh seen l) ≡ true
unfolding fresh member any_where
fresh-tail s seen [] h = refl
fresh-tail s seen (t ∷ l) h =
    ground (arith, h, fresh-tail s seen l (and-true _ (fresh (s ∷ seen) l) h).1)

abbrev Apart : List String → List String → Type 0
Apart seen l = (fresh seen l ≡ true) × (distinct l ≡ true)

Apart-cons :
    (s : String) (seen l : List String)
    → not (member s seen) ≡ true
    → Apart (s ∷ seen) l
    → Apart seen (s ∷ l)
unfolding fresh distinct
Apart-cons s seen l new h =
    let tail = fresh-tail s seen l h.0 in (ground (arith, new, tail), ground (arith, tail, h.1))

abbrev Returns : {A : Type 0} → (A → Type 0) → Result A → Type 0
Returns P (ok a) = P a
Returns P (err e) = Unit

and_then-Returns :
    {A B : Type 0} (P : A → Type 0) (Q : B → Type 0) (r : Result A) (next : A → Result B)
    → Returns P r
    → ((a : A) → P a → Returns Q (next a))
    → Returns Q (and_then r next)
unfolding and_then
and_then-Returns P Q (ok a) next h step = step a h
and_then-Returns P Q (err e) next h step = tt

require-Returns :
    {A : Type 0} (P : A → Type 0) (b : Bool) (message : String) (r : Result A)
    → (b ≡ true → Returns P r)
    → Returns P (require b message r)
unfolding require
require-Returns P true message r h = h refl
require-Returns P false message r h = tt

abbrev IsId : String → Type 0
IsId s = (not (is_empty s) && leb (text_length s) 200) ≡ true

read_id-Returns : (message : String) (v : Option Value) → Returns IsId (read_id message v)
unfolding read_id
read_id-Returns message (some (text s)) = require-Returns IsId _ message _ (λ h. h)
read_id-Returns message none = tt
read_id-Returns message (some null) = tt
read_id-Returns message (some (bool b)) = tt
read_id-Returns message (some (num n k)) = tt
read_id-Returns message (some (arr l)) = tt
read_id-Returns message (some (obj fs)) = tt

abbrev accounts_in : Result (List InstagramAccountSettings) → List InstagramAccountSettings
accounts_in (ok l) = l
accounts_in (err e) = []

module _ (environment : Environment) (send_enabled : Bool) where
  -- An account that may follow those that were seen.
  abbrev IsNext : Seen → InstagramAccountSettings → Type 0
  IsNext seen a =
      (not (member a.alias seen.aliases) ≡ true)
      × (not (member (environment.python.casefold a.webhook_account_id) seen.webhook_ids) ≡ true)
      × (not (member (environment.python.casefold a.business_account_id) seen.business_ids) ≡ true)
      × (complete send_enabled a ≡ true)

  check_account-Returns :
      (seen : Seen) (a : InstagramAccountSettings)
      → IsId a.webhook_account_id
      → IsId a.business_account_id
      → Returns (IsNext seen) (check_account environment send_enabled seen a)
  unfolding check_account
  check_account-Returns seen a w b = require-Returns (IsNext seen) _ _ _ λ new.
      require-Returns (IsNext seen) _ _ _ λ other.
        require-Returns (IsNext seen) _ _ _
          λ token. ((and-true _ _ new).0, (and-true _ _ new).1, other, ground (arith, w, b, token))

  read_account-Returns :
      (seen : Seen) (v : Value)
      → Returns (IsNext seen) (read_account environment send_enabled seen v)
  unfolding read_account
  read_account-Returns seen (obj fs) = require-Returns (IsNext seen) _ _ _ λ known.
      and_then-Returns (λ s. Unit) (IsNext seen) _ _ (any (read_alias (get_field "alias" fs)))
        λ s _. and_then-Returns IsId (IsNext seen) _ _ (read_id-Returns _ _) λ w hw.
          and_then-Returns IsId (IsNext seen) _ _ (read_id-Returns _ _)
            λ b hb. check_account-Returns seen _ hw hb
    where
      any : (r : Result String) → Returns (λ s. Unit) r
      any (ok s) = tt
      any (err e) = tt
  read_account-Returns seen null = tt
  read_account-Returns seen (bool b) = tt
  read_account-Returns seen (num n k) = tt
  read_account-Returns seen (text s) = tt
  read_account-Returns seen (arr l) = tt

  abbrev AreNext : Seen → List InstagramAccountSettings → Type 0
  AreNext seen l =
      Apart seen.aliases (map (λ a. a.alias) l)
      × Apart seen.webhook_ids (map (λ a. environment.python.casefold a.webhook_account_id) l)
      × Apart seen.business_ids (map (λ a. environment.python.casefold a.business_account_id) l)
      × (all_complete send_enabled l ≡ true)

  AreNext-cons :
      (seen : Seen) (a : InstagramAccountSettings) (l : List InstagramAccountSettings)
      → IsNext seen a
      → AreNext (add_seen environment.python a seen) l
      → AreNext seen (a ∷ l)
  unfolding add_seen all_complete
  AreNext-cons seen a l new rest = (
    Apart-cons _ _ _ new.0 rest.0,
    Apart-cons _ _ _ new.1 rest.1,
    Apart-cons _ _ _ new.2 rest.2,
    ground (arith, new.3, rest.3),
  )

  read_accounts-Returns :
      (seen : Seen) (values : List Value)
      → Returns (AreNext seen) (read_accounts environment send_enabled seen values)
  unfolding read_accounts fresh distinct all_complete
  read_accounts-Returns seen [] = ((refl, refl), (refl, refl), (refl, refl), refl)
  read_accounts-Returns seen (v ∷ values) =
      and_then-Returns (IsNext seen) (AreNext seen) _ _ (read_account-Returns seen v) λ a new.
        and_then-Returns (AreNext (add_seen environment.python a seen)) (AreNext seen) _ _
          (read_accounts-Returns (add_seen environment.python a seen) values)
          λ l rest. AreNext-cons seen a l new rest

  abbrev AreSettings : List InstagramAccountSettings → Type 0
  AreSettings accounts =
      (distinct (map (λ a. a.alias) accounts) ≡ true)
      × (distinct (map (λ a. environment.python.casefold a.webhook_account_id) accounts) ≡ true)
      × (distinct (map (λ a. environment.python.casefold a.business_account_id) accounts) ≡ true)
      × (all_complete send_enabled accounts ≡ true)

  forget :
      (r : Result (List InstagramAccountSettings))
      → Returns (AreNext none_seen) r
      → Returns AreSettings r
  forget (ok l) h = (h.0.1, h.1.1, h.2.1, h.3)
  forget (err e) h = tt

  read_array-Returns :
      (values : List Value) → Returns AreSettings (read_array environment send_enabled values)
  unfolding read_array
  read_array-Returns [] = tt
  read_array-Returns (v ∷ values) = forget _ (read_accounts-Returns none_seen (v ∷ values))

  accounts_of_json-Returns :
      (v : Option Value) → Returns AreSettings (accounts_of_json environment send_enabled v)
  unfolding accounts_of_json
  accounts_of_json-Returns none = tt
  accounts_of_json-Returns (some (arr items)) = read_array-Returns (items_list items)
  accounts_of_json-Returns (some null) = tt
  accounts_of_json-Returns (some (bool b)) = tt
  accounts_of_json-Returns (some (num n k)) = tt
  accounts_of_json-Returns (some (text s)) = tt
  accounts_of_json-Returns (some (obj fs)) = tt

  returned :
      (r : Result (List InstagramAccountSettings)) (accounts : List InstagramAccountSettings)
      → r ≡ ok accounts
      → Returns AreSettings r
      → AreSettings accounts
  returned (ok l) accounts e h = subst AreSettings (ap accounts_in e) h
  returned (err f) accounts e h = cc e

-- Whatever the text of the setting is, the accounts that are read of it have distinct aliases and, without
-- regard to case, distinct webhook identifiers and distinct business identifiers; every identifier has 1
-- to 200 characters, and where messages are to be sent every account has an access token.
pub instagram_accounts_from_json-IsValid :
    (environment : Environment) (raw : String) (send_enabled : Bool)
    (accounts : List InstagramAccountSettings)
    → instagram_accounts_from_json environment raw send_enabled ≡ ok accounts
    → (distinct (map (λ a. a.alias) accounts) ≡ true)
      × (distinct (map (λ a. environment.python.casefold a.webhook_account_id) accounts) ≡ true)
      × (distinct (map (λ a. environment.python.casefold a.business_account_id) accounts) ≡ true)
      × (all_complete send_enabled accounts ≡ true)
unfolding instagram_accounts_from_json
instagram_accounts_from_json-IsValid environment raw send_enabled accounts e =
    returned environment send_enabled _ accounts e (
      require-Returns (AreSettings environment send_enabled) _ _ _
        (λ _. accounts_of_json-Returns environment send_enabled (environment.loads raw)))
