-- ===== src/Inbound/Routing.antt =====
-- `_receiver_account` of rrpp_bridge/adapters/instagram.py.
use rrpp_agent_bridge.Common.{
  ◌∙◌, String, Bool, true, false, List, ◌==◌, ◌≡◌, refl, ◌⊎◌, inl, inr, ==→eq,
}
use rrpp_agent_bridge.Common.Json.{member}

pub data Receiver : Type 0 where
  account : String → Receiver
  account_id_mismatch : Receiver
  account_not_configured : Receiver

abbrev pub choose : Bool → Bool → Bool → String → String → Receiver
choose true true true entry_id recipient_id = account entry_id
choose true true false entry_id recipient_id = account_id_mismatch
choose true false same entry_id recipient_id = account entry_id
choose false true same entry_id recipient_id = account recipient_id
choose false false same entry_id recipient_id = account_not_configured

unfoldable pub receiver_account : String → String → List String → Receiver
receiver_account entry_id recipient_id allowed_accounts =
    choose (member entry_id allowed_accounts) (member recipient_id allowed_accounts)
      (entry_id == recipient_id) entry_id recipient_id

-- The account that is Chosen, by the tests on the two fields.
abbrev Chosen : Bool → Bool → String → String → String → Type 0
Chosen b c entry_id recipient_id a =
    ((a ≡ entry_id × b ≡ true) ⊎ (a ≡ recipient_id × c ≡ true))
    × (b ≡ true → a ≡ entry_id)
    × (c ≡ true → a ≡ recipient_id)

choose-Chosen :
    (b c same : Bool) (entry_id recipient_id a : String)
    → (same ≡ true → entry_id ≡ recipient_id)
    → choose b c same entry_id recipient_id ≡ account a
    → Chosen b c entry_id recipient_id a
choose-Chosen true true true entry_id recipient_id a equal h =
    let chosen_entry : a ≡ entry_id = cc in
    (inl (chosen_entry, refl), (λ _. chosen_entry), (λ _. chosen_entry ∙ equal refl))
choose-Chosen true true false entry_id recipient_id a equal h = cc h
choose-Chosen true false same entry_id recipient_id a equal h =
    (inl (cc, refl), (λ _. cc), (λ e. cc))
choose-Chosen false true same entry_id recipient_id a equal h =
    (inr (cc, refl), (λ e. cc), (λ _. cc))
choose-Chosen false false same entry_id recipient_id a equal h = cc h

chosen-configured :
    (entry_id recipient_id a : String) (allowed_accounts : List String)
    → (a ≡ entry_id × member entry_id allowed_accounts ≡ true)
      ⊎ (a ≡ recipient_id × member recipient_id allowed_accounts ≡ true)
    → (member a allowed_accounts ≡ true) × ((a ≡ entry_id) ⊎ (a ≡ recipient_id))
chosen-configured entry_id recipient_id a allowed_accounts (inl (same, configured)) =
    (rw same configured, inl same)
chosen-configured entry_id recipient_id a allowed_accounts (inr (same, configured)) =
    (rw same configured, inr same)

-- A message is routed to an account only where that account is configured and stands in one of the
-- two routing fields, and the other field then names the same account or one that is not configured.
pub receiver_account-configured :
    (entry_id recipient_id a : String) (allowed_accounts : List String)
    → receiver_account entry_id recipient_id allowed_accounts ≡ account a
    → (member a allowed_accounts ≡ true)
      × ((a ≡ entry_id) ⊎ (a ≡ recipient_id))
      × (member entry_id allowed_accounts ≡ true → a ≡ entry_id)
      × (member recipient_id allowed_accounts ≡ true → a ≡ recipient_id)
unfolding receiver_account
receiver_account-configured entry_id recipient_id a allowed_accounts h =
    let c =
      choose-Chosen (member entry_id allowed_accounts) (member recipient_id allowed_accounts)
        (entry_id == recipient_id) entry_id recipient_id a (==→eq entry_id recipient_id) h in
    let (configured, field) = chosen-configured entry_id recipient_id a allowed_accounts c.0 in
    (configured, field, c.1, c.2)
