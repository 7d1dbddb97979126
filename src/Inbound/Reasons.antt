-- ===== src/Inbound/Reasons.antt =====
-- What the counter of the reasons in rrpp_bridge/adapters/instagram.py counts.
use rrpp_agent_bridge.Common.{
  suc, ◌+◌, String, Bool, true, false, not, ◌&&◌, List, [], ◌∷◌, ◌≡◌, refl, arith, ◌==◌, ==→eq,
  Bool-cases, inl, inr, count_where, and-true,
}
use rrpp_agent_bridge.Common.Json.{member}
use rrpp_agent_bridge.Inbound.Instagram.{counter, reasons}
use rrpp_agent_bridge.Inbound.Webhook.{total}

unfoldable distinct : List String → Bool
distinct [] = true
distinct (s ∷ l) = not (member s l) && distinct l

reasons-distinct : distinct reasons ≡ true
unfolding distinct member ◌==◌
reasons-distinct = refl

-- Each reason that `normalize` gives is one that it counts.
pub reasons-known :
    (member "account_id_mismatch" reasons ≡ true)
    × (member "account_not_configured" reasons ≡ true)
    × (member "echo_message" reasons ≡ true)
    × (member "missing_message_id" reasons ≡ true)
    × (member "missing_sender" reasons ≡ true)
    × (member "self_message" reasons ≡ true)
    × (member "unsupported_event" reasons ≡ true)
    × (member "unsupported_message_content" reasons ≡ true)
unfolding member ◌==◌
reasons-known = (refl, refl, refl, refl, refl, refl, refl, refl)

count-absent :
    (s : String) (rs : List String) → member s rs ≡ false → count_where (λ r. s == r) rs ≡ 0
unfolding member count_where
count-absent s [] h = refl
count-absent s (r ∷ rs) h = ground (arith, h, count-absent s rs)

count-once :
    (s : String) (rs : List String)
    → distinct rs ≡ true
    → member s rs ≡ true
    → count_where (λ r. s == r) rs ≡ 1
unfolding distinct member count_where
count-once s [] d h = cc h
count-once s (r ∷ rs) d h = elim (Bool-cases (s == r)) [
  | inl e ↦
      let new : not (member r rs) ≡ true = (and-true (not (member r rs)) (distinct rs) d).0 in
      let gone : not (member s rs) ≡ true = rw (==→eq s r e) new in
      ground (arith, e, gone, count-absent s rs)
  | inr e ↦ ground (arith, e, h, count-once s rs (and-true (not (member r rs)) (distinct rs) d).1)
]

total-nil : (rs : List String) → total (counter rs []) ≡ 0
unfolding counter count_where
total-nil [] = refl
total-nil (r ∷ rs) = ground (arith, total-nil rs)

total-cons :
    (s : String) (rs seen : List String)
    → total (counter rs (s ∷ seen)) ≡ count_where (λ r. s == r) rs + total (counter rs seen)
unfolding counter count_where
total-cons s [] seen = refl
total-cons s (r ∷ rs) seen = ground (arith, total-cons s rs seen)

-- A reason that is known adds one to the counts.
pub total-counter :
    (s : String) (seen : List String)
    → member s reasons ≡ true
    → total (counter reasons (s ∷ seen)) ≡ suc (total (counter reasons seen))
total-counter s seen h =
    omega (arith, total-cons s reasons seen, count-once s reasons reasons-distinct h)

pub total-none : total (counter reasons []) ≡ 0
total-none = total-nil reasons
