-- ===== src/Inbound/Requests.antt =====
-- What the requests to the application of rrpp_bridge/instagram_webhook.py may change, and what a
-- repeated one does.
use rrpp_agent_bridge.Common.{
  String, Bool, true, false, not, ◌≡◌, refl, ◌⊎◌, inl, inr, arith, ap, ◌∙◌, ◌==◌, if◌then◌else◌,
}
use rrpp_agent_bridge.Store.Monad.{
  calls, M, World, Result, ok, err, Exception, value_error, pure, ◌>>=◌,
}
use rrpp_agent_bridge.Inbound.Webhook.{
  Application, Environ, Response, after_error, call, compare_digest, health, lift, post, post_body,
  post_signed, read_body, respond, verify_get, verify_signature,
}

-- A body of the declared length and type, with the signature of the application's secret.
abbrev pub IsSigned : Application → Environ → Type 0
IsSigned app environ =
    (body : String) × (read_body app environ ≡ ok body)
    × (verify_signature app environ body ≡ ok true)

-- A call that leaves the world as it is.
abbrev Idle : {A : Type 0} → M A → World → Type 0
Idle m w = (m w).1 ≡ w

after_error-Idle : (e : Exception) (w : World) → Idle (after_error e) w
unfolding after_error calls
after_error-Idle (value_error message) w = refl
after_error-Idle _ w = refl

signed-Idle :
    (app : Application) (body : String) (same : Result Bool) (w : World)
    → Idle (post_signed app body same) w ⊎ (same ≡ ok true)
unfolding post_signed calls
signed-Idle app body (err e) w = inl refl
signed-Idle app body (ok false) w = inl refl
signed-Idle app body (ok true) w = inr refl

body-Idle :
    (app : Application) (environ : Environ) (body : Result String) (w : World)
    → Idle (post_body app environ body) w
      ⊎ ((b : String) × (body ≡ ok b) × (verify_signature app environ b ≡ ok true))
unfolding post_body
body-Idle app environ (err e) w = inl (after_error-Idle e w)
body-Idle app environ (ok b) w = elim (signed-Idle app b (verify_signature app environ b) w) [
  | inl idle ↦ inl idle
  | inr same ↦ inr (b, refl, same)
]

answer-Idle :
    (same : Result Bool) (challenge : String) (w : World)
    → Idle
        (lift same >>= λ s. pure (if s then respond 200 challenge else respond 403 "Forbidden"))
        w
unfolding lift calls
answer-Idle (ok b) challenge w = refl
answer-Idle (err e) challenge w = refl

if-Idle :
    (b : Bool) (m k : M Response) (w : World) → Idle m w → Idle k w → Idle (if b then m else k) w
if-Idle true m k w h i = h
if-Idle false m k w h i = i

get-Idle : (app : Application) (environ : Environ) (w : World) → Idle (verify_get app environ) w
unfolding verify_get calls
get-Idle app environ w =
    if-Idle (environ.hub_mode == "subscribe") _ _ w
      (answer-Idle (compare_digest environ.hub_verify_token app.verify_token) environ.hub_challenge
        w)
      refl

-- The tests of `call`, in its order.
cases :
    (healthy off elsewhere get posted : Bool) (a b c : Response) (g p : M Response) (w : World)
    → Idle g w
    → let m =
        if healthy
        then pure a
        else if off
        then pure b
        else if elsewhere
        then pure b
        else if get
        then g
        else if posted
        then p
        else pure c in
      Idle m w ⊎ ((off ≡ false) × (elsewhere ≡ false) × (posted ≡ true) × (m w ≡ p w))
unfolding calls
cases true off elsewhere get posted a b c g p w h = inl refl
cases false true elsewhere get posted a b c g p w h = inl refl
cases false false true get posted a b c g p w h = inl refl
cases false false false true posted a b c g p w h = inl h
cases false false false false true a b c g p w h = inr (refl, refl, refl, refl)
cases false false false false false a b c g p w h = inl refl

-- Whatever request comes in, and whether it is answered or raises, it writes nothing to the tables of a
-- migrated database, unless Instagram is enabled and the request is a POST to the path of the webhook with a body of the
-- declared length and type and a signature of it with the application's secret.
pub call-needs_signature :
    (app : Application) (environ : Environ) (w : World)
    → ((call app environ w).1.db ≡ w.db)
      ⊎ ((app.enabled ≡ true)
          × ((environ.path == "/webhooks/instagram") ≡ true)
          × ((environ.method == "POST") ≡ true)
          × IsSigned app environ)
unfolding call post
call-needs_signature app environ w =
    elim (cases (environ.path == "/healthz") (not app.enabled)
      (not (environ.path == "/webhooks/instagram")) (environ.method == "GET")
      (environ.method == "POST") (health app environ) (respond 404 "Not found")
      (respond 405 "Method not allowed") (verify_get app environ)
      (post_body app environ (read_body app environ)) w (get-Idle app environ w)) [
        | inl idle ↦ inl (ap (λ v. v.db) idle)
        | inr (on, here, posted, same) ↦ elim (body-Idle app environ (read_body app environ) w) [
          | inl idle ↦ inl (ap (λ o. o.1.db) same ∙ ap (λ v. v.db) idle)
          | inr signed ↦ inr (ground (arith, on), ground (arith, here), posted, signed)
        ]
      ]
