-- ===== src/Inbound/Keeps.antt =====
-- What a request to the application of rrpp_bridge/instagram_webhook.py keeps.
use rrpp_agent_bridge.Common.{
  ◌∙◌, ◌≡◌, ℕ, String, Bool, true, false, List, [], ◌∷◌, refl, not, ◌==◌,
}
use rrpp_agent_bridge.Models.{NormalizedEvent}
use rrpp_agent_bridge.Store.Rows.{Db, Receipt}
use rrpp_agent_bridge.Store.Monad.{M, record_audit, World, Result, ok, err, Exception, value_error}
use rrpp_agent_bridge.Store.Keeps.{
  Keeps, Keeps-bind, Keeps-pure, Keeps-raise, Keeps-transaction, Keeps-if, keeps_rules,
}
use rrpp_agent_bridge.Kept.{IsKept, audit-Keeps, insert-Keeps}
use rrpp_agent_bridge.Queue.Keeps.{enqueue-Keeps}
use rrpp_agent_bridge.Inbound.Instagram.{Normalized}
use rrpp_agent_bridge.Inbound.Webhook.{
  Application, Environ, after_error, call, catch_all, duplicate_webhook, enqueue_all, health,
  insert_receipt, lift, normalized_payload, post, post_body, post_signed, read_body, receive,
  receive_in_transaction, receive_payload, respond, store_events, verify_get,
}

caught :
    {A : Type 0} (P : Db → Type 0) (a : A) (r : Result A) (w : World)
    → P w.db
    → P (catch_all (λ v. (r, w)) a w).1.db
unfolding catch_all
caught P a (ok b) w h = h
caught P a (err e) w h = h

caught_silent :
    {A : Type 0} (a : A) (r : Result A) (w : World)
    → (catch_all (λ v. (r, w)) a w).1.requests ≡ w.requests
unfolding catch_all
caught_silent a (ok b) w = refl
caught_silent a (err e) w = refl

Keeps-catch_all :
    {A : Type 0} {P : Db → Type 0} (m : M A) (a : A) → Keeps P m → Keeps P (catch_all m a)
unfolding catch_all
Keeps-catch_all {P} m a hm = record {
  at = λ w h. caught P a (m w).0 (m w).1 (hm.at w h);
  silent = record { at = λ w. caught_silent a (m w).0 (m w).1 ∙ hm.silent.at w };
}

module _ {P : Db → Type 0} (kept : IsKept P) where
  record_audit-Keeps :
      (actor operation entity_type entity_id outcome : String)
      → Keeps P (record_audit actor operation entity_type entity_id outcome)
  record_audit-Keeps = audit-Keeps kept.ended

  enqueue_all-Keeps :
      (debounce : ℕ) (events : List NormalizedEvent) → Keeps P (enqueue_all debounce events)
  unfolding enqueue_all
  enqueue_all-Keeps debounce [] = Keeps-pure _
  enqueue_all-Keeps debounce (event ∷ events) =
      Keeps-bind _ _ (enqueue-Keeps kept debounce event) (λ (id, created).
        Keeps-bind _ _ (enqueue_all-Keeps debounce events) (λ (accepted, duplicates). Keeps-pure _))

  insert_receipt-Keeps : (r : Receipt) → Keeps P (insert_receipt r)
  unfolding insert_receipt
  insert_receipt-Keeps r = insert-Keeps kept.ended _ _ (λ db. refl) (λ db. refl)

  store_events-Keeps :
      (debounce : ℕ) (digest : String) (n : Normalized) → Keeps P (store_events debounce digest n)
  unfolding store_events
  store_events-Keeps debounce digest n =
      Keeps-bind _ _ (enqueue_all-Keeps debounce n.events) (λ (accepted, duplicates).
        search (keeps_rules, record_audit-Keeps, insert_receipt-Keeps) depth 9)

  duplicate_webhook-Keeps : (r : Receipt) → Keeps P (duplicate_webhook r)
  unfolding duplicate_webhook
  duplicate_webhook-Keeps r = search (keeps_rules, record_audit-Keeps)

  in_transaction-Keeps :
      (debounce : ℕ) (digest : String) (n : Normalized)
      → Keeps P (receive_in_transaction debounce digest n)
  unfolding receive_in_transaction
  in_transaction-Keeps debounce digest n =
      search (keeps_rules, store_events-Keeps, duplicate_webhook-Keeps)

  receive-Keeps :
      (debounce : ℕ) (digest : String) (n : Normalized) → Keeps P (receive debounce digest n)
  unfolding receive
  receive-Keeps debounce digest n =
      Keeps-catch_all _ _ (Keeps-transaction _ (in_transaction-Keeps debounce digest n))

  after_error-Keeps : (e : Exception) → Keeps P (after_error e)
  unfolding after_error
  after_error-Keeps (value_error message) = Keeps-pure _
  after_error-Keeps _ = Keeps-raise _

  payload-Keeps :
      (app : Application) (body : String) (n : Result Normalized)
      → Keeps P (receive_payload app body n)
  unfolding receive_payload
  payload-Keeps app body (ok n) = receive-Keeps _ _ n
  payload-Keeps app body (err e) = after_error-Keeps e

  signed-Keeps :
      (app : Application) (body : String) (same : Result Bool) → Keeps P (post_signed app body same)
  unfolding post_signed
  signed-Keeps app body (err e) = Keeps-raise e
  signed-Keeps app body (ok false) = Keeps-pure _
  signed-Keeps app body (ok true) = payload-Keeps app body (normalized_payload app (app.parse body))

  body-Keeps :
      (app : Application) (environ : Environ) (body : Result String)
      → Keeps P (post_body app environ body)
  unfolding post_body
  body-Keeps app environ (err e) = after_error-Keeps e
  body-Keeps app environ (ok body) = signed-Keeps app body _

  lift-Keeps : {A : Type 0} (r : Result A) → Keeps P (lift r)
  unfolding lift
  lift-Keeps (ok a) = Keeps-pure a
  lift-Keeps (err e) = Keeps-raise e

  get-Keeps : (app : Application) (environ : Environ) → Keeps P (verify_get app environ)
  unfolding verify_get
  get-Keeps app environ =
      Keeps-if _ _ _ (Keeps-bind _ _ (lift-Keeps _) (λ same. Keeps-pure _)) (Keeps-pure _)

  pub call-Keeps : (app : Application) (environ : Environ) → Keeps P (call app environ)
  unfolding call post
  call-Keeps app environ =
      Keeps-if (environ.path == "/healthz") _ _ (Keeps-pure (health app environ)) (
        Keeps-if (not app.enabled) _ _ (Keeps-pure (respond 404 "Not found")) (
          Keeps-if (not (environ.path == "/webhooks/instagram")) _ _
            (Keeps-pure (respond 404 "Not found"))
            (Keeps-if (environ.method == "GET") _ _ (get-Keeps app environ) (
              Keeps-if (environ.method == "POST") _ _
                (body-Keeps app environ (read_body app environ))
                (Keeps-pure (respond 405 "Method not allowed"))))))
