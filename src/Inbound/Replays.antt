-- ===== src/Inbound/Replays.antt =====
-- What a webhook that is delivered twice does: `_post` of rrpp_bridge/instagram_webhook.py.
use rrpp_agent_bridge.Common.{
  ℕ, String, Bool, true, false, none, some, List, [], ◌∷◌, ◌++◌, ◌≡◌, refl, ◌∙◌, arith, ap, sym,
  subst, ==-refl, any_where, find_where, inl, inr, Option-cases,
}
use rrpp_agent_bridge.Store.Rows.{Db, Receipt}
use rrpp_agent_bridge.Store.Monad.{
  calls, integrity_error, M, World, Result, ok, err, transaction, new_id, utc_now, record_audit,
  on_row,
}
use rrpp_agent_bridge.Store.Meets.{
  Meets, Meets-bind, Meets-on_row, Meets-pure, Meets-query, Meets-then, Meets-transaction,
  Meets-weaken, Post,
}
use rrpp_agent_bridge.Inbound.Instagram.{Normalized}
use rrpp_agent_bridge.Inbound.Webhook.{
  Response, catch_all, duplicate_webhook, has_digest, insert_receipt, receive,
  receive_in_transaction, respond, store_events,
}

-- A receipt with the digest is stored.
abbrev Stored : String → Db → Type 0
Stored digest db = any_where (has_digest digest) db.webhook_receipts ≡ true

any-last :
    (p : Receipt → Bool) (l : List Receipt) (r : Receipt)
    → p r ≡ true
    → any_where p (l ++ r ∷ []) ≡ true
unfolding any_where
any-last p [] r h = ground (arith, h)
any-last p (x ∷ l) r h = ground (arith, any-last p l r h)

any-found :
    (p : Receipt → Bool) (l : List Receipt) (r : Receipt)
    → find_where p l ≡ some r
    → any_where p l ≡ true
unfolding any_where find_where
any-found p [] r h = cc h
any-found p (x ∷ l) r h = ground (arith, h, any-found p l r)

any-missing :
    (p : Receipt → Bool) (l : List Receipt) → find_where p l ≡ none → any_where p l ≡ true → ⊥
unfolding any_where find_where
any-missing p [] h a = cc a
any-missing p (x ∷ l) h a = ground (arith, h, a, any-missing p l)

module _ (digest : String) where
  abbrev stored_after : {A : Type 0} → Post A
  stored_after (ok a) w = Stored digest w.db
  stored_after (err e) w = Unit

  anything : {A : Type 0} {P : World → Type 0} (m : M A) → Meets P (λ _ _. Unit {0}) m
  anything m = record { at = λ w h. tt }

  inserted :
      (r : Receipt) (taken : Bool) (w : World)
      → has_digest digest r ≡ true
      → let out = elim taken as (λ _. Result (Unit {0}) × World) [
        | true ↦ (err integrity_error, w)
        | false ↦ (
          ok tt,
          record w { db = record (w.db) { webhook_receipts = w.db.webhook_receipts ++ r ∷ [] } },
        )
      ] in
        stored_after out.0 out.1
  inserted r true w h = tt
  inserted r false w h = any-last (has_digest digest) w.db.webhook_receipts r h

  insert-Meets :
      (r : Receipt) → has_digest digest r ≡ true → Meets (λ _. Unit) stored_after (insert_receipt r)
  unfolding insert_receipt calls
  insert-Meets r h = record { at = λ w _. inserted r _ w h }

  audit-Meets :
      (actor operation entity_type entity_id outcome : String)
      → Meets
          (λ w. Stored digest w.db)
          stored_after
          (record_audit actor operation entity_type entity_id outcome)
  unfolding calls
  audit-Meets actor operation entity_type entity_id outcome = record { at = λ w h. h }

  store_events-Meets :
      (debounce : ℕ) (n : Normalized)
      → Meets (λ _. Unit) stored_after (store_events debounce digest n)
  unfolding store_events
  store_events-Meets debounce n =
      Meets-bind (λ _ _. Unit) _ _ (anything _)
        (λ (accepted, duplicates).
          Meets-bind (λ _ _. Unit) _ _ (anything (new_id "wh"))
            (λ receipt_id.
              Meets-bind (λ _ _. Unit) _ _ (anything utc_now)
                (λ timestamp.
                  Meets-then stored_after _ _
                    (insert-Meets _ (ground (arith, ==-refl "instagram", ==-refl digest)))
                    (λ _.
                      Meets-then stored_after _ _ (audit-Meets _ _ _ _ _)
                        (λ _. Meets-pure _ (λ w h. h)) (λ e w h. tt))
                    (λ e w h. tt))
                (λ e w h. tt))
            (λ e w h. tt))
        (λ e w h. tt)

  duplicate-Meets :
      (r : Receipt) → Meets (λ w. Stored digest w.db) stored_after (duplicate_webhook r)
  unfolding duplicate_webhook
  duplicate-Meets r =
      Meets-then stored_after _ _ (audit-Meets _ _ _ _ _) (λ _. Meets-pure _ (λ w h. h))
        (λ e w h. tt)

  in_transaction-Meets :
      (debounce : ℕ) (n : Normalized)
      → Meets (λ _. Unit) stored_after (receive_in_transaction debounce digest n)
  unfolding receive_in_transaction
  in_transaction-Meets debounce n = Meets-query _ _ λ row.
      Meets-on_row row _ _ (λ _. Meets-weaken _ (λ w h. tt) (store_events-Meets debounce n))
        (λ r found. Meets-weaken _ (λ w h. any-found _ _ r (h.1 ∙ found)) (duplicate-Meets r))

  -- A response other than that for an exception.
  answered :
      (r : Result Response) (w : World)
      → stored_after r w
      → let out = elim r as (λ _. Result Response × World) [
        | ok a ↦ (ok a, w)
        | err e ↦ (ok (respond 500 "Temporary failure"), w)
      ] in
        out.0 ≡ ok (respond 200 "EVENT_RECEIVED") → Stored digest out.1.db
  answered (ok a) w h e = h
  answered (err f) w h e = absurd (wrong e)
    where
      status : Result Response → ℕ
      status (ok r) = r.status
      status (err f) = 0

      wrong : ok (respond 500 "Temporary failure") ≡ ok (respond 200 "EVENT_RECEIVED") → ⊥
      wrong e = omega (arith, ap status e)

  received-Stored :
      (debounce : ℕ) (n : Normalized) (w : World)
      → (receive debounce digest n w).0 ≡ ok (respond 200 "EVENT_RECEIVED")
      → Stored digest (receive debounce digest n w).1.db
  unfolding receive catch_all
  received-Stored debounce n w = answered _ _ (
      (Meets-transaction (receive_in_transaction debounce digest n) (λ w e h raised. tt)
          (in_transaction-Meets debounce n)).at
        w tt)

  -- What a repeated webhook leaves as it is.
  pub record IsSame (before after : Db) : Type 0 where
    pub events : after.events ≡ before.events
    pub jobs : after.jobs ≡ before.jobs
    pub conversations : after.conversations ≡ before.conversations
    pub messages : after.conversation_messages ≡ before.conversation_messages
    pub receipts : after.webhook_receipts ≡ before.webhook_receipts

  found-again :
      (debounce : ℕ) (n : Normalized) (w : World) (r : Receipt)
      → find_where (has_digest digest) w.db.webhook_receipts ≡ some r
      → receive_in_transaction debounce digest n w ≡ duplicate_webhook r w
  unfolding receive_in_transaction calls
  found-again debounce n w r found =
      ap (λ row. on_row row (store_events debounce digest n) duplicate_webhook w) found

  -- What `receive` makes of the outcome of its transaction.
  abbrev outcome : World → Result Response × World → Result Response × World
  outcome w o = catch_all (transaction (λ v. o)) (respond 500 "Temporary failure") w

  duplicate-IsSame :
      (w : World) (r : Receipt)
      → ((outcome w (duplicate_webhook r w)).0 ≡ ok (respond 200 "EVENT_RECEIVED"))
        × IsSame w.db (outcome w (duplicate_webhook r w)).1.db
  unfolding catch_all duplicate_webhook calls
  duplicate-IsSame w r = (
    refl,
    record { events = refl; jobs = refl; conversations = refl; messages = refl; receipts = refl },
  )

  again-IsSame :
      (debounce : ℕ) (n : Normalized) (w : World) (r : Receipt)
      → find_where (has_digest digest) w.db.webhook_receipts ≡ some r
      → ((receive debounce digest n w).0 ≡ ok (respond 200 "EVENT_RECEIVED"))
        × IsSame w.db (receive debounce digest n w).1.db
  unfolding receive catch_all calls
  again-IsSame debounce n w r found =
      subst
        (λ o.
          ((outcome w o).0 ≡ ok (respond 200 "EVENT_RECEIVED")) × IsSame w.db (outcome w o).1.db)
        (sym (found-again debounce n w r found)) (duplicate-IsSame w r)

  again-any :
      (debounce : ℕ) (n : Normalized) (w : World)
      → Stored digest w.db
      → ((receive debounce digest n w).0 ≡ ok (respond 200 "EVENT_RECEIVED"))
        × IsSame w.db (receive debounce digest n w).1.db
  again-any debounce n w h =
      elim (Option-cases (find_where (has_digest digest) w.db.webhook_receipts)) [
        | inl missing ↦ absurd (any-missing _ _ missing h)
        | inr (r, found) ↦ again-IsSame debounce n w r found
      ]

-- A webhook that was accepted, and comes in again with the same digest, is accepted again, and leaves
-- the events, the jobs, the conversations with their messages, and the receipts as they were, whatever
-- debounce time and normalized events the second one comes with.
pub receive-again :
    (digest : String) (debounce later : ℕ) (n m : Normalized) (w : World)
    → (receive debounce digest n w).0 ≡ ok (respond 200 "EVENT_RECEIVED")
    → let after = (receive debounce digest n w).1 in
      ((receive later digest m after).0 ≡ ok (respond 200 "EVENT_RECEIVED"))
      × IsSame digest after.db (receive later digest m after).1.db
receive-again digest debounce later n m w h =
    again-any digest later m _ (received-Stored digest debounce n w h)
