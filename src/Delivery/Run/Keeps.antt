-- ===== src/Delivery/Run/Keeps.antt =====
-- What `DeliveryExecutor.run_once` of rrpp_bridge/delivery.py keeps, where the property does not speak
-- of the claim of a delivery.
use rrpp_agent_bridge.Common.{ℕ, String, Bool, true, false, ◌&&◌, refl}
use rrpp_agent_bridge.Common.Text.{Python, strip}
use rrpp_agent_bridge.Sender.{Remote, bounded_text, refuse, request, send_text}
use rrpp_agent_bridge.Store.Rows.{Db, Delivery}
use rrpp_agent_bridge.Store.Monad.{M, Request, execute}
use rrpp_agent_bridge.Store.Meets.{Meets, Meets-bind, Meets-on_row, Meets-pure, Meets-then}
use rrpp_agent_bridge.Store.Keeps.{Keeps, Keeps-execute, keeps_rules}
use rrpp_agent_bridge.Kept.{Ends, IsEnded}
use rrpp_agent_bridge.Delivery.Permission.{Senders}
use rrpp_agent_bridge.Delivery.Worker.{
  claim, claim_delivery, claimed_delivery, set_pending_delivery,
}
use rrpp_agent_bridge.Delivery.Keeps.{
  finish-Keeps, reason_for-Keeps, recover_stale-Keeps, suppress-Keeps,
}
use rrpp_agent_bridge.Delivery.Run.{deliver, run_once, send}

module _ {P : Db → Type 0} (kept : IsEnded P)
    (claims : (id : String) (f : Delivery → Delivery) (db : Db)
      → Ends f
      → P db
      → P (set_pending_delivery id f db)) where
  claimed-Keeps :
      (id worker_id : String) (t lease : ℕ)
      → Keeps P (execute (set_pending_delivery id (claimed_delivery t lease worker_id)))
  claimed-Keeps id worker_id t lease =
      Keeps-execute _
        (λ db. claims id _ db (record { same_id = λ d. refl; not_pending = λ d. refl }))

  claim_delivery-Keeps :
      (t lease : ℕ) (worker_id : String) (d : Delivery)
      → Keeps P (claim_delivery t lease worker_id d)
  unfolding claim_delivery
  claim_delivery-Keeps t lease worker_id d = search (keeps_rules, claimed-Keeps) depth 9

  claim-Keeps : (lease : ℕ) (worker_id : String) → Keeps P (claim lease worker_id)
  unfolding claim
  claim-Keeps lease worker_id = search (keeps_rules, claim_delivery-Keeps) depth 12

  -- A call that may send a request, and keeps the property.
  abbrev Stays : {A : Type 0} → M A → Type 0
  Stays m = Meets (λ w. P w.db) (λ _ w. P w.db) m

  kept-Stays : {A : Type 0} (m : M A) → Keeps P m → Stays m
  kept-Stays m hm = record { at = hm.at }

  sends_if-Stays :
      (valid : Bool) (python : Python) (remote : Remote) (r : Request)
      → Stays (elim valid [ false ↦ refuse | true ↦ request python remote r ])
  unfolding request
  sends_if-Stays false python remote r = record { at = λ w h. h }
  sends_if-Stays true python remote r = record { at = λ w h. h }

  send_text-Stays :
      (python : Python) (remote : Remote) (id account_id recipient_id message : String)
      → Stays (send_text python remote id account_id recipient_id message)
  unfolding send_text
  send_text-Stays python remote id account_id recipient_id message =
      sends_if-Stays (bounded_text 200 (strip recipient_id) && bounded_text 1000 (strip message))
        python remote _

  send-Stays :
      (python : Python) (remote : Remote) (worker_id : String) (d : Delivery)
      → Stays (send python remote worker_id d)
  unfolding send
  send-Stays python remote worker_id d =
      Meets-bind (λ _ w. P w.db) _ _ (send_text-Stays python remote d.id _ _ _)
        (λ outcome. kept-Stays _ (finish-Keeps kept d worker_id outcome)) (λ e w h. h)

  pub deliver-Stays :
      (python : Python) (remote : Remote) (senders : Senders) (worker_id : String) (d : Delivery)
      → Stays (deliver python remote senders worker_id d)
  unfolding deliver
  deliver-Stays python remote senders worker_id d =
      Meets-bind (λ _ w. P w.db) _ _ (kept-Stays _ (reason_for-Keeps kept python senders d))
        (λ reason.
          Meets-then (λ _ w. P w.db) _ _
            (Meets-on_row reason _ _ (λ _. send-Stays python remote worker_id d)
              (λ r _. kept-Stays _ (suppress-Keeps kept d r worker_id)))
            (λ _. Meets-pure true (λ w h. h)) (λ e w h. h))
        (λ e w h. h)

  pub run_once-Stays :
      (python : Python) (remote : Remote) (senders : Senders) (worker_id : String)
      → Meets (λ w. P w.db) (λ _ w. P w.db) (run_once python remote senders worker_id)
  unfolding run_once
  run_once-Stays python remote senders worker_id =
      Meets-then (λ _ w. P w.db) _ _ (kept-Stays _ (recover_stale-Keeps kept _))
        (λ _.
          Meets-bind (λ _ w. P w.db) _ _ (kept-Stays _ (claim-Keeps _ worker_id))
            (λ row.
              Meets-on_row row _ _ (λ _. Meets-pure false (λ w h. h))
                (λ d _. deliver-Stays python remote senders worker_id d))
            (λ e w h. h))
        (λ e w h. h)
