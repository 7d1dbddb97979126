-- ===== src/Delivery/AtMostOnce.antt =====
-- Lists of runs of the delivery worker, `DeliveryExecutor.run_once` of rrpp_bridge/delivery.py.
use rrpp_agent_bridge.Common.{
  ℕ, ◌≤◌, String, Bool, true, false, ◌&&◌, Option, none, some, List, [], ◌∷◌, ◌++◌, arith,
  count_where, count_where-snoc,
}
use rrpp_agent_bridge.Common.Text.{Python, strip}
use rrpp_agent_bridge.Sender.{Remote, SendOutcome, refuse, request, send_text, bounded_text}
use rrpp_agent_bridge.Store.Rows.{Delivery}
use rrpp_agent_bridge.Store.Monad.{calls, M, World, ok, Request, on_row, pure}
use rrpp_agent_bridge.Store.Keeps.{Keeps}
use rrpp_agent_bridge.Store.Meets.{
  Meets, Meets-bind, Meets-on_row, Meets-pure, Meets-then, Meets-weaken, Post,
}
use rrpp_agent_bridge.Delivery.Permission.{Senders}
use rrpp_agent_bridge.Delivery.Worker.{recover_stale, suppress}
use rrpp_agent_bridge.Delivery.Run.{deliver, finish, reason_for, run_once, send}
use rrpp_agent_bridge.Delivery.Keeps.{
  finish-Keeps, reason_for-Keeps, recover_stale-Keeps, suppress-Keeps,
}
use rrpp_agent_bridge.Delivery.Once.{
  IsOnce, Once, claim-Meets, claim_of, IsOnce-IsKept, is_request_for, no_claims, Once-kept,
  row_post,
}

abbrev pub keeps_once : {A : Type 0} → (String → ℕ) → Post A
keeps_once claims r w = Once claims w

pub kept-Meets :
    {A : Type 0} (claims : String → ℕ) (m : M A)
    → ((requests : List Request) → Keeps (λ db. IsOnce claims requests db.deliveries) m)
    → Meets (Once claims) (keeps_once claims) m
kept-Meets claims m keeps = record { at = Once-kept claims m keeps }

-- A claim that is given up without a request.
forget : (id : String) (w : World) → Once (claim_of id) w → Once no_claims w
forget id w h = record { unique = h.unique; spent = λ i. omega (arith, h.spent i) }

-- A claim that becomes its request.
spend :
    (r : Request) (w : World)
    → Once (claim_of r.delivery_id) w
    → Once no_claims (record w { requests = w.requests ++ r ∷ [] })
spend r w h = record {
  unique = h.unique;
  spent = λ i. omega (arith, h.spent i, count_where-snoc (is_request_for i) w.requests r);
}

sends_if-Meets :
    (valid : Bool) (python : Python) (remote : Remote) (r : Request)
    → Meets
        (Once (claim_of r.delivery_id))
        (keeps_once no_claims)
        (elim valid [ false ↦ refuse | true ↦ request python remote r ])
unfolding request
sends_if-Meets false python remote r = record { at = forget r.delivery_id }
sends_if-Meets true python remote r = record { at = spend r }

send_text-Meets :
    (python : Python) (remote : Remote) (id account_id recipient_id message : String)
    → Meets
        (Once (claim_of id))
        (keeps_once no_claims)
        (send_text python remote id account_id recipient_id message)
unfolding send_text
send_text-Meets python remote id account_id recipient_id message =
    sends_if-Meets (bounded_text 200 (strip recipient_id) && bounded_text 1000 (strip message))
      python remote _

finish-Meets :
    (d : Delivery) (worker_id : String) (outcome : SendOutcome)
    → Meets (Once no_claims) (keeps_once no_claims) (finish d worker_id outcome)
finish-Meets d worker_id outcome =
    kept-Meets no_claims _
      (λ requests. finish-Keeps (IsOnce-IsKept no_claims requests).ended d worker_id outcome)

send-Meets :
    (python : Python) (remote : Remote) (worker_id : String) (d : Delivery)
    → Meets (Once (claim_of d.id)) (keeps_once no_claims) (send python remote worker_id d)
unfolding send
send-Meets python remote worker_id d =
    Meets-bind (keeps_once no_claims) _ _ (send_text-Meets python remote d.id _ _ _)
      (finish-Meets d worker_id) (λ e w h. h)

suppress-Meets :
    (d : Delivery) (reason worker_id : String)
    → Meets (Once (claim_of d.id)) (keeps_once no_claims) (suppress d reason worker_id)
suppress-Meets d reason worker_id = Meets-weaken _ (forget d.id) (
    kept-Meets no_claims _
      (λ requests. suppress-Keeps (IsOnce-IsKept no_claims requests).ended d reason worker_id))

reason-Meets :
    (python : Python) (senders : Senders) (d : Delivery)
    → Meets (Once (claim_of d.id)) (keeps_once (claim_of d.id)) (reason_for python senders d)
reason-Meets python senders d =
    kept-Meets (claim_of d.id) _
      (λ requests. reason_for-Keeps (IsOnce-IsKept (claim_of d.id) requests).ended python senders d)

deliver-Meets :
    (python : Python) (remote : Remote) (senders : Senders) (worker_id : String) (d : Delivery)
    → Meets
        (Once (claim_of d.id))
        (keeps_once no_claims)
        (deliver python remote senders worker_id d)
unfolding deliver
deliver-Meets python remote senders worker_id d =
    Meets-bind (keeps_once (claim_of d.id)) _ _ (reason-Meets python senders d)
      (λ reason.
        Meets-then (keeps_once no_claims) _ _
          (Meets-on_row reason _ _ (λ _. send-Meets python remote worker_id d)
            (λ r _. suppress-Meets d r worker_id))
          (λ _. Meets-pure true (λ w h. h)) (λ e w h. h))
      (λ e w. forget d.id w)

on_delivery-Meets :
    (python : Python) (remote : Remote) (senders : Senders) (worker_id : String)
    (row : Option Delivery)
    → Meets
        (row_post (ok row))
        (keeps_once no_claims)
        (on_row row (pure false) (deliver python remote senders worker_id))
unfolding calls
on_delivery-Meets python remote senders worker_id none = Meets-pure false (λ w h. h)
on_delivery-Meets python remote senders worker_id (some d) =
    deliver-Meets python remote senders worker_id d

recover-Meets :
    (actor : String) → Meets (Once no_claims) (keeps_once no_claims) (recover_stale actor)
recover-Meets actor =
    kept-Meets no_claims _
      (λ requests. recover_stale-Keeps (IsOnce-IsKept no_claims requests).ended actor)

pub run_once-Meets :
    (python : Python) (remote : Remote) (senders : Senders) (worker_id : String)
    → Meets (Once no_claims) (keeps_once no_claims) (run_once python remote senders worker_id)
unfolding run_once
run_once-Meets python remote senders worker_id =
    Meets-then (keeps_once no_claims) _ _ (recover-Meets _)
      (λ _.
        Meets-bind row_post _ _ (claim-Meets _ worker_id)
          (on_delivery-Meets python remote senders worker_id) (λ e w h. h))
      (λ e w h. h)

-- One run of a worker, and what it finds: its settings, and how the far side answers.
pub record Run : Type 0 where
  pub python : Python
  pub remote : Remote
  pub senders : Senders
  pub worker_id : String

abbrev pub after_runs : List Run → World → World
after_runs [] w = w
after_runs (r ∷ rs) w = after_runs rs (run_once r.python r.remote r.senders r.worker_id w).1

-- Between two runs: a delivery has one row at most, and its requests and its pending row together are
-- no more than its rows. Runs of the worker keep it.
pub runs-Once : (rs : List Run) (w : World) → Once no_claims w → Once no_claims (after_runs rs w)
runs-Once [] w h = h
runs-Once (r ∷ rs) w h =
    runs-Once rs _ ((run_once-Meets r.python r.remote r.senders r.worker_id).at w h)

-- From a state in which a delivery has at most one row, and its requests and its pending row together
-- are no more than its rows, as before anything is sent, any list of runs of the worker, each with its
-- settings and with answers of its own, leaves at most one request for each delivery: an answer that is
-- lost or ambiguous does not make the worker send again.
pub no_second_request :
    (rs : List Run) (w : World) (id : String)
    → Once no_claims w
    → count_where (is_request_for id) (after_runs rs w).requests ≤ 1
no_second_request rs w id h =
    omega (arith, (runs-Once rs w h).spent id, (runs-Once rs w h).unique id)
