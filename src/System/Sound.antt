-- ===== src/System/Sound.antt =====
-- What every order of the calls of System.Operations keeps.
use rrpp_agent_bridge.Common.{
  String, Bool, true, false, List, [], ◌∷◌, ◌≤◌, arith, count_where, if◌then◌else◌,
}
use rrpp_agent_bridge.Sender.{Remote}
use rrpp_agent_bridge.Store.Rows.{Db}
use rrpp_agent_bridge.Store.Monad.{calls, Request, World, pure}
use rrpp_agent_bridge.Store.Meets.{Meets-bind}
use rrpp_agent_bridge.Queue.Claim.{works_on}
use rrpp_agent_bridge.Queue.Claim.Keeps.{claim_next-Keeps}
use rrpp_agent_bridge.Queue.Serial.{QueueIsSerial, IsSerial-IsKept}
use rrpp_agent_bridge.Queue.Exclusive.{claim_next-IsSerial}
use rrpp_agent_bridge.Delivery.Once.{
  IsOnce, Once, Once-kept, is_request_for, no_claims, IsOnce-IsKept,
}
use rrpp_agent_bridge.Delivery.AtMostOnce.{run_once-Meets}
use rrpp_agent_bridge.Delivery.Run
use rrpp_agent_bridge.Delivery.Run.Keeps.{run_once-Stays}
use rrpp_agent_bridge.Delivery.Worker.{set_pending_delivery}
use rrpp_agent_bridge.Executor.Stage.{Settings}
use rrpp_agent_bridge.Executor.Worker.{next_job, run_once}
use rrpp_agent_bridge.System.Calls.{next_job-Keeps, perform_call-Leaves}
use rrpp_agent_bridge.System.Operations.{
  Call, perform_call, serves, Operation, perform, perform_all, works,
}

-- Job identifiers are distinct, a conversation has at most one job in work, and a delivery has one row
-- at most, which waits only as long as no request was sent for it.
pub record IsSound (w : World) : Type 0 where
  pub serial : QueueIsSerial w.db
  pub once : Once no_claims w

abbrev OnceDb : List Request → Db → Type 0
OnceDb requests db = IsOnce no_claims requests db.deliveries

call-IsSound : (c : Call) (w : World) → IsSound w → IsSound (perform_call c w)
call-IsSound c w h = record {
  serial = (perform_call-Leaves IsSerial-IsKept c).at w h.serial;
  once =
      rw ((perform_call-Leaves IsSerial-IsKept c).silent w)
        ((perform_call-Leaves (IsOnce-IsKept no_claims w.requests) c).at w h.once);
}

next_job-IsSound :
    (settings : Settings) (worker_id : String) (w : World)
    → IsSound w
    → IsSound (next_job settings worker_id w).1
next_job-IsSound settings worker_id w h = record {
  serial =
      (next_job-Keeps IsSerial-IsKept settings worker_id (claim_next-IsSerial worker_id _)).at w
        h.serial;
  once =
      Once-kept no_claims (next_job settings worker_id)
        (λ requests.
          next_job-Keeps (IsOnce-IsKept no_claims requests) settings worker_id
            (claim_next-Keeps (IsOnce-IsKept no_claims requests) (λ db p f same o. o) worker_id _))
        w h.once;
}

delivery_run-IsSound :
    (settings : Settings) (remote : Remote) (worker_id : String) (w : World)
    → IsSound w
    → IsSound (Run.run_once settings.python remote settings.senders worker_id w).1
unfolding set_pending_delivery
delivery_run-IsSound settings remote worker_id w h = record {
  serial =
      (run_once-Stays IsSerial-IsKept.ended (λ id f db e s. s) settings.python remote
          settings.senders worker_id).at
        w h.serial;
  once = (run_once-Meets settings.python remote settings.senders worker_id).at w h.once;
}

after_delivery :
    (settings : Settings) (worker_id : String) (delivered : Bool) (w : World)
    → IsSound w
    → IsSound ((if delivered then pure true else next_job settings worker_id) w).1
unfolding calls
after_delivery settings worker_id true w h = h
after_delivery settings worker_id false w h = next_job-IsSound settings worker_id w h

run_once-IsSound :
    (settings : Settings) (remote : Remote) (worker_id : String) (w : World)
    → IsSound w
    → IsSound (run_once settings remote worker_id w).1
unfolding run_once
run_once-IsSound settings remote worker_id w h =
    (Meets-bind {P = IsSound} (λ _ v. IsSound v) {Q = λ _ v. IsSound v} _ _
        (record { at = delivery_run-IsSound settings remote worker_id })
        (λ delivered. record { at = after_delivery settings worker_id delivered }) (λ e v k. k)).at
      w h

perform-IsSound : (o : Operation) (w : World) → IsSound w → IsSound (perform o w)
perform-IsSound (works settings remote worker_id) = run_once-IsSound settings remote worker_id
perform-IsSound (serves c) = call-IsSound c

all-IsSound : (os : List Operation) (w : World) → IsSound w → IsSound (perform_all os w)
all-IsSound [] w h = h
all-IsSound (o ∷ os) w h = all-IsSound os (perform o w) (perform-IsSound o w h)

-- From a sound state (distinct job identifiers, at most one job in work for each conversation, at most
-- one row for each delivery, and no waiting delivery for which a request was sent), as an empty
-- database is, any sequence of runs of the workers, requests to the webhook service, and calls of the
-- operators on messages, jobs, reviews, conversations, venues, routes, the catalog and the mode, with any
-- clock, identifiers, agent answers and answers of Instagram, sends at most one request for each
-- delivery and leaves at most one job in work for each conversation. A backup is not restored in between.
pub one_request_and_one_worker :
    (os : List Operation) (w : World) (delivery_id work_key : String)
    → IsSound w
    → (count_where (is_request_for delivery_id) (perform_all os w).requests ≤ 1)
      × (count_where (works_on work_key) (perform_all os w).db.jobs ≤ 1)
one_request_and_one_worker os w delivery_id work_key h =
    let sound = all-IsSound os w h in
    (
      omega (arith, sound.once.spent delivery_id, sound.once.unique delivery_id),
      sound.serial.serial work_key,
    )
