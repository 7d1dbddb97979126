-- ===== src/System/Stable.antt =====
-- What does not come back, whatever the calls of System.Operations and their order.
use rrpp_agent_bridge.Common.{
  ℕ, ◌≤◌, String, Bool, true, false, not, ◌&&◌, List, [], ◌∷◌, ◌≡◌, refl, arith, ◌==◌, count_where,
  count_where-snoc, update_where, if◌then◌else◌,
}
use rrpp_agent_bridge.Sender.{Remote}
use rrpp_agent_bridge.Store.Rows.{Db, Delivery, Job}
use rrpp_agent_bridge.Store.Monad.{World, calls, pure}
use rrpp_agent_bridge.Store.Keeps.{Keeps}
use rrpp_agent_bridge.Store.Meets.{Meets, Meets-bind}
use rrpp_agent_bridge.Kept.{Ends, IsKept}
use rrpp_agent_bridge.Queue.Claim.Keeps.{claim_next-Keeps}
use rrpp_agent_bridge.Delivery.Worker.{is_pending, set_delivery, set_pending_delivery}
use rrpp_agent_bridge.Delivery.Run.Keeps.{run_once-Stays}
use rrpp_agent_bridge.Executor.Stage.{Settings}
use rrpp_agent_bridge.Executor.Worker.{next_job, run_once}
use rrpp_agent_bridge.System.Operations.{Operation, perform, perform_all, serves, works}
use rrpp_agent_bridge.System.Calls.{next_job-Keeps, perform_call-Leaves}

-- A property that the claims of a job and of a delivery keep too.
pub record IsStable (P : Db → Type 0) : Type 0 where
  pub kept : IsKept P
  pub any_state :
      (db : Db) (p : Job → Bool) (f : Job → Job)
      → ((j : Job) → (f j).id ≡ j.id)
      → P db
      → P (record db { jobs = update_where p f db.jobs })
  pub claims :
      (id : String) (f : Delivery → Delivery) (db : Db)
      → Ends f
      → P db
      → P (set_pending_delivery id f db)

module _ {P : Db → Type 0} (stable : IsStable P) where
  next_job-P :
      (settings : Settings) (worker_id : String) (delivered : Bool)
      → Keeps P (if delivered then pure true else next_job settings worker_id)
  unfolding calls
  next_job-P settings worker_id true = record { at = λ w h. h; silent = record { at = λ w. refl } }
  next_job-P settings worker_id false =
      next_job-Keeps stable.kept settings worker_id
        (claim_next-Keeps stable.kept stable.any_state worker_id settings.lease_seconds)

  run_once-P :
      (settings : Settings) (remote : Remote) (worker_id : String)
      → Meets (λ w. P w.db) (λ _ w. P w.db) (run_once settings remote worker_id)
  unfolding run_once
  run_once-P settings remote worker_id =
      Meets-bind (λ _ w. P w.db) _ _
        (run_once-Stays stable.kept.ended stable.claims settings.python remote settings.senders
          worker_id)
        (λ delivered. record { at = (next_job-P settings worker_id delivered).at }) (λ e w h. h)

  perform-P : (o : Operation) (w : World) → P w.db → P (perform o w).db
  perform-P (works settings remote worker_id) = (run_once-P settings remote worker_id).at
  perform-P (serves c) = (perform_call-Leaves stable.kept c).at

  pub perform_all-P : (os : List Operation) (w : World) → P w.db → P (perform_all os w).db
  perform_all-P [] w h = h
  perform_all-P (o ∷ os) w h = perform_all-P os (perform o w) (perform-P o w h)

-- The rows of a delivery that does not wait.
abbrev pub has_left : String → Delivery → Bool
has_left id d = d.id == id && not (is_pending d.status)

abbrev pub HasLeft : String → ℕ → Db → Type 0
HasLeft id n db = n ≤ count_where (has_left id) db.deliveries

-- A statement that ends deliveries makes no row wait.
count-ended :
    (p : Delivery → Bool) (f : Delivery → Delivery) (id : String) (rows : List Delivery)
    → Ends f
    → count_where (has_left id) rows ≤ count_where (has_left id) (update_where p f rows)
unfolding count_where update_where
count-ended p f id [] e = omega arith
count-ended p f id (d ∷ rows) e =
    grind (arith, count-ended p f id rows e, e.same_id d, e.not_pending d)

deliveries-IsStable : (id : String) (n : ℕ) → IsStable (HasLeft id n)
unfolding set_delivery set_pending_delivery
deliveries-IsStable id n = record {
  kept = record {
    ended = record {
      same = λ db db' jobs deliveries h. rw deliveries h;
      end = λ db i f e h. omega (arith, h, count-ended (λ d. d.id == i) f id db.deliveries e);
    };
    mark = λ db p f m h. h;
    add_job = λ db job idle fresh h. h;
    add_delivery = λ db d fresh h. omega (arith, h, count_where-snoc (has_left id) db.deliveries d);
  };
  any_state = λ db p f same h. h;
  claims = λ i f db e h.
      omega (arith, h, count-ended (λ d. d.id == i && is_pending d.status) f id db.deliveries e);
}

-- Whatever the runs of the workers, the requests to the webhook service, and the calls of the operators
-- on messages, jobs, reviews, conversations, venues, routes, the catalog and the mode, and their order,
-- as long as no backup is restored in between: of the rows of a delivery, those that have left the state
-- pending do not come back to it, and are not lost.
pub no_delivery_comes_back :
    (os : List Operation) (w : World) (id : String)
    → count_where (has_left id) w.db.deliveries
      ≤ count_where (has_left id) (perform_all os w).db.deliveries
no_delivery_comes_back os w id =
    perform_all-P (deliveries-IsStable id (count_where (has_left id) w.db.deliveries)) os w
      (omega arith)
