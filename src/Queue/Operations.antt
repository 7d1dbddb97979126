-- ===== src/Queue/Operations.antt =====
-- Any sequence of the operations of rrpp_bridge/queue.py, by whichever workers.
use rrpp_agent_bridge.Common.{ℕ, String, List, [], ◌∷◌, ◌≤◌, count_where}
use rrpp_agent_bridge.Models.{NormalizedEvent}
use rrpp_agent_bridge.Store.Rows.{Job}
use rrpp_agent_bridge.Store.Monad.{World, Exception}
use rrpp_agent_bridge.Store.Keeps.{Keeps-transaction}
use rrpp_agent_bridge.Queue.Enqueue.{enqueue}
use rrpp_agent_bridge.Queue.Claim.{claim_next, works_on}
use rrpp_agent_bridge.Queue.Recovery.{fail, recover_stale, retry, dismiss}
use rrpp_agent_bridge.Queue.Keeps.{
  dismiss-Keeps, enqueue-Keeps, fail-Keeps, recover_stale-Keeps, retry-Keeps,
}
use rrpp_agent_bridge.Queue.Serial.{QueueIsSerial, IsSerial-IsKept}
use rrpp_agent_bridge.Queue.Exclusive.{claim_next-IsSerial}

pub data Operation : Type 0 where
  enqueues : ℕ → NormalizedEvent → Operation
  claims : String → ℕ → Operation
  fails : Job → Exception → String → ℕ → Operation
  recovers : ℕ → String → Operation
  retries : String → String → Operation
  dismisses : String → String → Operation

abbrev pub perform : Operation → World → World
perform (enqueues debounce event) w = (enqueue debounce event w).1
perform (claims worker_id lease) w = (claim_next worker_id lease w).1
perform (fails job exc worker_id max_attempts) w = (fail job exc worker_id max_attempts w).1
perform (recovers max_attempts actor) w = (recover_stale max_attempts actor w).1
perform (retries job_id actor) w = (retry job_id actor w).1
perform (dismisses job_id actor) w = (dismiss job_id actor w).1

abbrev pub perform_all : List Operation → World → World
perform_all [] w = w
perform_all (o ∷ os) w = perform_all os (perform o w)

perform-IsSerial : (o : Operation) (w : World) → QueueIsSerial w.db → QueueIsSerial (perform o w).db
unfolding enqueue
perform-IsSerial (enqueues debounce event) =
    (Keeps-transaction _ (enqueue-Keeps IsSerial-IsKept debounce event)).at
perform-IsSerial (claims worker_id lease) = (claim_next-IsSerial worker_id lease).at
perform-IsSerial (fails job exc worker_id max_attempts) =
    (fail-Keeps IsSerial-IsKept job exc worker_id max_attempts).at
perform-IsSerial (recovers max_attempts actor) =
    (recover_stale-Keeps IsSerial-IsKept max_attempts actor).at
perform-IsSerial (retries job_id actor) = (retry-Keeps IsSerial-IsKept job_id actor).at
perform-IsSerial (dismisses job_id actor) = (dismiss-Keeps IsSerial-IsKept job_id actor).at

all-IsSerial :
    (os : List Operation) (w : World) → QueueIsSerial w.db → QueueIsSerial (perform_all os w).db
all-IsSerial [] w h = h
all-IsSerial (o ∷ os) w h = all-IsSerial os (perform o w) (perform-IsSerial o w h)

-- From a queue with distinct job identifiers in which each conversation has at most one job in work,
-- any sequence of operations of any workers, with any clock and any identifiers, leads to a queue in
-- which each conversation has at most one job in work.
pub one_worker_per_conversation :
    (os : List Operation) (w : World) (work_key : String)
    → QueueIsSerial w.db
    → count_where (works_on work_key) (perform_all os w).db.jobs ≤ 1
one_worker_per_conversation os w work_key h = (all-IsSerial os w h).serial work_key
