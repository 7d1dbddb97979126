-- ===== src/System/Operations.antt =====
-- The calls that change the tables of messages, jobs, deliveries, reviews, venues and catalog, or send
-- requests: those of the worker (`Executor.run_once` of rrpp_bridge/executor.py), of the webhook service
-- (rrpp_bridge/instagram_webhook.py), and of an operator in the dashboard or on the command line
-- (rrpp_bridge/workspace.py, rrpp_bridge/catalog.py, rrpp_bridge/delivery.py, rrpp_bridge/queue.py and
-- rrpp_bridge/runtime.py). Restoring a backup (`restore_backup` of rrpp_bridge/operations.py) is not among
-- them: it puts an older database in the place of this one.
use rrpp_agent_bridge.Common.{ℕ, String, Bool, Option, List, [], ◌∷◌}
use rrpp_agent_bridge.Models.{NormalizedEvent}
use rrpp_agent_bridge.Sender.{Remote}
use rrpp_agent_bridge.Store.Monad.{World}
use rrpp_agent_bridge.Queue.Enqueue.{enqueue}
use rrpp_agent_bridge.Queue.Recovery.{dismiss, recover_stale, retry}
use rrpp_agent_bridge.Workspace.Control.{set_bot_paused, set_conversation_status}
use rrpp_agent_bridge.Workspace.Reviews.{edit_review, transition_review}
use rrpp_agent_bridge.Delivery.Enqueue.{create_human_reply}
use rrpp_agent_bridge.Workspace.Venues.{
  Editor, add_route, create_venue, disable_route, update_venue,
}
use rrpp_agent_bridge.Catalog.Editing.{Formats, OfferForm, create_event, create_offer}
use rrpp_agent_bridge.Runtime.{initialize_mode, set_mode}
use rrpp_agent_bridge.Inbound.Webhook.{Application, Environ, call}
use rrpp_agent_bridge.Executor.Stage.{Settings}
use rrpp_agent_bridge.Executor.Worker.{run_once}

-- The calls other than those of the worker, with their arguments and what they find.
pub data Call : Type 0 where
  receives : Application → Environ → Call
  ingests : ℕ → NormalizedEvent → Call
  replies : String → String → String → Call
  retries : String → String → Call
  dismisses : String → String → Call
  edits : String → String → String → Call
  transitions : String → String → String → Call
  sets_status : String → String → String → Call
  pauses : String → Bool → String → String → Call
  starts : String → Call
  sets_mode : String → String → Call
  recovers : ℕ → String → Call
  adds_venue : Editor → String → String → String → String → String → Call
  updates_venue : Editor → String → String → Option String → Bool → String → Option String → Call
  adds_route : Editor → String → String → String → String → Call
  disables_route : Editor → String → String → Call
  adds_event : Formats → String → String → String → String → String → Call
  adds_offer : Formats → OfferForm → String → Call

abbrev pub perform_call : Call → World → World
perform_call (receives app environ) w = (call app environ w).1
perform_call (ingests debounce event) w = (enqueue debounce event w).1
perform_call (replies conversation_id message actor) w =
    (create_human_reply conversation_id message actor w).1
perform_call (retries job_id actor) w = (retry job_id actor w).1
perform_call (dismisses job_id actor) w = (dismiss job_id actor w).1
perform_call (edits review_id text actor) w = (edit_review review_id text actor w).1
perform_call (transitions review_id target actor) w = (transition_review review_id target actor w).1
perform_call (sets_status conversation_id status actor) w =
    (set_conversation_status conversation_id status actor w).1
perform_call (pauses conversation_id paused actor reason) w =
    (set_bot_paused conversation_id paused actor reason w).1
perform_call (starts default_mode) w = (initialize_mode default_mode w).1
perform_call (sets_mode mode actor) w = (set_mode mode actor w).1
perform_call (recovers max_attempts actor) w = (recover_stale max_attempts actor w).1
perform_call (adds_venue editor name slug language actor bot_knowledge) w =
    (create_venue editor name slug language actor bot_knowledge w).1
perform_call (updates_venue editor venue_id name language active actor bot_knowledge) w =
    (update_venue editor venue_id name language active actor bot_knowledge w).1
perform_call (adds_route editor venue_id channel recipient actor) w =
    (add_route editor venue_id channel recipient actor w).1
perform_call (disables_route editor route_id actor) w = (disable_route editor route_id actor w).1
perform_call (adds_event formats venue_id name starts_at ends_at actor) w =
    (create_event formats venue_id name starts_at ends_at actor w).1
perform_call (adds_offer formats form actor) w = (create_offer formats form actor w).1

-- A run of the worker, with its settings and the answers of the far side, or another call.
pub data Operation : Type 0 where
  works : Settings → Remote → String → Operation
  serves : Call → Operation

abbrev pub perform : Operation → World → World
perform (works settings remote worker_id) w = (run_once settings remote worker_id w).1
perform (serves c) w = perform_call c w

abbrev pub perform_all : List Operation → World → World
perform_all [] w = w
perform_all (o ∷ os) w = perform_all os (perform o w)
