-- ===== src/System/Calls.antt =====
-- What the calls of System.Operations keep, one by one.
use rrpp_agent_bridge.Common.{◌≡◌, ℕ, String, refl, arith}
use rrpp_agent_bridge.Store.Rows.{Db}
use rrpp_agent_bridge.Store.Monad.{M, record_audit, World, execute}
use rrpp_agent_bridge.Store.Keeps.{Keeps, Keeps-transaction, keeps_rules}
use rrpp_agent_bridge.Kept.{IsKept, audit-Keeps, other-Keeps}
use rrpp_agent_bridge.Queue.Keeps.{dismiss-Keeps, enqueue-Keeps, recover_stale-Keeps, retry-Keeps}
use rrpp_agent_bridge.Queue.Enqueue.{enqueue}
use rrpp_agent_bridge.Queue.Claim.{claim_next}
use rrpp_agent_bridge.Workspace.Keeps.{
  edit_review-Keeps, set_bot_paused-Keeps, set_status-Keeps, transition_review-Keeps,
}
use rrpp_agent_bridge.Delivery.Enqueue.Keeps.{create_human_reply-Keeps, get_mode-Keeps}
use rrpp_agent_bridge.Runtime.{initialize_mode, set_mode, store_default, write_mode}
use rrpp_agent_bridge.Catalog.Keeps.{
  add_route-Keeps, create_event-Keeps, create_offer-Keeps, create_venue-Keeps, disable_route-Keeps,
  update_venue-Keeps,
}
use rrpp_agent_bridge.Inbound.Keeps.{call-Keeps}
use rrpp_agent_bridge.Executor.Stage.{Settings}
use rrpp_agent_bridge.Executor.Worker.{next_job}
use rrpp_agent_bridge.Executor.Keeps.{process_job-Keeps}
use rrpp_agent_bridge.System.Operations.{
  Call, adds_event, adds_offer, adds_route, adds_venue, disables_route, dismisses, edits, ingests,
  pauses, perform_call, receives, recovers, replies, retries, sets_mode, sets_status, starts,
  transitions, updates_venue,
}

-- What a step of the program does to a property of the database, where it sends nothing.
pub record Leaves (P : Db → Type 0) (step : World → World) : Type 0 where
  pub at : (w : World) → P w.db → P (step w).db
  pub silent : (w : World) → (step w).requests ≡ w.requests

kept-Leaves : {A : Type 0} {P : Db → Type 0} (m : M A) → Keeps P m → Leaves P (λ w. (m w).1)
kept-Leaves m h = record { at = h.at; silent = h.silent.at }

module _ {P : Db → Type 0} (kept : IsKept P) where
  record_audit-Keeps :
      (actor operation entity_type entity_id outcome : String)
      → Keeps P (record_audit actor operation entity_type entity_id outcome)
  record_audit-Keeps = audit-Keeps kept.ended

  store_default-Keeps :
      (mode : String) (timestamp : ℕ) → Keeps P (execute (store_default mode timestamp))
  unfolding store_default
  store_default-Keeps mode timestamp =
      other-Keeps kept.ended _ (λ db. ground arith) (λ db. ground arith)

  write_mode-Keeps :
      (mode actor : String) (timestamp : ℕ) → Keeps P (execute (write_mode mode actor timestamp))
  unfolding write_mode
  write_mode-Keeps mode actor timestamp = other-Keeps kept.ended _ (λ db. refl) (λ db. refl)

  initialize_mode-Keeps : (mode : String) → Keeps P (initialize_mode mode)
  unfolding initialize_mode
  initialize_mode-Keeps mode = search (keeps_rules, store_default-Keeps)

  set_mode-Keeps : (mode actor : String) → Keeps P (set_mode mode actor)
  unfolding set_mode
  set_mode-Keeps mode actor =
      search (keeps_rules, record_audit-Keeps, get_mode-Keeps, write_mode-Keeps) depth 14

  pub next_job-Keeps :
      (settings : Settings) (worker_id : String)
      → Keeps P (claim_next worker_id settings.lease_seconds)
      → Keeps P (next_job settings worker_id)
  unfolding next_job
  next_job-Keeps settings worker_id claim =
      search (keeps_rules, recover_stale-Keeps, process_job-Keeps) depth 9

  pub perform_call-Leaves : (c : Call) → Leaves P (perform_call c)
  unfolding enqueue
  perform_call-Leaves (receives app environ) = kept-Leaves _ (call-Keeps kept app environ)
  perform_call-Leaves (ingests debounce event) =
      kept-Leaves _ (Keeps-transaction _ (enqueue-Keeps kept debounce event))
  perform_call-Leaves (replies conversation_id message actor) =
      kept-Leaves _ (create_human_reply-Keeps kept conversation_id message actor)
  perform_call-Leaves (retries job_id actor) = kept-Leaves _ (retry-Keeps kept job_id actor)
  perform_call-Leaves (dismisses job_id actor) = kept-Leaves _ (dismiss-Keeps kept job_id actor)
  perform_call-Leaves (edits review_id text actor) =
      kept-Leaves _ (edit_review-Keeps kept.ended review_id text actor)
  perform_call-Leaves (transitions review_id target actor) =
      kept-Leaves _ (transition_review-Keeps kept.ended review_id target actor)
  perform_call-Leaves (sets_status conversation_id status actor) =
      kept-Leaves _ (set_status-Keeps kept.ended conversation_id status actor)
  perform_call-Leaves (pauses conversation_id paused actor reason) =
      kept-Leaves _ (set_bot_paused-Keeps kept.ended conversation_id paused actor reason)
  perform_call-Leaves (starts default_mode) = kept-Leaves _ (initialize_mode-Keeps default_mode)
  perform_call-Leaves (sets_mode mode actor) = kept-Leaves _ (set_mode-Keeps mode actor)
  perform_call-Leaves (recovers max_attempts actor) =
      kept-Leaves _ (recover_stale-Keeps kept max_attempts actor)
  perform_call-Leaves (adds_venue editor name slug language actor bot_knowledge) =
      kept-Leaves _ (create_venue-Keeps kept.ended editor name slug language actor bot_knowledge)
  perform_call-Leaves (updates_venue editor venue_id name language active actor bot_knowledge) =
      kept-Leaves _
        (update_venue-Keeps kept.ended editor venue_id name language active actor bot_knowledge)
  perform_call-Leaves (adds_route editor venue_id channel recipient actor) =
      kept-Leaves _ (add_route-Keeps kept.ended editor venue_id channel recipient actor)
  perform_call-Leaves (disables_route editor route_id actor) =
      kept-Leaves _ (disable_route-Keeps kept.ended editor route_id actor)
  perform_call-Leaves (adds_event formats venue_id name starts_at ends_at actor) =
      kept-Leaves _ (create_event-Keeps kept.ended formats venue_id name starts_at ends_at actor)
  perform_call-Leaves (adds_offer formats form actor) =
      kept-Leaves _ (create_offer-Keeps kept.ended formats form actor)
