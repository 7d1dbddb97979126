-- ===== src/Workspace/Keeps.antt =====
-- What an operator does to reviews and conversations writes to neither jobs nor deliveries.
use rrpp_agent_bridge.Common.{ℕ, String, Bool, refl}
use rrpp_agent_bridge.Store.Rows.{ActionState, Conversation, Db, Review, ReviewKind}
use rrpp_agent_bridge.Store.Monad.{execute, record_audit}
use rrpp_agent_bridge.Store.Keeps.{Keeps, keeps_rules}
use rrpp_agent_bridge.Kept.{IsEnded, audit-Keeps, insert-Keeps, other-Keeps}
use rrpp_agent_bridge.Workspace.Control.{
  set_bot_paused, set_conversation, set_conversation_status, update_conversation,
}
use rrpp_agent_bridge.Workspace.Reviews.{
  Target, create_review, edit_review, insert_review, insert_revision, set_action_state, set_review,
  settle_conversation, store_edit, store_transition, transition_pending, transition_review,
}

module _ {P : Db → Type 0} (kept : IsEnded P) where
  record_audit-Keeps :
      (actor operation entity_type entity_id outcome : String)
      → Keeps P (record_audit actor operation entity_type entity_id outcome)
  record_audit-Keeps = audit-Keeps kept

  pub conversation-Keeps :
      (id : String) (f : Conversation → Conversation) → Keeps P (execute (set_conversation id f))
  unfolding set_conversation
  conversation-Keeps id f = other-Keeps kept _ (λ db. refl) (λ db. refl)

  pub action-Keeps :
      (id : String) (state : ActionState) (timestamp : ℕ)
      → Keeps P (execute (set_action_state id state timestamp))
  action-Keeps id state timestamp = other-Keeps kept _ (λ db. refl) (λ db. refl)

  insert_review-Keeps :
      (review_id action_id : String) (kind : ReviewKind) (text : String) (timestamp : ℕ)
      → Keeps P (insert_review review_id action_id kind text timestamp)
  unfolding insert_review
  insert_review-Keeps review_id action_id kind text timestamp =
      insert-Keeps kept _ _ (λ db. refl) (λ db. refl)

  insert_revision-Keeps :
      (revision_id review_id : String) (version : ℕ) (text editor : String) (timestamp : ℕ)
      → Keeps P (insert_revision revision_id review_id version text editor timestamp)
  unfolding insert_revision
  insert_revision-Keeps revision_id review_id version text editor timestamp =
      insert-Keeps kept _ _ (λ db. refl) (λ db. refl)

  review-Keeps : (id : String) (f : Review → Review) → Keeps P (execute (set_review id f))
  unfolding set_review
  review-Keeps id f = other-Keeps kept _ (λ db. refl) (λ db. refl)

  settle-Keeps :
      (conversation_id : String) (timestamp : ℕ)
      → Keeps P (execute (settle_conversation conversation_id timestamp))
  unfolding settle_conversation
  settle-Keeps conversation_id timestamp = other-Keeps kept _ (λ db. refl) (λ db. refl)

  ruleset workspace_rules = (
    keeps_rules, record_audit-Keeps, conversation-Keeps, action-Keeps, insert_review-Keeps,
    insert_revision-Keeps, review-Keeps, settle-Keeps,
  )

  pub create_review-Keeps :
      (action_id : String) (kind : ReviewKind) (text actor : String)
      → Keeps P (create_review action_id kind text actor)
  unfolding create_review
  create_review-Keeps action_id kind text actor = search workspace_rules depth 12

  store_edit-Keeps :
      (review : Review) (text actor : String) → Keeps P (store_edit review text actor)
  unfolding store_edit
  store_edit-Keeps review text actor = search workspace_rules depth 12

  pub edit_review-Keeps :
      (review_id text actor : String) → Keeps P (edit_review review_id text actor)
  unfolding edit_review
  edit_review-Keeps review_id text actor = search (workspace_rules, store_edit-Keeps) depth 12

  store_transition-Keeps :
      (review : Review) (target : Target) (name actor : String)
      → Keeps P (store_transition review target name actor)
  unfolding store_transition
  store_transition-Keeps review target name actor = search workspace_rules depth 14

  pending-Keeps :
      (review : Review) (target : Target) (name actor : String)
      → Keeps P (transition_pending review target name actor)
  unfolding transition_pending
  pending-Keeps review target name actor = search (workspace_rules, store_transition-Keeps)

  pub transition_review-Keeps :
      (review_id name actor : String) → Keeps P (transition_review review_id name actor)
  unfolding transition_review
  transition_review-Keeps review_id name actor = search (workspace_rules, pending-Keeps) depth 12

  update-Keeps :
      (id : String) (f : Conversation → Conversation) → Keeps P (update_conversation id f)
  unfolding update_conversation
  update-Keeps id f = search workspace_rules

  pub set_status-Keeps :
      (conversation_id name actor : String)
      → Keeps P (set_conversation_status conversation_id name actor)
  unfolding set_conversation_status
  set_status-Keeps conversation_id name actor = search (workspace_rules, update-Keeps) depth 12

  pub set_bot_paused-Keeps :
      (conversation_id : String) (paused : Bool) (actor reason : String)
      → Keeps P (set_bot_paused conversation_id paused actor reason)
  unfolding set_bot_paused
  set_bot_paused-Keeps conversation_id paused actor reason =
      search (workspace_rules, update-Keeps) depth 12
