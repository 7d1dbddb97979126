-- ===== src/Workspace/Reviews.antt =====
-- Reviews of actions: `create_review`, `edit_review` and `transition_review` of
-- rrpp_bridge/workspace.py. A kind is one of the two that the schema allows.
use rrpp_agent_bridge.Common.{
  ℕ, ◌+◌, String, Bool, true, false, not, ◌&&◌, ◌||◌, Option, none, some, [], ◌∷◌, ◌++◌, leb, ltb,
  ◌==◌, if◌then◌else◌, find_where, any_where, update_where, count_where,
}
use rrpp_agent_bridge.Common.Text.{strip, is_empty, text_length, ◌⧺◌}
use rrpp_agent_bridge.Store.Rows.{
  Db, Action, ActionState, ConversationStatus, Event, Review, ReviewKind, ReviewStatus,
}
use rrpp_agent_bridge.Store.Monad.{
  M, value_error, type_error, pure, raise, query, execute, write_unless, raise_if, when, on_row,
  transaction, utc_now, new_id, record_audit, ◌>>=◌, ◌>>◌,
}

abbrev pub is_draft : ReviewKind → Bool
is_draft ReviewKind.draft = true
is_draft ReviewKind.escalation = false

abbrev pub is_pending : ReviewStatus → Bool
is_pending ReviewStatus.pending = true
is_pending _ = false

unfoldable pub insert_revision : String → String → ℕ → String → String → ℕ → M (Unit {0})
insert_revision revision_id review_id version text editor timestamp =
    write_unless
      (λ db.
        any_where
          (λ r.
            r.id == revision_id
            || (r.review_id == review_id && leb version r.version && leb r.version version))
          db.draft_revisions)
      (λ db. record db {
        draft_revisions =
            db.draft_revisions
            ++ record {
              id = revision_id;
              review_id = review_id;
              version = version;
              text = text;
              editor = editor;
              created_at = timestamp;
            }
              ∷ [];
      })

unfoldable pub insert_review : String → String → ReviewKind → String → ℕ → M (Unit {0})
insert_review review_id action_id kind text timestamp =
    write_unless
      (λ db. any_where (λ r. r.id == review_id || r.action_id == action_id) db.action_reviews)
      (λ db. record db {
        action_reviews =
            db.action_reviews
            ++ record {
              id = review_id;
              action_id = action_id;
              kind = kind;
              status = ReviewStatus.pending;
              current_text = text;
              version = 1;
              reviewed_by = none;
              created_at = timestamp;
              updated_at = timestamp;
            }
              ∷ [];
      })

unfoldable pub create_review : String → ReviewKind → String → String → M String
create_review action_id kind text actor = do
  review_id ← new_id "rev"
  revision_id ← new_id "drev"
  timestamp ← utc_now
  insert_review review_id action_id kind text timestamp
  when (is_draft kind) (insert_revision revision_id review_id 1 text actor timestamp)
  record_audit actor "review.created" "review" review_id "pending"
  pure review_id

unfoldable pub set_review : String → (Review → Review) → Db → Db
set_review id f db = record db {
  action_reviews = update_where (λ r. r.id == id) f db.action_reviews;
}

abbrev pub edited : String → ℕ → String → ℕ → Review → Review
edited text version actor timestamp r = record r {
  current_text = text;
  version = version;
  reviewed_by = some actor;
  updated_at = timestamp;
}

unfoldable pub store_edit : Review → String → String → M Bool
store_edit review text actor = do
  timestamp ← utc_now
  execute (set_review review.id (edited text (review.version + 1) actor timestamp))
  revision_id ← new_id "drev"
  insert_revision revision_id review.id (review.version + 1) text actor timestamp
  record_audit actor "review.edited" "review" review.id "pending"
  pure true

unfoldable pub edit_review : String → String → String → M Bool
edit_review review_id text actor = do
  raise_if (is_empty (strip text) || ltb 20000 (text_length (strip text)))
      (value_error "Draft text must contain 1 to 20000 characters")
  transaction do
    row ← query (λ db. find_where (λ r. r.id == review_id) db.action_reviews)
    on_row row (pure false) λ review.
        if is_draft review.kind && is_pending review.status
        then store_edit review (strip text) actor
        else pure false

-- The states that an operator can give a review.
pub data Target : Type 0 where
  prepared rejected resolved : Target

unfoldable pub target_of : String → Option Target
target_of target =
    if target == "prepared"
    then some prepared
    else if target == "rejected"
    then some rejected
    else if target == "resolved"
    then some resolved
    else none

abbrev pub review_status : Target → ReviewStatus
review_status prepared = ReviewStatus.prepared
review_status rejected = ReviewStatus.rejected
review_status resolved = ReviewStatus.resolved

abbrev pub action_state : Target → ActionState
action_state prepared = ActionState.prepared
action_state rejected = ActionState.rejected
action_state resolved = ActionState.resolved

abbrev pub is_resolution : Target → Bool
is_resolution resolved = true
is_resolution _ = false

abbrev pub set_action_state : String → ActionState → ℕ → Db → Db
set_action_state id state timestamp db = record db {
  actions =
      update_where (λ a. a.id == id) (λ a. record a { state = state; updated_at = timestamp })
        db.actions;
}

-- SELECT conversation_id ... of the event of an action.
abbrev pub conversation_of_event : Option Event → Option String
conversation_of_event none = none
conversation_of_event (some e) = some e.conversation_id

abbrev pub conversation_of : Db → Option Action → Option String
conversation_of db none = none
conversation_of db (some a) = conversation_of_event (find_where (λ e. e.id == a.event_id) db.events)

abbrev pub belongs_to : String → Option String → Bool
belongs_to conversation_id none = false
belongs_to conversation_id (some c) = c == conversation_id

-- The reviews of a conversation that wait for an operator.
unfoldable pub pending_reviews : Db → String → ℕ
pending_reviews db conversation_id =
    count_where
      (λ r.
        is_pending r.status
        && belongs_to conversation_id
            (conversation_of db (find_where (λ a. a.id == r.action_id) db.actions)))
      db.action_reviews

unfoldable pub settle_conversation : String → ℕ → Db → Db
settle_conversation conversation_id timestamp db = record db {
  conversations =
      update_where (λ c. c.id == conversation_id)
        (λ c. record c {
          status =
              if ltb 0 (pending_reviews db conversation_id)
              then ConversationStatus.pending_review
              else ConversationStatus.opened;
          updated_at = timestamp;
        })
        db.conversations;
}

abbrev pub transitioned : Target → String → ℕ → Review → Review
transitioned target actor timestamp r = record r {
  status = review_status target;
  reviewed_by = some actor;
  updated_at = timestamp;
}

unfoldable pub store_transition : Review → Target → String → String → M Bool
store_transition review target name actor = do
  timestamp ← utc_now
  execute (set_review review.id (transitioned target actor timestamp))
  execute (set_action_state review.action_id (action_state target) timestamp)
  action ← query (λ db. find_where (λ a. a.id == review.action_id) db.actions)
  on_row action (pure tt) λ a. do
    event ← query (λ db. find_where (λ e. e.id == a.event_id) db.events)
    on_row event (raise type_error) λ e. execute (settle_conversation e.conversation_id timestamp)
  record_audit actor ("review." ⧺ name) "review" review.id name
  pure true

unfoldable pub transition_pending : Review → Target → String → String → M Bool
transition_pending review target name actor =
    if is_draft review.kind && is_resolution target
    then raise (value_error "Drafts cannot be resolved")
    else if not (is_draft review.kind) && not (is_resolution target)
    then raise (value_error "Escalations can only be resolved")
    else store_transition review target name actor

unfoldable pub transition_review : String → String → String → M Bool
transition_review review_id name actor =
    on_row (target_of name) (raise (value_error "Invalid review transition")) λ target.
      transaction do
        row ← query (λ db. find_where (λ r. r.id == review_id) db.action_reviews)
        on_row row (pure false) λ review.
            if is_pending review.status
            then transition_pending review target name actor
            else pure false
