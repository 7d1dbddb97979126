-- ===== src/Catalog/Edits.antt =====
-- What an operator does to events, offers and venues keeps the catalog valid: rrpp_bridge/catalog.py and
-- rrpp_bridge/workspace.py.
use rrpp_agent_bridge.Common.{
  String, Bool, Option, List, [], ◌∷◌, ◌++◌, ◌≡◌, refl, arith, ◌==◌, any_where, update_where,
}
use rrpp_agent_bridge.Store.Rows.{Venue}
use rrpp_agent_bridge.Store.Monad.{execute}
use rrpp_agent_bridge.Store.Keeps.{Keeps-execute, Keeps-write, Keeps, keeps_rules}
use rrpp_agent_bridge.Workspace.Venues.{
  Editor, create_venue, insert_venue, set_venue, update_venue, updated_venue,
}
use rrpp_agent_bridge.Catalog.Editing.{Formats, OfferForm, create_event, create_offer}
use rrpp_agent_bridge.Catalog.Valid.{IsValid, all-le, any-snoc, audit-Keeps, valid_event}
use rrpp_agent_bridge.Catalog.Events.{create_event-Keeps}
use rrpp_agent_bridge.Catalog.Offers.{create_offer-Keeps}

module _ (formats : Formats) where
  any-update :
      (p : Venue → Bool) (q : Venue → Bool) (f : Venue → Venue) (l : List Venue)
      → ((v : Venue) → p (f v) ≡ p v)
      → any_where p (update_where q f l) ≡ any_where p l
  unfolding any_where update_where
  any-update p q f [] same = refl
  any-update p q f (v ∷ l) same = ground (arith, same v, any-update p q f l same)

  set_venue-Keeps :
      (id : String) (f : Venue → Venue)
      → ((v : Venue) → (f v).id ≡ v.id)
      → Keeps (IsValid formats) (execute (set_venue id f))
  unfolding set_venue
  set_venue-Keeps id f same = Keeps-execute _ λ db h. record {
    events =
        all-le (valid_event formats db.venues)
          (valid_event formats (update_where (λ v. v.id == id) f db.venues)) db.catalog_events
          (λ e v. ground (
            arith,
            v,
            any-update (λ v. v.id == e.venue_id) (λ v. v.id == id) f db.venues (λ v. rw (same v)),
          ))
          h.events;
    offers = h.offers;
    links = h.links;
  }

  insert_venue-Keeps : (v : Venue) → Keeps (IsValid formats) (insert_venue v)
  unfolding insert_venue
  insert_venue-Keeps v = Keeps-write _ _ λ db h fresh. record {
    events =
        all-le (valid_event formats db.venues) (valid_event formats (db.venues ++ v ∷ []))
          db.catalog_events
          (λ e a. ground (arith, a, any-snoc (λ x. x.id == e.venue_id) db.venues v)) h.events;
    offers = h.offers;
    links = h.links;
  }

  create_venue-Keeps :
      (editor : Editor) (name slug language actor bot_knowledge : String)
      → Keeps (IsValid formats) (create_venue editor name slug language actor bot_knowledge)
  unfolding create_venue
  create_venue-Keeps editor name slug language actor bot_knowledge =
      search (keeps_rules, audit-Keeps, insert_venue-Keeps) depth 16

  updated-Keeps :
      (id name : String) (language bot_knowledge : Option String) (active : Bool)
      (timestamp : String)
      → Keeps
          (IsValid formats)
          (execute (set_venue id (updated_venue name language bot_knowledge active timestamp)))
  updated-Keeps id name language bot_knowledge active timestamp = set_venue-Keeps id _ (λ v. refl)

  update_venue-Keeps :
      (editor : Editor) (venue_id name : String) (language : Option String) (active : Bool)
      (actor : String) (bot_knowledge : Option String)
      → Keeps
          (IsValid formats)
          (update_venue editor venue_id name language active actor bot_knowledge)
  unfolding update_venue
  update_venue-Keeps editor venue_id name language active actor bot_knowledge =
      search (keeps_rules, audit-Keeps, updated-Keeps) depth 16

  -- Whatever an operator enters, and whether it is stored or refused, adding an event, an offer or a
  -- venue and changing a venue keep the catalog valid: every event has a bounded name, ends after it
  -- starts and belongs to a venue; every offer has a bounded name, type, promotion and conditions, a
  -- currency of three letters and a known availability, and belongs to an event; every link is a bounded
  -- HTTPS address without credentials, and belongs to an offer.
  pub edits-IsValid :
      (venue_id name starts_at ends_at actor : String) (form : OfferForm) (editor : Editor)
      (slug language bot_knowledge : String) (new_language new_knowledge : Option String)
      (active : Bool)
      → Keeps (IsValid formats) (create_event formats venue_id name starts_at ends_at actor)
        × Keeps (IsValid formats) (create_offer formats form actor)
        × Keeps (IsValid formats) (create_venue editor name slug language actor bot_knowledge)
        × Keeps
            (IsValid formats)
            (update_venue editor venue_id name new_language active actor new_knowledge)
  edits-IsValid venue_id name starts_at ends_at actor form editor slug language bot_knowledge
        new_language new_knowledge active =
      (
        create_event-Keeps formats venue_id name starts_at ends_at actor,
        create_offer-Keeps formats form actor,
        create_venue-Keeps editor name slug language actor bot_knowledge,
        update_venue-Keeps editor venue_id name new_language active actor new_knowledge,
      )
