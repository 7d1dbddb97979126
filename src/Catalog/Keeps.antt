-- ===== src/Catalog/Keeps.antt =====
-- What an operator does to the catalog, the venues and the routes (rrpp_bridge/catalog.py and
-- rrpp_bridge/workspace.py) writes to neither jobs nor deliveries.
use rrpp_agent_bridge.Common.{
  String, Bool, Option, none, some, not, ltb, refl, if◌then◌else◌, false,
}
use rrpp_agent_bridge.Common.Text.{is_empty, strip, text_length}
use rrpp_agent_bridge.Store.Rows.{CatalogEvent, CatalogLink, CatalogOffer, Db, Route, Venue}
use rrpp_agent_bridge.Store.Monad.{M, execute, record_audit, pure, value_error}
use rrpp_agent_bridge.Store.Keeps.{Keeps, Keeps-if, Keeps-pure, Keeps-raise, keeps_rules}
use rrpp_agent_bridge.Kept.{IsEnded, audit-Keeps, insert-Keeps, other-Keeps}
use rrpp_agent_bridge.Workspace.Venues.{
  Editor, add_route, create_venue, disable_route, insert_route, insert_venue, moved_route,
  new_route, set_route, set_venue, switch_off, update_venue,
}
use rrpp_agent_bridge.Catalog.Editing.{
  Formats, Moment, OfferForm, checked_moment, create_event, create_offer, dotted,
  insert_catalog_event, insert_catalog_link, insert_catalog_offer, is_https, is_price,
  read_datetime, read_link, read_money, store_event, store_link, store_offer, with_start,
}

module _ {P : Db → Type 0} (kept : IsEnded P) where
  record_audit-Keeps :
      (actor operation entity_type entity_id outcome : String)
      → Keeps P (record_audit actor operation entity_type entity_id outcome)
  record_audit-Keeps = audit-Keeps kept

  insert_venue-Keeps : (v : Venue) → Keeps P (insert_venue v)
  unfolding insert_venue
  insert_venue-Keeps v = insert-Keeps kept _ _ (λ db. refl) (λ db. refl)

  set_venue-Keeps : (id : String) (f : Venue → Venue) → Keeps P (execute (set_venue id f))
  unfolding set_venue
  set_venue-Keeps id f = other-Keeps kept _ (λ db. refl) (λ db. refl)

  insert_route-Keeps : (r : Route) → Keeps P (insert_route r)
  unfolding insert_route
  insert_route-Keeps r = insert-Keeps kept _ _ (λ db. refl) (λ db. refl)

  set_route-Keeps : (id : String) (f : Route → Route) → Keeps P (execute (set_route id f))
  unfolding set_route
  set_route-Keeps id f = other-Keeps kept _ (λ db. refl) (λ db. refl)

  insert_event-Keeps : (e : CatalogEvent) → Keeps P (insert_catalog_event e)
  unfolding insert_catalog_event
  insert_event-Keeps e = insert-Keeps kept _ _ (λ db. refl) (λ db. refl)

  insert_offer-Keeps : (o : CatalogOffer) → Keeps P (insert_catalog_offer o)
  unfolding insert_catalog_offer
  insert_offer-Keeps o = insert-Keeps kept _ _ (λ db. refl) (λ db. refl)

  insert_link-Keeps : (l : CatalogLink) → Keeps P (insert_catalog_link l)
  unfolding insert_catalog_link
  insert_link-Keeps l = insert-Keeps kept _ _ (λ db. refl) (λ db. refl)

  ruleset edit_rules = (
    keeps_rules, record_audit-Keeps, insert_venue-Keeps, set_venue-Keeps, insert_route-Keeps,
    set_route-Keeps, insert_event-Keeps, insert_offer-Keeps, insert_link-Keeps,
  )

  pub create_venue-Keeps :
      (editor : Editor) (name slug language actor bot_knowledge : String)
      → Keeps P (create_venue editor name slug language actor bot_knowledge)
  unfolding create_venue
  create_venue-Keeps editor name slug language actor bot_knowledge = search edit_rules depth 16

  pub update_venue-Keeps :
      (editor : Editor) (venue_id name : String) (language : Option String) (active : Bool)
      (actor : String) (bot_knowledge : Option String)
      → Keeps P (update_venue editor venue_id name language active actor bot_knowledge)
  unfolding update_venue
  update_venue-Keeps editor venue_id name language active actor bot_knowledge =
      search edit_rules depth 16

  new_route-Keeps :
      (route_id venue_id channel recipient timestamp : String)
      → Keeps P (new_route route_id venue_id channel recipient timestamp)
  unfolding new_route
  new_route-Keeps route_id venue_id channel recipient timestamp = search edit_rules

  moved_route-Keeps :
      (venue_id timestamp : String) (r : Route) → Keeps P (moved_route venue_id timestamp r)
  unfolding moved_route
  moved_route-Keeps venue_id timestamp r = search edit_rules

  pub add_route-Keeps :
      (editor : Editor) (venue_id channel recipient actor : String)
      → Keeps P (add_route editor venue_id channel recipient actor)
  unfolding add_route
  add_route-Keeps editor venue_id channel recipient actor =
      search (edit_rules, new_route-Keeps, moved_route-Keeps) depth 16

  switch_off-Keeps :
      (editor : Editor) (actor : String) (r : Route) → Keeps P (switch_off editor actor r)
  unfolding switch_off
  switch_off-Keeps editor actor r = search edit_rules

  if_active-Keeps :
      (editor : Editor) (actor : String) (r : Route) (active : Bool)
      → Keeps P (if active then switch_off editor actor r else pure false)
  if_active-Keeps editor actor r active =
      Keeps-if active _ _ (switch_off-Keeps editor actor r) (Keeps-pure false)

  pub disable_route-Keeps :
      (editor : Editor) (route_id actor : String) → Keeps P (disable_route editor route_id actor)
  unfolding disable_route
  disable_route-Keeps editor route_id actor = search (edit_rules, if_active-Keeps) depth 12

  moment-Keeps : (m : Option Moment) → Keeps P (checked_moment m)
  moment-Keeps none = Keeps-raise _
  moment-Keeps (some m) = Keeps-if m.has_zone _ _ (Keeps-pure _) (Keeps-raise _)

  datetime-Keeps :
      (formats : Formats) (value : String) (optional : Bool)
      → Keeps P (read_datetime formats value optional)
  unfolding read_datetime
  datetime-Keeps formats value optional = Keeps-if _ _ _ (Keeps-pure none) (moment-Keeps _)

  with_start-Keeps :
      (starts : Option String) (next : String → M String)
      → ((from : String) → Keeps P (next from))
      → Keeps P (with_start starts next)
  with_start-Keeps none next keeps = Keeps-raise _
  with_start-Keeps (some from) next keeps = keeps from

  store_event-Keeps :
      (formats : Formats) (venue_id name starts : String) (ends : Option String) (actor : String)
      → Keeps P (store_event formats venue_id name starts ends actor)
  unfolding store_event
  store_event-Keeps formats venue_id name starts ends actor = search edit_rules depth 14

  pub create_event-Keeps :
      (formats : Formats) (venue_id name starts_at ends_at actor : String)
      → Keeps P (create_event formats venue_id name starts_at ends_at actor)
  unfolding create_event
  create_event-Keeps formats venue_id name starts_at ends_at actor =
      search (edit_rules, datetime-Keeps, with_start-Keeps, store_event-Keeps) depth 12

  money-Keeps : (formats : Formats) (value : String) → Keeps P (read_money formats value)
  unfolding read_money
  money-Keeps formats value =
      let price = dotted (strip value) in
      Keeps-if (is_empty price) _ _ (Keeps-pure none) (
        Keeps-if (is_price formats.python price) _ _ (Keeps-pure (some (formats.to_cents price)))
          (Keeps-raise (value_error "El preu ha de ser un import positiu amb maxim dos decimals")))

  link-Keeps : (formats : Formats) (value : String) → Keeps P (read_link formats value)
  unfolding read_link
  link-Keeps formats value = Keeps-if (is_empty (strip value)) _ _ (Keeps-pure "") (
      Keeps-if (not (is_https (formats.read_url (strip value)))) _ _ (Keeps-raise _)
        (Keeps-if (ltb 2000 (text_length (strip value))) _ _ (Keeps-raise _) (Keeps-pure _)))

  store_link-Keeps :
      (offer_id url timestamp actor : String) → Keeps P (store_link offer_id url timestamp actor)
  unfolding store_link
  store_link-Keeps offer_id url timestamp actor = search edit_rules

  store_offer-Keeps :
      (o : CatalogOffer) (url timestamp actor : String)
      → Keeps P (store_offer o url timestamp actor)
  unfolding store_offer
  store_offer-Keeps o url timestamp actor = search (edit_rules, store_link-Keeps) depth 12

  pub create_offer-Keeps :
      (formats : Formats) (form : OfferForm) (actor : String)
      → Keeps P (create_offer formats form actor)
  unfolding create_offer
  create_offer-Keeps formats form actor =
      search (edit_rules, money-Keeps, link-Keeps, store_offer-Keeps) depth 16
