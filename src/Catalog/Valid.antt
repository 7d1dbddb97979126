-- ===== src/Catalog/Valid.antt =====
-- What the checks of rrpp_bridge/catalog.py make sure of in the tables of the catalog.
use rrpp_agent_bridge.Common.{
  ℕ, String, Bool, true, not, ◌&&◌, List, [], ◌∷◌, ◌++◌, ◌≡◌, refl, arith, leb, ◌==◌, all_where,
  any_where,
}
use rrpp_agent_bridge.Common.Regex.{full_match}
use rrpp_agent_bridge.Common.Text.{is_empty, text_length}
use rrpp_agent_bridge.Store.Rows.{CatalogEvent, CatalogLink, CatalogOffer, Db, Venue}
use rrpp_agent_bridge.Store.Monad.{record_audit}
use rrpp_agent_bridge.Store.Keeps.{Keeps, Keeps-record_audit}
use rrpp_agent_bridge.Catalog.Editing.{
  Formats, availabilities, currency_pattern, ends_early, is_https,
}

abbrev pub is_title : ℕ → String → Bool
is_title limit s = not (is_empty s) && leb (text_length s) limit

-- An event has a name, ends after it starts, and belongs to a venue.
abbrev pub valid_event : Formats → List Venue → CatalogEvent → Bool
valid_event formats venues e =
    is_title 160 e.name
    && not (ends_early formats e.starts_at e.ends_at)
    && any_where (λ v. v.id == e.venue_id) venues

-- An offer has a name, a type, a currency of three letters and a known availability, and belongs to an
-- event.
abbrev pub valid_offer : List CatalogEvent → CatalogOffer → Bool
valid_offer events o =
    is_title 160 o.name
    && is_title 120 o.ticket_type
    && full_match currency_pattern o.currency
    && availabilities o.availability_status
    && leb (text_length o.promotion_text) 2000
    && leb (text_length o.conditions) 4000
    && any_where (λ e. e.id == o.event_id) events

-- A link is a bounded HTTPS address without credentials, and belongs to an offer.
abbrev pub valid_link : Formats → List CatalogOffer → CatalogLink → Bool
valid_link formats offers l =
    is_title 2000 l.url
    && is_https (formats.read_url l.url)
    && any_where (λ o. o.id == l.offer_id) offers

module _ {A : Type 0} where
  pub all-snoc :
      (p : A → Bool) (l : List A) (a : A)
      → all_where p l ≡ true
      → p a ≡ true
      → all_where p (l ++ a ∷ []) ≡ true
  unfolding all_where
  all-snoc p [] a h ha = ground (arith, ha)
  all-snoc p (b ∷ l) a h ha = ground (arith, h, all-snoc p l a, ha)

  pub all-le :
      (p q : A → Bool) (l : List A)
      → ((a : A) → p a ≡ true → q a ≡ true)
      → all_where p l ≡ true
      → all_where q l ≡ true
  unfolding all_where
  all-le p q [] le h = refl
  all-le p q (a ∷ l) le h = ground (arith, h, le a, all-le p q l le)

  pub any-snoc :
      (p : A → Bool) (l : List A) (a : A) → any_where p l ≡ true → any_where p (l ++ a ∷ []) ≡ true
  unfolding any_where
  any-snoc p [] a h = cc h
  any-snoc p (b ∷ l) a h = ground (arith, h, any-snoc p l a)

  pub any-le :
      (p q : A → Bool) (l : List A)
      → ((a : A) → p a ≡ true → q a ≡ true)
      → any_where p l ≡ true
      → any_where q l ≡ true
  unfolding any_where
  any-le p q [] le h = h
  any-le p q (a ∷ l) le h = ground (arith, h, le a, any-le p q l le)

module _ (formats : Formats) where
  pub record IsValid (db : Db) : Type 0 where
    pub events : all_where (valid_event formats db.venues) db.catalog_events ≡ true
    pub offers : all_where (valid_offer db.catalog_events) db.catalog_offers ≡ true
    pub links : all_where (valid_link formats db.catalog_offers) db.catalog_links ≡ true

  pub audit-Keeps :
      (actor operation entity_type entity_id outcome : String)
      → Keeps IsValid (record_audit actor operation entity_type entity_id outcome)
  audit-Keeps actor operation entity_type entity_id outcome =
      Keeps-record_audit actor operation entity_type entity_id outcome
        (λ db l h. record { events = h.events; offers = h.offers; links = h.links })

  pub add_event :
      (db : Db) (e : CatalogEvent)
      → valid_event formats db.venues e ≡ true
      → IsValid db
      → IsValid (record db { catalog_events = db.catalog_events ++ e ∷ [] })
  add_event db e valid h = record {
    events = all-snoc (valid_event formats db.venues) db.catalog_events e h.events valid;
    offers =
        all-le (valid_offer db.catalog_events) (valid_offer (db.catalog_events ++ e ∷ []))
          db.catalog_offers
          (λ o v. ground (arith, v, any-snoc (λ x. x.id == o.event_id) db.catalog_events e))
          h.offers;
    links = h.links;
  }

  pub add_offer :
      (db : Db) (o : CatalogOffer)
      → valid_offer db.catalog_events o ≡ true
      → IsValid db
      → IsValid (record db { catalog_offers = db.catalog_offers ++ o ∷ [] })
  add_offer db o valid h = record {
    events = h.events;
    offers = all-snoc (valid_offer db.catalog_events) db.catalog_offers o h.offers valid;
    links =
        all-le (valid_link formats db.catalog_offers)
          (valid_link formats (db.catalog_offers ++ o ∷ [])) db.catalog_links
          (λ l v. ground (arith, v, any-snoc (λ x. x.id == l.offer_id) db.catalog_offers o))
          h.links;
  }

  pub add_link :
      (db : Db) (l : CatalogLink)
      → valid_link formats db.catalog_offers l ≡ true
      → IsValid db
      → IsValid (record db { catalog_links = db.catalog_links ++ l ∷ [] })
  add_link db l valid h = record {
    events = h.events;
    offers = h.offers;
    links = all-snoc (valid_link formats db.catalog_offers) db.catalog_links l h.links valid;
  }
