-- ===== src/Catalog/Snapshot.antt =====
-- `load_snapshot` of rrpp_bridge/catalog.py.
use rrpp_agent_bridge.Common.{
  ℕ, ◌-◌, min, String, Bool, true, false, not, ◌&&◌, Option, none, some, List, [], ◌∷◌, ◌++◌, map,
  leb, ltb, ◌==◌, if◌then◌else◌, find_where, select_where, length, take,
}
use rrpp_agent_bridge.Common.Json.{Value, null, num, text, field, end}
use rrpp_agent_bridge.Common.Text.{prefix}
use rrpp_agent_bridge.Models.{CatalogItem}
use rrpp_agent_bridge.Store.Rows.{Db, Venue, CatalogEvent, CatalogOffer, CatalogLink}
use rrpp_agent_bridge.Catalog.Order.{text_le, order_by}

abbrev pub or_empty : Option String → String
or_empty none = ""
or_empty (some s) = s

abbrev venue_item : Venue → CatalogItem
venue_item v = record {
  type = "venue";
  id = v.id;
  verified_at = v.updated_at;
  content =
      field "name" (text v.name) (field "verified_notes" (text (prefix 4000 v.bot_knowledge)) end);
}

abbrev venue_le : Venue → Venue → Bool
venue_le a b = text_le a.name b.name

-- The active venues by name, at most `venue_limit`.
unfoldable pub venue_items : Db → ℕ → List CatalogItem
venue_items db venue_limit =
    map venue_item (take venue_limit (order_by venue_le (select_where (λ v. v.active) db.venues)))

-- A row of the join of an event with its venue.
pub record EventRow : Type 0 where
  pub event : CatalogEvent
  pub venue : Venue

abbrev event_row : CatalogEvent → Option Venue → List EventRow → List EventRow
event_row e none rest = rest
event_row e (some v) rest = record { event = e; venue = v } ∷ rest

-- catalog_events JOIN venues
unfoldable pub event_rows : List Venue → List CatalogEvent → List EventRow
event_rows venues [] = []
event_rows venues (e ∷ l) =
    event_row e (find_where (λ v. v.id == e.venue_id) venues) (event_rows venues l)

abbrev is_active : EventRow → Bool
is_active r = r.event.active && r.venue.active

abbrev is_scheduled : EventRow → Bool
is_scheduled r = is_active r && r.event.status == "scheduled"

abbrev event_le : EventRow → EventRow → Bool
event_le a b = text_le a.event.starts_at b.event.starts_at

abbrev event_item : EventRow → CatalogItem
event_item r = record {
  type = "event";
  id = r.event.id;
  verified_at = r.event.verified_at;
  content = field "venue_id" (text r.event.venue_id) (
      field "venue_name" (text r.venue.name) (
        field "name" (text r.event.name) (
          field "starts_at" (text r.event.starts_at) (
            field "ends_at" (text (or_empty r.event.ends_at))
              (field "status" (text r.event.status) end)))));
}

unfoldable pub event_items : Db → ℕ → List CatalogItem
event_items db event_limit = map event_item (
    take event_limit
      (order_by event_le (select_where is_scheduled (event_rows db.venues db.catalog_events))))

pub record OfferRow : Type 0 where
  pub offer : CatalogOffer
  pub row : EventRow

abbrev offer_row : CatalogOffer → Option EventRow → List OfferRow → List OfferRow
offer_row o none rest = rest
offer_row o (some r) rest = record { offer = o; row = r } ∷ rest

-- catalog_offers JOIN catalog_events JOIN venues
unfoldable pub offer_rows : List EventRow → List CatalogOffer → List OfferRow
offer_rows rows [] = []
offer_rows rows (o ∷ l) =
    offer_row o (find_where (λ r. r.event.id == o.event_id) rows) (offer_rows rows l)

-- A price that is missing, NULL, comes first.
abbrev price_lt : Option ℕ → Option ℕ → Bool
price_lt none none = false
price_lt none (some n) = true
price_lt (some m) none = false
price_lt (some m) (some n) = ltb m n

-- ORDER BY ce.starts_at,o.price_minor,o.rowid
unfoldable pub offer_le : OfferRow → OfferRow → Bool
offer_le a b =
    text_le a.row.event.starts_at b.row.event.starts_at
    && not (
        a.row.event.starts_at == b.row.event.starts_at
        && price_lt b.offer.price_minor a.offer.price_minor)

-- The active link of the offer that was created last.
unfoldable pub purchase_link : String → List CatalogLink → Option CatalogLink
purchase_link offer_id [] = none
purchase_link offer_id (k ∷ l) =
    let rest = purchase_link offer_id l in
    if k.offer_id == offer_id && k.active
    then elim rest [
      | none ↦ some k
      | some m ↦ if text_le m.created_at k.created_at then some k else some m
    ]
    else rest

abbrev url_of : Option CatalogLink → String
url_of none = ""
url_of (some k) = k.url

abbrev price_value : Option ℕ → Value
price_value none = null
price_value (some n) = num false n

abbrev offer_item : List CatalogLink → OfferRow → CatalogItem
offer_item links r = record {
  type = "offer";
  id = r.offer.id;
  verified_at = r.offer.verified_at;
  content = field "event_id" (text r.offer.event_id) (
      field "event_name" (text r.row.event.name) (
        field "venue_id" (text r.row.event.venue_id) (
          field "venue_name" (text r.row.venue.name) (
            field "name" (text r.offer.name) (
              field "ticket_type" (text r.offer.ticket_type) (
                field "price_minor" (price_value r.offer.price_minor) (
                  field "currency" (text r.offer.currency) (
                    field "promotion" (text r.offer.promotion_text) (
                      field "conditions" (text r.offer.conditions) (
                        field "availability" (text r.offer.availability_status) (
                          field "purchase_url" (text (url_of (purchase_link r.offer.id links)))
                            end)))))))))));
}

abbrev offer_is_active : OfferRow → Bool
offer_is_active r = r.offer.active && is_active r.row

unfoldable pub offer_items : Db → ℕ → List CatalogItem
offer_items db remaining = map (offer_item db.catalog_links) (
    take remaining (
      order_by offer_le (
        select_where offer_is_active
          (offer_rows (event_rows db.venues db.catalog_events) db.catalog_offers))))

abbrev pub with_offers : Db → ℕ → List CatalogItem → List CatalogItem
with_offers db max_items items =
    if leb max_items (length items)
    then items
    else items ++ offer_items db (max_items - length items)

abbrev pub with_events : Db → ℕ → List CatalogItem → List CatalogItem
with_events db max_items items =
    if leb max_items (length items)
    then items
    else with_offers db max_items (items ++ event_items db (min 20 (max_items - length items)))

unfoldable pub load_snapshot : Db → ℕ → List CatalogItem
load_snapshot db max_items =
    if ltb max_items 1 then [] else with_events db max_items (venue_items db (min max_items 10))
