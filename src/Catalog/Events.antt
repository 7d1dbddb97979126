-- ===== src/Catalog/Events.antt =====
-- `create_event` of rrpp_bridge/catalog.py keeps the catalog valid.
use rrpp_agent_bridge.Common.{
  String, Bool, true, false, not, ◌&&◌, Option, none, some, ◌≡◌, arith, ◌==◌, any_where,
}
use rrpp_agent_bridge.Common.Text.{strip}
use rrpp_agent_bridge.Store.Rows.{CatalogEvent}
use rrpp_agent_bridge.Store.Monad.{M}
use rrpp_agent_bridge.Store.Keeps.{
  Keeps, Keeps-bind, Keeps-guard, Keeps-new_id, Keeps-pure, Keeps-raise, Keeps-then, Keeps-utc_now,
  Keeps-if,
}
use rrpp_agent_bridge.Store.Silent.{IsSilent, silent_rules}
use rrpp_agent_bridge.Store.Ensures.{
  Ensures, Ensures-Keeps, Ensures-guard, Ensures-query, Ensures-then, Ensures-weaken, Ensures-write,
  Keeps-transaction_of,
}
use rrpp_agent_bridge.Catalog.Editing.{
  Formats, Moment, checked_moment, create_event, ends_early, insert_catalog_event, read_datetime,
  store_event, with_start,
}
use rrpp_agent_bridge.Catalog.Valid.{IsValid, add_event, any-le, audit-Keeps, is_title}

insert_event-Silent : (e : CatalogEvent) → IsSilent (insert_catalog_event e)
unfolding insert_catalog_event
insert_event-Silent e = search silent_rules

module _ (formats : Formats) where
  insert_event-Ensures :
      (e : CatalogEvent)
      → is_title 160 e.name ≡ true
      → ends_early formats e.starts_at e.ends_at ≡ false
      → Ensures
          (λ db.
            (IsValid formats) db
            × (any_where (λ v. v.id == e.venue_id && v.active) db.venues ≡ true))
          (IsValid formats)
          (insert_catalog_event e)
  unfolding insert_catalog_event
  insert_event-Ensures e titled late = Ensures-write _ _ λ db h fresh.
      add_event formats db e
        (ground (
          arith,
          titled,
          late,
          any-le (λ v. v.id == e.venue_id && v.active) (λ v. v.id == e.venue_id) db.venues
              (λ v a. ground (arith, a)) h.1,
        ))
        h.0

  store_event-Keeps :
      (venue_id name starts : String) (ends : Option String) (actor : String)
      → is_title 160 name ≡ true
      → Keeps (IsValid formats) (store_event formats venue_id name starts ends actor)
  unfolding store_event
  store_event-Keeps venue_id name starts ends actor titled = Keeps-guard _ _ _ λ late.
      Keeps-bind _ _ (Keeps-new_id "cevt") λ id. Keeps-bind _ _ Keeps-utc_now λ now.
        Keeps-then _ _
          (Keeps-transaction_of _ (search (silent_rules, insert_event-Silent) depth 9) (
            Ensures-query _ _ λ found. Ensures-guard (not found) _ _ λ known.
              Ensures-then (IsValid formats) _ _
                (Ensures-weaken _ (λ db h. (h.0, ground (arith, h.1, known)))
                  (insert_event-Ensures _ titled late))
                (Ensures-Keeps _ (audit-Keeps formats _ _ _ _ _))))
          (Keeps-pure id)

  moment-Keeps : (m : Option Moment) → Keeps (IsValid formats) (checked_moment m)
  moment-Keeps none = Keeps-raise _
  moment-Keeps (some m) = Keeps-if m.has_zone _ _ (Keeps-pure _) (Keeps-raise _)

  datetime-Keeps :
      (value : String) (optional : Bool)
      → Keeps (IsValid formats) (read_datetime formats value optional)
  unfolding read_datetime
  datetime-Keeps value optional = Keeps-if _ _ _ (Keeps-pure none) (moment-Keeps _)

  with_start-Keeps :
      (starts : Option String) (next : String → M String)
      → ((from : String) → Keeps (IsValid formats) (next from))
      → Keeps (IsValid formats) (with_start starts next)
  with_start-Keeps none next keeps = Keeps-raise _
  with_start-Keeps (some from) next keeps = keeps from

  pub create_event-Keeps :
      (venue_id name starts_at ends_at actor : String)
      → Keeps (IsValid formats) (create_event formats venue_id name starts_at ends_at actor)
  unfolding create_event
  create_event-Keeps venue_id name starts_at ends_at actor = Keeps-guard _ _ _ λ titled.
      Keeps-bind _ _ (datetime-Keeps starts_at false) λ starts.
        Keeps-bind _ _ (datetime-Keeps ends_at true) λ ends.
          with_start-Keeps starts _ (λ from.
            store_event-Keeps venue_id (strip name) from ends actor (ground (arith, titled)))
