-- ===== src/Catalog/Bounds.antt =====
-- The size of the catalog's snapshot.
use rrpp_agent_bridge.Common.{
  ℕ, ◌+◌, ◌-◌, ◌≤◌, min, List, [], ◌∷◌, ◌++◌, map, length, take, arith, ◌≡◌, refl, suc, zero,
}
use rrpp_agent_bridge.Models.{CatalogItem}
use rrpp_agent_bridge.Store.Rows.{Db}
use rrpp_agent_bridge.Catalog.Snapshot.{
  venue_items, event_items, offer_items, load_snapshot, with_events, with_offers,
}

length-map : {A B : Type 0} (f : A → B) (l : List A) → length (map f l) ≡ length l
length-map f [] = refl
length-map f (a ∷ l) = ground (arith, length-map f l)

length-take : {A : Type 0} (n : ℕ) (l : List A) → length (take n l) ≤ n
length-take zero l = ground arith
length-take (suc n) [] = ground arith
length-take (suc n) (a ∷ l) = ground (arith, length-take n l)

length-append : {A : Type 0} (l m : List A) → length (l ++ m) ≡ length l + length m
length-append [] m = omega arith
length-append (a ∷ l) m = ground (arith, length-append l m)

length-venue_items : (db : Db) (n : ℕ) → length (venue_items db n) ≤ n
unfolding venue_items
length-venue_items db n = rw (length-map _ (take n _)) (length-take n _)

length-event_items : (db : Db) (n : ℕ) → length (event_items db n) ≤ n
unfolding event_items
length-event_items db n = rw (length-map _ (take n _)) (length-take n _)

length-offer_items : (db : Db) (n : ℕ) → length (offer_items db n) ≤ n
unfolding offer_items
length-offer_items db n = rw (length-map _ (take n _)) (length-take n _)

with_offers-le :
    (db : Db) (max_items : ℕ) (items : List CatalogItem)
    → length items ≤ max_items
    → length (with_offers db max_items items) ≤ max_items
with_offers-le db max_items items h = ground (
  arith,
  length-append items (offer_items db (max_items - length items)),
  length-offer_items db (max_items - length items),
)

with_events-le :
    (db : Db) (max_items : ℕ) (items : List CatalogItem)
    → length items ≤ max_items
    → length (with_events db max_items items) ≤ max_items
with_events-le db max_items items h =
    let more = event_items db (min 20 (max_items - length items)) in
    let le : length (items ++ more) ≤ max_items = omega (
      arith,
      h,
      length-append items more,
      length-event_items db (min 20 (max_items - length items)),
    ) in
    ground (arith, with_offers-le db max_items (items ++ more) le)

-- A snapshot of the catalog has no more items than the caller asks for, whatever the tables hold.
pub length-load_snapshot :
    (db : Db) (max_items : ℕ) → length (load_snapshot db max_items) ≤ max_items
unfolding load_snapshot
length-load_snapshot db max_items = ground (
  arith,
  with_events-le db max_items (venue_items db (min max_items 10))
      (omega (arith, length-venue_items db (min max_items 10))),
)
