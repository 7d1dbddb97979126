-- ===== src/Catalog/Offers.antt =====
-- `create_offer` of rrpp_bridge/catalog.py keeps the catalog valid.
use rrpp_agent_bridge.Common.{
  String, Bool, true, false, not, ◌&&◌, none, some, List, [], ◌∷◌, ◌++◌, ◌≡◌, refl, arith, ltb,
  ◌==◌, ==-refl, any_where, if◌then◌else◌,
}
use rrpp_agent_bridge.Common.Text.{is_empty, strip, text_length}
use rrpp_agent_bridge.Store.Rows.{CatalogEvent, CatalogOffer, Db}
use rrpp_agent_bridge.Store.Monad.{
  M, Exception, ◌>>=◌, calls, pure, raise, record_audit, value_error,
}
use rrpp_agent_bridge.Store.Keeps.{
  Keeps, Keeps-bind, Keeps-guard, Keeps-new_id, Keeps-pure, Keeps-raise, Keeps-record_audit,
  Keeps-then, Keeps-utc_now, Keeps-if,
}
use rrpp_agent_bridge.Store.Silent.{IsSilent, silent_rules}
use rrpp_agent_bridge.Store.Ensures.{
  Ensures, Ensures-Keeps, Ensures-guard, Ensures-query, Ensures-then, Ensures-weaken, Ensures-when,
  Ensures-bind, Ensures-write, Keeps-transaction_of,
}
use rrpp_agent_bridge.Catalog.Editing.{
  Formats, OfferForm, create_offer, dotted, is_price, insert_catalog_link, insert_catalog_offer,
  is_https, read_link, read_money, store_link, store_offer,
}
use rrpp_agent_bridge.Catalog.Valid.{
  IsValid, add_link, add_offer, any-le, audit-Keeps, is_title, valid_offer,
}

insert_offer-Silent : (o : CatalogOffer) → IsSilent (insert_catalog_offer o)
unfolding insert_catalog_offer
insert_offer-Silent o = search silent_rules

store_link-Silent :
    (offer_id url timestamp actor : String) → IsSilent (store_link offer_id url timestamp actor)
unfolding store_link insert_catalog_link
store_link-Silent offer_id url timestamp actor = search silent_rules

module _ (formats : Formats) where
  -- Between the insertion of an offer and that of its link.
  abbrev HasOffer : String → Db → Type 0
  HasOffer id db = (IsValid formats) db × (any_where (λ o. o.id == id) db.catalog_offers ≡ true)

  any-last :
      (id : String) (l : List CatalogOffer) (o : CatalogOffer)
      → o.id ≡ id
      → any_where (λ x. x.id == id) (l ++ o ∷ []) ≡ true
  unfolding any_where
  any-last id [] o same = ground (arith, same, ==-refl id)
  any-last id (x ∷ l) o same = ground (arith, any-last id l o same)

  insert_offer-Ensures :
      (o : CatalogOffer)
      → ((events : List CatalogEvent)
          → any_where (λ e. e.id == o.event_id) events ≡ true
          → valid_offer events o ≡ true)
      → Ensures
          (λ db.
            (IsValid formats) db
            × (any_where (λ e. e.id == o.event_id && e.active) db.catalog_events ≡ true))
          (HasOffer o.id)
          (insert_catalog_offer o)
  unfolding insert_catalog_offer
  insert_offer-Ensures o valid = Ensures-write _ _ λ db h fresh. (
    add_offer formats db o
        (valid db.catalog_events (
          any-le (λ e. e.id == o.event_id && e.active) (λ e. e.id == o.event_id) db.catalog_events
            (λ e a. ground (arith, a)) h.1))
        h.0,
    any-last o.id db.catalog_offers o refl,
  )

  store_link-Ensures :
      (offer_id url timestamp actor : String)
      → is_title 2000 url ≡ true
      → is_https (formats.read_url url) ≡ true
      → Ensures (HasOffer offer_id) (IsValid formats) (store_link offer_id url timestamp actor)
  unfolding store_link insert_catalog_link
  store_link-Ensures offer_id url timestamp actor bounded https =
      Ensures-bind (HasOffer offer_id) _ _ (Ensures-Keeps _ (Keeps-new_id "link")) λ id.
        Ensures-write _ _
          λ db h fresh. add_link formats db _ (ground (arith, bounded, https, h.1)) h.0

  audit-Has :
      (id actor operation entity_type entity_id outcome : String)
      → Keeps (HasOffer id) (record_audit actor operation entity_type entity_id outcome)
  audit-Has id actor operation entity_type entity_id outcome =
      Keeps-record_audit actor operation entity_type entity_id outcome
        (λ db l h. (record { events = h.0.events; offers = h.0.offers; links = h.0.links }, h.1))

  -- A link that passed the checks, or none.
  abbrev IsLink : String → Type 0
  IsLink url =
      is_empty url ≡ false → (is_title 2000 url ≡ true) × (is_https (formats.read_url url) ≡ true)

  store_offer-Keeps :
      (o : CatalogOffer) (url timestamp actor : String)
      → ((events : List CatalogEvent)
          → any_where (λ e. e.id == o.event_id) events ≡ true
          → valid_offer events o ≡ true)
      → IsLink url
      → Keeps (IsValid formats) (store_offer o url timestamp actor)
  unfolding store_offer
  store_offer-Keeps o url timestamp actor valid link =
      Keeps-transaction_of _
        (search (silent_rules, insert_offer-Silent, store_link-Silent) depth 12)
        (Ensures-query _ _ λ found. Ensures-guard (not found) _ _ λ known.
          Ensures-then (HasOffer o.id) _ _
            (Ensures-weaken _ (λ db h. (h.0, ground (arith, h.1, known)))
              (insert_offer-Ensures o valid))
            (Ensures-then (IsValid formats) _ _
              (Ensures-when (not (is_empty url)) _ (λ db h. h.0)
                λ given.
                  let good = link (ground (arith, given)) in
                  store_link-Ensures o.id url timestamp actor good.0 good.1)
              (Ensures-Keeps _ (audit-Keeps formats _ _ _ _ _))))

  money-Keeps : (value : String) → Keeps (IsValid formats) (read_money formats value)
  unfolding read_money
  money-Keeps value =
      let price = dotted (strip value) in
      Keeps-if (is_empty price) _ _ (Keeps-pure none) (
        Keeps-if (is_price formats.python price) _ _ (Keeps-pure (some (formats.to_cents price)))
          (Keeps-raise (value_error "El preu ha de ser un import positiu amb maxim dos decimals")))

  -- What follows a call that returns at once.
  after_pure :
      {A B : Type 0} (a : A) (f : A → M B)
      → Keeps (IsValid formats) (f a)
      → Keeps (IsValid formats) (pure a >>= f)
  unfolding calls
  after_pure a f h = record { at = λ w p. h.at w p; silent = record { at = λ w. h.silent.at w } }

  after_raise :
      {A B : Type 0} (e : Exception) (f : A → M B) → Keeps (IsValid formats) (raise {A = A} e >>= f)
  unfolding calls
  after_raise e f = record { at = λ w p. p; silent = record { at = λ w. refl } }

  after_checks :
      (blank insecure long : Bool) (url : String) (e e' : Exception) (f : String → M String)
      → (blank ≡ true → Keeps (IsValid formats) (f ""))
      → (insecure ≡ false → long ≡ false → Keeps (IsValid formats) (f url))
      → Keeps (IsValid formats) (
          (if blank
            then pure ""
            else if insecure
            then raise e
            else if long
            then raise e'
            else pure url)
          >>= f)
  after_checks true insecure long url e e' f hb hf = after_pure "" f (hb refl)
  after_checks false true long url e e' f hb hf = after_raise e f
  after_checks false false true url e e' f hb hf = after_raise e' f
  after_checks false false false url e e' f hb hf = after_pure url f (hf refl refl)

  no-IsLink : IsLink ""
  unfolding is_empty
  no-IsLink h = cc h

  link-bind :
      (value : String) (f : String → M String)
      → ((url : String) → IsLink url → Keeps (IsValid formats) (f url))
      → Keeps (IsValid formats) (read_link formats value >>= f)
  unfolding read_link
  link-bind value f next =
      after_checks (is_empty (strip value)) (not (is_https (formats.read_url (strip value))))
        (ltb 2000 (text_length (strip value))) (strip value) _ _ f (λ _. next "" no-IsLink)
        (λ secure bounded.
          next (strip value) (λ given. (ground (arith, given, bounded), ground (arith, secure))))

  pub create_offer-Keeps :
      (form : OfferForm) (actor : String)
      → Keeps (IsValid formats) (create_offer formats form actor)
  unfolding create_offer
  create_offer-Keeps form actor = Keeps-guard _ _ _ λ titled. Keeps-guard _ _ _ λ currency.
      Keeps-guard _ _ _ λ available. Keeps-guard _ _ _ λ bounded.
        Keeps-bind _ _ (money-Keeps form.price) λ price. link-bind form.link _ λ url link.
          Keeps-bind _ _ (Keeps-new_id "offer") λ id. Keeps-bind _ _ Keeps-utc_now λ now.
            Keeps-then _ _
              (store_offer-Keeps _ url _ actor
                (λ events known. ground (arith, titled, currency, available, bounded, known)) link)
              (Keeps-pure id)
