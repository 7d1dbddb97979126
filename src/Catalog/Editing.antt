-- ===== src/Catalog/Editing.antt =====
-- What an operator adds to the catalog: `create_event` and `create_offer` of rrpp_bridge/catalog.py.
-- What `datetime`, `float` and `urllib.parse` make of a text is a parameter.
use Prim.Native.Char.{code}
use rrpp_agent_bridge.Common.{
  ℕ, String, Bool, true, false, not, ◌&&◌, ◌||◌, Option, none, some, [], ◌∷◌, ◌++◌, eqb, leb, ltb,
  ◌==◌, any_where, if◌then◌else◌,
}
use rrpp_agent_bridge.Common.Json.{member}
use rrpp_agent_bridge.Common.Regex.{Regex, full_match, range, times}
use rrpp_agent_bridge.Common.Text.{Python, is_empty, strip, text_length}
use rrpp_agent_bridge.Store.Rows.{CatalogEvent, CatalogLink, CatalogOffer}
use rrpp_agent_bridge.Store.Monad.{
  M, new_id, pure, query, raise, raise_if, record_audit, transaction, utc_now, value_error, when,
  write_unless, ◌>>=◌, ◌>>◌,
}

-- What `datetime.fromisoformat` gives: whether it has a zone, and its text to the minute.
pub record Moment : Type 0 where
  pub has_zone : Bool
  pub minutes : String

-- What `urlparse` gives: the scheme, and whether there are a host name, a user or a password.
pub record Url : Type 0 where
  pub scheme : String
  pub has_host : Bool
  pub has_user : Bool
  pub has_password : Bool

-- What the code calls that is not of this repository.
pub record Formats : Type 0 where
  pub python : Python
  -- datetime.fromisoformat(value), unless it raises.
  pub read_moment : String → Option Moment
  -- datetime.fromisoformat(a) <= datetime.fromisoformat(b)
  pub not_after : String → String → Bool
  -- value.upper()
  pub upper : String → String
  -- int(round(float(value) * 100))
  pub to_cents : String → ℕ
  -- urlparse(value), unless it raises.
  pub read_url : String → Option Url
  -- The text of a time, as `utc_now` writes it.
  pub time_text : ℕ → String

abbrev pub availabilities : String → Bool
availabilities s = member s ("available" ∷ "sold_out" ∷ "unknown" ∷ [])

abbrev pub checked_moment : Option Moment → M (Option String)
checked_moment none = raise (value_error "La data no te un format valid")
checked_moment (some m) =
    if m.has_zone
    then pure (some m.minutes)
    else raise (value_error "La data ha d'incloure zona horaria")

-- `_datetime`
unfoldable pub read_datetime : Formats → String → Bool → M (Option String)
read_datetime formats value optional =
    if is_empty (strip value) && optional
    then pure none
    else checked_moment (formats.read_moment (strip value))

-- value.replace(",", ".")
unfoldable pub dotted : String → String
dotted String.[] = String.[]
dotted (String.◌∷◌ c s) =
    let rest = dotted s in if eqb (code c) b',' then String.◌∷◌ "." rest else String.◌∷◌ c rest

-- \d{low,high} up to the end
unfoldable pub digits_only : Python → String → Bool
digits_only python String.[] = true
digits_only python (String.◌∷◌ c s) = python.is_decimal (code c) && digits_only python s

-- The texts before and after the first point, if there is one.
unfoldable pub before_point : String → String
before_point String.[] = String.[]
before_point (String.◌∷◌ c s) =
    let rest = before_point s in if eqb (code c) b'.' then String.[] else String.◌∷◌ c rest

unfoldable pub after_point : String → Option String
after_point String.[] = none
after_point (String.◌∷◌ c s) =
    let rest = after_point s in if eqb (code c) b'.' then some s else rest

abbrev digits_between : Python → ℕ → ℕ → String → Bool
digits_between python low high s =
    leb low (text_length s) && leb (text_length s) high && digits_only python s

abbrev is_fraction : Python → Option String → Bool
is_fraction python none = true
is_fraction python (some s) = digits_between python 1 2 s

-- re.fullmatch(r"\d{1,7}(?:\.\d{1,2})?", value): a point is no digit.
unfoldable pub is_price : Python → String → Bool
is_price python s = digits_between python 1 7 (before_point s) && is_fraction python (after_point s)

-- `_money`
unfoldable pub read_money : Formats → String → M (Option ℕ)
read_money formats value =
    let price = dotted (strip value) in
    if is_empty price
    then pure none
    else if is_price formats.python price
    then pure (some (formats.to_cents price))
    else raise (value_error "El preu ha de ser un import positiu amb maxim dos decimals")

abbrev pub is_verified : Url → Bool
is_verified u = u.scheme == "https" && u.has_host && not u.has_user && not u.has_password

abbrev pub is_https : Option Url → Bool
is_https none = false
is_https (some u) = is_verified u

-- `_verified_url`: what `urlparse` raises is a ValueError too.
unfoldable pub read_link : Formats → String → M String
read_link formats value =
    let url = strip value in
    if is_empty url
    then pure ""
    else if not (is_https (formats.read_url url))
    then raise (value_error "L'enllac ha de ser una URL HTTPS valida")
    else if ltb 2000 (text_length url)
    then raise (value_error "L'enllac es massa llarg")
    else pure url

unfoldable pub insert_catalog_event : CatalogEvent → M (Unit {0})
insert_catalog_event e =
    write_unless (λ db. any_where (λ o. o.id == e.id) db.catalog_events)
      (λ db. record db { catalog_events = db.catalog_events ++ e ∷ [] })

unfoldable pub insert_catalog_offer : CatalogOffer → M (Unit {0})
insert_catalog_offer o =
    write_unless (λ db. any_where (λ x. x.id == o.id) db.catalog_offers)
      (λ db. record db { catalog_offers = db.catalog_offers ++ o ∷ [] })

unfoldable pub insert_catalog_link : CatalogLink → M (Unit {0})
insert_catalog_link l =
    write_unless (λ db. any_where (λ o. o.id == l.id) db.catalog_links)
      (λ db. record db { catalog_links = db.catalog_links ++ l ∷ [] })

-- ends and end <= start
abbrev pub ends_early : Formats → String → Option String → Bool
ends_early formats starts none = false
ends_early formats starts (some ends) = not (is_empty ends) && formats.not_after ends starts

unfoldable pub store_event : Formats → String → String → String → Option String → String → M String
store_event formats venue_id name starts ends actor = do
  raise_if (ends_early formats starts ends)
      (value_error "La data final ha de ser posterior a l'inici")
  event_id ← new_id "cevt"
  now ← utc_now
  let timestamp = formats.time_text now
  transaction do
    found ← query (λ db. any_where (λ v. v.id == venue_id && v.active) db.venues)
    raise_if (not found) (value_error "Discoteca activa no trobada")
    insert_catalog_event (record {
      id = event_id;
      venue_id = venue_id;
      name = name;
      starts_at = starts;
      ends_at = ends;
      status = "scheduled";
      active = true;
      verified_at = timestamp;
      verified_by = actor;
      created_at = timestamp;
      updated_at = timestamp;
    })
    record_audit actor "catalog.event_created" "catalog_event" event_id "active"
  pure event_id

-- if starts is None
abbrev pub with_start : Option String → (String → M String) → M String
with_start none next = raise (value_error "La data inicial es obligatoria")
with_start (some starts) next = next starts

unfoldable pub create_event : Formats → String → String → String → String → String → M String
create_event formats venue_id name starts_at ends_at actor = do
  let title = strip name
  raise_if (is_empty title || ltb 160 (text_length title))
      (value_error "El nom de l'esdeveniment es obligatori")
  starts ← read_datetime formats starts_at false
  ends ← read_datetime formats ends_at true
  with_start starts λ from. store_event formats venue_id title from ends actor

-- [A-Z]{3}
unfoldable pub currency_pattern : Regex
currency_pattern = times 3 (range b'A' b'Z')

-- The arguments of an offer.
pub record OfferForm : Type 0 where
  pub event_id : String
  pub name : String
  pub ticket_type : String
  pub price : String
  pub currency : String
  pub promotion_text : String
  pub conditions : String
  pub availability : String
  pub link : String

unfoldable pub store_link : String → String → String → String → M (Unit {0})
store_link offer_id url timestamp actor = do
  link_id ← new_id "link"
  insert_catalog_link (record {
    id = link_id;
    offer_id = offer_id;
    kind = "purchase";
    url = url;
    active = true;
    verified_at = timestamp;
    verified_by = actor;
    created_at = timestamp;
    updated_at = timestamp;
  })

unfoldable pub store_offer : CatalogOffer → String → String → String → M (Unit {0})
store_offer offer url timestamp actor = transaction do
  found ← query (λ db. any_where (λ e. e.id == offer.event_id && e.active) db.catalog_events)
  raise_if (not found) (value_error "Esdeveniment actiu no trobat")
  insert_catalog_offer offer
  when (not (is_empty url)) (store_link offer.id url timestamp actor)
  record_audit actor "catalog.offer_created" "catalog_offer" offer.id "active"

unfoldable pub create_offer : Formats → OfferForm → String → M String
create_offer formats form actor = do
  let name = strip form.name
  let ticket_type = strip form.ticket_type
  let promotion_text = strip form.promotion_text
  let conditions = strip form.conditions
  let currency = formats.upper (strip form.currency)
  let availability = formats.python.casefold (strip form.availability)
  raise_if
      (is_empty name
        || ltb 160 (text_length name)
        || is_empty ticket_type
        || ltb 120 (text_length ticket_type))
      (value_error "L'oferta i el tipus d'entrada son obligatoris")
  raise_if (not (full_match currency_pattern currency))
      (value_error "La moneda ha de tenir tres lletres, per exemple EUR")
  raise_if (not (availabilities availability)) (value_error "Disponibilitat no valida")
  raise_if (ltb 2000 (text_length promotion_text) || ltb 4000 (text_length conditions))
      (value_error "La promocio o les condicions son massa llargues")
  price_minor ← read_money formats form.price
  verified_link ← read_link formats form.link
  offer_id ← new_id "offer"
  now ← utc_now
  let timestamp = formats.time_text now
  store_offer
      (record {
        id = offer_id;
        event_id = form.event_id;
        name = name;
        ticket_type = ticket_type;
        price_minor = price_minor;
        currency = currency;
        promotion_text = promotion_text;
        conditions = conditions;
        availability_status = availability;
        active = true;
        valid_from = none;
        valid_until = none;
        verified_at = timestamp;
        verified_by = actor;
        created_at = timestamp;
        updated_at = timestamp;
      })
      verified_link timestamp actor
  pure offer_id
