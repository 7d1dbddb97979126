-- ===== src/Workspace/Venues.antt =====
-- Venues and their routes: `create_venue`, `update_venue`, `add_route` and `disable_route` of
-- rrpp_bridge/workspace.py.
use Prim.Native.Char.{code}
use rrpp_agent_bridge.Common.{
  ℕ, String, Bool, true, false, not, ◌&&◌, ◌||◌, Option, none, some, List, [], ◌∷◌, ◌++◌, eqb, leb,
  ltb, ◌==◌, any_where, find_where, if◌then◌else◌, update_where,
}
use rrpp_agent_bridge.Common.Json.{member}
use rrpp_agent_bridge.Common.Regex.{Regex, full_match, lit, ◌or◌, ◌then◌, range, star}
use rrpp_agent_bridge.Common.Text.{Python, is_alnum, is_empty, strip, text_length, ◌⧺◌}
use rrpp_agent_bridge.Store.Rows.{Db, Route, Venue}
use rrpp_agent_bridge.Store.Monad.{
  M, execute, new_id, on_row, pure, query, raise_if, record_audit, transaction, utc_now,
  value_error, when, write_unless, ◌>>=◌, ◌>>◌,
}
use rrpp_agent_bridge.Workspace.Conversations.{nocase_eq}

-- What the code calls that is not of this repository.
pub record Editor : Type 0 where
  pub python : Python
  -- unicodedata.normalize("NFKD", value)
  pub nfkd : String → String
  -- The text of a time, as `utc_now` writes it.
  pub time_text : ℕ → String

-- [a-z0-9]+(?:-[a-z0-9]+)*
unfoldable pub slug_pattern : Regex
slug_pattern =
    let char = range b'a' b'z' or range b'0' b'9' in
    char then star char then star (lit "-" then char then star char)

-- value.encode("ascii", "ignore").decode("ascii")
unfoldable pub ascii_only : String → String
ascii_only String.[] = String.[]
ascii_only (String.◌∷◌ c s) =
    let rest = ascii_only s in if ltb (code c) 128 then String.◌∷◌ c rest else rest

abbrev begins_alnum : String → Bool
begins_alnum String.[] = true
begins_alnum (String.◌∷◌ c s) = is_alnum (code c)

-- re.sub(r"[^a-z0-9]+", "-", value): the last character of a run stands for it.
unfoldable pub dash_runs : String → String
dash_runs String.[] = String.[]
dash_runs (String.◌∷◌ c s) =
    let rest = dash_runs s in
    if is_alnum (code c) then String.◌∷◌ c rest else if begins_alnum s then "-" ⧺ rest else rest

-- value.lstrip("-")
unfoldable pub lstrip_dashes : String → String
lstrip_dashes String.[] = String.[]
lstrip_dashes (String.◌∷◌ c s) =
    let rest = lstrip_dashes s in if eqb (code c) b'-' then rest else String.◌∷◌ c s

-- value.rstrip("-")
unfoldable pub rstrip_dashes : String → String
rstrip_dashes String.[] = String.[]
rstrip_dashes (String.◌∷◌ c s) =
    let rest = rstrip_dashes s in
    if eqb (code c) b'-' && is_empty rest then String.[] else String.◌∷◌ c rest

unfoldable pub venue_slug : Editor → String → String
venue_slug editor value =
    rstrip_dashes
      (lstrip_dashes (dash_runs (editor.python.casefold (ascii_only (editor.nfkd value)))))

abbrev pub languages : List String
languages = "ca" ∷ "es" ∷ []

unfoldable pub insert_venue : Venue → M (Unit {0})
insert_venue v =
    write_unless (λ db. any_where (λ o. o.id == v.id || nocase_eq o.slug v.slug) db.venues)
      (λ db. record db { venues = db.venues ++ v ∷ [] })

-- slug or name
abbrev or_name : String → String → String
or_name slug name = if is_empty slug then name else slug

unfoldable pub create_venue : Editor → String → String → String → String → String → M String
create_venue editor name slug language actor bot_knowledge = do
  let title = strip name
  let code = editor.python.casefold (strip language)
  let knowledge = strip bot_knowledge
  let identifier = venue_slug editor (or_name slug title)
  raise_if (is_empty title || ltb 120 (text_length title))
      (value_error "El nom de la discoteca ha de tenir entre 1 i 120 caràcters")
  raise_if (not (full_match slug_pattern identifier))
      (value_error "No s'ha pogut crear un identificador vàlid a partir del nom")
  raise_if (not (member code languages))
      (value_error "L'idioma de la discoteca ha de ser català o castellà")
  raise_if (ltb 20000 (text_length knowledge))
      (value_error "El coneixement del bot no pot superar els 20000 caracters")
  venue_id ← new_id "ven"
  timestamp ← utc_now
  transaction do
    existing ← query (λ db. any_where (λ v. nocase_eq v.slug identifier) db.venues)
    raise_if existing (value_error "Ja existeix una discoteca amb aquest identificador")
    insert_venue (record {
      id = venue_id;
      slug = identifier;
      name = title;
      default_language = code;
      active = true;
      bot_knowledge = knowledge;
      created_at = editor.time_text timestamp;
      updated_at = editor.time_text timestamp;
    })
    record_audit actor "venue.created" "venue" venue_id "active"
  pure venue_id

-- The language and the knowledge are kept where none is given.
abbrev pub given : Option String → String → String
given none old = old
given (some new) old = new

abbrev pub updated_venue : String → Option String → Option String → Bool → String → Venue → Venue
updated_venue name language bot_knowledge active timestamp v = record v {
  name = name;
  active = active;
  default_language = given language v.default_language;
  bot_knowledge = given bot_knowledge v.bot_knowledge;
  updated_at = timestamp;
}

unfoldable pub set_venue : String → (Venue → Venue) → Db → Db
set_venue id f db = record db { venues = update_where (λ v. v.id == id) f db.venues }

abbrev map_option : (String → String) → Option String → Option String
map_option f none = none
map_option f (some s) = some (f s)

abbrev fails : (String → Bool) → Option String → Bool
fails p none = false
fails p (some s) = not (p s)

unfoldable pub update_venue :
    Editor → String → String → Option String → Bool → String → Option String → M Bool
update_venue editor venue_id name language active actor bot_knowledge = do
  let title = strip name
  let code = map_option (λ s. editor.python.casefold (strip s)) language
  let knowledge = map_option strip bot_knowledge
  raise_if (is_empty title || ltb 120 (text_length title) || fails (λ s. member s languages) code)
      (value_error "Invalid venue name or language")
  raise_if (fails (λ s. leb (text_length s) 20000) knowledge)
      (value_error "El coneixement del bot no pot superar els 20000 caracters")
  timestamp ← utc_now
  transaction do
    changed ← query (λ db. any_where (λ v. v.id == venue_id) db.venues)
    execute (
        set_venue venue_id (updated_venue title code knowledge active (editor.time_text timestamp)))
    when changed (
        record_audit actor "venue.updated" "venue" venue_id
          (if active then "active" else "inactive"))
    pure changed

abbrev pub is_route : String → String → Route → Bool
is_route channel recipient r = r.channel == channel && nocase_eq r.recipient recipient

unfoldable pub insert_route : Route → M (Unit {0})
insert_route r =
    write_unless
      (λ db. any_where (λ o. o.id == r.id || is_route r.channel r.recipient o) db.venue_routes)
      (λ db. record db { venue_routes = db.venue_routes ++ r ∷ [] })

unfoldable pub set_route : String → (Route → Route) → Db → Db
set_route id f db = record db { venue_routes = update_where (λ r. r.id == id) f db.venue_routes }

abbrev pub routed_to : String → String → Route → Route
routed_to venue_id timestamp r = record r {
  venue_id = venue_id;
  active = true;
  updated_at = timestamp;
}

abbrev pub switched_off : String → Route → Route
switched_off timestamp r = record r { active = false; updated_at = timestamp }

unfoldable pub new_route : String → String → String → String → String → M String
new_route route_id venue_id channel recipient timestamp = do
  insert_route (record {
    id = route_id;
    venue_id = venue_id;
    channel = channel;
    recipient = recipient;
    active = true;
    created_at = timestamp;
    updated_at = timestamp;
  })
  pure route_id

unfoldable pub moved_route : String → String → Route → M String
moved_route venue_id timestamp r = do
  execute (set_route r.id (routed_to venue_id timestamp))
  pure r.id

unfoldable pub add_route : Editor → String → String → String → String → M String
add_route editor venue_id channel recipient actor = do
  let kind = editor.python.casefold (strip channel)
  let target = strip recipient
  raise_if
      (not (member kind ("instagram" ∷ "local" ∷ []))
        || is_empty target
        || ltb 500 (text_length target))
      (value_error "Invalid route channel or recipient")
  new ← new_id "route"
  timestamp ← utc_now
  transaction do
    venue ← query (λ db. any_where (λ v. v.id == venue_id) db.venues)
    raise_if (not venue) (value_error "Venue not found")
    existing ← query (λ db. find_where (is_route kind target) db.venue_routes)
    route_id ←
        on_row existing (new_route new venue_id kind target (editor.time_text timestamp))
          (moved_route venue_id (editor.time_text timestamp))
    record_audit actor "venue.route_added" "venue" venue_id "active"
    pure route_id

unfoldable pub switch_off : Editor → String → Route → M Bool
switch_off editor actor r = do
  timestamp ← utc_now
  execute (set_route r.id (switched_off (editor.time_text timestamp)))
  record_audit actor "venue.route_disabled" "venue" r.venue_id "inactive"
  pure true

unfoldable pub disable_route : Editor → String → String → M Bool
disable_route editor route_id actor = transaction do
  route ← query (λ db. find_where (λ r. r.id == route_id) db.venue_routes)
  on_row route (pure false) λ r. if r.active then switch_off editor actor r else pure false
