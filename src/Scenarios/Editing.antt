-- ===== src/Scenarios/Editing.antt =====
-- The theorem on what operators do to the catalog, at a concrete input.
use rrpp_agent_bridge.Common.{true, none, some}
use rrpp_agent_bridge.Store.Keeps.{Keeps}
use rrpp_agent_bridge.Workspace.Venues.{Editor, create_venue, update_venue}
use rrpp_agent_bridge.Catalog.Editing.{Formats, OfferForm, create_event, create_offer}
use rrpp_agent_bridge.Catalog.Valid.{IsValid}
use rrpp_agent_bridge.Catalog.Edits.{edits-IsValid}
use rrpp_agent_bridge.Scenarios.Data.{python}

abbrev editor : Editor
editor = record { python = python; nfkd = λ s. s; time_text = λ t. "2026-01-01T00:00:00.000+00:00" }

abbrev formats : Formats
formats = record {
  python = python;
  read_moment = λ s. some (record { has_zone = true; minutes = s });
  not_after = λ a b. true;
  upper = λ s. s;
  to_cents = λ s. 1500;
  read_url = λ s. none;
  time_text = λ t. "2026-01-01T00:00:00.000+00:00";
}

abbrev form : OfferForm
form = record {
  event_id = "cevt_1";
  name = "Entrada general";
  ticket_type = "general";
  price = "15,00";
  currency = "EUR";
  promotion_text = "";
  conditions = "";
  availability = "available";
  link = "";
}

edits-IsValid_example :
    Keeps (IsValid formats) (create_event formats "ven_1" "Nit" "2026-01-01T23:00+01:00" "" "anna")
    × Keeps (IsValid formats) (create_offer formats form "anna")
    × Keeps (IsValid formats) (create_venue editor "Nit" "sala" "ca" "anna" "")
    × Keeps (IsValid formats) (update_venue editor "ven_1" "Nit" none true "anna" (some ""))
edits-IsValid_example =
    edits-IsValid formats "ven_1" "Nit" "2026-01-01T23:00+01:00" "" "anna" form editor "sala" "ca"
      "" none (some "") true
