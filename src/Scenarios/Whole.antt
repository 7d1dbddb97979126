-- ===== src/Scenarios/Whole.antt =====
-- The theorems on the calls of System.Operations and on the runs of a worker, at concrete inputs.
use rrpp_agent_bridge.Common.{
  true, some, [], ◌∷◌, ◌≤◌, ◌≡◌, ◌+◌, ◌==◌, refl, List, count_where, find_where,
}
use rrpp_agent_bridge.Common.Json.{member}
use rrpp_agent_bridge.Store.Rows.{Setting}
use rrpp_agent_bridge.Store.Monad.{World, ok}
use rrpp_agent_bridge.Runtime.{get_mode, set_mode, stored_mode, valid_modes}
use rrpp_agent_bridge.Runtime.Modes.{set_mode-get_mode}
use rrpp_agent_bridge.Delivery.AtMostOnce.{Run, after_runs}
use rrpp_agent_bridge.Delivery.Drains.{runs-drain, runs_found, waiting}
use rrpp_agent_bridge.System.Stable.{has_left, no_delivery_comes_back}
use rrpp_agent_bridge.Delivery.Once.{is_request_for}
use rrpp_agent_bridge.Queue.Claim.{works_on}
use rrpp_agent_bridge.System.Operations.{
  Operation, edits, pauses, perform_all, receives, recovers, replies, retries, serves, sets_mode,
  works,
}
use rrpp_agent_bridge.System.Sound.{one_request_and_one_worker}
use rrpp_agent_bridge.Scenarios.Data.{
  app, environ, lost, run_of, settings, world, world-IsSerial, world-Once,
}

-- A day of two workers and an operator.
abbrev day : List Operation
day =
    works settings lost "a"
    ∷ serves (receives app environ)
    ∷ serves (pauses "conv_1" true "anna" "")
    ∷ works settings lost "b"
    ∷ serves (replies "conv_1" "Hola" "anna")
    ∷ serves (retries "job_1" "anna")
    ∷ serves (sets_mode "live" "anna")
    ∷ serves (recovers 3 "cli.recover-stale")
    ∷ works settings lost "a"
    ∷ serves (edits "rev_1" "Hola" "anna")
    ∷ []

one_request_and_one_worker_example :
    (count_where (is_request_for "del_1") (perform_all day world).requests ≤ 1)
    × (count_where (works_on "instagram:club:customer") (perform_all day world).db.jobs ≤ 1)
one_request_and_one_worker_example =
    one_request_and_one_worker day world "del_1" "instagram:club:customer"
      (record { serial = world-IsSerial; once = world-Once })

no_delivery_comes_back_example :
    count_where (has_left "del_1") world.db.deliveries
    ≤ count_where (has_left "del_1") (perform_all day world).db.deliveries
no_delivery_comes_back_example = no_delivery_comes_back day world "del_1"

abbrev three_runs : List Run
three_runs = run_of "a" ∷ run_of "b" ∷ run_of "a" ∷ []

runs-drain_example :
    runs_found three_runs world + waiting (after_runs three_runs world).db ≤ waiting world.db
runs-drain_example = runs-drain three_runs world

abbrev shadow_mode : Setting
shadow_mode = record {
  key = "execution_mode";
  value = "shadow";
  updated_at = 1000;
  updated_by = "config.startup";
}

abbrev started : World
started = record world { db = record (world.db) { runtime_settings = shadow_mode ∷ [] } }

modes-known : (member "live" valid_modes ≡ true) × (member "shadow" valid_modes ≡ true)
unfolding member ◌==◌
modes-known = (refl, refl)

shadow_mode-stored : stored_mode started.db ≡ some shadow_mode
unfolding find_where ◌==◌
shadow_mode-stored = refl

set_mode-get_mode_example :
    ((set_mode "live" "anna" started).0 ≡ ok ("shadow", "live"))
    × ((get_mode (set_mode "live" "anna" started).1).0 ≡ ok "live")
set_mode-get_mode_example =
    set_mode-get_mode "live" "anna" started shadow_mode modes-known.0 shadow_mode-stored
      modes-known.1
