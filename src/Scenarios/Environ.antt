-- ===== src/Scenarios/Environ.antt =====
-- The theorem on the local file of settings, at a concrete input: a file that would set the mode, with a
-- line that is refused.
use rrpp_agent_bridge.Common.{String, false, Option, some, List, [], ◌∷◌, ◌==◌, ◌≡◌, refl}
use rrpp_agent_bridge.Common.Json.{member}
use rrpp_agent_bridge.Configuration.Local.{is_env_key, load_local_env, Variables}
use rrpp_agent_bridge.Configuration.Environ.{load_local_env-Kept}
use rrpp_agent_bridge.Scenarios.Data.{python}

abbrev file : Option (List String)
file = some ("# local" ∷ "RRPP_MODE = live" ∷ "RRPP_PORT 80" ∷ [])

abbrev variables : Variables
variables name = some "shadow"

load_local_env-Kept_example :
    (load_local_env python file false variables).1 "RRPP_MODE" ≡ some "shadow"
unfolding is_env_key member ◌==◌
load_local_env-Kept_example = load_local_env-Kept python file false variables "RRPP_MODE" refl
