-- ===== src/Runtime.antt =====
-- The execution mode that is stored in the database: rrpp_bridge/runtime.py.
pub mod Modes
use rrpp_agent_bridge.Common.{
  ℕ, String, true, false, not, Option, List, [], ◌∷◌, ◌++◌, ◌==◌, find_where, any_where,
  update_where,
}
use rrpp_agent_bridge.Common.Json.{member}
use rrpp_agent_bridge.Store.Rows.{Db, Setting}
use rrpp_agent_bridge.Store.Monad.{
  M, value_error, runtime_error, pure, raise, query, execute, raise_if, on_row, transaction,
  utc_now, record_audit, ◌>>=◌, ◌>>◌,
}

-- `VALID_MODES` of rrpp_bridge/config.py.
abbrev pub valid_modes : List String
valid_modes = "shadow" ∷ "dry-run" ∷ "canary" ∷ "live" ∷ []

abbrev pub mode_key : String
mode_key = "execution_mode"

abbrev pub stored_mode : Db → Option Setting
stored_mode db = find_where (λ s. s.key == mode_key) db.runtime_settings

-- INSERT OR IGNORE: a mode that is stored stays.
unfoldable pub store_default : String → ℕ → Db → Db
store_default mode timestamp db = elim (any_where (λ s. s.key == mode_key) db.runtime_settings) [
  | true ↦ db
  | false ↦ record db {
    runtime_settings =
        db.runtime_settings
        ++ record {
          key = mode_key;
          value = mode;
          updated_at = timestamp;
          updated_by = "config.startup";
        }
          ∷ [];
  }
]

unfoldable pub initialize_mode : String → M (Unit {0})
initialize_mode default_mode = do
  raise_if (not (member default_mode valid_modes)) (value_error "Invalid default execution mode")
  timestamp ← utc_now
  execute (store_default default_mode timestamp)

unfoldable pub mode_of : Setting → M String
mode_of s = do
  raise_if (not (member s.value valid_modes))
      (runtime_error "A valid runtime execution mode is required")
  pure s.value

unfoldable pub get_mode : M String
get_mode = do
  row ← query stored_mode
  on_row row (raise (runtime_error "A valid runtime execution mode is required")) mode_of

unfoldable pub write_mode : String → String → ℕ → Db → Db
write_mode mode actor timestamp db = record db {
  runtime_settings =
      update_where (λ s. s.key == mode_key)
        (λ s. record s { value = mode; updated_at = timestamp; updated_by = actor })
        db.runtime_settings;
}

unfoldable pub set_mode : String → String → M (String × String)
set_mode mode actor = do
  raise_if (not (member mode valid_modes)) (value_error "Invalid execution mode")
  previous ← transaction do
    previous ← get_mode
    timestamp ← utc_now
    execute (write_mode mode actor timestamp)
    record_audit actor "mode.changed" "runtime_setting" mode_key "updated"
    pure previous
  pure (previous, mode)
