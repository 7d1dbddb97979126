-- ===== src/Scenarios/Starting.antt =====
-- The theorems on the migrations of the database, at concrete inputs: two scripts, found in the wrong
-- order, and a database file that is new.
use rrpp_agent_bridge.Common.{
  ◌≤◌, String, true, Option, none, some, List, [], ◌∷◌, ◌≡◌, refl, arith, eqb, if◌then◌else◌,
}
use rrpp_agent_bridge.Common.Text.{any_char, is_prefix}
use rrpp_agent_bridge.Migrations.{
  current_version, Database, Engine, initialize, Migration, ok, prepare_runtime, start,
}
use rrpp_agent_bridge.Migrations.Current.{AreForward, IsForward, Spares, within}
use rrpp_agent_bridge.Migrations.Startup.{initialize-prepares, prepare_runtime-within}
use rrpp_agent_bridge.Scenarios.Data.{python}

abbrev create : String
create =
    "CREATE TABLE IF NOT EXISTS schema_migrations (version INTEGER PRIMARY KEY, applied_at TEXT NOT NULL);"

abbrev alter : String
alter = "ALTER TABLE jobs ADD COLUMN dismissed_at TEXT;"

-- CREATE TABLE IF NOT EXISTS
abbrev or_empty : {A : Type 0} → Option (List A) → Option (List A)
or_empty none = some []
or_empty (some l) = some l

-- A database that runs these statements, and loses the versions on a DROP TABLE, which no script has.
abbrev engine : Engine (List String)
engine = record {
  is_complete = any_char (eqb b';');
  split_lines = λ s. s ∷ [];
  execute = λ s db. ok (record {
    ledger =
        if is_prefix "DROP TABLE schema_migrations" s
        then none
        else if is_prefix "CREATE TABLE IF NOT EXISTS schema_migrations" s
        then or_empty db.ledger
        else db.ledger;
    tables = s ∷ db.tables;
  });
}

abbrev found : List Migration
found = record { version = 2; sql = alter } ∷ record { version = 1; sql = create } ∷ []

abbrev new_file : Database (List String)
new_file = record { ledger = none; tables = [] }

create-Spares : Spares engine create
unfolding is_prefix current_version
create-Spares nonempty db =
    elim db.ledger
      as (λ versions.
        current_version (record { ledger = versions; tables = db.tables })
        ≤ current_version (record { ledger = or_empty versions; tables = create ∷ db.tables })) [
          | none ↦ omega arith
          | some vs ↦ omega arith
        ]

alter-Spares : Spares engine alter
unfolding is_prefix current_version
alter-Spares nonempty db = omega arith

found-IsForward : IsForward engine found
unfolding IsForward AreForward start
found-IsForward = ((alter-Spares, tt), ((create-Spares, tt), tt))

initialize-prepares_example :
    let after = (initialize engine found new_file).1 in
    (prepare_runtime python engine found after ≡ (ok [], after))
    × (initialize engine found after ≡ (ok [], after))
unfolding start is_prefix
initialize-prepares_example =
    initialize-prepares python engine found new_file (1 ∷ 2 ∷ []) found-IsForward refl

prepare_runtime-within_example :
    within (current_version (prepare_runtime python engine found new_file).1) found ≡ true
unfolding start is_prefix
prepare_runtime-within_example =
    prepare_runtime-within python engine found new_file (1 ∷ 2 ∷ []) found-IsForward refl
