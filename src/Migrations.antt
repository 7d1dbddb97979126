-- ===== src/Migrations.antt =====
-- The migrations of the database, rrpp_bridge/db.py: what version its tables have, how the scripts of
-- `sql/` bring them up to date, and what a process requires of them at its start. SQLite, which runs the
-- statements of a script and says where one ends, is a parameter.
use rrpp_agent_bridge.Common.{
  ℕ, String, Bool, true, false, ◌&&◌, ◌||◌, Option, none, some, List, [], ◌∷◌, any_where, eqb, leb,
  ltb, if◌then◌else◌,
}
use rrpp_agent_bridge.Common.Json.{num}
use rrpp_agent_bridge.Common.Text.{Python, any_char, is_empty, is_space, lstrip, rstrip, strip, ◌⧺◌}
use rrpp_agent_bridge.Catalog.Order.{insert_row, order_by, text_le}
pub mod Current
pub mod Startup

pub data Failure : Type 0 where
  operational_error : Failure
  integrity_error : Failure
  value_error : String → Failure
  runtime_error : String → Failure

pub data Outcome (A : Type 0) : Type 0 where
  ok : A → Outcome A
  err : Failure → Outcome A

-- A script, with the number that its name begins with.
pub record Migration : Type 0 where
  pub version : ℕ
  pub sql : String

pub record Database (R : Type 0) : Type 0 where
  -- The versions in `schema_migrations`, if there is such a table.
  pub ledger : Option (List ℕ)
  pub tables : R

-- What is called that is not of this repository.
pub record Engine (R : Type 0) : Type 0 where
  -- sqlite3.complete_statement(text)
  pub is_complete : String → Bool
  -- script.splitlines(keepends=True)
  pub split_lines : String → List String
  -- conn.execute(statement)
  pub execute : String → Database R → Outcome (Database R)

-- The order of the pairs of a number and a text.
unfoldable pub migration_le : Migration → Migration → Bool
migration_le a b = ltb a.version b.version || (eqb a.version b.version && text_le a.sql b.sql)

-- sorted(found)
unfoldable pub migrations : List Migration → List Migration
migrations found = order_by migration_le found

-- COALESCE(MAX(version), 0)
unfoldable pub greatest : List ℕ → ℕ
greatest [] = 0
greatest (v ∷ vs) = let rest = greatest vs in if leb v rest then rest else v

-- migrations[-1][0] if migrations else 0
unfoldable pub last_version : List Migration → ℕ
last_version [] = 0
last_version (m ∷ []) = m.version
last_version (m ∷ n ∷ ms) = last_version (n ∷ ms)

unfoldable pub latest_version : List Migration → ℕ
latest_version found = last_version (migrations found)

unfoldable pub note : ℕ → Outcome (List ℕ) → Outcome (List ℕ)
note version (ok applied) = ok (version ∷ applied)
note version (err e) = err e

unfoldable pub outdated : Python → ℕ → Failure
outdated python version = runtime_error (
    "Database schema "
    ⧺ python.show (num false version)
    ⧺ " is outdated; run 'rrpp-bridge migrate' before startup")

module _ {R : Type 0} where
  unfoldable pub current_version : Database R → ℕ
  current_version db = elim db.ledger [ none ↦ 0 | some versions ↦ greatest versions ]

  -- What is done next, unless something was raised.
  unfoldable pub and_then :
      {A : Type 0} → Outcome A → (A → Outcome (Database R)) → Outcome (Database R)
  and_then (ok a) f = f a
  and_then (err e) f = err e

  -- A statement, if it has any text.
  unfoldable pub run_statement : Engine R → String → Database R → Outcome (Database R)
  run_statement engine statement db =
      if is_empty statement then ok db else engine.execute statement db

  -- `_statements`: the texts of a script that are complete statements.
  unfoldable pub statements : Engine R → String → List String → List String
  statements engine pending [] = []
  statements engine pending (line ∷ lines) = elim (engine.is_complete (pending ⧺ line)) [
    | true ↦ strip (pending ⧺ line) ∷ statements engine "" lines
    | false ↦ statements engine (pending ⧺ line) lines
  ]

  -- The statements of a script, each run where its last line is read.
  unfoldable pub run_statements :
      Engine R → String → List String → Database R → Outcome (Database R)
  run_statements engine pending [] db =
      if is_empty (strip pending)
      then ok db
      else err (value_error "Incomplete SQL migration statement")
  run_statements engine pending (line ∷ lines) db = elim (engine.is_complete (pending ⧺ line)) [
    | true ↦
        and_then (run_statement engine (strip (pending ⧺ line)) db) (run_statements engine "" lines)
    | false ↦ run_statements engine (pending ⧺ line) lines db
  ]

  unfoldable pub insert_into : Option (List ℕ) → ℕ → Database R → Outcome (Database R)
  insert_into none version db = err operational_error
  insert_into (some versions) version db =
      if any_where (eqb version) versions
      then err integrity_error
      else ok (record db { ledger = some (version ∷ versions) })

  -- INSERT INTO schema_migrations
  unfoldable pub insert_version : ℕ → Database R → Outcome (Database R)
  insert_version version db = insert_into db.ledger version db

  unfoldable pub apply_migration : Engine R → Migration → Database R → Outcome (Database R)
  apply_migration engine m db =
      and_then (run_statements engine "" (engine.split_lines m.sql) db) (insert_version m.version)

  -- The migrations that follow one; when it raised, its transaction is rolled back.
  unfoldable pub proceed :
      ℕ
      → Outcome (Database R)
      → Database R
      → (Database R → Outcome (List ℕ) × Database R)
      → Outcome (List ℕ) × Database R
  proceed version (ok db') db rest = let (r, db'') = rest db' in (note version r, db'')
  proceed version (err e) db rest = (err e, db)

  unfoldable pub apply_all : Engine R → List Migration → Database R → Outcome (List ℕ) × Database R
  apply_all engine [] db = (ok [], db)
  apply_all engine (m ∷ ms) db = elim (leb m.version (current_version db)) [
    | true ↦ apply_all engine ms db
    | false ↦ proceed m.version (apply_migration engine m db) db (apply_all engine ms)
  ]

  unfoldable pub initialize : Engine R → List Migration → Database R → Outcome (List ℕ) × Database R
  initialize engine found db = apply_all engine (migrations found) db

  unfoldable pub prepare_runtime :
      Python → Engine R → List Migration → Database R → Outcome (List ℕ) × Database R
  prepare_runtime python engine found db = elim (eqb (current_version db) 0) [
    | true ↦ initialize engine found db
    | false ↦ elim (ltb (current_version db) (latest_version found)) [
      | true ↦ (err (outdated python (current_version db)), db)
      | false ↦ (ok [], db)
    ]
  ]

-- What the start of a process opens.
unfoldable pub start : Unit {0}
unfolding migration_le migrations greatest last_version latest_version current_version and_then
    statements run_statement run_statements insert_into insert_version apply_migration note proceed
    apply_all initialize outdated prepare_runtime order_by insert_row text_le any_where any_char
    is_empty strip lstrip rstrip is_space ◌⧺◌
start = tt
