-- ===== src/Migrations/Current.antt =====
-- What rrpp_bridge/db.py establishes about the version of the tables, whatever the scripts are.
use rrpp_agent_bridge.Common.{
  ℕ, ◌≤◌, String, Bool, true, false, ◌&&◌, Option, none, some, List, [], ◌∷◌, ◌≡◌, refl, arith,
  any_where, eqb, leb, Bool-cases, inl, inr, sym, subst, ◌∙◌,
}
use rrpp_agent_bridge.Common.Text.{is_empty, strip, ◌⧺◌}
use rrpp_agent_bridge.Catalog.Order.{insert_row, order_by}
use rrpp_agent_bridge.Migrations.{
  and_then, apply_all, apply_migration, current_version, Database, Engine, err, greatest,
  insert_into, insert_version, proceed, Migration, migration_le, migrations, note, ok, Outcome,
  run_statement, run_statements, statements,
}

-- No script is newer than a version.
unfoldable pub within : ℕ → List Migration → Bool
within n [] = true
within n (m ∷ ms) = leb m.version n && within n ms

within-insert :
    (n : ℕ) (m : Migration) (ms : List Migration)
    → within n (insert_row migration_le m ms) ≡ leb m.version n && within n ms
unfolding within insert_row
within-insert n m [] = refl
within-insert n m (k ∷ ms) = ground (arith, within-insert n m ms)

pub within-migrations :
    (n : ℕ) (found : List Migration) → within n (migrations found) ≡ within n found
unfolding within migrations order_by
within-migrations n [] = refl
within-migrations n (m ∷ ms) =
    within-insert n m (order_by migration_le ms) ∙ ground (arith, within-migrations n ms)

greatest-head : (v : ℕ) (vs : List ℕ) → v ≤ greatest (v ∷ vs)
unfolding greatest
greatest-head v vs = ground arith

greatest-tail : (v : ℕ) (vs : List ℕ) → greatest vs ≤ greatest (v ∷ vs)
unfolding greatest
greatest-tail v vs = ground arith

insert-first :
    (m k : Migration) (ms : List Migration)
    → migration_le m k ≡ true
    → insert_row migration_le m (k ∷ ms) ≡ m ∷ k ∷ ms
unfolding insert_row
insert-first m k ms e = rw e refl

insert-later :
    (m k : Migration) (ms : List Migration)
    → migration_le m k ≡ false
    → insert_row migration_le m (k ∷ ms) ≡ k ∷ insert_row migration_le m ms
unfolding insert_row
insert-later m k ms e = rw e refl

module _ {R : Type 0} where
  abbrev pub Past : ℕ → Outcome (Database R) → Type 0
  Past n (ok db) = n ≤ current_version db
  Past n (err e) = Unit

  Past-weaken : (k n : ℕ) (o : Outcome (Database R)) → k ≤ n → Past n o → Past k o
  Past-weaken k n (ok db) le h = omega (arith, le, h)
  Past-weaken k n (err e) le h = tt

  Past-and_then :
      (n : ℕ) (o : Outcome (Database R)) (f : Database R → Outcome (Database R))
      → Past n o
      → ((db : Database R) → n ≤ current_version db → Past n (f db))
      → Past n (and_then o f)
  unfolding and_then
  Past-and_then n (ok db) f h k = k db h
  Past-and_then n (err e) f h k = tt

  -- A statement that does not lower the version.
  abbrev pub Spares : Engine R → String → Type 0
  Spares engine statement =
      is_empty statement ≡ false
      → (db : Database R) → Past (current_version db) (engine.execute statement db)

  unfoldable pub AreForward : Engine R → List String → Type 0
  AreForward engine [] = Unit
  AreForward engine (s ∷ l) = Spares engine s × AreForward engine l

  -- No statement of these scripts lowers the version, as where they create `schema_migrations` only if
  -- it is missing, and do not write to it.
  unfoldable pub IsForward : Engine R → List Migration → Type 0
  IsForward engine [] = Unit
  IsForward engine (m ∷ ms) =
      AreForward engine (statements engine "" (engine.split_lines m.sql)) × IsForward engine ms

  IsForward-insert :
      (engine : Engine R) (m : Migration) (ms : List Migration)
      → IsForward engine (m ∷ ms)
      → IsForward engine (insert_row migration_le m ms)
  unfolding IsForward insert_row
  IsForward-insert engine m [] h = h
  IsForward-insert engine m (k ∷ ms) h = elim (Bool-cases (migration_le m k)) [
    | inl e ↦ subst (IsForward engine) (sym (insert-first m k ms e)) h
    | inr e ↦
        subst (IsForward engine) (sym (insert-later m k ms e))
          (h.1.0, IsForward-insert engine m ms (h.0, h.1.1))
  ]

  pub IsForward-migrations :
      (engine : Engine R) (found : List Migration)
      → IsForward engine found
      → IsForward engine (migrations found)
  unfolding IsForward migrations order_by
  IsForward-migrations engine [] h = tt
  IsForward-migrations engine (m ∷ ms) h =
      IsForward-insert engine m (order_by migration_le ms) (h.0, IsForward-migrations engine ms h.1)

  insert_into-version :
      (versions : Option (List ℕ)) (v : ℕ) (db : Database R) → Past v (insert_into versions v db)
  unfolding insert_into current_version
  insert_into-version none v db = tt
  insert_into-version (some vs) v db = elim (Bool-cases (any_where (eqb v) vs)) [
    | inl t ↦ rw t tt
    | inr t ↦ rw t (greatest-head v vs)
  ]

  current_version-some :
      (db : Database R) (vs : List ℕ) → db.ledger ≡ some vs → current_version db ≡ greatest vs
  unfolding current_version
  current_version-some db vs e = rw e refl

  insert_into-Past :
      (n : ℕ) (versions : Option (List ℕ)) (v : ℕ) (db : Database R)
      → db.ledger ≡ versions
      → n ≤ current_version db
      → Past n (insert_into versions v db)
  unfolding insert_into current_version
  insert_into-Past n none v db e h = tt
  insert_into-Past n (some vs) v db e h = elim (Bool-cases (any_where (eqb v) vs)) [
    | inl t ↦ rw t tt
    | inr t ↦ rw t (omega (arith, h, current_version-some db vs e, greatest-tail v vs))
  ]

  -- The version has not gone down, and if nothing was raised no script is newer.
  abbrev pub Brought : ℕ → List Migration → Outcome (List ℕ) → Database R → Type 0
  Brought n ms (ok applied) db = (n ≤ current_version db) × (within (current_version db) ms ≡ true)
  Brought n ms (err e) db = n ≤ current_version db

  Brought-skip :
      (n : ℕ) (m : Migration) (ms : List Migration) (k : ℕ) (r : Outcome (List ℕ)) (db : Database R)
      → m.version ≤ k
      → n ≤ k
      → Brought k ms r db
      → Brought n (m ∷ ms) r db
  unfolding within
  Brought-skip n m ms k (ok applied) db v le h =
      (omega (arith, le, h.0), ground (arith, v, h.0, h.1))
  Brought-skip n m ms k (err e) db v le h = omega (arith, le, h)

  Brought-note :
      (n : ℕ) (m : Migration) (ms : List Migration) (k : ℕ) (r : Outcome (List ℕ)) (db : Database R)
      → m.version ≤ k
      → n ≤ k
      → Brought k ms r db
      → Brought n (m ∷ ms) (note m.version r) db
  unfolding within note
  Brought-note n m ms k (ok applied) db v le h =
      (omega (arith, le, h.0), ground (arith, v, h.0, h.1))
  Brought-note n m ms k (err e) db v le h = omega (arith, le, h)

  pub apply_all-old :
      (engine : Engine R) (m : Migration) (ms : List Migration) (db : Database R)
      → leb m.version (current_version db) ≡ true
      → apply_all engine (m ∷ ms) db ≡ apply_all engine ms db
  unfolding apply_all
  apply_all-old engine m ms db e = rw (apply_all, e) refl

  apply_all-new :
      (engine : Engine R) (m : Migration) (ms : List Migration) (db : Database R)
      → leb m.version (current_version db) ≡ false
      → apply_all engine (m ∷ ms) db
        ≡ proceed m.version (apply_migration engine m db) db (apply_all engine ms)
  unfolding apply_all
  apply_all-new engine m ms db e = rw (apply_all, e) refl

  module _ (engine : Engine R) where
    run_statement-Past :
        (n : ℕ) (statement : String) (db : Database R)
        → Spares engine statement
        → n ≤ current_version db
        → Past n (run_statement engine statement db)
    unfolding run_statement
    run_statement-Past n s db f h = elim (Bool-cases (is_empty s)) [
      | inl e ↦ rw e h
      | inr e ↦ rw e (Past-weaken n _ (engine.execute s db) h (f e db))
    ]

    run_statements-Past :
        (n : ℕ) (pending : String) (lines : List String) (db : Database R)
        → AreForward engine (statements engine pending lines)
        → n ≤ current_version db
        → Past n (run_statements engine pending lines db)
    unfolding run_statements statements AreForward
    run_statements-Past n pending [] db f h = elim (Bool-cases (is_empty (strip pending))) [
      | inl e ↦ rw e h
      | inr e ↦ rw e tt
    ]
    run_statements-Past n pending (line ∷ lines) db f h =
        (elim (engine.is_complete (pending ⧺ line))
            as (λ b.
              AreForward engine (elim b as (λ _. List String) [
                | true ↦ strip (pending ⧺ line) ∷ statements engine "" lines
                | false ↦ statements engine (pending ⧺ line) lines
              ])
              → Past n (elim b as (λ _. Outcome (Database R)) [
                | true ↦
                    and_then (run_statement engine (strip (pending ⧺ line)) db)
                      (run_statements engine "" lines)
                | false ↦ run_statements engine (pending ⧺ line) lines db
              ])) [
                | true ↦ λ g.
                    Past-and_then n _ _ (run_statement-Past n (strip (pending ⧺ line)) db g.0 h)
                      (λ db' h'. run_statements-Past n "" lines db' g.1 h')
                | false ↦ λ g. run_statements-Past n (pending ⧺ line) lines db g h
              ])
          f

    apply_migration-Past :
        (n : ℕ) (m : Migration) (db : Database R)
        → AreForward engine (statements engine "" (engine.split_lines m.sql))
        → n ≤ current_version db
        → Past n (apply_migration engine m db)
    unfolding apply_migration insert_version
    apply_migration-Past n m db f h =
        Past-and_then n _ _ (run_statements-Past n "" (engine.split_lines m.sql) db f h)
          (λ db' h'. insert_into-Past n _ m.version db' refl h')

    -- A script that is applied is recorded.
    apply_migration-version :
        (m : Migration) (db : Database R) → Past m.version (apply_migration engine m db)
    unfolding apply_migration and_then insert_version
    apply_migration-version m db = recorded (run_statements engine "" (engine.split_lines m.sql) db)
      where
        recorded :
            (o : Outcome (Database R)) → Past m.version (and_then o (insert_version m.version))
        recorded (ok db') = insert_into-version db'.ledger m.version db'
        recorded (err e) = tt

    proceed-Brought :
        (n : ℕ) (m : Migration) (ms : List Migration) (o : Outcome (Database R)) (db : Database R)
        → n ≤ current_version db
        → Past m.version o
        → Past n o
        → ((db' : Database R)
            → let p = apply_all engine ms db' in Brought (current_version db') ms p.0 p.1)
        → let p = proceed m.version o db (apply_all engine ms) in Brought n (m ∷ ms) p.0 p.1
    unfolding proceed
    proceed-Brought n m ms (ok db') db h v p rest = Brought-note n m ms _ _ _ v p (rest db')
    proceed-Brought n m ms (err e) db h v p rest = h

    pub apply_all-Brought :
        (ms : List Migration) (n : ℕ) (db : Database R)
        → IsForward engine ms
        → n ≤ current_version db
        → let p = apply_all engine ms db in Brought n ms p.0 p.1
    unfolding within IsForward
    apply_all-Brought [] n db f h = unfold apply_all in (h, refl)
    apply_all-Brought (m ∷ ms) n db f h = elim (Bool-cases (leb m.version (current_version db))) [
      | inl e ↦ rw (apply_all-old engine m ms db e) (
          Brought-skip n m ms _ _ _ (ground (arith, e)) h
            (apply_all-Brought ms (current_version db) db f.1 (omega arith)))
      | inr e ↦ rw (apply_all-new engine m ms db e) (
          proceed-Brought n m ms _ db h (apply_migration-version m db)
            (apply_migration-Past n m db f.0 h)
            (λ db'. apply_all-Brought ms (current_version db') db' f.1 (omega arith)))
    ]
