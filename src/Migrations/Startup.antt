-- ===== src/Migrations/Startup.antt =====
-- What a process of rrpp_bridge/db.py finds at its start: `prepare_runtime` and `initialize`.
use rrpp_agent_bridge.Common.{
  ℕ, ◌≤◌, Bool, true, false, ◌&&◌, List, [], ◌∷◌, ◌≡◌, refl, arith, eqb, leb, ltb, Bool-cases, inl,
  inr, ◌∙◌, sym, ap, and-true,
}
use rrpp_agent_bridge.Common.Text.{Python}
use rrpp_agent_bridge.Catalog.Order.{insert_row, order_by}
use rrpp_agent_bridge.Migrations.{
  apply_all, current_version, Database, Engine, err, initialize, last_version, latest_version,
  Migration, migration_le, migrations, ok, Outcome, outdated, prepare_runtime,
}
use rrpp_agent_bridge.Migrations.Current.{
  apply_all-Brought, apply_all-old, Brought, IsForward, IsForward-migrations, within,
  within-migrations,
}

-- The first script of a list has a version of at least `n`.
abbrev above : ℕ → List Migration → Bool
above n [] = true
above n (m ∷ ms) = leb n m.version

unfoldable ascending : List Migration → Bool
ascending [] = true
ascending (m ∷ ms) = above m.version ms && ascending ms

ascending-head :
    (m : Migration) (ms : List Migration) → ascending (m ∷ ms) ≡ true → above m.version ms ≡ true
unfolding ascending
ascending-head m ms h = (and-true (above m.version ms) (ascending ms) h).0

ascending-tail :
    (m : Migration) (ms : List Migration) → ascending (m ∷ ms) ≡ true → ascending ms ≡ true
unfolding ascending
ascending-tail m ms h = (and-true (above m.version ms) (ascending ms) h).1

above-insert :
    (n : ℕ) (m : Migration) (ms : List Migration)
    → n ≤ m.version
    → above n ms ≡ true
    → above n (insert_row migration_le m ms) ≡ true
unfolding insert_row
above-insert n m [] v h = ground (arith, v)
above-insert n m (k ∷ ms) v h = ground (arith, v, h)

le-version : (a b : Migration) → migration_le a b ≡ true → a.version ≤ b.version
unfolding migration_le
le-version a b h = ground (arith, h)

gt-version : (a b : Migration) → migration_le a b ≡ false → b.version ≤ a.version
unfolding migration_le
gt-version a b h = ground (arith, h)

ascending-insert :
    (m : Migration) (ms : List Migration)
    → ascending ms ≡ true
    → ascending (insert_row migration_le m ms) ≡ true
unfolding ascending insert_row
ascending-insert m [] h = refl
ascending-insert m (k ∷ ms) h = elim (Bool-cases (migration_le m k)) [
  | inl e ↦ rw e (ground (arith, h, le-version m k e))
  | inr e ↦ rw e (
      ground (
        arith,
        above-insert k.version m ms (gt-version m k e) (ascending-head k ms h),
        ascending-insert m ms (ascending-tail k ms h),
      ))
]

ascending-migrations : (found : List Migration) → ascending (migrations found) ≡ true
unfolding ascending migrations order_by
ascending-migrations [] = refl
ascending-migrations (m ∷ ms) =
    ascending-insert m (order_by migration_le ms) (ascending-migrations ms)

-- No script is newer than the last.
last-head :
    (m : Migration) (ms : List Migration)
    → ascending (m ∷ ms) ≡ true
    → m.version ≤ last_version (m ∷ ms)
unfolding ascending last_version
last-head m [] h = omega arith
last-head m (k ∷ ms) h = ground (arith, h, last-head k ms (ascending-tail m (k ∷ ms) h))

within-last :
    (n : ℕ) (ms : List Migration) → ascending ms ≡ true → last_version ms ≤ n → within n ms ≡ true
unfolding within ascending last_version
within-last n [] h le = refl
within-last n (m ∷ []) h le = ground (arith, le)
within-last n (m ∷ k ∷ ms) h le =
    ground
      (arith, le, last-head m (k ∷ ms) h, within-last n (k ∷ ms) (ascending-tail m (k ∷ ms) h) le)

last-le : (n : ℕ) (ms : List Migration) → within n ms ≡ true → last_version ms ≤ n
unfolding within last_version
last-le n [] h = omega arith
last-le n (m ∷ []) h = ground (arith, h)
last-le n (m ∷ k ∷ ms) h = last-le n (k ∷ ms) (and-true _ _ h).1

module _ {R : Type 0} where
  newest :
      (found : List Migration) (db : Database R)
      → ltb (current_version db) (latest_version found) ≡ false
      → within (current_version db) found ≡ true
  unfolding latest_version
  newest found db h =
      sym (within-migrations _ found)
      ∙ within-last _ (migrations found) (ascending-migrations found) (ground (arith, h))

  up_to_date :
      (found : List Migration) (db : Database R)
      → within (current_version db) found ≡ true
      → ltb (current_version db) (latest_version found) ≡ false
  unfolding latest_version
  up_to_date found db h =
      let le = last-le (current_version db) (migrations found) (within-migrations _ found ∙ h) in
      ground (arith, le)

  apply_all-within :
      (engine : Engine R) (ms : List Migration) (db : Database R)
      → within (current_version db) ms ≡ true
      → apply_all engine ms db ≡ (ok [], db)
  unfolding within
  apply_all-within engine [] db h = unfold apply_all in refl
  apply_all-within engine (m ∷ ms) db h =
      apply_all-old engine m ms db (and-true _ _ h).0
      ∙ apply_all-within engine ms db (and-true _ _ h).1

  Brought-within :
      (n : ℕ) (ms : List Migration) (r : Outcome (List ℕ)) (db : Database R) (applied : List ℕ)
      → r ≡ ok applied
      → Brought n ms r db
      → within (current_version db) ms ≡ true
  Brought-within n ms (ok l) db applied e h = h.1
  Brought-within n ms (err f) db applied e h = cc e

  initialize-within :
      (engine : Engine R) (found : List Migration) (db : Database R) (applied : List ℕ)
      → IsForward engine found
      → (initialize engine found db).0 ≡ ok applied
      → within (current_version (initialize engine found db).1) found ≡ true
  unfolding initialize
  initialize-within engine found db applied forward e =
      sym (within-migrations _ found)
      ∙ Brought-within (current_version db) (migrations found) _ _ applied e (
          apply_all-Brought engine (migrations found) _ db
            (IsForward-migrations engine found forward) (omega arith))

  prepare-fresh :
      (python : Python) (engine : Engine R) (found : List Migration) (db : Database R)
      → eqb (current_version db) 0 ≡ true
      → prepare_runtime python engine found db ≡ initialize engine found db
  unfolding prepare_runtime
  prepare-fresh python engine found db z = rw (prepare_runtime, z) refl

  prepare-old :
      (python : Python) (engine : Engine R) (found : List Migration) (db : Database R)
      → eqb (current_version db) 0 ≡ false
      → ltb (current_version db) (latest_version found) ≡ true
      → prepare_runtime python engine found db ≡ (err (outdated python (current_version db)), db)
  unfolding prepare_runtime
  prepare-old python engine found db z o = rw (prepare_runtime, z, o) refl

  prepare-new :
      (python : Python) (engine : Engine R) (found : List Migration) (db : Database R)
      → eqb (current_version db) 0 ≡ false
      → ltb (current_version db) (latest_version found) ≡ false
      → prepare_runtime python engine found db ≡ (ok [], db)
  unfolding prepare_runtime
  prepare-new python engine found db z o = rw (prepare_runtime, z, o) refl

  again :
      (engine : Engine R) (found : List Migration) (db : Database R)
      → within (current_version db) found ≡ true
      → initialize engine found db ≡ (ok [], db)
  unfolding initialize
  again engine found db h =
      apply_all-within engine (migrations found) db (within-migrations _ found ∙ h)

  prepare-within :
      (python : Python) (engine : Engine R) (found : List Migration) (db : Database R)
      → within (current_version db) found ≡ true
      → prepare_runtime python engine found db ≡ (ok [], db)
  prepare-within python engine found db h = elim (Bool-cases (eqb (current_version db) 0)) [
    | inl z ↦ prepare-fresh python engine found db z ∙ again engine found db h
    | inr z ↦ prepare-new python engine found db z (up_to_date found db h)
  ]

  fresh :
      (python : Python) (engine : Engine R) (found : List Migration) (db : Database R)
      (applied : List ℕ)
      → IsForward engine found
      → eqb (current_version db) 0 ≡ true
      → (prepare_runtime python engine found db).0 ≡ ok applied
      → within (current_version (prepare_runtime python engine found db).1) found ≡ true
  fresh python engine found db applied forward z e =
      let same = prepare-fresh python engine found db z in
      ap (λ p. within (current_version p.1) found) same
      ∙ initialize-within engine found db applied forward (sym (ap (λ p. p.0) same) ∙ e)

  -- Once scripts of which no statement lowers the recorded version are applied, in whatever order they
  -- are found, a process starts: it applies nothing and changes nothing, and applying them once more
  -- does the same.
  pub initialize-prepares :
      (python : Python) (engine : Engine R) (found : List Migration) (db : Database R)
      (applied : List ℕ)
      → IsForward engine found
      → (initialize engine found db).0 ≡ ok applied
      → let after = (initialize engine found db).1 in
        (prepare_runtime python engine found after ≡ (ok [], after))
        × (initialize engine found after ≡ (ok [], after))
  initialize-prepares python engine found db applied forward e =
      let h = initialize-within engine found db applied forward e in
      (prepare-within python engine found _ h, again engine found _ h)

  -- A process starts only on tables as new as every script, whatever they were before: with scripts of
  -- which no statement lowers the recorded version, where `prepare_runtime` returns, no script is newer
  -- than the version that is then recorded.
  pub prepare_runtime-within :
      (python : Python) (engine : Engine R) (found : List Migration) (db : Database R)
      (applied : List ℕ)
      → IsForward engine found
      → (prepare_runtime python engine found db).0 ≡ ok applied
      → within (current_version (prepare_runtime python engine found db).1) found ≡ true
  prepare_runtime-within python engine found db applied forward e =
      elim (Bool-cases (eqb (current_version db) 0)) [
        | inl z ↦ fresh python engine found db applied forward z e
        | inr z ↦ elim (Bool-cases (ltb (current_version db) (latest_version found))) [
          | inl o ↦ cc (e, ap (λ p. p.0) (prepare-old python engine found db z o))
          | inr o ↦ rw (prepare-new python engine found db z o) (newest found db o)
        ]
      ]
