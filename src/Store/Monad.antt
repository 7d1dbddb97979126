-- ===== src/Store/Monad.antt =====
-- A call of the program: it reads the clock and draws identifiers, reads and writes the database,
-- sends requests to Instagram, and returns or raises. What was written stays written after a raise,
-- but for a transaction, which restores the database.
use rrpp_agent_bridge.Common.{
  ℕ, ◌+◌, ◌*◌, String, Bool, true, false, List, [], ◌∷◌, ◌++◌, Option, none, some, if◌then◌else◌,
}
use rrpp_agent_bridge.Common.Text.{◌⧺◌}
use rrpp_agent_bridge.Store.Rows.{Db}

-- The classes of the exceptions that are raised, with a message where a handler reads one.
pub data Exception : Type 0 where
  value_error : String → Exception
  runtime_error : String → Exception
  permission_error : Exception
  integrity_error : Exception
  type_error : Exception
  key_error : Exception
  attribute_error : Exception
  overflow_error : Exception
  provider_error : String → Exception
  superseded_job : Exception
  -- An exception of another class, by its name, such as those of `http.client`.
  unhandled : String → Exception

-- A request to the Send API, with the delivery that it is made for.
pub record Request : Type 0 where
  pub delivery_id : String
  pub sender_account_id : String
  pub recipient_id : String
  pub text : String

pub record World : Type 0 where
  pub db : Db
  -- The readings of the clock still to come, in milliseconds.
  pub clock : ℕ → ℕ
  -- The texts that `uuid4().hex` is still to give.
  pub uuids : ℕ → String
  pub requests : List Request

pub data Result (A : Type 0) : Type 0 where
  ok : A → Result A
  err : Exception → Result A

abbrev pub M : Type 0 → Type 0
M A = World → Result A × World

module _ {A : Type 0} where
  unfoldable pub pure : A → M A
  pure a w = (ok a, w)

  unfoldable pub raise : Exception → M A
  raise e w = (err e, w)

  unfoldable pub query : (Db → A) → M A
  query f w = (ok (f w.db), w)

infixl 5 ◌>>=◌ ◌>>◌
unfoldable pub ◌>>=◌ : {A B : Type 0} → M A → (A → M B) → M B
◌>>=◌ m f w = let (r, w') = m w in elim r [ ok a ↦ f a w' | err e ↦ (err e, w') ]

unfoldable pub ◌>>◌ : {A B : Type 0} → M A → M B → M B
m >> k = m >>= λ _. k

unfoldable pub execute : (Db → Db) → M (Unit {0})
execute f w = (ok tt, record w { db = f w.db })

unfoldable pub skip : M (Unit {0})
skip = pure tt

unfoldable pub raise_if : Bool → Exception → M (Unit {0})
raise_if b e w = (if b then err e else ok tt, w)

unfoldable pub when : Bool → M (Unit {0}) → M (Unit {0})
when b m w = elim b [ true ↦ m w | false ↦ (ok tt, w) ]

-- An INSERT or UPDATE, which is refused where it would break a uniqueness constraint.
unfoldable pub write_unless : (Db → Bool) → (Db → Db) → M (Unit {0})
write_unless taken f w = elim (taken w.db) [
  | true ↦ (err integrity_error, w)
  | false ↦ (ok tt, record w { db = f w.db })
]

-- try: ... except sqlite3.IntegrityError: ...
unfoldable pub catch_integrity : {A : Type 0} → M A → M A → M A
catch_integrity m handler w =
    let (r, w') = m w in
    elim r [
      | ok a ↦ (ok a, w')
      | err e ↦ elim e [ integrity_error ↦ handler w' | other ↦ (err other, w') ]
    ]

-- with transaction(conn, immediate=True)
unfoldable pub transaction : {A : Type 0} → M A → M A
transaction m w =
    let (r, w') = m w in elim r [ ok a ↦ (ok a, w') | err e ↦ (err e, record w' { db = w.db }) ]

-- What is done with the row of a query, and what without one.
unfoldable pub on_row : {A B : Type 0} → Option B → M A → (B → M A) → M A
on_row none missing found = missing
on_row (some row) missing found = found row

-- for row in rows
unfoldable pub for_each : {A : Type 0} → List A → (A → M (Unit {0})) → M (Unit {0})
for_each [] f = pure tt
for_each (a ∷ l) f = f a >> for_each l f

-- datetime.now(timezone.utc), to the millisecond
unfoldable pub utc_now : M ℕ
utc_now w = (ok (w.clock 0), record w { clock = λ n. w.clock (n + 1) })

-- _after(seconds)
unfoldable pub after : ℕ → M ℕ
after seconds = do now ← utc_now; pure (now + seconds * 1000)

-- f"{prefix}_{uuid.uuid4().hex}"
unfoldable pub new_id : String → M String
new_id name w = (ok (name ⧺ "_" ⧺ w.uuids 0), record w { uuids = λ n. w.uuids (n + 1) })

-- audit.record
unfoldable pub record_audit : String → String → String → String → String → M (Unit {0})
record_audit actor operation entity_type entity_id outcome = do
  now ← utc_now
  execute λ db. record db {
    audit_log =
        db.audit_log
        ++ record {
          occurred_at = now;
          actor = actor;
          operation = operation;
          entity_type = entity_type;
          entity_id = entity_id;
          outcome = outcome;
        }
          ∷ [];
  }

-- What a computation with the calls opens.
unfoldable pub calls : Unit {0}
unfolding pure raise query execute skip raise_if when write_unless catch_integrity transaction
    on_row for_each utc_now after new_id record_audit ◌>>=◌ ◌>>◌
calls = tt
