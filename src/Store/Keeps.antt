-- ===== src/Store/Keeps.antt =====
-- Calls that send no request and keep a property of the database, whether they return or raise, and
-- the rules by which this follows for a call from its parts.
use rrpp_agent_bridge.Common.{
  String, ℕ, Option, none, some, Bool, true, false, List, [], ◌∷◌, ◌≡◌, refl, if◌then◌else◌,
}
use rrpp_agent_bridge.Store.Rows.{Db, AuditEntry}
use rrpp_agent_bridge.Store.Silent.{
  IsSilent, Silent-after, Silent-bind, Silent-catch, Silent-execute, Silent-new_id, Silent-pure,
  Silent-query, Silent-raise, Silent-raise_if, Silent-record_audit, Silent-skip, Silent-transaction,
  Silent-utc_now, Silent-when, Silent-write,
}
use rrpp_agent_bridge.Store.Monad.{
  calls, M, World, Result, ok, err, Exception, pure, raise, query, execute, raise_if, when, skip,
  write_unless, transaction, for_each, catch_integrity, on_row, utc_now, after, new_id,
  record_audit, ◌>>=◌, ◌>>◌,
}

pub record Keeps {A : Type 0} (P : Db → Type 0) (m : M A) : Type 0 where
  pub at : (w : World) → P w.db → P (m w).1.db
  pub silent : IsSilent m

write_result :
    (P : Db → Type 0) (b : Bool) (w : World) (db : Db)
    → P w.db
    → (b ≡ false → P db)
    → P
        (elim b as (λ _. Result (Unit {0}) × World) [
          | true ↦ (err Exception.integrity_error, w)
          | false ↦ (ok tt, record w { db = db })
        ]).1.db
unfolding calls
write_result P true w db h keeps = h
write_result P false w db h keeps = keeps refl

transaction_result :
    {A : Type 0} (P : Db → Type 0) (w : World) (r : Result A) (w' : World)
    → P w.db
    → P w'.db
    → P
        (elim r as (λ _. Result A × World) [
          | ok a ↦ (ok a, w')
          | err e ↦ (err e, record w' { db = w.db })
        ]).1.db
unfolding calls
transaction_result P w (ok a) w' h h' = h'
transaction_result P w (err e) w' h h' = h

module _ {A : Type 0} {P : Db → Type 0} where
  pub Keeps-pure : (a : A) → Keeps P (pure a)
  unfolding calls
  Keeps-pure a = record { at = λ w h. h; silent = Silent-pure a }

  pub Keeps-raise : (e : Exception) → Keeps {A = A} P (raise e)
  unfolding calls
  Keeps-raise e = record { at = λ w h. h; silent = Silent-raise e }

  pub Keeps-query : (f : Db → A) → Keeps P (query f)
  unfolding calls
  Keeps-query f = record { at = λ w h. h; silent = Silent-query f }

module _ {A B : Type 0} {P : Db → Type 0} where
  bind_result :
      (w : World) (r : Result A) (f : A → M B)
      → ((a : A) → Keeps P (f a))
      → P w.db
      → P (◌>>=◌ (λ v. (r, w)) f w).1.db
  unfolding calls
  bind_result w (ok a) f keeps h = (keeps a).at w h
  bind_result w (err e) f keeps h = h

  pub Keeps-bind :
      (m : M A) (f : A → M B) → Keeps P m → ((a : A) → Keeps P (f a)) → Keeps P (m >>= f)
  unfolding calls
  Keeps-bind m f hm hf = record {
    at = λ w h. bind_result (m w).1 (m w).0 f hf (hm.at w h);
    silent = Silent-bind m f hm.silent (λ a. (hf a).silent);
  }

  pub Keeps-then : (m : M A) (k : M B) → Keeps P m → Keeps P k → Keeps P (m >> k)
  unfolding calls
  Keeps-then m k hm hk = Keeps-bind m (λ _. k) hm (λ _. hk)

module _ {P : Db → Type 0} where
  pub Keeps-execute : (f : Db → Db) → ((db : Db) → P db → P (f db)) → Keeps P (execute f)
  unfolding calls
  Keeps-execute f keeps = record { at = λ w h. keeps w.db h; silent = Silent-execute f }

  pub Keeps-raise_if : (b : Bool) (e : Exception) → Keeps P (raise_if b e)
  unfolding calls
  Keeps-raise_if b e = record { at = λ w h. h; silent = Silent-raise_if b e }

  pub Keeps-skip : Keeps P skip
  unfolding calls
  Keeps-skip = record { at = λ w h. h; silent = Silent-skip }

  pub Keeps-when : (b : Bool) (m : M Unit) → Keeps P m → Keeps P (when b m)
  unfolding calls
  Keeps-when true m hm = record { at = λ w h. hm.at w h; silent = Silent-when true m hm.silent }
  Keeps-when false m hm = record { at = λ w h. h; silent = Silent-when false m hm.silent }

  -- The row may be taken to break no constraint.
  pub Keeps-write :
      (taken : Db → Bool) (f : Db → Db)
      → ((db : Db) → P db → taken db ≡ false → P (f db))
      → Keeps P (write_unless taken f)
  unfolding calls
  Keeps-write taken f keeps = record {
    at = λ w h. write_result P (taken w.db) w (f w.db) h (keeps w.db h);
    silent = Silent-write taken f;
  }

  pub Keeps-utc_now : Keeps P utc_now
  unfolding calls
  Keeps-utc_now = record { at = λ w h. h; silent = Silent-utc_now }

  pub Keeps-after : (seconds : ℕ) → Keeps P (after seconds)
  unfolding calls
  Keeps-after seconds = record { at = λ w h. h; silent = Silent-after seconds }

  pub Keeps-new_id : (name : String) → Keeps P (new_id name)
  unfolding calls
  Keeps-new_id name = record { at = λ w h. h; silent = Silent-new_id name }

  pub Keeps-for_each :
      {A : Type 0} (l : List A) (f : A → M Unit)
      → ((a : A) → Keeps P (f a))
      → Keeps P (for_each l f)
  unfolding calls
  Keeps-for_each [] f keeps = Keeps-pure tt
  Keeps-for_each (a ∷ l) f keeps =
      Keeps-then (f a) (for_each l f) (keeps a) (Keeps-for_each l f keeps)

module _ {A : Type 0} {P : Db → Type 0} where
  pub Keeps-transaction : (m : M A) → Keeps P m → Keeps P (transaction m)
  unfolding calls
  Keeps-transaction m hm = record {
    at = λ w h. transaction_result P w (m w).0 (m w).1 h (hm.at w h);
    silent = Silent-transaction m hm.silent;
  }

-- A call of `audit.record` keeps what does not speak of the audit log.
pub Keeps-record_audit :
    {P : Db → Type 0} (actor operation entity_type entity_id outcome : String)
    → ((db : Db) (l : List AuditEntry) → P db → P (record db { audit_log = l }))
    → Keeps P (record_audit actor operation entity_type entity_id outcome)
unfolding calls
Keeps-record_audit actor operation entity_type entity_id outcome keeps = record {
  at = λ w h. keeps w.db _ h;
  silent = Silent-record_audit actor operation entity_type entity_id outcome;
}

catch_result :
    {A : Type 0} (P : Db → Type 0) (r : Result A) (w : World) (handler : M A)
    → Keeps P handler
    → P w.db
    → P (catch_integrity (λ v. (r, w)) handler w).1.db
unfolding calls
catch_result P (ok a) w handler keeps h = h
catch_result P (err Exception.integrity_error) w handler keeps h = keeps.at w h
catch_result P (err _) w handler keeps h = h

pub Keeps-catch :
    {A : Type 0} {P : Db → Type 0} (m handler : M A)
    → Keeps P m
    → Keeps P handler
    → Keeps P (catch_integrity m handler)
unfolding calls
Keeps-catch {P} m handler hm hh = record {
  at = λ w h. catch_result P (m w).0 (m w).1 handler hh (hm.at w h);
  silent = Silent-catch m handler hm.silent hh.silent;
}

pub Keeps-on_row :
    {A B : Type 0} {P : Db → Type 0} (row : Option B) (missing : M A) (found : B → M A)
    → Keeps P missing
    → ((b : B) → Keeps P (found b))
    → Keeps P (on_row row missing found)
unfolding calls
Keeps-on_row none missing found hm hf = hm
Keeps-on_row (some b) missing found hm hf = hf b

pub Keeps-if :
    {A : Type 0} {P : Db → Type 0} (b : Bool) (m n : M A)
    → Keeps P m
    → Keeps P n
    → Keeps P (if b then m else n)
Keeps-if true m n hm hn = hm
Keeps-if false m n hm hn = hn

-- What follows a test may take it to have failed.
pub Keeps-guard :
    {A : Type 0} {P : Db → Type 0} (b : Bool) (e : Exception) (k : M A)
    → (b ≡ false → Keeps P k)
    → Keeps P (raise_if b e >> k)
unfolding calls
Keeps-guard true e k h = record { at = λ w p. p; silent = record { at = λ w. refl } }
Keeps-guard false e k h = record {
  at = λ w p. (h refl).at w p;
  silent = record { at = λ w. (h refl).silent.at w };
}

-- The rules for `search`, to which an invariant adds those of its own statements.
pub ruleset keeps_rules = (
  Keeps-pure, Keeps-raise, Keeps-query, Keeps-bind, Keeps-then, Keeps-raise_if, Keeps-skip,
  Keeps-when, Keeps-write, Keeps-utc_now, Keeps-after, Keeps-new_id, Keeps-for_each,
  Keeps-transaction, Keeps-catch, Keeps-on_row, Keeps-if,
)
