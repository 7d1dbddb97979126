-- ===== src/Store/Silent.antt =====
-- Calls that send no request.
use rrpp_agent_bridge.Common.{
  ℕ, String, Bool, true, false, Option, none, some, List, [], ◌∷◌, ◌≡◌, refl, ◌∙◌,
}
use rrpp_agent_bridge.Store.Rows.{Db}
use rrpp_agent_bridge.Store.Monad.{
  calls, M, World, Result, ok, err, Exception, pure, raise, query, execute, raise_if, when, skip,
  catch_integrity, write_unless, transaction, for_each, on_row, utc_now, after, new_id,
  record_audit, ◌>>=◌, ◌>>◌,
}

pub record IsSilent {A : Type 0} (m : M A) : Type 0 where
  pub at : (w : World) → (m w).1.requests ≡ w.requests

module _ {A : Type 0} where
  pub Silent-pure : (a : A) → IsSilent (pure a)
  unfolding calls
  Silent-pure a = record { at = λ w. refl }

  pub Silent-raise : (e : Exception) → IsSilent {A = A} (raise e)
  unfolding calls
  Silent-raise e = record { at = λ w. refl }

  pub Silent-query : (f : Db → A) → IsSilent (query f)
  unfolding calls
  Silent-query f = record { at = λ w. refl }

  transaction_silent :
      (w : World) (r : Result A) (w' : World)
      → (elim r as (λ _. Result A × World) [
        | ok a ↦ (ok a, w')
        | err e ↦ (err e, record w' { db = w.db })
      ]).1.requests
        ≡ w'.requests
  transaction_silent w (ok a) w' = refl
  transaction_silent w (err e) w' = refl

  pub Silent-transaction : (m : M A) → IsSilent m → IsSilent (transaction m)
  unfolding calls
  Silent-transaction m hm = record { at = λ w. transaction_silent w (m w).0 (m w).1 ∙ hm.at w }

  pub Silent-on_row :
      {B : Type 0} (row : Option B) (missing : M A) (found : B → M A)
      → IsSilent missing
      → ((b : B) → IsSilent (found b))
      → IsSilent (on_row row missing found)
  unfolding calls
  Silent-on_row none missing found hm hf = hm
  Silent-on_row (some b) missing found hm hf = hf b

module _ {A B : Type 0} where
  bind_silent :
      (w : World) (r : Result A) (f : A → M B)
      → ((a : A) → IsSilent (f a))
      → (◌>>=◌ (λ v. (r, w)) f w).1.requests ≡ w.requests
  unfolding calls
  bind_silent w (ok a) f next = (next a).at w
  bind_silent w (err e) f next = refl

  pub Silent-bind :
      (m : M A) (f : A → M B) → IsSilent m → ((a : A) → IsSilent (f a)) → IsSilent (m >>= f)
  unfolding calls
  Silent-bind m f hm hf = record { at = λ w. bind_silent (m w).1 (m w).0 f hf ∙ hm.at w }

  pub Silent-then : (m : M A) (k : M B) → IsSilent m → IsSilent k → IsSilent (m >> k)
  unfolding calls
  Silent-then m k hm hk = Silent-bind m (λ _. k) hm (λ _. hk)

pub Silent-execute : (f : Db → Db) → IsSilent (execute f)
unfolding calls
Silent-execute f = record { at = λ w. refl }

pub Silent-raise_if : (b : Bool) (e : Exception) → IsSilent (raise_if b e)
unfolding calls
Silent-raise_if b e = record { at = λ w. refl }

pub Silent-when : (b : Bool) (m : M Unit) → IsSilent m → IsSilent (when b m)
unfolding calls
Silent-when true m hm = record { at = λ w. hm.at w }
Silent-when false m hm = record { at = λ w. refl }

write_silent :
    (b : Bool) (w : World) (db : Db)
    → (elim b as (λ _. Result (Unit {0}) × World) [
      | true ↦ (err Exception.integrity_error, w)
      | false ↦ (ok tt, record w { db = db })
    ]).1.requests
      ≡ w.requests
write_silent true w db = refl
write_silent false w db = refl

pub Silent-write : (taken : Db → Bool) (f : Db → Db) → IsSilent (write_unless taken f)
unfolding calls
Silent-write taken f = record { at = λ w. write_silent (taken w.db) w (f w.db) }

pub Silent-utc_now : IsSilent utc_now
unfolding calls
Silent-utc_now = record { at = λ w. refl }

pub Silent-after : (seconds : ℕ) → IsSilent (after seconds)
unfolding calls
Silent-after seconds = record { at = λ w. refl }

pub Silent-new_id : (name : String) → IsSilent (new_id name)
unfolding calls
Silent-new_id name = record { at = λ w. refl }

pub Silent-record_audit :
    (actor operation entity_type entity_id outcome : String)
    → IsSilent (record_audit actor operation entity_type entity_id outcome)
unfolding calls
Silent-record_audit actor operation entity_type entity_id outcome = record { at = λ w. refl }

pub Silent-for_each :
    {A : Type 0} (l : List A) (f : A → M Unit)
    → ((a : A) → IsSilent (f a))
    → IsSilent (for_each l f)
unfolding calls
Silent-for_each [] f next = record { at = λ w. refl }
Silent-for_each (a ∷ l) f next =
    Silent-then (f a) (for_each l f) (next a) (Silent-for_each l f next)

pub Silent-skip : IsSilent skip
unfolding calls
Silent-skip = record { at = λ w. refl }

catch_silent :
    {A : Type 0} (r : Result A) (w : World) (handler : M A)
    → IsSilent handler
    → (catch_integrity (λ v. (r, w)) handler w).1.requests ≡ w.requests
unfolding calls
catch_silent (ok a) w handler h = refl
catch_silent (err Exception.integrity_error) w handler h = h.at w
catch_silent (err _) w handler h = refl

pub Silent-catch :
    {A : Type 0} (m handler : M A)
    → IsSilent m
    → IsSilent handler
    → IsSilent (catch_integrity m handler)
unfolding calls
Silent-catch m handler hm hh = record {
  at = λ w. catch_silent (m w).0 (m w).1 handler hh ∙ hm.at w;
}

pub ruleset silent_rules = (
  Silent-pure, Silent-raise, Silent-query, Silent-transaction, Silent-on_row, Silent-bind,
  Silent-then, Silent-execute, Silent-raise_if, Silent-when, Silent-write, Silent-utc_now,
  Silent-after, Silent-new_id, Silent-record_audit, Silent-for_each,
)
