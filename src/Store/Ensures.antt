-- ===== src/Store/Ensures.antt =====
-- What holds of the database after a call that returns, from what held before it. A transaction that
-- raises restores the database, so that for a transaction this is enough to keep an invariant.
use rrpp_agent_bridge.Common.{Bool, true, false, ◌≡◌, refl}
use rrpp_agent_bridge.Store.Rows.{Db}
use rrpp_agent_bridge.Store.Keeps.{Keeps}
use rrpp_agent_bridge.Store.Silent.{IsSilent, Silent-transaction}
use rrpp_agent_bridge.Store.Monad.{
  calls, M, World, Result, ok, err, Exception, pure, raise, raise_if, when, write_unless, query,
  execute, transaction, ◌>>=◌, ◌>>◌,
}

abbrev pub Holds : {A : Type 0} → (Db → Type 0) → Result A × World → Type 0
Holds Q (ok a, w) = Q w.db
Holds Q (err e, w) = Unit

pub record Ensures {A : Type 0} (P Q : Db → Type 0) (m : M A) : Type 0 where
  pub at : (w : World) → P w.db → Holds Q (m w)

bind-Holds :
    {A B : Type 0} (Q R : Db → Type 0) (r : Result A × World) (f : A → M B)
    → ((a : A) → Ensures Q R (f a))
    → Holds Q r
    → Holds R (◌>>=◌ (λ v. r) f r.1)
unfolding calls
bind-Holds Q R (ok a, w) f next h = (next a).at w h
bind-Holds Q R (err e, w) f next h = tt

module _ {A B : Type 0} {P : Db → Type 0} (Q : Db → Type 0) {R : Db → Type 0} where
  pub Ensures-bind :
      (m : M A) (f : A → M B)
      → Ensures P Q m
      → ((a : A) → Ensures Q R (f a))
      → Ensures P R (m >>= f)
  unfolding calls
  Ensures-bind m f hm hf = record { at = λ w h. bind-Holds Q R (m w) f hf (hm.at w h) }

  pub Ensures-then : (m : M A) (k : M B) → Ensures P Q m → Ensures Q R k → Ensures P R (m >> k)
  unfolding calls
  Ensures-then m k hm hk = Ensures-bind m (λ _. k) hm (λ _. hk)

module _ {A : Type 0} {P Q : Db → Type 0} where
  pub Ensures-pure : (a : A) → ((db : Db) → P db → Q db) → Ensures P Q (pure a)
  unfolding calls
  Ensures-pure a weaken = record { at = λ w h. weaken w.db h }

  pub Ensures-raise : (e : Exception) → Ensures {A = A} P Q (raise e)
  unfolding calls
  Ensures-raise e = record { at = λ w h. tt }

  pub Ensures-query :
      {B : Type 0} (g : Db → B) (f : B → M A)
      → ((b : B) → Ensures (λ db. P db × (g db ≡ b)) Q (f b))
      → Ensures P Q (query g >>= f)
  unfolding calls
  Ensures-query g f next = record { at = λ w h. (next (g w.db)).at w (h, refl) }

  pub Ensures-weaken :
      {P' : Db → Type 0} (m : M A) → ((db : Db) → P' db → P db) → Ensures P Q m → Ensures P' Q m
  unfolding calls
  Ensures-weaken m weaken hm = record { at = λ w h. hm.at w (weaken w.db h) }

keeps_Holds : {A : Type 0} (P : Db → Type 0) (r : Result A × World) → P r.1.db → Holds P r
unfolding calls
keeps_Holds P (ok a, w) h = h
keeps_Holds P (err e, w) h = tt

pub Ensures-Keeps : {A : Type 0} {P : Db → Type 0} (m : M A) → Keeps P m → Ensures P P m
unfolding calls
Ensures-Keeps {P} m hm = record { at = λ w h. keeps_Holds P (m w) (hm.at w h) }

restored :
    {A : Type 0} (P : Db → Type 0) (w : World) (r : Result A × World)
    → P w.db
    → Holds P r
    → P
        (elim r.0 as (λ _. Result A × World) [
          | ok a ↦ (ok a, r.1)
          | err e ↦ (err e, record (r.1) { db = w.db })
        ]).1.db
unfolding calls
restored P w (ok a, w') h h' = h'
restored P w (err e, w') h h' = h

-- Inside a transaction a property may be broken in between: it is enough that it is kept by a call
-- that returns.
pub Keeps-transaction_of :
    {A : Type 0} {P : Db → Type 0} (m : M A) → IsSilent m → Ensures P P m → Keeps P (transaction m)
unfolding calls
Keeps-transaction_of {P} m silent hm = record {
  at = λ w h. restored P w (m w) h (hm.at w h);
  silent = Silent-transaction m silent;
}

pub Ensures-execute :
    {P Q : Db → Type 0} (f : Db → Db) → ((db : Db) → P db → Q (f db)) → Ensures P Q (execute f)
unfolding calls
Ensures-execute f step = record { at = λ w h. step w.db h }

-- What is raised leaves nothing to show, so that the rest may take the test to have failed.
pub Ensures-guard :
    {A : Type 0} {P Q : Db → Type 0} (b : Bool) (e : Exception) (k : M A)
    → (b ≡ false → Ensures P Q k)
    → Ensures P Q (raise_if b e >> k)
unfolding calls
Ensures-guard true e k h = record { at = λ w p. tt }
Ensures-guard false e k h = record { at = λ w p. (h refl).at w p }

written-Holds :
    (Q : Db → Type 0) (b : Bool) (w : World) (db : Db)
    → (b ≡ false → Q db)
    → Holds Q (elim b as (λ _. Result (Unit {0}) × World) [
      | true ↦ (err Exception.integrity_error, w)
      | false ↦ (ok tt, record w { db = db })
    ])
written-Holds Q true w db h = tt
written-Holds Q false w db h = h refl

pub Ensures-write :
    {P Q : Db → Type 0} (taken : Db → Bool) (f : Db → Db)
    → ((db : Db) → P db → taken db ≡ false → Q (f db))
    → Ensures P Q (write_unless taken f)
unfolding calls
Ensures-write {Q} taken f step = record {
  at = λ w h. written-Holds Q (taken w.db) w (f w.db) (step w.db h);
}

pub Ensures-when :
    {P Q : Db → Type 0} (b : Bool) (m : M (Unit {0}))
    → ((db : Db) → P db → Q db)
    → (b ≡ true → Ensures P Q m)
    → Ensures P Q (when b m)
unfolding calls
Ensures-when true m weaken h = record { at = λ w p. (h refl).at w p }
Ensures-when false m weaken h = record { at = λ w p. weaken w.db p }
