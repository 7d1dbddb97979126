-- ===== src/Store/Meets.antt =====
-- What a call makes of a world, from what holds before: the postcondition speaks of the result, a
-- value or an exception, and of the world that is left.
use rrpp_agent_bridge.Common.{Option, none, some, ◌≡◌, refl}
use rrpp_agent_bridge.Store.Rows.{Db}
use rrpp_agent_bridge.Store.Monad.{
  calls, M, World, Result, ok, err, Exception, pure, raise, query, transaction, on_row, ◌>>=◌, ◌>>◌,
}

abbrev pub Post : Type 0 → Type 1
Post A = Result A → World → Type 0

pub record Meets {A : Type 0} (P : World → Type 0) (Q : Post A) (m : M A) : Type 0 where
  pub at : (w : World) → P w → Q (m w).0 (m w).1

bind_meets :
    {A B : Type 0} (R : Post A) (Q : Post B) (f : A → M B) (r : Result A) (w : World)
    → ((a : A) → Meets (R (ok a)) Q (f a))
    → ((e : Exception) (v : World) → R (err e) v → Q (err e) v)
    → R r w
    → Q (◌>>=◌ (λ v. (r, w)) f w).0 (◌>>=◌ (λ v. (r, w)) f w).1
unfolding calls
bind_meets R Q f (ok a) w next errors h = (next a).at w h
bind_meets R Q f (err e) w next errors h = errors e w h

module _ {A B : Type 0} {P : World → Type 0} (R : Post A) {Q : Post B} where
  pub Meets-bind :
      (m : M A) (f : A → M B)
      → Meets P R m
      → ((a : A) → Meets (R (ok a)) Q (f a))
      → ((e : Exception) (v : World) → R (err e) v → Q (err e) v)
      → Meets P Q (m >>= f)
  unfolding calls
  Meets-bind m f hm hf errors = record {
    at = λ w h. bind_meets R Q f (m w).0 (m w).1 hf errors (hm.at w h);
  }

  pub Meets-then :
      (m : M A) (k : M B)
      → Meets P R m
      → ((a : A) → Meets (R (ok a)) Q k)
      → ((e : Exception) (v : World) → R (err e) v → Q (err e) v)
      → Meets P Q (m >> k)
  unfolding calls
  Meets-then m k hm hk errors = Meets-bind m (λ _. k) hm hk errors

module _ {A : Type 0} {P : World → Type 0} {Q : Post A} where
  pub Meets-pure : (a : A) → ((w : World) → P w → Q (ok a) w) → Meets P Q (pure a)
  unfolding calls
  Meets-pure a weaken = record { at = weaken }

  pub Meets-raise : (e : Exception) → ((w : World) → P w → Q (err e) w) → Meets P Q (raise e)
  unfolding calls
  Meets-raise e weaken = record { at = weaken }

  pub Meets-query :
      {B : Type 0} (g : Db → B) (f : B → M A)
      → ((b : B) → Meets (λ w. P w × (g w.db ≡ b)) Q (f b))
      → Meets P Q (query g >>= f)
  unfolding calls
  Meets-query g f next = record { at = λ w h. (next (g w.db)).at w (h, refl) }

  pub Meets-weaken :
      {P' : World → Type 0} (m : M A) → ((w : World) → P' w → P w) → Meets P Q m → Meets P' Q m
  Meets-weaken m weaken hm = record { at = λ w h. hm.at w (weaken w h) }

  pub Meets-on_row :
      {B : Type 0} (row : Option B) (missing : M A) (found : B → M A)
      → (row ≡ none → Meets P Q missing)
      → ((b : B) → row ≡ some b → Meets P Q (found b))
      → Meets P Q (on_row row missing found)
  unfolding calls
  Meets-on_row none missing found hm hf = hm refl
  Meets-on_row (some b) missing found hm hf = hf b refl

restored_meets :
    {A : Type 0} (Q : Post A) (w : World) (r : Result A) (w' : World)
    → ((e : Exception) → r ≡ err e → Q (err e) (record w' { db = w.db }))
    → Q r w'
    → let out = elim r as (λ _. Result A × World) [
      | ok a ↦ (ok a, w')
      | err e ↦ (err e, record w' { db = w.db })
    ] in
      Q out.0 out.1
restored_meets Q w (ok a) w' back h = h
restored_meets Q w (err e) w' back h = back e refl

-- Where the transaction raises, the postcondition is to hold of the world with the old database.
pub Meets-transaction :
    {A : Type 0} {P : World → Type 0} {Q : Post A} (m : M A)
    → ((w : World) (e : Exception)
        → P w
        → (m w).0 ≡ err e
        → Q (err e) (record ((m w).1) { db = w.db }))
    → Meets P Q m
    → Meets P Q (transaction m)
unfolding calls
Meets-transaction {Q} m back hm = record {
  at = λ w h. restored_meets Q w (m w).0 (m w).1 (λ e raised. back w e h raised) (hm.at w h);
}
