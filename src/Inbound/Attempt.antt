-- ===== src/Inbound/Attempt.antt =====
-- Code that touches no state and returns or raises.
use rrpp_agent_bridge.Common.{Bool, true, false, ◌≡◌, refl}
use rrpp_agent_bridge.Store.Monad.{Result, ok, err, Exception}

unfoldable pub attempt : {A B : Type 0} → Result A → (A → Result B) → Result B
attempt (ok a) next = next a
attempt (err e) next = err e

unfoldable pub demand : {A : Type 0} → Bool → Exception → Result A → Result A
demand true e r = r
demand false e r = err e

-- What returned, came from a value that the next step takes.
pub attempt-ok :
    {A B : Type 0} (r : Result A) (next : A → Result B) (b : B)
    → attempt r next ≡ ok b
    → (a : A) × (r ≡ ok a) × (next a ≡ ok b)
unfolding attempt
attempt-ok (ok a) next b h = (a, refl, h)
attempt-ok (err e) next b h = cc h

pub demand-ok :
    {A : Type 0} (b : Bool) (e : Exception) (r : Result A) (a : A)
    → demand b e r ≡ ok a
    → (b ≡ true) × (r ≡ ok a)
unfolding demand
demand-ok true e r a h = (refl, h)
demand-ok false e r a h = cc h
