-- ===== src/Runtime/Modes.antt =====
-- What is read back of the execution mode: `set_mode` and `get_mode` of rrpp_bridge/runtime.py.
use rrpp_agent_bridge.Common.{
  String, Bool, true, not, some, List, [], ◌∷◌, ◌≡◌, refl, ◌∙◌, arith, ◌==◌, ap, find_where,
  update_where,
}
use rrpp_agent_bridge.Common.Json.{member}
use rrpp_agent_bridge.Store.Rows.{Setting}
use rrpp_agent_bridge.Store.Monad.{
  calls, M, raise_if, value_error, pure, transaction, ◌>>=◌, ◌>>◌, World, execute, ok, record_audit,
  utc_now,
}
use rrpp_agent_bridge.Runtime.{
  get_mode, mode_key, mode_of, set_mode, stored_mode, valid_modes, write_mode,
}

-- The row that a statement rewrites is found again, rewritten.
find-update :
    (p : Setting → Bool) (f : Setting → Setting) (l : List Setting) (s : Setting)
    → ((t : Setting) → p (f t) ≡ p t)
    → find_where p l ≡ some s
    → find_where p (update_where p f l) ≡ some (f s)
unfolding find_where update_where
find-update p f [] s same h = cc h
find-update p f (t ∷ l) s same h = grind (arith, h, same t, find-update p f l s same)

get_mode-found :
    (w : World) (s : Setting)
    → stored_mode w.db ≡ some s
    → member s.value valid_modes ≡ true
    → get_mode w ≡ (ok s.value, w)
unfolding get_mode mode_of calls
get_mode-found w s stored old = rw (stored, old) refl

-- The world after the mode is written.
abbrev written : String → String → World → World
written mode actor w =
    (record_audit actor "mode.changed" "runtime_setting" mode_key "updated"
      (execute (write_mode mode actor (w.clock 0)) (utc_now w).1).1).1

-- The steps of a call that returns.
bind-ok :
    {A B : Type 0} (m : M A) (f : A → M B) (a : A) (w w' : World)
    → m w ≡ (ok a, w')
    → (m >>= f) w ≡ f a w'
unfolding calls
bind-ok m f a w w' h = ap (λ r. ◌>>=◌ (λ v. r) f w) h

transaction-ok :
    {A : Type 0} (m : M A) (a : A) (w w' : World) → m w ≡ (ok a, w') → transaction m w ≡ (ok a, w')
unfolding calls
transaction-ok m a w w' h = ap (λ r. transaction (λ v. r) w) h

-- The body of the transaction.
abbrev write_after : String → String → String → M String
write_after mode actor previous = do
  timestamp ← utc_now
  execute (write_mode mode actor timestamp)
  record_audit actor "mode.changed" "runtime_setting" mode_key "updated"
  pure previous

abbrev replaced : String → String → M String
replaced mode actor = get_mode >>= write_after mode actor

replaced-found :
    (mode actor : String) (w : World) (s : Setting)
    → stored_mode w.db ≡ some s
    → member s.value valid_modes ≡ true
    → replaced mode actor w ≡ (ok s.value, written mode actor w)
unfolding calls
replaced-found mode actor w s stored old =
    bind-ok get_mode (write_after mode actor) s.value w w (get_mode-found w s stored old)

set_mode-found :
    (mode actor : String) (w : World) (s : Setting)
    → member mode valid_modes ≡ true
    → stored_mode w.db ≡ some s
    → member s.value valid_modes ≡ true
    → set_mode mode actor w ≡ (ok (s.value, mode), written mode actor w)
unfolding set_mode calls
set_mode-found mode actor w s valid stored old =
    bind-ok (raise_if (not (member mode valid_modes)) (value_error "Invalid execution mode"))
      (λ _. transaction (replaced mode actor) >>= λ previous. pure (previous, mode)) tt w w
      (rw valid refl)
    ∙ bind-ok (transaction (replaced mode actor)) (λ previous. pure (previous, mode)) s.value w
        (written mode actor w)
        (transaction-ok (replaced mode actor) s.value w _
          (replaced-found mode actor w s stored old))

stored-written :
    (mode actor : String) (w : World) (s : Setting)
    → stored_mode w.db ≡ some s
    → (t : Setting) × (stored_mode (written mode actor w).db ≡ some t) × (t.value ≡ mode)
unfolding write_mode calls
stored-written mode actor w s stored =
    (_, find-update (λ t. t.key == mode_key) _ w.db.runtime_settings s (λ t. refl) stored, refl)

read_after :
    (mode : String) (w : World) (t : Setting)
    → stored_mode w.db ≡ some t
    → t.value ≡ mode
    → member mode valid_modes ≡ true
    → (get_mode w).0 ≡ ok mode
read_after mode w t stored same valid =
    ap (λ r. r.0) (get_mode-found w t stored (rw same valid)) ∙ ap ok same

-- Where a valid mode is stored, a valid mode that is set is the mode that is read next, and what
-- `set_mode` gives is the mode before and the new one.
pub set_mode-get_mode :
    (mode actor : String) (w : World) (s : Setting)
    → member mode valid_modes ≡ true
    → stored_mode w.db ≡ some s
    → member s.value valid_modes ≡ true
    → ((set_mode mode actor w).0 ≡ ok (s.value, mode))
      × ((get_mode (set_mode mode actor w).1).0 ≡ ok mode)
set_mode-get_mode mode actor w s valid stored old =
    let (t, kept, same) = stored-written mode actor w s stored in
    let run = set_mode-found mode actor w s valid stored old in
    (ap (λ r. r.0) run, rw run (read_after mode (written mode actor w) t kept same valid))
