-- ===== src/Delivery/Drains.antt =====
-- How many runs of `DeliveryExecutor.run_once` of rrpp_bridge/delivery.py find a delivery.
use rrpp_agent_bridge.Common.{
  ℕ, suc, ◌+◌, ◌≤◌, String, Bool, true, false, ◌&&◌, Option, none, some, List, [], ◌∷◌, ◌≡◌, ◌∙◌,
  arith, ◌==◌, ==-refl, and-true, count_where, count-pos_of_find, find_where, find_where-true, leb,
  update_where,
}
use rrpp_agent_bridge.Common.Text.{Python}
use rrpp_agent_bridge.Sender.{Remote}
use rrpp_agent_bridge.Store.Rows.{Db, Delivery}
use rrpp_agent_bridge.Store.Monad.{
  calls, World, Result, ok, err, query, on_row, pure, transaction, utc_now, ◌>>=◌,
}
use rrpp_agent_bridge.Store.Meets.{
  Meets, Meets-bind, Meets-on_row, Meets-pure, Meets-query, Meets-then, Meets-transaction,
  Meets-weaken, Post,
}
use rrpp_agent_bridge.Kept.{Ends, IsEnded}
use rrpp_agent_bridge.Delivery.Permission.{Senders}
use rrpp_agent_bridge.Delivery.Worker.{
  claim, claim_delivery, claimed_delivery, is_pending, set_delivery, set_pending_delivery,
}
use rrpp_agent_bridge.Delivery.Keeps.{recover_stale-Keeps}
use rrpp_agent_bridge.Delivery.Run.{deliver, run_once}
use rrpp_agent_bridge.Delivery.Run.Keeps.{deliver-Stays}
use rrpp_agent_bridge.Delivery.Once.{claimed-Ends, waits}
use rrpp_agent_bridge.Delivery.AtMostOnce.{Run, after_runs}

-- The rows that wait to be sent.
abbrev pub waiting : Db → ℕ
waiting db = count_where (λ d. is_pending d.status) db.deliveries

abbrev AtMost : ℕ → Db → Type 0
AtMost n db = waiting db ≤ n

count-ended :
    (p : Delivery → Bool) (f : Delivery → Delivery) (rows : List Delivery)
    → Ends f
    → count_where (λ d. is_pending d.status) (update_where p f rows)
      ≤ count_where (λ d. is_pending d.status) rows
unfolding count_where update_where
count-ended p f [] e = omega arith
count-ended p f (d ∷ rows) e = grind (arith, count-ended p f rows e, e.not_pending d)

AtMost-IsEnded : (n : ℕ) → IsEnded (AtMost n)
unfolding set_delivery
AtMost-IsEnded n = record {
  same = λ db db' jobs deliveries h. rw deliveries h;
  end = λ db id f e h. omega (arith, h, count-ended (λ d. d.id == id) f db.deliveries e);
}

-- The rows that are claimed no longer wait.
count-claimed :
    (id : String) (f : Delivery → Delivery) (rows : List Delivery)
    → Ends f
    → count_where (λ d. is_pending d.status) (update_where (waits id) f rows)
        + count_where (waits id) rows
      ≤ count_where (λ d. is_pending d.status) rows
unfolding count_where update_where
count-claimed id f [] e = omega arith
count-claimed id f (d ∷ rows) e = grind (arith, count-claimed id f rows e, e.not_pending d)

-- A run that claims a delivery leaves one less.
abbrev claim_post : {A : Type 0} → ℕ → Post (Option A)
claim_post n (ok (some a)) w = suc (waiting w.db) ≤ n
claim_post n (ok none) w = AtMost n w.db
claim_post n (err e) w = AtMost n w.db

abbrev run_post : ℕ → Post Bool
run_post n (ok true) w = suc (waiting w.db) ≤ n
run_post n (ok false) w = AtMost n w.db
run_post n (err e) w = AtMost n w.db

abbrev due : ℕ → Delivery → Bool
due timestamp d = is_pending d.status && leb d.available_at timestamp

claimed-waiting :
    (t lease : ℕ) (worker_id : String) (d : Delivery) (db : Db)
    → find_where (due t) db.deliveries ≡ some d
    → suc (waiting (set_pending_delivery d.id (claimed_delivery t lease worker_id) db)) ≤ waiting db
unfolding set_pending_delivery
claimed-waiting t lease worker_id d db found =
    let pending : is_pending d.status ≡ true =
      (and-true _ _ (find_where-true (due t) db.deliveries d found)).0 in
    omega (
      arith,
      count-pos_of_find (due t) (waits d.id) db.deliveries d found
          (ground (arith, ==-refl d.id, pending)),
      count-claimed d.id (claimed_delivery t lease worker_id) db.deliveries
          (claimed-Ends t lease worker_id),
    )

module _ (n : ℕ) where
  claim_delivery-Meets :
      (t lease : ℕ) (worker_id : String) (d : Delivery)
      → Meets
          (λ w. AtMost n w.db × (find_where (due t) w.db.deliveries ≡ some d))
          (claim_post n)
          (claim_delivery t lease worker_id d)
  unfolding claim_delivery calls
  claim_delivery-Meets t lease worker_id d = record {
    at = λ w h. omega (arith, h.0, claimed-waiting t _ worker_id d w.db h.1);
  }

  transaction-Meets :
      (t lease : ℕ) (worker_id : String)
      → Meets
          (λ w. AtMost n w.db)
          (claim_post n)
          (transaction do
            row ← query (λ db. find_where (due t) db.deliveries)
            on_row row (pure none) (claim_delivery t lease worker_id))
  transaction-Meets t lease worker_id =
      Meets-transaction _ (λ w e h _. h)
        (Meets-query _ _ λ row.
          Meets-on_row row _ _ (λ _. Meets-pure none (λ w h. h.0))
            (λ d found.
              Meets-weaken _ (λ w h. (h.0, h.1 ∙ found))
                (claim_delivery-Meets t lease worker_id d)))

  read_back : (row : Option Delivery) (w : World) → suc (waiting w.db) ≤ n → claim_post n (ok row) w
  read_back none w h = omega (arith, h)
  read_back (some d) w h = h

  on_claimed-Meets :
      (claimed : Option String)
      → Meets (claim_post n (ok claimed)) (claim_post n) (
          on_row claimed
            (pure none)
            (λ id. query (λ db. find_where (λ d. d.id == id) db.deliveries)))
  unfolding calls
  on_claimed-Meets none = Meets-pure none (λ w h. h)
  on_claimed-Meets (some id) = record { at = λ w h. read_back _ w h }

  claim-Meets :
      (lease : ℕ) (worker_id : String)
      → Meets (λ w. AtMost n w.db) (claim_post n) (claim lease worker_id)
  unfolding claim calls
  claim-Meets lease worker_id =
      Meets-bind (λ _ w. AtMost n w.db) utc_now _ (record { at = λ w h. h })
        (λ t.
          Meets-bind (claim_post n) _ _ (transaction-Meets t lease worker_id) on_claimed-Meets
            (λ e w h. h))
        (λ e w h. h)

  fewer : (r : Result Bool) (w : World) → suc (waiting w.db) ≤ n → run_post n r w
  fewer (ok true) w h = h
  fewer (ok false) w h = omega (arith, h)
  fewer (err e) w h = omega (arith, h)

  Fewer-IsEnded : IsEnded (λ db. suc (waiting db) ≤ n)
  unfolding set_delivery
  Fewer-IsEnded = record {
    same = λ db db' jobs deliveries h. rw deliveries h;
    end = λ db id f e h. omega (arith, h, count-ended (λ d. d.id == id) f db.deliveries e);
  }

  claims-fewer :
      (id : String) (f : Delivery → Delivery) (db : Db)
      → Ends f
      → suc (waiting db) ≤ n
      → suc (waiting (set_pending_delivery id f db)) ≤ n
  unfolding set_pending_delivery
  claims-fewer id f db e h = omega (arith, h, count-ended (waits id) f db.deliveries e)

  deliver-Meets :
      (python : Python) (remote : Remote) (senders : Senders) (worker_id : String) (d : Delivery)
      → Meets (λ w. suc (waiting w.db) ≤ n) (run_post n) (deliver python remote senders worker_id d)
  deliver-Meets python remote senders worker_id d = record {
    at = λ w h.
        fewer _ _
          ((deliver-Stays Fewer-IsEnded claims-fewer python remote senders worker_id d).at w h);
  }

  on_delivery-Meets :
      (python : Python) (remote : Remote) (senders : Senders) (worker_id : String)
      (row : Option Delivery)
      → Meets
          (claim_post n (ok row))
          (run_post n)
          (on_row row (pure false) (deliver python remote senders worker_id))
  unfolding calls
  on_delivery-Meets python remote senders worker_id none = Meets-pure false (λ w h. h)
  on_delivery-Meets python remote senders worker_id (some d) =
      deliver-Meets python remote senders worker_id d

  run_once-Meets :
      (python : Python) (remote : Remote) (senders : Senders) (worker_id : String)
      → Meets (λ w. AtMost n w.db) (run_post n) (run_once python remote senders worker_id)
  unfolding run_once
  run_once-Meets python remote senders worker_id =
      Meets-then (λ _ w. AtMost n w.db) _ _
        (record { at = (recover_stale-Keeps (AtMost-IsEnded n) "worker.delivery-recovery").at })
        (λ _.
          Meets-bind (claim_post n) _ _ (claim-Meets senders.lease_seconds worker_id)
            (on_delivery-Meets python remote senders worker_id) (λ e w h. h))
        (λ e w h. h)

-- 1 for a run that returns that it found a delivery.
abbrev pub found : Result Bool → ℕ
found (ok true) = 1
found _ = 0

abbrev pub run : Run → World → Result Bool × World
run r w = run_once r.python r.remote r.senders r.worker_id w

-- The runs of a list that find a delivery, and the world after them.
abbrev pub runs_found : List Run → World → ℕ
runs_found [] w = 0
runs_found (r ∷ rs) w = found (run r w).0 + runs_found rs (run r w).1

counted : (n : ℕ) (r : Result Bool) (w : World) → run_post n r w → found r + waiting w.db ≤ n
counted n (ok true) w h = omega (arith, h)
counted n (ok false) w h = omega (arith, h)
counted n (err e) w h = omega (arith, h)

-- Along any list of runs of the worker, each with its settings and with answers of its own, the runs
-- that find a delivery and the deliveries that still wait are together no more than the deliveries that
-- waited before: a loop that runs the worker until it finds nothing ends.
pub runs-drain :
    (rs : List Run) (w : World) → runs_found rs w + waiting (after_runs rs w).db ≤ waiting w.db
runs-drain [] w = omega arith
runs-drain (r ∷ rs) w = omega (
  arith,
  runs-drain rs (run r w).1,
  counted (waiting w.db) (run r w).0 (run r w).1
      ((run_once-Meets (waiting w.db) r.python r.remote r.senders r.worker_id).at w (omega arith)),
)
