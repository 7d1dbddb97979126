-- ===== src/Delivery/Once.antt =====
-- How the requests of the delivery worker of rrpp_bridge/delivery.py relate to the rows of the table.
use rrpp_agent_bridge.Common.{
  ℕ, ◌+◌, ◌≤◌, String, Bool, true, false, ◌&&◌, Option, none, some, List, ◌≡◌, refl, ◌==◌, ◌⊎◌, inl,
  inr, arith, ==-refl, ==→eq, if◌then◌else◌, Bool-cases, count_where, find_where, update_where, leb,
  count_where-snoc, count-eq_zero_of_or, any_where, ◌||◌, ◌∷◌, ◌++◌, [], count-update_eq,
  count-update_le, count-pos_of_find, find_where-true, count-update_cleared, subst, and-true, ◌∙◌,
}
use rrpp_agent_bridge.Store.Rows.{Db, Delivery}
use rrpp_agent_bridge.Store.Monad.{
  calls, M, World, Result, ok, err, Request, query, on_row, pure, transaction, utc_now, ◌>>=◌,
}
use rrpp_agent_bridge.Store.Keeps.{Keeps}
use rrpp_agent_bridge.Store.Silent.{IsSilent, silent_rules}
use rrpp_agent_bridge.Store.Meets.{
  Meets, Meets-bind, Meets-on_row, Meets-pure, Meets-query, Meets-transaction, Meets-weaken, Post,
}
use rrpp_agent_bridge.Delivery.Worker.{
  claim, claim_delivery, claimed_delivery, is_pending, set_delivery, set_pending_delivery,
}
use rrpp_agent_bridge.Kept.{Ends, IsKept}

abbrev pub is_request_for : String → Request → Bool
is_request_for id r = r.delivery_id == id

abbrev pub has_id : String → Delivery → Bool
has_id id d = d.id == id

abbrev pub waits : String → Delivery → Bool
waits id d = d.id == id && is_pending d.status

-- Of a delivery, its requests, its claims that are still to send and its pending row are at most its
-- rows, and there is at most one row.
pub record IsOnce (claims : String → ℕ) (requests : List Request) (rows : List Delivery)
    : Type 0 where
  pub unique : (id : String) → count_where (has_id id) rows ≤ 1
  pub spent :
      (id : String)
      → count_where (is_request_for id) requests + claims id + count_where (waits id) rows
        ≤ count_where (has_id id) rows

abbrev pub no_claims : String → ℕ
no_claims id = 0

abbrev pub claim_of : String → String → ℕ
claim_of claimed id = if claimed == id then 1 else 0

module _ (claims : String → ℕ) (requests : List Request) where
  pub Ends-IsOnce :
      (id : String) (f : Delivery → Delivery) (db : Db)
      → Ends f
      → IsOnce claims requests db.deliveries
      → IsOnce claims requests (set_delivery id f db).deliveries
  unfolding set_delivery
  Ends-IsOnce id f db e h = record {
    unique = λ i. omega (
      arith,
      h.unique i,
      count-update_eq (has_id id) f (has_id i) (λ d. rw (e.same_id d)) db.deliveries,
    );
    spent = λ i. omega (
      arith,
      h.spent i,
      count-update_eq (has_id id) f (has_id i) (λ d. rw (e.same_id d)) db.deliveries,
      count-update_le (has_id id) f (waits i) db.deliveries
          (λ d _ w. ground (arith, e.not_pending d)),
    );
  }

  appended-IsOnce :
      (rows : List Delivery) (d : Delivery) (taken : Delivery → Bool)
      → any_where (λ o. o.id == d.id || taken o) rows ≡ false
      → IsOnce claims requests rows
      → IsOnce claims requests (rows ++ d ∷ [])
  appended-IsOnce rows d taken fresh h = record {
    unique = λ i. (at_id i (Bool-cases (d.id == i))).0;
    spent = λ i. (at_id i (Bool-cases (d.id == i))).1;
  }
    where
      at_id :
          (i : String)
          → ((d.id == i) ≡ true) ⊎ ((d.id == i) ≡ false)
          → (count_where (has_id i) (rows ++ d ∷ []) ≤ 1)
            × (count_where (is_request_for i) requests
                  + claims i
                  + count_where (waits i) (rows ++ d ∷ [])
                ≤ count_where (has_id i) (rows ++ d ∷ []))
      at_id i (inl same) =
          let old : count_where (has_id i) rows ≡ 0 =
            rw (← ==→eq d.id i same) (count-eq_zero_of_or _ _ rows fresh) in
          rw (count_where-snoc (has_id i) rows d, count_where-snoc (waits i) rows d, same)
            (omega (arith, old), ground (arith, old, h.spent i))
      at_id i (inr other) =
          rw (count_where-snoc (has_id i) rows d, count_where-snoc (waits i) rows d, other)
            (omega (arith, h.unique i), omega (arith, h.spent i))

  pub IsOnce-IsKept : IsKept (λ db. IsOnce claims requests db.deliveries)
  IsOnce-IsKept = record {
    ended = record {
      same = λ db db' jobs deliveries h. rw deliveries h;
      end = λ db id f e h. Ends-IsOnce id f db e h;
    };
    mark = λ db p f m h. h;
    add_job = λ db job idle fresh h. h;
    add_delivery = λ db d fresh h. appended-IsOnce db.deliveries d _ fresh h;
  }

-- What holds of the world between two calls, and of a call that keeps it.
abbrev pub Once : (String → ℕ) → World → Type 0
Once claims w = IsOnce claims w.requests w.db.deliveries

pub Once-kept :
    {A : Type 0} (claims : String → ℕ) (m : M A)
    → ((requests : List Request) → Keeps (λ db. IsOnce claims requests db.deliveries) m)
    → (w : World) → Once claims w
    → Once claims (m w).1
Once-kept claims m keeps w h = rw ((keeps w.requests).silent.at w) ((keeps w.requests).at w h)

-- A claim is counted until its request is sent.
abbrev pub AfterClaim : Result (Option Delivery) × World → Type 0
AfterClaim (ok none, w) = Once no_claims w
AfterClaim (ok (some d), w) = Once (claim_of d.id) w
AfterClaim (err e, w) = Once no_claims w

-- The row that is claimed no longer waits, and makes room for one request.
claimed-IsOnce :
    (d : Delivery) (p : Delivery → Bool) (f : Delivery → Delivery) (requests : List Request)
    (rows : List Delivery)
    → find_where p rows ≡ some d
    → is_pending d.status ≡ true
    → Ends f
    → IsOnce no_claims requests rows
    → IsOnce (claim_of d.id) requests (update_where (waits d.id) f rows)
claimed-IsOnce d p f requests rows found pending e h = record {
  unique = λ i.
      omega
        (arith, h.unique i, count-update_eq (waits d.id) f (has_id i) (λ r. rw (e.same_id r)) rows);
  spent = λ i. spent_at i (Bool-cases (d.id == i));
}
  where
    here : 1 ≤ count_where (waits d.id) rows
    here = count-pos_of_find p (waits d.id) rows d found (ground (arith, ==-refl d.id))

    cleared : count_where (waits d.id) (update_where (waits d.id) f rows) ≡ 0
    cleared =
        count-update_cleared (waits d.id) f (waits d.id) (λ r w. w)
          (λ r w. ground (arith, e.not_pending r)) rows

    spent_at :
        (i : String)
        → ((d.id == i) ≡ true) ⊎ ((d.id == i) ≡ false)
        → count_where (is_request_for i) requests
            + claim_of d.id i
            + count_where (waits i) (update_where (waits d.id) f rows)
          ≤ count_where (has_id i) (update_where (waits d.id) f rows)
    spent_at i (inl same) =
        subst
          (λ j.
            count_where (is_request_for j) requests
              + claim_of d.id j
              + count_where (waits j) (update_where (waits d.id) f rows)
            ≤ count_where (has_id j) (update_where (waits d.id) f rows))
          (==→eq d.id i same)
          (rw (==-refl d.id, cleared)
            (omega (
              arith,
              h.spent d.id,
              here,
              count-update_eq (waits d.id) f (has_id d.id) (λ r. rw (e.same_id r)) rows,
            )))
    spent_at i (inr other) = rw other (
        omega (
          arith,
          h.spent i,
          count-update_eq (waits d.id) f (has_id i) (λ r. rw (e.same_id r)) rows,
          count-update_le (waits d.id) f (waits i) rows (λ r _ w. ground (arith, e.not_pending r)),
        ))

pub claimed-Ends : (t lease : ℕ) (worker_id : String) → Ends (claimed_delivery t lease worker_id)
claimed-Ends t lease worker_id = record { same_id = λ d. refl; not_pending = λ d. refl }

-- The row that is read back after the claim is the one that was claimed.
read_back :
    (id : String) (row : Option Delivery) (w : World)
    → ((d : Delivery) → row ≡ some d → d.id ≡ id)
    → Once (claim_of id) w
    → AfterClaim (ok row, w)
read_back id none w same h = record { unique = h.unique; spent = λ i. omega (arith, h.spent i) }
read_back id (some d) w same h = rw (same d refl) h

find_id :
    (id : String) (rows : List Delivery) (d : Delivery)
    → find_where (has_id id) rows ≡ some d
    → d.id ≡ id
find_id id rows d found = ==→eq d.id id (find_where-true (has_id id) rows d found)

abbrev claim_post : Post (Option String)
claim_post (ok none) w = Once no_claims w
claim_post (ok (some id)) w = Once (claim_of id) w
claim_post (err e) w = Once no_claims w

abbrev pub row_post : Post (Option Delivery)
row_post r w = AfterClaim (r, w)

abbrev due : ℕ → Delivery → Bool
due timestamp d = is_pending d.status && leb d.available_at timestamp

set_pending-IsOnce :
    (t lease : ℕ) (worker_id : String) (d : Delivery) (p : Delivery → Bool) (w : World)
    → find_where p w.db.deliveries ≡ some d
    → is_pending d.status ≡ true
    → Once no_claims w
    → Once
        (claim_of d.id)
        (record w { db = set_pending_delivery d.id (claimed_delivery t lease worker_id) w.db })
unfolding set_pending_delivery
set_pending-IsOnce t lease worker_id d p w found pending h =
    claimed-IsOnce d p _ w.requests w.db.deliveries found pending (claimed-Ends t lease worker_id) h

claim_delivery-Meets :
    (t lease : ℕ) (worker_id : String) (d : Delivery)
    → Meets
        (λ w. Once no_claims w × (find_where (due t) w.db.deliveries ≡ some d))
        claim_post
        (claim_delivery t lease worker_id d)
unfolding claim_delivery calls
claim_delivery-Meets t lease worker_id d = record {
  at = λ w h.
      set_pending-IsOnce t _ worker_id d (due t) w h.1
        (and-true _ _ (find_where-true (due t) w.db.deliveries d h.1)).0 h.0;
}

claim_delivery-Silent :
    (t lease : ℕ) (worker_id : String) (d : Delivery)
    → IsSilent (claim_delivery t lease worker_id d)
unfolding claim_delivery
claim_delivery-Silent t lease worker_id d = search silent_rules depth 9

claim_body-Silent :
    (t lease : ℕ) (worker_id : String)
    → IsSilent (
        query (λ db. find_where (due t) db.deliveries) >>= λ row.
        on_row row (pure none) (claim_delivery t lease worker_id))
claim_body-Silent t lease worker_id = search (silent_rules, claim_delivery-Silent) depth 9

transaction-Meets :
    (t lease : ℕ) (worker_id : String)
    → Meets (Once no_claims) claim_post (
        transaction do
          row ← query (λ db. find_where (due t) db.deliveries)
          on_row row (pure none) (claim_delivery t lease worker_id))
transaction-Meets t lease worker_id =
    Meets-transaction _ (λ w e h _. rw ((claim_body-Silent t lease worker_id).at w) h)
      (Meets-query _ _ λ row.
        Meets-on_row row _ _ (λ _. Meets-pure none (λ w h. h.0))
          (λ d found.
            Meets-weaken _ (λ w h. (h.0, h.1 ∙ found)) (claim_delivery-Meets t lease worker_id d)))

utc_now-Meets : (claims : String → ℕ) → Meets (Once claims) (λ _ w. Once claims w) utc_now
unfolding calls
utc_now-Meets claims = record { at = λ w h. h }

claimed_row-Meets :
    (id : String)
    → Meets (Once (claim_of id)) row_post (query (λ db. find_where (has_id id) db.deliveries))
unfolding calls
claimed_row-Meets id = record { at = λ w h. read_back id _ w (find_id id w.db.deliveries) h }

on_claimed-Meets :
    (claimed : Option String)
    → Meets
        (claim_post (ok claimed))
        row_post
        (on_row claimed (pure none) (λ id. query (λ db. find_where (has_id id) db.deliveries)))
unfolding calls
on_claimed-Meets none = Meets-pure none (λ w h. h)
on_claimed-Meets (some id) = claimed_row-Meets id

pub claim-Meets :
    (lease : ℕ) (worker_id : String) → Meets (Once no_claims) row_post (claim lease worker_id)
unfolding claim
claim-Meets lease worker_id =
    Meets-bind (λ _ w. Once no_claims w) utc_now _ (utc_now-Meets no_claims)
      (λ t.
        Meets-bind claim_post _ _ (transaction-Meets t lease worker_id) on_claimed-Meets
          (λ e w h. h))
      (λ e w h. h)
