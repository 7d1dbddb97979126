-- ===== src/Queue/Serial.antt =====
-- The invariant of the queue: job ids are unique, and a conversation has at most one job in work.
use rrpp_agent_bridge.Common.{
  ◌≤◌, String, Bool, true, false, ◌||◌, List, [], ◌∷◌, ◌++◌, ◌≡◌, arith, ◌==◌, inl, inr, Bool-cases,
  any_where, count_where, update_where, count-update_le, count_where-snoc, count-eq_zero_of_or, ◌∙◌,
  ◌⊎◌, ==→eq,
}
use rrpp_agent_bridge.Store.Rows.{Db, Job}
use rrpp_agent_bridge.Kept.{IsKept}
use rrpp_agent_bridge.Delivery.Worker.{set_delivery}
use rrpp_agent_bridge.Queue.Base.{is_processing}
use rrpp_agent_bridge.Queue.Claim.{works_on}

pub record IsSerial (jobs : List Job) : Type 0 where
  pub unique_ids : (id : String) → count_where (λ j. j.id == id) jobs ≤ 1
  pub serial : (work_key : String) → count_where (works_on work_key) jobs ≤ 1

abbrev pub QueueIsSerial : Db → Type 0
QueueIsSerial db = IsSerial db.jobs

-- A statement that renames no job and sets no job to work keeps the invariant.
pub update-IsSerial :
    (p : Job → Bool) (f : Job → Job) (jobs : List Job)
    → ((j : Job) → (f j).id ≡ j.id)
    → ((j : Job) → is_processing (f j).state ≡ true → is_processing j.state ≡ true)
    → ((j : Job) → (f j).work_key ≡ j.work_key)
    → IsSerial jobs
    → IsSerial (update_where p f jobs)
update-IsSerial p f jobs same_id idle same_key h = record {
  unique_ids = λ id. omega (
    arith,
    h.unique_ids id,
    count-update_le p f (λ j. j.id == id) jobs (λ j _ e. rw (← same_id j) e),
  );
  serial = λ k. omega (
    arith,
    h.serial k,
    count-update_le p f (works_on k) jobs (λ j _ e. ground (arith, same_key j, idle j)),
  );
}

pub append-IsSerial :
    (jobs : List Job) (job : Job)
    → is_processing job.state ≡ false
    → any_where (λ j. j.id == job.id || j.event_id == job.event_id) jobs ≡ false
    → IsSerial jobs
    → IsSerial (jobs ++ job ∷ [])
unfolding count_where
append-IsSerial jobs job idle fresh h = record {
  unique_ids = λ id. at_id id (Bool-cases (job.id == id));
  serial = λ k. omega (arith, h.serial k, at_key k);
}
  where
    at_key :
        (k : String) → count_where (works_on k) (jobs ++ job ∷ []) ≡ count_where (works_on k) jobs
    at_key k = count_where-snoc (works_on k) jobs job ∙ ground (arith, idle)

    at_id :
        (id : String)
        → ((job.id == id) ≡ true) ⊎ ((job.id == id) ≡ false)
        → count_where (λ j. j.id == id) (jobs ++ job ∷ []) ≤ 1
    at_id id (inl same) =
        let old : count_where (λ j. j.id == id) jobs ≡ 0 =
          rw (← ==→eq job.id id same) (count-eq_zero_of_or _ _ jobs fresh) in
        rw (count_where-snoc, same, old) (omega arith)
    at_id id (inr other) = rw (count_where-snoc, other) (omega (arith, h.unique_ids id))

pub IsSerial-IsKept : IsKept QueueIsSerial
unfolding set_delivery
IsSerial-IsKept = record {
  ended = record { same = λ db db' jobs deliveries h. rw jobs h; end = λ db id f e h. h };
  mark = λ db p f m h. update-IsSerial p f db.jobs m.same_id m.idle m.same_key h;
  add_job = λ db job idle fresh h. append-IsSerial db.jobs job idle fresh h;
  add_delivery = λ db d fresh h. h;
}
