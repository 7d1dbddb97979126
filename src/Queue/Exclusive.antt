-- ===== src/Queue/Exclusive.antt =====
-- `claim_next` keeps the invariant of the queue: the job that it sets to work is the only one of its
-- conversation.
use rrpp_agent_bridge.Common.{
  ℕ, ◌≤◌, String, Bool, true, false, ◌&&◌, Option, none, some, List, [], ◌∷◌, ◌≡◌, ◌⊎◌, refl, arith,
  ◌==◌, inl, inr, Bool-cases, Option-cases, count_where, find_where, update_where, count-update_le,
  count-update_le_new, count-update_eq, count-and_le, count-add_le_of_disjoint, count-pos_of_find,
  count-eq_zero, find_where-true, ==→eq, ==-refl,
}
use rrpp_agent_bridge.Store.Rows.{Db, Event, Job}
use rrpp_agent_bridge.Store.Monad.{
  record_audit, execute, pure, raise, type_error, on_row, query, ◌>>=◌,
}
use rrpp_agent_bridge.Store.Keeps.{
  Keeps, Keeps-execute, Keeps-then, Keeps-record_audit, Keeps-for_each, Keeps-after, Keeps-bind,
  Keeps-utc_now, Keeps-on_row, Keeps-pure, Keeps-query,
}
use rrpp_agent_bridge.Store.Silent.{IsSilent, silent_rules}
use rrpp_agent_bridge.Store.Ensures.{
  Ensures, Ensures-bind, Ensures-then, Ensures-pure, Ensures-raise, Ensures-execute, Ensures-query,
  Ensures-weaken, Ensures-Keeps, Keeps-transaction_of,
}
use rrpp_agent_bridge.Queue.Base.{set_job, set_event_status}
use rrpp_agent_bridge.Queue.Claim.{
  waits, works_on, is_candidate, earliest_where, newest_where, superseded_by, claimed,
  supersede_older, claim_job, claim_in_transaction, claim_next,
}
use rrpp_agent_bridge.Queue.Serial.{IsSerial, QueueIsSerial, update-IsSerial}

pub earliest_where-true :
    (p : Job → Bool) (l : List Job) (c : Job) → earliest_where p l ≡ some c → p c ≡ true
unfolding earliest_where
earliest_where-true p [] c h = cc
earliest_where-true p (j ∷ l) c h = ground (arith, earliest_where-true p l c)

abbrev is_job_of : String → String → Job → Bool
is_job_of id work_key j = j.id == id && j.work_key == work_key

found_job-count :
    (work_key event_id : String) (timestamp : ℕ) (jobs : List Job) (job : Job)
    → find_where (λ j. j.event_id == event_id && waits work_key timestamp j) jobs ≡ some job
    → (waits work_key timestamp job ≡ true) × (1 ≤ count_where (is_job_of job.id work_key) jobs)
found_job-count k event_id t jobs job h =
    let found : (job.event_id == event_id && waits k t job) ≡ true = find_where-true _ jobs job h in
    let here : is_job_of job.id k job ≡ true = ground (arith, ==-refl job.id) in
    (ground arith, count-pos_of_find _ (is_job_of job.id k) jobs job h here)

-- The job that the claim selects is among the jobs, and belongs to the conversation.
newest_where-count :
    (work_key : String) (timestamp : ℕ) (jobs : List Job) (events : List Event) (job : Job)
    → newest_where (waits work_key timestamp) jobs events ≡ some job
    → (waits work_key timestamp job ≡ true) × (1 ≤ count_where (is_job_of job.id work_key) jobs)
unfolding newest_where
newest_where-count k t jobs [] job h = cc
newest_where-count k t jobs (e ∷ events) job h =
    elim (Option-cases (newest_where (waits k t) jobs events)) [
      | inl none_later ↦ found_job-count k e.id t jobs job (rw none_later at h)
      | inr (later, e') ↦ newest_where-count k t jobs events job (rw e' (rw e' at h))
    ]

-- In between: no job of the conversation is in work, and the selected job belongs to it.
pub record IsClaiming (work_key : String) (job : Job) (jobs : List Job) : Type 0 where
  pub valid : IsSerial jobs
  pub quiet : count_where (works_on work_key) jobs ≡ 0
  pub present : 1 ≤ count_where (is_job_of job.id work_key) jobs

abbrev Claiming : String → Job → Db → Type 0
Claiming work_key job db = IsClaiming work_key job db.jobs

superseded-Claiming :
    (work_key id : String) (job : Job) (timestamp : ℕ)
    → Keeps (Claiming work_key job) (execute (set_job id (superseded_by job.id timestamp)))
unfolding set_job
superseded-Claiming k id job t = Keeps-execute _ λ db h. record {
  valid = update-IsSerial _ _ db.jobs (λ j. refl) (λ j e. cc) (λ j. refl) h.valid;
  quiet = omega (
    arith,
    h.quiet,
    count-update_le (λ j. j.id == id) (superseded_by job.id t) (works_on k) db.jobs
        (λ j _ e. ground arith),
  );
  present = omega (
    arith,
    h.present,
    count-update_eq (λ j. j.id == id) (superseded_by job.id t) (is_job_of job.id k) (λ j. refl)
        db.jobs,
  );
}

supersede-Claiming :
    (work_key worker_id : String) (job older : Job) (timestamp : ℕ)
    → Keeps (Claiming work_key job) (supersede_older job timestamp worker_id older)
unfolding supersede_older set_event_status
supersede-Claiming k worker_id job older t =
    Keeps-then _ _ (superseded-Claiming k older.id job t)
      (Keeps-then _ _ (Keeps-execute _ (λ db h. h)) (Keeps-record_audit _ _ _ _ _ (λ db l h. h)))

-- Two texts that one key equals are equal.
same_key : (key k j : String) → (j == key) ≡ true → (j == k) ≡ true → (k == key) ≡ false → ⊥
same_key key k j e f apart = cc (==-refl k, ==→eq j key e, ==→eq j k f, apart)

-- Only the selected job comes to be in work.
module _ (k worker_id : String) (job : Job) (t lease : ℕ) (jobs : List Job)
    (h : IsClaiming k job jobs) where
  abbrev selected : Job → Bool
  selected j = j.id == job.id

  abbrev becomes : String → Job → Bool
  becomes key j = works_on key (claimed worker_id t lease j)

  serial_at :
      (key : String)
      → ((k == key) ≡ true) ⊎ ((k == key) ≡ false)
      → count_where (works_on key) (update_where selected (claimed worker_id t lease) jobs) ≤ 1
  serial_at key (inl same) =
      let quiet : count_where (works_on key) jobs ≡ 0 = rw (← ==→eq k key same) h.quiet in
      omega (
        arith,
        quiet,
        h.valid.unique_ids job.id,
        count-update_le_new selected (claimed worker_id t lease) (works_on key) jobs,
        count-and_le selected (becomes key) jobs,
      )
  serial_at key (inr apart) = omega (
    arith,
    h.valid.serial key,
    h.valid.unique_ids job.id,
    h.present,
    count-update_le_new selected (claimed worker_id t lease) (works_on key) jobs,
    count-add_le_of_disjoint selected (becomes key) (λ j. j.work_key == k)
        (λ j e f. same_key key k j.work_key (ground arith) f apart) jobs,
  )

  pub claimed-IsSerial : IsSerial (update_where selected (claimed worker_id t lease) jobs)
  claimed-IsSerial = record {
    unique_ids = λ id. omega (
      arith,
      h.valid.unique_ids id,
      count-update_le selected (claimed worker_id t lease) (λ j. j.id == id) jobs (λ j _ e. e),
    );
    serial = λ key. serial_at key (Bool-cases (k == key));
  }

claim_statement :
    (k worker_id : String) (job : Job) (t lease : ℕ)
    → Ensures (Claiming k job) QueueIsSerial (execute (set_job job.id (claimed worker_id t lease)))
unfolding set_job
claim_statement k worker_id job t lease =
    Ensures-execute _ (λ db h. claimed-IsSerial k worker_id job t lease db.jobs h)

audit-IsSerial :
    (actor operation entity_type entity_id outcome : String)
    → Ensures QueueIsSerial QueueIsSerial
        (record_audit actor operation entity_type entity_id outcome)
audit-IsSerial actor operation entity_type entity_id outcome =
    Ensures-Keeps _ (Keeps-record_audit _ _ _ _ _ (λ db l h. h))

claim_job-IsSerial :
    (k worker_id : String) (job : Job) (t lease : ℕ)
    → Ensures (Claiming k job) QueueIsSerial (claim_job job t worker_id lease)
unfolding claim_job
claim_job-IsSerial k worker_id job t lease = Ensures-query _ _ λ batched.
    Ensures-weaken _ (λ db h. h.0)
      (Ensures-then (Claiming k job) _ _
        (Ensures-Keeps _
          (Keeps-for_each batched _ (λ older. supersede-Claiming k worker_id job older t)))
        (Ensures-bind (Claiming k job) _ _ (Ensures-Keeps _ (Keeps-after lease)) λ expires.
          Ensures-then QueueIsSerial _ _ (claim_statement k worker_id job t expires) (
            Ensures-then QueueIsSerial _ _ (audit-IsSerial _ _ _ _ _)
              (Ensures-pure (some job.id) (λ db h. h)))))

-- Of a candidate's conversation no job is in work.
candidate-quiet :
    (jobs : List Job) (t : ℕ) (c : Job)
    → earliest_where (is_candidate jobs t) jobs ≡ some c
    → count_where (works_on c.work_key) jobs ≡ 0
candidate-quiet jobs t c h =
    let candidate : is_candidate jobs t c ≡ true =
      earliest_where-true (is_candidate jobs t) jobs c h in
    count-eq_zero (works_on c.work_key) jobs (ground arith)

select-Claiming :
    (t : ℕ) (c job : Job) (db : Db)
    → QueueIsSerial db
    → earliest_where (is_candidate db.jobs t) db.jobs ≡ some c
    → newest_where (waits c.work_key t) db.jobs db.events ≡ some job
    → Claiming c.work_key job db
select-Claiming t c job db h e f = record {
  valid = h;
  quiet = candidate-quiet db.jobs t c e;
  present = (newest_where-count c.work_key t db.jobs db.events job f).1;
}

claim_newest-IsSerial :
    (t lease : ℕ) (worker_id : String) (c : Job) (newest : Option Job)
    → Ensures
        (λ db.
          (QueueIsSerial db × (earliest_where (is_candidate db.jobs t) db.jobs ≡ some c))
          × (newest_where (waits c.work_key t) db.jobs db.events ≡ newest))
        QueueIsSerial
        (on_row newest (raise type_error) λ job. claim_job job t worker_id lease)
unfolding on_row
claim_newest-IsSerial t lease worker_id c none = Ensures-raise type_error
claim_newest-IsSerial t lease worker_id c (some job) =
    Ensures-weaken _ (λ db h. select-Claiming t c job db h.0.0 h.0.1 h.1)
      (claim_job-IsSerial c.work_key worker_id job t lease)

claim_candidate-IsSerial :
    (t lease : ℕ) (worker_id : String) (candidate : Option Job)
    → Ensures
        (λ db. QueueIsSerial db × (earliest_where (is_candidate db.jobs t) db.jobs ≡ candidate))
        QueueIsSerial
        (on_row candidate (pure none) λ c. do
          newest ← query (λ db. newest_where (waits c.work_key t) db.jobs db.events)
          on_row newest (raise type_error) λ job. claim_job job t worker_id lease)
unfolding on_row
claim_candidate-IsSerial t lease worker_id none = Ensures-pure none (λ db h. h.0)
claim_candidate-IsSerial t lease worker_id (some c) =
    Ensures-query _ _ (claim_newest-IsSerial t lease worker_id c)

supersede_older-Silent :
    (worker_id : String) (job older : Job) (t : ℕ)
    → IsSilent (supersede_older job t worker_id older)
unfolding supersede_older
supersede_older-Silent worker_id job older t = search silent_rules depth 9

claim_job-Silent :
    (job : Job) (t lease : ℕ) (worker_id : String) → IsSilent (claim_job job t worker_id lease)
unfolding claim_job
claim_job-Silent job t lease worker_id = search (silent_rules, supersede_older-Silent) depth 12

pub in_transaction-Silent :
    (t lease : ℕ) (worker_id : String) → IsSilent (claim_in_transaction t worker_id lease)
unfolding claim_in_transaction
in_transaction-Silent t lease worker_id = search (silent_rules, claim_job-Silent) depth 12

pub claim_next-IsSerial :
    (worker_id : String) (lease : ℕ) → Keeps QueueIsSerial (claim_next worker_id lease)
unfolding claim_next claim_in_transaction
claim_next-IsSerial worker_id lease = Keeps-bind _ _ Keeps-utc_now λ t.
    Keeps-bind _ _
      (Keeps-transaction_of _ (in_transaction-Silent t lease worker_id)
        (Ensures-query _ _ (claim_candidate-IsSerial t lease worker_id)))
      λ job_id. Keeps-on_row job_id _ _ (Keeps-pure none) (λ id. Keeps-query _)
