-- ===== src/Queue/Claim/Keeps.antt =====
-- What `JobQueue.claim_next` of rrpp_bridge/queue.py keeps, where the property does not speak of the
-- states of jobs.
use rrpp_agent_bridge.Common.{ℕ, String, Bool, ◌≡◌, refl, update_where}
use rrpp_agent_bridge.Store.Rows.{Db, Job}
use rrpp_agent_bridge.Store.Monad.{execute, record_audit}
use rrpp_agent_bridge.Store.Keeps.{Keeps, Keeps-execute, keeps_rules}
use rrpp_agent_bridge.Kept.{IsKept, audit-Keeps}
use rrpp_agent_bridge.Queue.Base.{set_job}
use rrpp_agent_bridge.Queue.Keeps.{event_status-Keeps}
use rrpp_agent_bridge.Queue.Claim.{
  claim_in_transaction, claim_job, claim_next, claimed, supersede_older, superseded_by,
}

module _ {P : Db → Type 0} (kept : IsKept P)
    (any_state : (db : Db) (p : Job → Bool) (f : Job → Job)
      → ((j : Job) → (f j).id ≡ j.id)
      → P db
      → P (record db { jobs = update_where p f db.jobs })) where
  record_audit-Keeps :
      (actor operation entity_type entity_id outcome : String)
      → Keeps P (record_audit actor operation entity_type entity_id outcome)
  record_audit-Keeps = audit-Keeps kept.ended

  superseded-Keeps :
      (id job_id : String) (t : ℕ) → Keeps P (execute (set_job id (superseded_by job_id t)))
  unfolding set_job
  superseded-Keeps id job_id t = Keeps-execute _ (λ db. any_state db _ _ (λ j. refl))

  claimed-Keeps :
      (id worker_id : String) (t lease : ℕ)
      → Keeps P (execute (set_job id (claimed worker_id t lease)))
  unfolding set_job
  claimed-Keeps id worker_id t lease = Keeps-execute _ (λ db. any_state db _ _ (λ j. refl))

  supersede_older-Keeps :
      (worker_id : String) (job older : Job) (t : ℕ)
      → Keeps P (supersede_older job t worker_id older)
  unfolding supersede_older
  supersede_older-Keeps worker_id job older t =
      search (keeps_rules, record_audit-Keeps, superseded-Keeps, event_status-Keeps) depth 9

  claim_job-Keeps :
      (job : Job) (t lease : ℕ) (worker_id : String) → Keeps P (claim_job job t worker_id lease)
  unfolding claim_job
  claim_job-Keeps job t lease worker_id =
      search (keeps_rules, record_audit-Keeps, claimed-Keeps, supersede_older-Keeps) depth 12

  pub claim_next-Keeps : (worker_id : String) (lease : ℕ) → Keeps P (claim_next worker_id lease)
  unfolding claim_next claim_in_transaction
  claim_next-Keeps worker_id lease = search (keeps_rules, claim_job-Keeps) depth 16
