-- ===== src/Kept.antt =====
-- What a property of the jobs and the deliveries needs to be kept by the calls of the program: the
-- statements that write to the two tables, but for the two that claim a row.
use rrpp_agent_bridge.Common.{
  String, Bool, true, false, ◌||◌, [], ◌∷◌, ◌++◌, ◌≡◌, refl, ◌==◌, any_where, update_where,
}
use rrpp_agent_bridge.Store.Rows.{Db, Delivery, Job}
use rrpp_agent_bridge.Store.Monad.{execute, record_audit, write_unless}
use rrpp_agent_bridge.Store.Keeps.{Keeps, Keeps-execute, Keeps-record_audit, Keeps-write}
use rrpp_agent_bridge.Queue.Base.{is_processing}
use rrpp_agent_bridge.Delivery.Worker.{is_pending, set_delivery}

-- A statement that renames no job, moves none to another conversation and sets none to work.
pub record IsMark (f : Job → Job) : Type 0 where
  pub same_id : (j : Job) → (f j).id ≡ j.id
  pub same_key : (j : Job) → (f j).work_key ≡ j.work_key
  pub idle : (j : Job) → is_processing (f j).state ≡ true → is_processing j.state ≡ true

-- A statement that ends deliveries.
pub record Ends (f : Delivery → Delivery) : Type 0 where
  pub same_id : (d : Delivery) → (f d).id ≡ d.id
  pub not_pending : (d : Delivery) → is_pending (f d).status ≡ false

-- What a run of the delivery worker needs, but for its claim.
pub record IsEnded (P : Db → Type 0) : Type 0 where
  -- The property speaks of the jobs and the deliveries only.
  pub same : (db db' : Db) → db'.jobs ≡ db.jobs → db'.deliveries ≡ db.deliveries → P db → P db'
  pub end :
      (db : Db) (id : String) (f : Delivery → Delivery) → Ends f → P db → P (set_delivery id f db)

pub record IsKept (P : Db → Type 0) : Type 0 where
  pub ended : IsEnded P
  pub mark :
      (db : Db) (p : Job → Bool) (f : Job → Job)
      → IsMark f
      → P db
      → P (record db { jobs = update_where p f db.jobs })
  pub add_job :
      (db : Db) (job : Job)
      → is_processing job.state ≡ false
      → any_where (λ j. j.id == job.id || j.event_id == job.event_id) db.jobs ≡ false
      → P db
      → P (record db { jobs = db.jobs ++ job ∷ [] })
  pub add_delivery :
      (db : Db) (d : Delivery)
      → any_where
          (λ o.
            o.id == d.id || (o.action_id == d.action_id || o.idempotency_key == d.idempotency_key))
          db.deliveries
        ≡ false
      → P db
      → P (record db { deliveries = db.deliveries ++ d ∷ [] })

-- The statements and entries that write to neither table.
module _ {P : Db → Type 0} (kept : IsEnded P) where
  pub other-Keeps :
      (f : Db → Db)
      → ((db : Db) → (f db).jobs ≡ db.jobs)
      → ((db : Db) → (f db).deliveries ≡ db.deliveries)
      → Keeps P (execute f)
  other-Keeps f jobs deliveries =
      Keeps-execute f (λ db h. kept.same db (f db) (jobs db) (deliveries db) h)

  pub insert-Keeps :
      (taken : Db → Bool) (f : Db → Db)
      → ((db : Db) → (f db).jobs ≡ db.jobs)
      → ((db : Db) → (f db).deliveries ≡ db.deliveries)
      → Keeps P (write_unless taken f)
  insert-Keeps taken f jobs deliveries =
      Keeps-write taken f (λ db h _. kept.same db (f db) (jobs db) (deliveries db) h)

  pub audit-Keeps :
      (actor operation entity_type entity_id outcome : String)
      → Keeps P (record_audit actor operation entity_type entity_id outcome)
  audit-Keeps actor operation entity_type entity_id outcome =
      Keeps-record_audit actor operation entity_type entity_id outcome
        (λ db l h. kept.same db _ refl refl h)

  pub end-Keeps :
      (id : String) (f : Delivery → Delivery) → Ends f → Keeps P (execute (set_delivery id f))
  end-Keeps id f e = Keeps-execute _ (λ db h. kept.end db id f e h)
