-- ===== src/System/Invariant/Parts.antt =====
-- The statements that the HTTP and the gRPC server share keep the invariant of the job tables.
use llm_mcp.Prelude.{
  ℕ, String, true, false, ◌&&◌, ◌||◌, ◌==◌, Option, none, some, [], ◌∷◌, ◌++◌, ◌≡◌, refl, arith,
  inl, ◌∙◌, if_both, if_each, and_split, or_false, any,
}
use llm_mcp.Db.{Job, Attempt, Db, Env, insert_job, update_attempt, is_running}
use llm_mcp.Queue.{update_job, set_running, new_attempt}
use llm_mcp.Queue.Invariant.{
  has_id, LeaseIsHeld, Sound, Inv-update_where, has_id-update_where, Inv-insert, Inv-attempt,
  Inv-close_attempt,
}
use llm_mcp.Http.Jobs.{insert_row}
use llm_mcp.Http.Workers.{attempt_fails}
use llm_mcp.Http.Finish.{close}
use llm_mcp.Http.Lease.{extend_lease}

-- A statement that fails, or leaves a sound database.
abbrev pub Leaves : Option Db → Type 0
Leaves none = Unit
Leaves (some db) = Sound db

-- A row that is inserted.
pub Sound-insert_row :
    (env : Env) (j : Job) (db : Db) → j.lease_until ≡ none → Sound db → Leaves (insert_row env j db)
Sound-insert_row env j db l v =
    if_each Leaves (env.down insert_job || any (λ r. r.id == j.id) db.jobs) (λ _. tt)
      λ free. record {
        inv =
            Inv-insert j db.jobs db.attempts
              (or_false (env.down insert_job) (has_id j.id db.jobs) free).1 l v.inv;
      }

-- A job that is updated by its id, with a function that gives no lease to a job at rest.
pub Sound-update_job :
    (id : String) (f : Job → Job) (db : Db)
    → ((j : Job) → (f j).id ≡ j.id)
    → ((j : Job) → LeaseIsHeld (f j))
    → Sound db
    → Sound (record db { jobs = update_job id f db.jobs })
Sound-update_job id f db keep held v = record {
  inv = Inv-update_where (λ j. j.id == id) f keep db.jobs db.attempts (λ j _ _. held j) v.inv;
}

pub Sound-extend_lease :
    (id : String) (now : ℕ) (lease : Option ℕ) (db : Db)
    → Sound db
    → Sound (record db { jobs = extend_lease id now lease db.jobs })
Sound-extend_lease id now lease db v = record {
  inv =
      Inv-update_where (λ j. j.id == id && is_running j.status) _ (λ j. refl) db.jobs db.attempts
        (λ j e _. inl (and_split (j.id == id) _ e).1) v.inv;
}

pub Sound-close :
    (env : Env) (id : String) (f : Attempt → Attempt) (db : Db)
    → ((a : Attempt) → (f a).job_id ≡ a.job_id)
    → Sound db
    → Sound (close env id f db)
Sound-close env id f db keep v =
    if_both Sound (env.down update_attempt) v
      (record { inv = Inv-close_attempt id f db.jobs db.attempts keep v.inv })

attempted :
    (env : Env) (job_id : String) (db : Db)
    → attempt_fails env job_id db ≡ false
    → has_id job_id db.jobs ≡ true
attempted env job_id db h = ground arith

-- A claimed job with its attempt.
pub Sound-taken :
    (env : Env) (worker_id : String) (lease : ℕ) (j : Job) (db : Db)
    → attempt_fails env j.id db ≡ false
    → Sound db
    → Sound (record db {
      jobs = update_job j.id (set_running env.db_now lease) db.jobs;
      attempts = db.attempts ++ new_attempt (env.uuid 0) j.id worker_id env.db_now ∷ [];
    })
Sound-taken env worker_id lease j db h v = record {
  inv =
      Inv-attempt (new_attempt (env.uuid 0) j.id worker_id env.db_now)
        (update_job j.id (set_running env.db_now lease) db.jobs) db.attempts
        (has_id-update_where (λ k. k.id == j.id) (set_running env.db_now lease) (λ k. refl) j.id
            db.jobs
          ∙ attempted env j.id db h)
        (Sound-update_job j.id (set_running env.db_now lease) db (λ k. refl) (λ k. inl refl) v).inv;
}

-- A change of other tables.
pub Sound-same :
    (db db' : Db) → db'.jobs ≡ db.jobs → db'.attempts ≡ db.attempts → Sound db → Sound db'
Sound-same db db' e e' v = record { inv = rw (e, e') v.inv }
