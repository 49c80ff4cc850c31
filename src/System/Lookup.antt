-- ===== src/System/Lookup.antt =====
-- What a client reads back of a job, over gRPC `GetJob`, after an HTTP handler has changed its row.
use llm_mcp.Prelude.{
  ℕ, ◌+◌, ap, [], String, false, ◌||◌, ◌==◌, Option, none, some, List, ◌≡◌, refl, ◌∙◌, arith, inl,
  inr, ◌⊎◌, if_both, Bool-cases, if◌then◌else◌, find_if, find_if-update_where, blank,
}
use llm_mcp.Prelude.Int.{ℤ, pos, ◌≤ℤ◌, leb_ℤ}
use llm_mcp.Db.{
  JobStatus, Job, Db, Env, error, queued, Attempt, update_attempt, read_job,
  update_job as update_job_stmt,
}
use llm_mcp.Db.Values.{Json, object, or_empty}
use llm_mcp.Queue.{update_job, set_done, set_failed}
use llm_mcp.Http.{Ack, Reply, reply, World, posted}
use llm_mcp.Http.Finish.{
  CompleteJobRequest, FailJobRequest, handle_worker_complete, status_after_fail, handle_worker_fail,
  record_cost, close,
}
use llm_mcp.Grpc.{answer, failed}
use llm_mcp.Grpc.Jobs.{JobMessage, row_to_pb, as_message, fetch_row, get_job}

abbrev row : String → List Job → Option Job
row id jobs = find_if (λ j. j.id == id) jobs

found :
    (env : Env) (m : JobMessage) (o : Option Job)
    → as_message
        (if env.down read_job then failed else elim o [ none ↦ failed | some k ↦ answer k ])
      ≡ answer m
    → (env.down read_job ≡ false) × (k : Job) × (o ≡ some k) × (row_to_pb k ≡ m)
found env m o h = elim (Bool-cases (env.down read_job)) [
  | inl e ↦ let q : failed ≡ answer m = rw e at h in absurd (cc)
  | inr e ↦ let (k, q, r) = of_row o (rw e at h) in (e, k, q, r)
]
  where
    of_row :
        (o : Option Job)
        → as_message (elim o [ none ↦ failed | some k ↦ answer k ]) ≡ answer m
        → (k : Job) × (o ≡ some k) × (row_to_pb k ≡ m)
    of_row none h = absurd (cc)
    of_row (some k) h = (k, refl, ground arith)

get_job-row :
    (env : Env) (id : String) (db : Db) (m : JobMessage)
    → get_job env id db ≡ answer m
    → (env.down read_job ≡ false) × (j : Job) × (row id db.jobs ≡ some j) × (row_to_pb j ≡ m)
unfolding get_job fetch_row
get_job-row env id db m h = found env m (row id db.jobs) h

row-get_job :
    (env : Env) (id : String) (db : Db) (j : Job)
    → env.down read_job ≡ false
    → row id db.jobs ≡ some j
    → get_job env id db ≡ answer (row_to_pb j)
unfolding get_job fetch_row
row-get_job env id db j e e' = rw (e, e') refl

jobs-record_cost :
    (env : Env) (id : String) (m : Json) (db : Db) → (record_cost env id m db).jobs ≡ db.jobs
unfolding record_cost
jobs-record_cost env id m db = ground arith

jobs-close :
    (env : Env) (id : String) (f : Attempt → Attempt) (db : Db) → (close env id f db).jobs ≡ db.jobs
jobs-close env id f db = if_both (λ (d : Db). d.jobs ≡ db.jobs) (env.down update_attempt) refl refl

-- What an accepted request leaves in the table of jobs.
Writes : List Job → Reply Ack × World → Type 0
Writes jobs x = x.0 ≡ reply 200 tt → x.1.db.jobs ≡ jobs

jobs-handle_worker_complete :
    (env : Env) (req : CompleteJobRequest) (w : World)
    → (handle_worker_complete env (posted req) w).0 ≡ reply 200 tt
    → (handle_worker_complete env (posted req) w).1.db.jobs
      ≡ update_job req.job_id (set_done env.db_now (or_empty req.result)) w.db.jobs
unfolding handle_worker_complete Writes
jobs-handle_worker_complete env req w =
    let jobs = update_job req.job_id (set_done env.db_now (or_empty req.result)) w.db.jobs in
    if_both (Writes jobs) (blank req.worker_id || blank req.job_id) (λ h. cc)
      (if_both (Writes jobs) (env.down update_job_stmt) (λ h. cc)
        (λ _.
          jobs-record_cost env req.job_id (or_empty req.metrics) _ ∙ jobs-close env req.job_id _ _))

jobs-handle_worker_fail :
    (env : Env) (req : FailJobRequest) (w : World) (j : Job)
    → row req.job_id w.db.jobs ≡ some j
    → (handle_worker_fail env (posted req) w).0 ≡ reply 200 tt
    → (handle_worker_fail env (posted req) w).1.db.jobs
      ≡ update_job req.job_id (set_failed env.db_now (status_after_fail j) req.error_text) w.db.jobs
unfolding handle_worker_fail Writes
jobs-handle_worker_fail env req w j r =
    let jobs =
      update_job req.job_id (set_failed env.db_now (status_after_fail j) req.error_text)
        w.db.jobs in
    if_both (Writes jobs) (blank req.worker_id || blank req.job_id) (λ h. cc)
      (if_both (Writes jobs) (env.down read_job) (λ h. cc)
        (rw r (
          if_both (Writes jobs) (env.down update_job_stmt) (λ h. cc)
            (λ _. jobs-close env req.job_id _ _))))

-- A job that can be read over gRPC and that a completion over HTTP is accepted for (status 200) is read
-- back as `done` at the time of the completion, with the result of the request (`{}` when it has none) and
-- without a lease; all else that is read of it is as it was.
pub get_job-handle_worker_complete :
    (env env' : Env) (req : CompleteJobRequest) (w : World) (m : JobMessage)
    → get_job env' req.job_id w.db ≡ answer m
    → (handle_worker_complete env (posted req) w).0 ≡ reply 200 tt
    → get_job env' req.job_id (handle_worker_complete env (posted req) w).1.db
      ≡ answer (record m {
        status = JobStatus.done;
        result = some (elim req.result [ none ↦ object [] | some r ↦ r ]);
        lease_until = none;
        updated_at = env.db_now;
      })
get_job-handle_worker_complete env env' req w m h ok =
    let (up, j, r, q) = get_job-row env' req.job_id w.db m h in
    let set = set_done env.db_now (or_empty req.result) in
    row-get_job env' req.job_id (handle_worker_complete env (posted req) w).1.db (set j) up (
      rw (jobs-handle_worker_complete env req w ok)
        (find_if-update_where (λ j. j.id == req.job_id) set (λ _. refl) w.db.jobs j r))
    ∙ rw (← q) (ap (λ (x : Json). answer (row_to_pb (set_done env.db_now x j))) (given req.result))
  where
    given : (o : Option Json) → or_empty o ≡ elim o [ none ↦ object [] | some r ↦ r ]
    given none = refl
    given (some r) = refl

status-leb :
    (attempts : ℕ) (most : ℤ)
    → ((most ≤ℤ pos attempts) × ((if leb_ℤ most (pos attempts) then error else queued) ≡ error))
      ⊎ ((pos (attempts + 1) ≤ℤ most)
          × ((if leb_ℤ most (pos attempts) then error else queued) ≡ queued))
status-leb attempts most = elim (Bool-cases (leb_ℤ most (pos attempts))) [
  | inl e ↦ inl (ground arith, rw e refl)
  | inr e ↦ inr (ground arith, rw e refl)
]

-- A job that can be read over gRPC and that a failure over HTTP is accepted for (status 200) is read back
-- without a lease, with the error of the request and the time of the failure: with its attempts used up it
-- ends in `error`, and with an attempt left it is `queued` again. All else that is read of it is as it was.
pub get_job-handle_worker_fail :
    (env env' : Env) (req : FailJobRequest) (w : World) (m : JobMessage)
    → get_job env' req.job_id w.db ≡ answer m
    → (handle_worker_fail env (posted req) w).0 ≡ reply 200 tt
    → (status : JobStatus) × (get_job env' req.job_id (handle_worker_fail env (posted req) w).1.db
        ≡ answer (record m {
          status = status;
          error_text = some req.error_text;
          lease_until = none;
          updated_at = env.db_now;
        }))
      × (((m.max_attempts ≤ℤ pos m.attempts) × (status ≡ error))
          ⊎ ((pos (m.attempts + 1) ≤ℤ m.max_attempts) × (status ≡ queued)))
get_job-handle_worker_fail env env' req w m h ok =
    let (up, j, r, q) = get_job-row env' req.job_id w.db m h in
    let set = set_failed env.db_now (status_after_fail j) req.error_text in
    (
      status_after_fail j,
      row-get_job env' req.job_id (handle_worker_fail env (posted req) w).1.db (set j) up (
            rw (jobs-handle_worker_fail env req w j r ok)
              (find_if-update_where (λ k. k.id == req.job_id) set (λ _. refl) w.db.jobs j r))
          ∙ rw (← q) refl,
      rw (← q) (status-leb j.attempts j.max_attempts),
    )
