-- ===== src/Grpc/Jobs.antt =====
-- The jobs of core/internal/grpcserver/server.go. A call has no validation of its ids, and a claim has
-- none of the device conditions of the HTTP server.
use llm_mcp.Prelude.{
  ℕ, suc, String, Bool, not, ◌&&◌, ◌||◌, ◌==◌, Option, none, some, List, [], ◌∷◌, ◌++◌,
  if◌then◌else◌, find_if, filter_if, first_by,
}
use llm_mcp.Prelude.Int.{ℤ, pos}
use llm_mcp.Db.{
  JobStatus, running, done, error, Job, Attempt, Db, Env, begin_tx, commit_tx, select_job,
  update_job as update_job_stmt, read_job, add_duration, seconds,
}
use llm_mcp.Queue.{before, is_waiting, update_job, set_running, set_done, set_failed, new_attempt}
use llm_mcp.Http.Jobs.{new_job, insert_row, or_three}
use llm_mcp.Http.Workers.{lease_or, attempt_fails}
use llm_mcp.Http.Finish.{close, finish_attempt, status_after_fail}
use llm_mcp.Http.Lease.{extend_lease}
use llm_mcp.Db.Values.{Json}
use llm_mcp.Grpc.{Answer, answer, failed, panic, sanitize_json}

pub record SubmitJobRequest : Type 0 where
  pub kind : String
  pub payload_json : String
  pub priority : ℤ
  pub source : String
  pub max_attempts : ℤ
  pub deadline_at : String

abbrev pub enqueue : Env → SubmitJobRequest → Option ℕ → Db → Answer String × Db
enqueue env req deadline db =
    let j =
      new_job env req.kind (sanitize_json env req.payload_json) req.priority req.source
        (or_three req.max_attempts) deadline in
    elim (insert_row env j db) [ none ↦ (failed, db) | some db' ↦ (answer j.id, db') ]

unfoldable pub submit_job : Env → SubmitJobRequest → Db → Answer String × Db
submit_job env req db =
    if req.deadline_at == ""
    then enqueue env req none db
    else elim (env.parse_time req.deadline_at) [
      | none ↦ (failed, db)
      | some t ↦ enqueue env req (some t) db
    ]

-- The message `Job`: a row without its source, its times before they are formatted.
pub record JobMessage : Type 0 where
  pub id : String
  pub kind : String
  pub payload : Json
  pub status : JobStatus
  pub attempts : ℕ
  pub max_attempts : ℤ
  pub lease_until : Option ℕ
  pub deadline_at : Option ℕ
  pub result : Option Json
  pub error_text : Option String
  pub priority : ℤ
  pub queued_at : ℕ
  pub updated_at : ℕ

-- `rowToPB`, with the times as they are before they are formatted.
abbrev pub row_to_pb : Job → JobMessage
row_to_pb j = record {
  id = j.id;
  kind = j.kind;
  payload = j.payload;
  status = j.status;
  attempts = j.attempts;
  max_attempts = j.max_attempts;
  lease_until = j.lease_until;
  deadline_at = j.deadline_at;
  result = j.result;
  error_text = j.error_text;
  priority = j.priority;
  queued_at = j.queued_at;
  updated_at = j.updated_at;
}

-- The row that `fetchJob` reads.
unfoldable pub fetch_row : Env → String → Db → Answer Job
fetch_row env id db =
    if env.down read_job
    then failed
    else elim (find_if (λ j. j.id == id) db.jobs) [ none ↦ failed | some j ↦ answer j ]

abbrev pub as_message : Answer Job → Answer JobMessage
as_message (answer j) = answer (row_to_pb j)
as_message failed = failed
as_message panic = panic

unfoldable pub get_job : Env → String → Db → Answer JobMessage
unfolding fetch_row
get_job env id db = as_message (fetch_row env id db)

pub record ClaimJobRequest : Type 0 where
  pub worker_id : String
  pub kinds : List String
  pub lease_seconds : ℤ

unfoldable pub select_waiting : ℕ → (String → Bool) → List String → Db → Option Job
select_waiting now locked kinds db =
    first_by before (filter_if (λ j. is_waiting now kinds j && not (locked j.id)) db.jobs)

abbrev pub take : Env → String → ℕ → Job → Db → Answer (Option Job) × Db
take env worker_id lease j db =
    if env.down update_job_stmt
    then (failed, db)
    else if attempt_fails env j.id db || env.down commit_tx
    then (failed, db)
    else (
      answer (
          some
            (record j { status = running; attempts = suc j.attempts; lease_until = some lease })),
      record db {
        jobs = update_job j.id (set_running env.db_now lease) db.jobs;
        attempts = db.attempts ++ new_attempt (env.uuid 0) j.id worker_id env.db_now ∷ [];
      },
    )

-- No row is an empty response.
abbrev pub hand_out : Env → String → ℕ → Option Job → Db → Answer (Option Job) × Db
hand_out env worker_id lease none db = (answer none, db)
hand_out env worker_id lease (some j) db = take env worker_id lease j db

unfoldable pub claim_job : Env → ClaimJobRequest → Db → Answer (Option Job) × Db
claim_job env req db =
    let lease = add_duration env.app_now (seconds (lease_or (pos 60) req.lease_seconds)) in
    if env.down begin_tx
    then (failed, db)
    else if env.down select_job
    then (failed, db)
    else hand_out env req.worker_id lease (select_waiting env.db_now env.locked req.kinds db) db

unfoldable pub heartbeat : Env → String → ℤ → Db → Answer (Unit {0}) × Db
heartbeat env job_id extend_seconds db =
    let lease = add_duration env.app_now (seconds (lease_or (pos 30) extend_seconds)) in
    if env.down update_job_stmt
    then (failed, db)
    else (answer tt, record db { jobs = extend_lease job_id env.db_now (some lease) db.jobs })

pub record CompleteJobRequest : Type 0 where
  pub job_id : String
  pub worker_id : String
  pub result_json : String
  pub metrics_json : String

unfoldable pub complete_job : Env → CompleteJobRequest → Db → Answer (Unit {0}) × Db
complete_job env req db =
    let result = sanitize_json env req.result_json in
    let metrics = sanitize_json env req.metrics_json in
    let finish = λ (a : Attempt). finish_attempt env done a.error_text metrics a in
    if env.down update_job_stmt then (failed, db) else (
      answer tt,
      close env req.job_id finish
          (record db { jobs = update_job req.job_id (set_done env.db_now result) db.jobs }),
    )

pub record FailJobRequest : Type 0 where
  pub job_id : String
  pub worker_id : String
  pub error_text : String
  pub metrics_json : String

abbrev pub fail_row : Env → FailJobRequest → Job → Db → Answer (Unit {0}) × Db
fail_row env req j db =
    let jobs =
      update_job req.job_id (set_failed env.db_now (status_after_fail j) req.error_text) db.jobs in
    let finish =
      finish_attempt env error (some req.error_text) (sanitize_json env req.metrics_json) in
    if env.down update_job_stmt
    then (failed, db)
    else (answer tt, close env req.job_id finish (record db { jobs = jobs }))

unfoldable pub fail_job : Env → FailJobRequest → Db → Answer (Unit {0}) × Db
fail_job env req db =
    if env.down read_job then (failed, db) else elim (find_if (λ j. j.id == req.job_id) db.jobs) [
      | none ↦ (failed, db)
      | some j ↦ fail_row env req j db
    ]
