-- ===== src/Http/Finish.antt =====
-- The worker protocol of core/internal/api/handlers.go: a job is completed or fails, with the cost record
-- and the circuit of its device.
use llm_mcp.Prelude.{
  String, Bool, true, false, not, ◌&&◌, ◌||◌, ◌==◌, Option, none, some, List, [], ◌∷◌, ◌++◌,
  if◌then◌else◌, find_if, blank, trim_space,
}
use llm_mcp.Prelude.Int.{ℤ, pos, leb_ℤ}
use llm_mcp.Db.Values.{Value, Json, field, as_string, or_empty}
use llm_mcp.Db.{
  JobStatus, queued, done, error, Job, Attempt, Db, Env, update_job as update_job_stmt, read_job,
  read_payload, update_attempt, job_cost, insert_cost,
}
use llm_mcp.Queue.{update_job, set_done, set_failed, close_attempt}
use llm_mcp.Routing.Circuit.{record_device_result}
use llm_mcp.Stats.{fits_int4}
use llm_mcp.Http.{Ack, Reply, reply, fail, Request, World, post}

-- models.CompleteJobRequest
pub record CompleteJobRequest : Type 0 where
  pub worker_id : String
  pub job_id : String
  pub result : Option Json
  pub metrics : Option Json

-- models.FailJobRequest
pub record FailJobRequest : Type 0 where
  pub worker_id : String
  pub job_id : String
  pub error_text : String
  pub metrics : Option Json

-- `ToInt` of a decoded number; what is no number gives 0.
abbrev pub to_int : Option Value → ℤ
to_int (some (Value.num t n)) = n
to_int _ = pos 0

abbrev is_zero : ℤ → Bool
is_zero n = leb_ℤ n (pos 0) && leb_ℤ (pos 0) n

-- `RecordCost`: a failing cost function counts as 0, and a failing insert is only logged. The id of the
-- job is no longer a foreign key, and the counts of the tokens are of the type INT.
unfoldable pub record_cost : Env → String → Json → Db → Db
record_cost env job_id metrics db =
    let tokens_in = to_int (field "tokens_in" metrics) in
    let tokens_out = to_int (field "tokens_out" metrics) in
    let provider = as_string (field "provider" metrics) in
    let model = as_string (field "model" metrics) in
    let cost = if env.down job_cost then pos 0 else env.job_cost model tokens_in tokens_out in
    if is_zero tokens_in && is_zero tokens_out || model == "" || provider == ""
    then db
    else if env.down insert_cost || not (fits_int4 tokens_in && fits_int4 tokens_out)
    then db
    else record db {
      costs =
          db.costs
          ++ record {
            job_id = some job_id;
            model_id = model;
            provider = provider;
            tokens_in = tokens_in;
            tokens_out = tokens_out;
            cost_usd = cost;
          }
            ∷ [];
    }

-- `extractDeviceID`
abbrev pub device_in : Json → String
device_in j = trim_space (as_string (field "device_id" j))

abbrev pub finish_attempt : Env → JobStatus → Option String → Json → Attempt → Attempt
finish_attempt env status text metrics a = record a {
  status = status;
  finished_at = some env.db_now;
  error_text = text;
  metrics = some metrics;
}

-- The second statement of a completion or a failure, whose error is ignored.
abbrev pub close : Env → String → (Attempt → Attempt) → Db → Db
close env job_id f db =
    if env.down update_attempt
    then db
    else record db { attempts = close_attempt job_id f db.attempts }

abbrev pub complete : Env → CompleteJobRequest → World → Reply Ack × World
complete env req w =
    let result = or_empty req.result in
    let metrics = or_empty req.metrics in
    let db = record w.db { jobs = update_job req.job_id (set_done env.db_now result) w.db.jobs } in
    let finish = λ (a : Attempt). finish_attempt env done a.error_text metrics a in
    if blank req.worker_id || blank req.job_id
    then (fail 400 "worker_id_job_id_required", w)
    else if env.down update_job_stmt
    then (fail 500 "db_update_failed", w)
    else (
      reply 200 tt,
      record {
        db = record_cost env req.job_id metrics (close env req.job_id finish db);
        circuits = record_device_result env.app_now w.circuits (device_in result) true;
      },
    )

unfoldable pub handle_worker_complete : Env → Request CompleteJobRequest → World → Reply Ack × World
unfolding post
handle_worker_complete env r w = post r w (λ req. complete env req w)

-- A job whose attempts are used up ends in `error`; any other is queued again.
abbrev pub status_after_fail : Job → JobStatus
status_after_fail j = if leb_ℤ j.max_attempts (pos j.attempts) then error else queued

-- `extractDeviceIDFromJob`
abbrev pub device_of_row : Env → String → List Job → String
device_of_row env id jobs =
    if env.down read_payload
    then ""
    else elim (find_if (λ j. j.id == id) jobs) [ none ↦ "" | some j ↦ device_in j.payload ]

abbrev pub fail_row : Env → FailJobRequest → Job → World → Reply Ack × World
fail_row env req j w =
    let jobs =
      update_job req.job_id (set_failed env.db_now (status_after_fail j) req.error_text)
        w.db.jobs in
    let finish = finish_attempt env error (some req.error_text) (or_empty req.metrics) in
    if env.down update_job_stmt then (fail 500 "db_update_failed", w) else (
      reply 200 tt,
      record {
        db = close env req.job_id finish (record w.db { jobs = jobs });
        circuits =
            record_device_result env.app_now w.circuits (device_of_row env req.job_id jobs) false;
      },
    )

abbrev pub fail_job : Env → FailJobRequest → World → Reply Ack × World
fail_job env req w =
    if blank req.worker_id || blank req.job_id
    then (fail 400 "worker_id_job_id_required", w)
    else if env.down read_job
    then (fail 500 "db_read_failed", w)
    else elim (find_if (λ j. j.id == req.job_id) w.db.jobs) [
      | none ↦ (fail 404 "not_found", w)
      | some j ↦ fail_row env req j w
    ]

unfoldable pub handle_worker_fail : Env → Request FailJobRequest → World → Reply Ack × World
unfolding post
handle_worker_fail env r w = post r w (λ req. fail_job env req w)
