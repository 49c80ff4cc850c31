-- ===== src/Http/Jobs.antt =====
-- `HandleJobs` in core/internal/api/handlers.go: a job is checked and put into the queue.
use llm_mcp.Prelude.{
  ℕ, String, Bool, not, ◌&&◌, ◌||◌, ◌==◌, Option, none, some, [], ◌∷◌, ◌++◌, if◌then◌else◌, any,
  blank, has_prefix,
}
use llm_mcp.Prelude.Int.{ℤ, pos, eqb_ℤ}
use llm_mcp.Db.Values.{Json, or_empty}
use llm_mcp.Db.{queued, Job, Db, Env, insert_job}
use llm_mcp.Limits.{model_allowed}
use llm_mcp.Routing.Payload.{parse_payload_model_device}
use llm_mcp.Http.{Reply, reply, fail, Request, World, post}

-- models.SubmitJobRequest
pub record SubmitJobRequest : Type 0 where
  pub kind : String
  pub payload : Option Json
  pub priority : ℤ
  pub source : String
  pub max_attempts : ℤ
  pub deadline_at : String

-- A row with the defaults of the table.
abbrev pub new_job : Env → String → Json → ℤ → String → ℤ → Option ℕ → Job
new_job env kind payload priority source max_attempts deadline = record {
  id = env.uuid 0;
  kind = kind;
  payload = payload;
  status = queued;
  attempts = 0;
  max_attempts = max_attempts;
  lease_until = none;
  deadline_at = deadline;
  result = none;
  error_text = none;
  priority = priority;
  source = source;
  queued_at = env.db_now;
  updated_at = env.db_now;
}

-- `INSERT INTO jobs …`: the primary key refuses an id that is taken.
abbrev pub insert_row : Env → Job → Db → Option Db
insert_row env j db =
    if env.down insert_job || any (λ r. r.id == j.id) db.jobs
    then none
    else some (record db { jobs = db.jobs ++ j ∷ [] })

abbrev pub or_three : ℤ → ℤ
or_three n = if eqb_ℤ n (pos 0) then pos 3 else n

-- The limits are asked for an ollama job that names a model and a device.
abbrev pub refused_by_limits : Env → Db → SubmitJobRequest → Bool
refused_by_limits env db req =
    let (model, device) = parse_payload_model_device (some (or_empty req.payload)) in
    (has_prefix req.kind "ollama." || has_prefix req.kind "benchmark.ollama.")
    && not (model == "")
    && not (device == "")
    && not (model_allowed env db device model).0

-- The end of the handler, with the deadline parsed.
abbrev pub enqueue : Env → SubmitJobRequest → Option ℕ → World → Reply String × World
enqueue env req deadline w =
    let j =
      new_job env req.kind (or_empty req.payload) req.priority req.source
        (or_three req.max_attempts) deadline in
    if refused_by_limits env w.db req
    then (fail 400 "model_not_allowed", w)
    else elim (insert_row env j w.db) [
      | none ↦ (fail 500 "db_insert_failed", w)
      | some db ↦ (reply 202 j.id, record w { db = db })
    ]

abbrev pub submit : Env → SubmitJobRequest → World → Reply String × World
submit env req w =
    if blank req.kind
    then (fail 400 "kind_required", w)
    else if blank req.deadline_at
    then enqueue env req none w
    else elim (env.parse_time req.deadline_at) [
      | none ↦ (fail 400 "invalid_deadline_at", w)
      | some t ↦ enqueue env req (some t) w
    ]

unfoldable pub handle_jobs : Env → Request SubmitJobRequest → World → Reply String × World
unfolding post
handle_jobs env r w = post r w (λ req. submit env req w)
