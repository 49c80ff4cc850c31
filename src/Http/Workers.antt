-- ===== src/Http/Workers.antt =====
-- The worker protocol of core/internal/api/handlers.go: a worker registers and claims a job.
use Prim.Native.Nat.{◌-◌, ◌*◌}
use llm_mcp.Prelude.{
  ℕ, suc, String, Bool, not, ◌||◌, ◌==◌, Option, none, some, List, [], ◌∷◌, ◌++◌, if◌then◌else◌,
  any, blank, trim_space, concat, decimal,
}
use llm_mcp.Prelude.Int.{ℤ, pos, leb_ℤ, ltb_ℤ}
use llm_mcp.Config.{getenv_int}
use llm_mcp.Db.Values.{Json, or_empty}
use llm_mcp.Db.{
  running, Job, online, Device, Db, Env, begin_tx, commit_tx, select_job,
  update_job as update_job_stmt, insert_attempt, upsert_device, add_duration, seconds,
}
use llm_mcp.Queue.{select_claimable, update_job, set_running, new_attempt}
use llm_mcp.Http.{Reply, reply, fail, Request, World, post}

-- models.WorkerInfo
pub record WorkerInfo : Type 0 where
  pub id : String
  pub name : String
  pub platform : String
  pub arch : String
  pub host : String
  pub tags : Option Json

-- models.ClaimJobRequest
pub record ClaimJobRequest : Type 0 where
  pub worker_id : String
  pub kinds : List String
  pub lease_seconds : ℤ

-- The `INSERT INTO devices … ON CONFLICT (id) DO UPDATE SET …` of a worker.
abbrev pub worker_row : ℕ → String → WorkerInfo → Device
worker_row now id info = record {
  id = id;
  name = info.name;
  platform = info.platform;
  arch = info.arch;
  host = info.host;
  tags = some (or_empty info.tags);
  status = online;
  last_seen = some now;
  updated_at = now;
}

abbrev pub upsert_worker : Device → List Device → List Device
upsert_worker d [] = d ∷ []
upsert_worker d (e ∷ es) = if e.id == d.id then d ∷ es else e ∷ upsert_worker d es

-- `time.Now().UnixNano()`, counted from 1970.
abbrev unix_nano : ℕ → ℕ
unix_nano now = now - 62_135_596_800 * 1_000_000_000

abbrev pub worker_id_of : Env → WorkerInfo → String
worker_id_of env info =
    let id = trim_space info.id in
    if id == "" then concat "worker-" (decimal (unix_nano env.app_now)) else id

unfoldable pub handle_worker_register : Env → Request WorkerInfo → World → Reply String × World
unfolding post
handle_worker_register env r w = post r w λ info.
    let id = worker_id_of env info in
    if env.down upsert_device then (fail 500 "db_upsert_failed", w) else (
      reply 200 id,
      record w {
        db = record w.db { devices = upsert_worker (worker_row env.db_now id info) w.db.devices };
      },
    )

abbrev pub lease_or : ℤ → ℤ → ℤ
lease_or default s = if leb_ℤ s (pos 0) then default else s

-- `DEVICE_MAX_CONCURRENCY`, at least 1.
unfoldable pub device_limit : Env → ℤ
device_limit env =
    let n = getenv_int env.vars "DEVICE_MAX_CONCURRENCY" (pos 1) in
    if ltb_ℤ n (pos 1) then pos 1 else n

-- `INSERT INTO job_attempts`: the keys refuse an id that is taken and a job that is not there.
abbrev pub attempt_fails : Env → String → Db → Bool
attempt_fails env job_id db =
    env.down insert_attempt
    || any (λ a. a.id == env.uuid 0) db.attempts
    || not (any (λ j. j.id == job_id) db.jobs)

-- The rest of the claim, once a row is selected. An insert that fails leaves a transaction that cannot
-- be committed.
abbrev pub take : Env → String → ℕ → Job → World → Reply (Option Job) × World
take env worker_id lease j w =
    if env.down update_job_stmt
    then (fail 500 "db_update_failed", w)
    else if attempt_fails env j.id w.db || env.down commit_tx
    then (fail 500 "db_commit_failed", w)
    else (
      reply 200 (
          some
            (record j { status = running; attempts = suc j.attempts; lease_until = some lease })),
      record w {
        db = record w.db {
          jobs = update_job j.id (set_running env.db_now lease) w.db.jobs;
          attempts = w.db.attempts ++ new_attempt (env.uuid 0) j.id worker_id env.db_now ∷ [];
        };
      },
    )

-- `sql.ErrNoRows` is an empty queue and no error.
abbrev pub answer : Env → String → ℕ → Option Job → World → Reply (Option Job) × World
answer env worker_id lease none w = (reply 200 none, w)
answer env worker_id lease (some j) w = take env worker_id lease j w

abbrev pub claim : Env → ClaimJobRequest → World → Reply (Option Job) × World
claim env req w =
    let lease = add_duration env.app_now (seconds (lease_or (pos 60) req.lease_seconds)) in
    if blank req.worker_id
    then (fail 400 "worker_id_required", w)
    else if env.down begin_tx
    then (fail 500 "db_tx_failed", w)
    else if env.down select_job
    then (fail 500 "db_read_failed", w)
    else answer env req.worker_id lease
        (select_claimable env.db_now env.locked req.kinds (device_limit env) w.db) w

unfoldable pub handle_worker_claim :
    Env → Request ClaimJobRequest → World → Reply (Option Job) × World
unfolding post
handle_worker_claim env r w = post r w (λ req. claim env req w)
