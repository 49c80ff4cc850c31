-- ===== src/Http/Lease.antt =====
-- The worker protocol of core/internal/api/handlers.go: a lease is extended, a device reported offline.
use llm_mcp.Prelude.{
  ℕ, String, ◌&&◌, ◌||◌, ◌==◌, Option, some, List, [], ◌∷◌, if◌then◌else◌, update_where, blank,
}
use llm_mcp.Prelude.Int.{ℤ, pos}
use llm_mcp.Db.Values.{str, merge}
use llm_mcp.Db.{
  is_running, Job, offline, Device, Env, update_job as update_job_stmt, update_device, add_duration,
  seconds,
}
use llm_mcp.Queue.{set_lease}
use llm_mcp.Http.Workers.{lease_or}
use llm_mcp.Http.{Ack, Reply, reply, fail, Request, World, post}

-- models.HeartbeatRequest
pub record HeartbeatRequest : Type 0 where
  pub worker_id : String
  pub job_id : String
  pub extend_seconds : ℤ

-- models.DeviceOfflineRequest
pub record DeviceOfflineRequest : Type 0 where
  pub device_id : String
  pub reason : String

-- `UPDATE jobs SET lease_until=$1, updated_at=now() WHERE id=$2 AND status='running'`
abbrev pub extend_lease : String → ℕ → Option ℕ → List Job → List Job
extend_lease id now lease jobs =
    update_where (λ j. j.id == id && is_running j.status) (set_lease now lease) jobs

abbrev pub heartbeat : Env → HeartbeatRequest → World → Reply Ack × World
heartbeat env req w =
    let lease = add_duration env.app_now (seconds (lease_or (pos 30) req.extend_seconds)) in
    if blank req.worker_id || blank req.job_id
    then (fail 400 "worker_id_job_id_required", w)
    else if env.down update_job_stmt
    then (fail 500 "db_update_failed", w)
    else (
      reply 200 tt,
      record w {
        db = record w.db { jobs = extend_lease req.job_id env.db_now (some lease) w.db.jobs };
      },
    )

unfoldable pub handle_worker_heartbeat : Env → Request HeartbeatRequest → World → Reply Ack × World
unfolding post
handle_worker_heartbeat env r w = post r w (λ req. heartbeat env req w)

abbrev pub set_offline : Env → String → Device → Device
set_offline env reason d = record d {
  status = offline;
  tags = some (
      merge d.tags
        (("last_error", str reason) ∷ ("last_error_at", str (env.format_time env.app_now)) ∷ []));
  updated_at = env.db_now;
}

abbrev pub take_offline : Env → DeviceOfflineRequest → World → Reply Ack × World
take_offline env req w =
    if blank req.device_id
    then (fail 400 "device_id_required", w)
    else if env.down update_device
    then (fail 500 "db_update_failed", w)
    else (
      reply 200 tt,
      record w {
        db = record w.db {
          devices =
              update_where (λ d. d.id == req.device_id) (set_offline env req.reason) w.db.devices;
        };
      },
    )

unfoldable pub handle_device_offline :
    Env → Request DeviceOfflineRequest → World → Reply Ack × World
unfolding post
handle_device_offline env r w = post r w (λ req. take_offline env req w)
