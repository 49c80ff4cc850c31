-- ===== src/System/Invariant.antt =====
-- The invariant of the tables `jobs` and `job_attempts` holds in every state that the server reaches.
pub mod Parts
pub mod Http
pub mod Grpc
pub mod Discovery
pub mod Requests
pub mod Proxies
use llm_mcp.Prelude.{◌≡◌, refl, List, [], ◌∷◌}
use llm_mcp.Db.{Env}
use llm_mcp.Queue.Invariant.{Inv, Sound}
use llm_mcp.Http.{World}
use llm_mcp.System.{
  Call, step, run, http_submit, http_register, http_claim, http_complete, http_fail, http_heartbeat,
  http_offline, http_llm, http_benchmark, http_chat, http_embeddings, http_feedback, http_sync,
  http_debug_test, http_discovery, grpc_submit, grpc_register, grpc_claim, grpc_heartbeat,
  grpc_complete, grpc_fail, grpc_metrics, grpc_benchmark, discovery,
}
use Http.{
  Sound-handle_jobs, Sound-handle_worker_register, Sound-handle_worker_claim,
  Sound-handle_worker_complete, Sound-handle_worker_fail, Sound-handle_worker_heartbeat,
  Sound-handle_device_offline,
}
use Grpc.{
  Sound-submit_job, Sound-register_worker, Sound-claim_job, Sound-heartbeat, Sound-complete_job,
  Sound-fail_job, Sound-report_metrics, Sound-report_benchmark,
}
use Discovery.{Sound-run_discovery, Sound-handle_discovery_run}
use llm_mcp.Debug.Unnoticed.{Sound-handle_debug_test}
use Requests.{Sound-handle_llm_request, Sound-handle_benchmark_run}
use Proxies.{
  Sound-handle_chat_completions, Sound-handle_embeddings, Sound-handle_feedback,
  Sound-handle_openrouter_sync,
}

Sound-step : (env : Env) (c : Call) (w : World) → Sound w.db → Sound (step env c w).db
unfolding step
Sound-step env (http_submit r) w v = Sound-handle_jobs env r w v
Sound-step env (http_register r) w v = Sound-handle_worker_register env r w v
Sound-step env (http_claim r) w v = Sound-handle_worker_claim env r w v
Sound-step env (http_complete r) w v = Sound-handle_worker_complete env r w v
Sound-step env (http_fail r) w v = Sound-handle_worker_fail env r w v
Sound-step env (http_heartbeat r) w v = Sound-handle_worker_heartbeat env r w v
Sound-step env (http_offline r) w v = Sound-handle_device_offline env r w v
Sound-step env (http_llm encode table r) w v = Sound-handle_llm_request env encode table r w v
Sound-step env (http_benchmark encode r) w v = Sound-handle_benchmark_run env encode r w v
Sound-step env (http_chat fl sorted c r) w v = Sound-handle_chat_completions env fl sorted c r w v
Sound-step env (http_embeddings c r) w v = Sound-handle_embeddings env c r w v
Sound-step env (http_feedback r) w v = Sound-handle_feedback env r w v
Sound-step env (http_sync k method) w v = Sound-handle_openrouter_sync env k method w v
Sound-step env (http_debug_test get method) w v = Sound-handle_debug_test env get method w v
Sound-step env (http_discovery net t method r) w v =
    Sound-handle_discovery_run env net t method r w v
Sound-step env (grpc_submit r) w v = Sound-submit_job env r w.db v
Sound-step env (grpc_register r) w v = Sound-register_worker env r w.db v
Sound-step env (grpc_claim r) w v = Sound-claim_job env r w.db v
Sound-step env (grpc_heartbeat id s) w v = Sound-heartbeat env id s w.db v
Sound-step env (grpc_complete r) w v = Sound-complete_job env r w.db v
Sound-step env (grpc_fail r) w v = Sound-fail_job env r w.db v
Sound-step env (grpc_metrics r raw) w v = Sound-report_metrics env r raw w.db v
Sound-step env (grpc_benchmark r) w v = Sound-report_benchmark env r w.db v
Sound-step env (discovery net t) w v = Sound-run_discovery env net t w.db v

Sound-run : (calls : List (Env × Call)) (w : World) → Sound w.db → Sound (run calls w).db
unfolding run
Sound-run [] w v = v
Sound-run ((env, c) ∷ rest) w v = Sound-run rest (step env c w) (Sound-step env c w v)

-- From tables without jobs and attempts, any sequence of calls over HTTP and gRPC and of runs of
-- discovery, with any statements failing, reaches tables in which the ids of the jobs are distinct, a
-- lease is held by a running job only, and each attempt is of a job in the table.
pub run-Inv :
    (calls : List (Env × Call)) (w : World)
    → w.db.jobs ≡ []
    → w.db.attempts ≡ []
    → Inv (run calls w).db.jobs (run calls w).db.attempts
run-Inv calls w e e' =
    (Sound-run calls w
      (record { inv = rw (e, e') (record { unique = tt; leases = tt; owned = tt }) })).inv
