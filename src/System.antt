-- ===== src/System.antt =====
-- The server as a whole: any sequence of calls of the HTTP handlers, the gRPC methods and runs of
-- discovery, each in an environment of its own. A statement of the database and a section
-- under the mutex of the router are atomic, and each call is taken as one step.
pub mod Invariant
pub mod Lookup
pub mod Submitted
pub mod Routed
pub mod Benched
use llm_mcp.Prelude.{ℕ, String, Bool, Option, List, [], ◌∷◌}
use llm_mcp.Prelude.Int.{ℤ}
use llm_mcp.Db.{Ranking, Db, Env}
use llm_mcp.Http.{Request, World}
use llm_mcp.Http.Jobs as HttpJobs
use llm_mcp.Http.Workers as HttpWorkers
use llm_mcp.Http.Jobs.{handle_jobs}
use llm_mcp.Http.Workers.{handle_worker_register, handle_worker_claim}
use llm_mcp.Http.Finish as HttpFinish
use llm_mcp.Http.Finish.{handle_worker_complete, handle_worker_fail}
use llm_mcp.Http.Lease.{
  HeartbeatRequest, DeviceOfflineRequest, handle_worker_heartbeat, handle_device_offline,
}
use llm_mcp.Db.Values.{Json}
use llm_mcp.Routing.Models.{Pricing}
use llm_mcp.Routing.Llm.Request.{Payload}
use llm_mcp.Http.Llm.{LlmSubmit, handle_llm_request}
use llm_mcp.Http.Bench.{Fields, BenchmarkRunRequest, handle_benchmark_run}
use llm_mcp.Stats.{Feedback, handle_feedback}
use llm_mcp.Stats.Select.{Floats}
use llm_mcp.Stats.Sync.{Market, handle_openrouter_sync}
use llm_mcp.Proxy.Embed.{EmbedClient, EmbedRequest, handle_embeddings}
use llm_mcp.Proxy.Providers.{ChatClient, ChatCall}
use llm_mcp.Proxy.Chat.{handle_chat_completions}
use llm_mcp.Grpc.Jobs as GrpcJobs
use llm_mcp.Grpc.Jobs.{submit_job, claim_job, heartbeat, complete_job, fail_job}
use llm_mcp.Grpc.Reports as GrpcReports
use llm_mcp.Grpc.Reports.{register_worker, report_metrics, report_benchmark}
use llm_mcp.Discovery.Net.{Net}
use llm_mcp.Discovery.Run.{Tailscale, Runner, run as discover_run}
use llm_mcp.Http.Runs.{handle_discovery_run}
use llm_mcp.Debug.Smoke.{handle_debug_test}

pub data Call : Type 0 where
  http_submit : Request HttpJobs.SubmitJobRequest → Call
  http_register : Request HttpWorkers.WorkerInfo → Call
  http_claim : Request HttpWorkers.ClaimJobRequest → Call
  http_complete : Request HttpFinish.CompleteJobRequest → Call
  http_fail : Request HttpFinish.FailJobRequest → Call
  http_heartbeat : Request HeartbeatRequest → Call
  http_offline : Request DeviceOfflineRequest → Call
  http_llm : (Payload → Json) → List Pricing → Request LlmSubmit → Call
  http_benchmark : (Fields → Json) → Request BenchmarkRunRequest → Call
  http_chat : Floats → (List Ranking → List Ranking) → ChatClient → ChatCall → Call
  http_embeddings : EmbedClient → Request EmbedRequest → Call
  http_feedback : Request Feedback → Call
  http_sync : Market → String → Call
  http_debug_test : (String → Option ℕ) → String → Call
  http_discovery : Net → Tailscale → String → Runner → Call
  grpc_submit : GrpcJobs.SubmitJobRequest → Call
  grpc_register : Option GrpcReports.WorkerInfo → Call
  grpc_claim : GrpcJobs.ClaimJobRequest → Call
  grpc_heartbeat : String → ℤ → Call
  grpc_complete : GrpcJobs.CompleteJobRequest → Call
  grpc_fail : GrpcJobs.FailJobRequest → Call
  grpc_metrics : Option GrpcReports.WorkerInfo → String → Call
  grpc_benchmark : Option GrpcReports.BenchmarkReport → Call
  discovery : Net → Tailscale → Call

-- A call that only reaches the database leaves the circuits.
abbrev pub with_db {ℓ} : {A : Type ℓ} → World → A × Db → World
with_db w r = record w { db = r.1 }

unfoldable pub step : Env → Call → World → World
step env (http_submit r) w = (handle_jobs env r w).1
step env (http_register r) w = (handle_worker_register env r w).1
step env (http_claim r) w = (handle_worker_claim env r w).1
step env (http_complete r) w = (handle_worker_complete env r w).1
step env (http_fail r) w = (handle_worker_fail env r w).1
step env (http_heartbeat r) w = (handle_worker_heartbeat env r w).1
step env (http_offline r) w = (handle_device_offline env r w).1
step env (http_llm encode table r) w = (handle_llm_request env encode table r w).1
step env (http_benchmark encode r) w = (handle_benchmark_run env encode r w).1
step env (http_chat fl sorted c r) w = (handle_chat_completions env fl sorted c r w).1
step env (http_embeddings c r) w = (handle_embeddings env c r w).1
step env (http_feedback r) w = (handle_feedback env r w).1
step env (http_sync k method) w = (handle_openrouter_sync env k method w).1
step env (http_debug_test get method) w = (handle_debug_test env get method w).1
step env (http_discovery net t method r) w = (handle_discovery_run env net t method r w).2
step env (grpc_submit r) w = with_db w (submit_job env r w.db)
step env (grpc_register r) w = with_db w (register_worker env r w.db)
step env (grpc_claim r) w = with_db w (claim_job env r w.db)
step env (grpc_heartbeat id s) w = with_db w (heartbeat env id s w.db)
step env (grpc_complete r) w = with_db w (complete_job env r w.db)
step env (grpc_fail r) w = with_db w (fail_job env r w.db)
step env (grpc_metrics r raw) w = with_db w (report_metrics env r raw w.db)
step env (grpc_benchmark r) w = with_db w (report_benchmark env r w.db)
step env (discovery net t) w = with_db w (discover_run env net t w.db)

unfoldable pub run : List (Env × Call) → World → World
unfolding step
run [] w = w
run ((env, c) ∷ rest) w = run rest (step env c w)
