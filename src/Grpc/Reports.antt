-- ===== src/Grpc/Reports.antt =====
-- What workers report to core/internal/grpcserver/server.go: themselves, metrics and benchmarks.
use llm_mcp.Prelude.{
  String, false, not, ◌||◌, ◌==◌, Option, none, some, List, [], ◌∷◌, ◌++◌, if◌then◌else◌, any,
  concat,
}
use llm_mcp.Prelude.Int.{ℤ}
use llm_mcp.Db.Values.{arrow_text, coalesce}
use llm_mcp.Db.{
  Micro, Model, Benchmark, online, Device, Db, Env, upsert_device, upsert_model, insert_benchmark,
  insert_metrics,
}
use llm_mcp.Limits.{known_device}
use llm_mcp.Http.Workers.{upsert_worker}
use llm_mcp.Grpc.{Answer, answer, failed, panic, sanitize_json}

pub record WorkerInfo : Type 0 where
  pub id : String
  pub name : String
  pub platform : String
  pub arch : String
  pub host : String
  pub tags_json : String

abbrev pub worker_row : Env → String → WorkerInfo → Device
worker_row env id info = record {
  id = id;
  name = info.name;
  platform = info.platform;
  arch = info.arch;
  host = info.host;
  tags = some (sanitize_json env info.tags_json);
  status = online;
  last_seen = some env.db_now;
  updated_at = env.db_now;
}

-- The message of a request may be missing, and is not tested for.
unfoldable pub register_worker : Env → Option WorkerInfo → Db → Answer String × Db
register_worker env none db = (panic, db)
register_worker env (some info) db =
    let id = if info.id == "" then concat "worker-" (env.compact_time env.app_now) else info.id in
    if env.down upsert_device
    then (failed, db)
    else (answer id, record db { devices = upsert_worker (worker_row env id info) db.devices })

-- The row of the reporting worker; an error is ignored.
abbrev pub touch_worker : Env → Option WorkerInfo → Db → Db
touch_worker env none db = db
touch_worker env (some info) db =
    if env.down upsert_device
    then db
    else record db { devices = upsert_worker (worker_row env info.id info) db.devices }

abbrev pub add_metrics : Env → Option WorkerInfo → String → Db → Db
add_metrics env none raw db = db
add_metrics env (some info) raw db =
    if raw == "" || env.down insert_metrics || not (known_device info.id db.devices)
    then db
    else record db { device_metrics = db.device_metrics ++ (info.id, sanitize_json env raw) ∷ [] }

unfoldable pub report_metrics : Env → Option WorkerInfo → String → Db → Answer (Unit {0}) × Db
report_metrics env worker raw db =
    (answer tt, add_metrics env worker raw (touch_worker env worker db))

pub record BenchmarkReport : Type 0 where
  pub device_id : String
  pub model_id : String
  pub task_type : String
  pub tokens_in : ℤ
  pub tokens_out : ℤ
  pub latency_ms : ℤ
  pub tps : Micro
  pub meta_json : String

-- A model first seen in a benchmark, with the defaults of the table.
abbrev pub bench_model : String → String → Model
bench_model id provider = record {
  id = id;
  provider = provider;
  kind = "bench";
  tier = none;
  thinking = some false;
  status = some "active";
  params_b = none;
  size_gb = none;
  context_k = none;
}

-- `ON CONFLICT (id) DO UPDATE SET provider = excluded.provider`
abbrev pub upsert_bench_model : Model → List Model → List Model
upsert_bench_model m [] = m ∷ []
upsert_bench_model m (n ∷ ns) =
    if n.id == m.id then record n { provider = m.provider } ∷ ns else n ∷ upsert_bench_model m ns

abbrev pub benchmark_row : Env → BenchmarkReport → Benchmark
benchmark_row env b = record {
  device_id = b.device_id;
  model_id = b.model_id;
  task_type = b.task_type;
  tokens_in = b.tokens_in;
  tokens_out = b.tokens_out;
  latency_ms = some b.latency_ms;
  tps = some b.tps;
  created_at = env.db_now;
}

-- The first statement; its error is only logged.
abbrev pub save_model : Env → BenchmarkReport → Db → Db
save_model env b db =
    let provider = coalesce (arrow_text "provider" (sanitize_json env b.meta_json)) "unknown" in
    if env.down upsert_model
    then db
    else record db { models = upsert_bench_model (bench_model b.model_id provider) db.models }

-- The second statement, which the foreign keys refuse for an unknown device or model.
abbrev pub save_benchmark : Env → BenchmarkReport → Db → Answer (Unit {0}) × Db
save_benchmark env b db =
    if env.down insert_benchmark
      || not (known_device b.device_id db.devices)
      || not (any (λ m. m.id == b.model_id) db.models)
    then (failed, db)
    else (answer tt, record db { benchmarks = db.benchmarks ++ benchmark_row env b ∷ [] })

unfoldable pub report_benchmark : Env → Option BenchmarkReport → Db → Answer (Unit {0}) × Db
report_benchmark env none db = (answer tt, db)
report_benchmark env (some b) db = save_benchmark env b (save_model env b db)
