-- ===== src/Examples/Data.antt =====
-- A server with two jobs for one device, and one environment.
use llm_mcp.Prelude.{ℕ, String, false, none, some, List, [], ◌∷◌}
use llm_mcp.Prelude.Int.{ℤ, pos}
use llm_mcp.Db.Values.{Json, object, str}
use llm_mcp.Db.{Job, Device, Env, queued, online}
use llm_mcp.Http.{World}
use llm_mcp.Http.Workers.{ClaimJobRequest}

abbrev pub env_at : ℕ → Env
env_at t = record {
  db_now = t;
  app_now = t;
  uuid = λ n. "u1";
  locked = λ id. false;
  down = λ s. false;
  vars = λ k. "";
  cut = λ s. none;
  job_cost = λ m i o. pos 0;
  format_time = λ n. "time";
  parse_time = λ s. none;
  compact_time = λ n. "time";
  parse_json = λ s. none;
}

abbrev pub waiting_job : String → ℤ → Json → Job
waiting_job id priority payload = record {
  id = id;
  kind = "ollama.generate";
  payload = payload;
  status = queued;
  attempts = 0;
  max_attempts = pos 3;
  lease_until = none;
  deadline_at = none;
  result = none;
  error_text = none;
  priority = priority;
  source = "";
  queued_at = 50;
  updated_at = 50;
}

abbrev pub on_d1 : Json
on_d1 = object (("device_id", str "d1") ∷ [])

abbrev pub job_a : Job
job_a = waiting_job "a" (pos 1) on_d1

abbrev pub job_b : Job
job_b = waiting_job "b" (pos 2) on_d1

abbrev pub device_d1 : Device
device_d1 = record {
  id = "d1";
  name = "worker";
  platform = "linux";
  arch = "amd64";
  host = "h";
  tags = some (object (("ollama", str "true") ∷ ("ollama_addr", str "http://h:11434") ∷ []));
  status = online;
  last_seen = some 90;
  updated_at = 90;
}

abbrev pub world_of : List Job → World
world_of jobs = record {
  db = record {
    jobs = jobs;
    attempts = [];
    devices = device_d1 ∷ [];
    models = [];
    device_models = [];
    device_limits = [];
    benchmarks = [];
    costs = [];
    device_metrics = [];
    rankings = [];
    model_stats = [];
  };
  circuits = [];
}

abbrev pub two_jobs : World
two_jobs = world_of (job_a ∷ job_b ∷ [])

abbrev pub claim_60 : ClaimJobRequest
claim_60 = record { worker_id = "w1"; kinds = []; lease_seconds = pos 60 }
