-- ===== src/Db.antt =====
-- The tables of db/init/01_core.sql and db/migrations, as lists of rows, and the environment of a
-- request. A column of text that only takes a few words is an enumeration; times are nanoseconds since
-- the year 1, so that `time.Time.Add` of any int64 duration stays a number.
pub mod Values
use llm_mcp.Prelude.{ℕ, ◌+◌, ◌-◌, suc, String, Bool, true, false, ◌==◌, Option, none, some, List}
use llm_mcp.Prelude.Int.{ℤ, pos, negsuc, wrap64, scale}
use llm_mcp.Config.{Vars}
use Values.{Json}

pub data JobStatus : Type 0 where
  queued running done error : JobStatus

abbrev pub is_running : JobStatus → Bool
is_running running = true
is_running _ = false

-- `status IN ('queued','running')`
abbrev pub is_active : JobStatus → Bool
is_active queued = true
is_active running = true
is_active _ = false

pub record Job : Type 0 where
  pub id : String
  pub kind : String
  pub payload : Json
  pub status : JobStatus
  pub attempts : ℕ
  pub max_attempts : ℤ
  pub lease_until : Option ℕ
  pub deadline_at : Option ℕ
  pub result : Option Json
  pub error_text : Option String
  pub priority : ℤ
  pub source : String
  pub queued_at : ℕ
  pub updated_at : ℕ

pub record Attempt : Type 0 where
  pub id : String
  pub job_id : String
  pub worker_id : String
  pub started_at : ℕ
  pub finished_at : Option ℕ
  pub status : JobStatus
  pub error_text : Option String
  pub metrics : Option Json

pub data DeviceStatus : Type 0 where
  unknown online offline : DeviceStatus

abbrev pub is_online : DeviceStatus → Bool
is_online online = true
is_online _ = false

pub record Device : Type 0 where
  pub id : String
  pub name : String
  pub platform : String
  pub arch : String
  pub host : String
  pub tags : Option Json
  pub status : DeviceStatus
  pub last_seen : Option ℕ
  pub updated_at : ℕ

-- A column NUMERIC, and the float64 that the program computes with, is a multiple of 10 ^ -6.
abbrev pub Micro : Type 0
Micro = ℤ

pub record Model : Type 0 where
  pub id : String
  pub provider : String
  pub kind : String
  pub tier : Option String
  pub thinking : Option Bool
  pub status : Option String
  pub params_b : Option Micro
  pub size_gb : Option Micro
  pub context_k : Option ℤ

pub record DeviceModel : Type 0 where
  pub device_id : String
  pub model_id : String
  pub available : Bool

-- A jsonb column of model names: NULL, the JSON `null`, or an array of texts.
pub data Names : Type 0 where
  absent : Names
  json_null : Names
  names : List String → Names

pub record DeviceLimits : Type 0 where
  pub device_id : String
  pub ram_gb : Option Micro
  pub vram_gb : Option Micro
  pub max_params_b : Option Micro
  pub max_size_gb : Option Micro
  pub max_context_k : Option ℤ
  pub allow_models : Names
  pub deny_models : Names
  pub updated_at : ℕ

pub record Benchmark : Type 0 where
  pub device_id : String
  pub model_id : String
  pub task_type : String
  pub tokens_in : ℤ
  pub tokens_out : ℤ
  pub latency_ms : Option ℤ
  pub tps : Option Micro
  pub created_at : ℕ

-- `llm_costs`; the cost of a chat has no job.
pub record Cost : Type 0 where
  pub job_id : Option String
  pub model_id : String
  pub provider : String
  pub tokens_in : ℤ
  pub tokens_out : ℤ
  pub cost_usd : Micro

-- `model_rankings`
pub record Ranking : Type 0 where
  pub model_id : String
  pub provider : String
  pub display_name : Option String
  pub category_scores : Option Json
  pub context_k : Option ℤ
  pub price_in_1m : Option Micro
  pub price_out_1m : Option Micro

-- `model_stats`
pub record ModelStats : Type 0 where
  pub model_id : String
  pub total_requests : ℕ
  pub total_tokens_in : ℤ
  pub total_tokens_out : ℤ
  pub total_cost_usd : Micro
  pub avg_duration_ms : ℕ
  pub error_count : ℕ
  pub last_used_at : Option ℕ
  pub feedback_positive : ℕ
  pub feedback_negative : ℕ

pub record Db : Type 0 where
  pub jobs : List Job
  pub attempts : List Attempt
  pub devices : List Device
  pub models : List Model
  pub device_models : List DeviceModel
  pub device_limits : List DeviceLimits
  pub benchmarks : List Benchmark
  pub costs : List Cost
  pub device_metrics : List (String × Json)
  pub rankings : List Ranking
  pub model_stats : List ModelStats

-- The statements whose failure a handler tells apart.
pub data Stmt : Type 0 where
  begin_tx commit_tx : Stmt
  select_job update_job insert_job read_job read_payload : Stmt
  insert_attempt update_attempt : Stmt
  upsert_device update_device : Stmt
  read_limits select_device list_devices upsert_limits : Stmt
  job_cost insert_cost : Stmt
  upsert_model insert_benchmark insert_metrics : Stmt
  reset_leases : Stmt
  select_local select_cloud read_pricing : Stmt
  upsert_device_model mark_unavailable delete_device insert_port_device : Stmt
  read_rankings upsert_ranking fill_scores fill_stats upsert_stats add_cost : Stmt
  ping count_jobs count_hosts count_workers count_models list_hosts read_device_stats : Stmt

-- What a request meets: the clocks of the database and of the process, the ids that
-- `gen_random_uuid()` gives it, the rows that other transactions hold locked, the statements that
-- fail, the listings that break off and behind how many rows, the environment variables, the cost function of the database, the times in RFC 3339
-- and in the layout `20060102150405.000000000`, and the JSON decoder.
pub record Env : Type 0 where
  pub db_now : ℕ
  pub app_now : ℕ
  pub uuid : ℕ → String
  pub locked : String → Bool
  pub down : Stmt → Bool
  pub cut : Stmt → Option ℕ
  pub vars : Vars
  pub job_cost : String → ℤ → ℤ → Micro
  pub format_time : ℕ → String
  pub parse_time : String → Option ℕ
  pub compact_time : ℕ → String
  pub parse_json : String → Option Json

-- `t.Add(d)`
abbrev pub add_duration : ℕ → ℤ → ℕ
add_duration t (pos n) = t + n
add_duration t (negsuc n) = t - suc n

-- `time.Duration(s) * time.Second`, an int64 product.
abbrev pub seconds : ℤ → ℤ
seconds s = wrap64 (scale 1_000_000_000 s)
