-- ===== src/Http/Bench.antt =====
-- `HandleBenchmarkRun` in core/internal/api/handlers.go. `json.Marshal` of the
-- payload is a parameter.
use llm_mcp.Prelude.{
  ℕ, zero, suc, String, not, ◌&&◌, ◌==◌, Option, none, some, List, [], ◌∷◌, ◌++◌, if◌then◌else◌,
  ltb, blank, concat, to_lower, trim_space,
}
use llm_mcp.Prelude.Int.{ℤ, pos, negsuc, eqb_ℤ}
use llm_mcp.Db.{Job, Db, Env}
use llm_mcp.Db.Values.{Json}
use llm_mcp.Limits.{model_allowed}
use llm_mcp.Routing.Device.{fetch_device_addr}
use llm_mcp.Http.{Reply, reply, fail, Request, World, post}
use llm_mcp.Http.Jobs.{new_job, insert_row}

-- models.BenchmarkRunRequest
pub record BenchmarkRunRequest : Type 0 where
  pub provider : String
  pub model : String
  pub task_type : String
  pub prompt : String
  pub runs : ℤ
  pub priority : ℤ
  pub device_id : String

-- `payload`: the fields, all texts.
abbrev pub Fields : Type 0
Fields = List (String × String)

abbrev pub bench_word : String → String → String
bench_word default s = let w = to_lower (trim_space s) in if w == "" then default else w

-- At least one run.
abbrev pub runs_of : ℤ → ℕ
runs_of (pos n) = if ltb 0 n then n else 1
runs_of (negsuc n) = 1

abbrev pub priority_of : ℤ → ℤ
priority_of p = if eqb_ℤ p (pos 0) then pos 1 else p

abbrev pub with_device : String → String → String → Fields → Fields
with_device device addr host fields =
    fields
    ++ (("ollama_addr", addr) ∷ (if host == "" then [] else ("ollama_host", host) ∷ [])
        ++ (("device_id", device) ∷ []))

-- The payload, or the code of the refusal.
pub data Bench : Type 0 where
  bench : Fields → Bench
  refusal : String → Bench

abbrev pub at_device : String → Fields → Option (String × String) → Bench
at_device device fields none = refusal "device_not_found"
at_device device fields (some (addr, host)) =
    if addr == ""
    then refusal "device_no_ollama_addr"
    else bench (with_device device addr host fields)

abbrev pub bench_payload : Env → Db → BenchmarkRunRequest → Bench
bench_payload env db req =
    let fields = ("model", req.model) ∷ ("prompt", req.prompt) ∷ [] in
    if blank req.device_id
    then bench fields
    else if not (req.model == "") && not (model_allowed env db req.device_id req.model).0
    then refusal "model_not_allowed"
    else at_device req.device_id fields (fetch_device_addr env db req.device_id)

-- The environment of the next insert, whose id is a new one.
abbrev pub next_id : Env → Env
next_id env = record env { uuid = λ n. env.uuid (suc n) }

-- The loop: its ids, or the error of an insert, and the rows that it has written.
unfoldable pub queue_runs : Env → ℕ → (Env → Job) → Db → Option (List String) × Db
queue_runs env zero job db = (some [], db)
queue_runs env (suc n) job db = elim (insert_row env (job env) db) [
  | none ↦ (none, db)
  | some db' ↦
      let (ids, end) = queue_runs (next_id env) n job db' in
      (elim ids [ none ↦ none | some is ↦ some ((job env).id ∷ is) ], end)
]

abbrev pub bench_job : String → Json → ℤ → Env → Job
bench_job kind payload priority env = new_job env kind payload priority "benchmark" (pos 2) none

abbrev pub queued_reply : World → Option (List String) × Db → Reply (List String) × World
queued_reply w (none, db) = (fail 500 "db_insert_failed", record w { db = db })
queued_reply w (some ids, db) = (reply 202 ids, record w { db = db })

abbrev pub run_bench :
    Env
    → (Fields → Json)
    → String
    → BenchmarkRunRequest
    → World
    → Bench
    → Reply (List String) × World
run_bench env encode task req w (refusal code) = (fail 400 code, w)
run_bench env encode task req w (bench fields) =
    let job =
      bench_job (concat "benchmark.ollama." task) (encode fields) (priority_of req.priority) in
    queued_reply w (queue_runs env (runs_of req.runs) job w.db)

unfoldable pub handle_benchmark_run :
    Env → (Fields → Json) → Request BenchmarkRunRequest → World → Reply (List String) × World
unfolding post queue_runs
handle_benchmark_run env encode r w = post r w (λ req.
    if not (bench_word "ollama" req.provider == "ollama")
    then (fail 400 "provider_not_supported", w)
    else run_bench env encode (bench_word "generate" req.task_type) req w
        (bench_payload env w.db req))
