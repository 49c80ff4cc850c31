-- ===== src/System/Benched.antt =====
-- The jobs of a benchmark.
use llm_mcp.Prelude.{
  ℕ, zero, suc, ◌<◌, ◌≡◌, ◌⊎◌, String, Option, none, some, List, [], ◌∷◌, ◌++◌, map, concat,
}
use llm_mcp.Db.{Job, Db, Env}
use llm_mcp.Db.Values.{Json}
use llm_mcp.Http.{Reply, reply, fail, World}
use llm_mcp.Http.Bench.{
  BenchmarkRunRequest, Fields, bench_word, runs_of, priority_of, Bench, bench, bench_payload,
  next_id, bench_job,
}

-- The rows of `n` runs, each with an id of its own.
abbrev pub rows_of : Env → (Env → Job) → ℕ → List Job
rows_of env job zero = []
rows_of env job (suc n) = job env ∷ rows_of (next_id env) job n

-- The ids of all rows come back, or an error after fewer rows.
data Wrote (env : Env) (n : ℕ) (job : Env → Job) (db : Db) (x : Option (List String) × Db)
    : Type 0 where
  wrote :
      (k : ℕ)
      → x.1.jobs ≡ db.jobs ++ rows_of env job k
      → ((x.0 ≡ some (map (λ j. j.id) (rows_of env job n))) × (k ≡ n)) ⊎ ((x.0 ≡ none) × (k < n))
      → Wrote env n job db x

abbrev pub job_for : (Fields → Json) → BenchmarkRunRequest → Fields → Env → Job
job_for encode req fields =
    bench_job (concat "benchmark.ollama." (bench_word "generate" req.task_type)) (encode fields)
      (priority_of req.priority)

-- All the runs are queued and their ids sent, or fewer are and an error is sent.
abbrev pub Ends : Env → (Env → Job) → ℕ → ℕ → Reply (List String) → Type 0
Ends env job n k r =
    ((r ≡ reply 202 (map (λ j. j.id) (rows_of env job n))) × (k ≡ n))
    ⊎ ((r ≡ fail 500 "db_insert_failed") × (k < n))

-- A refusal changes nothing; otherwise the rows of `k` runs stand behind the others.
pub data Outcome (env : Env) (encode : Fields → Json) (req : BenchmarkRunRequest) (w : World)
    (x : Reply (List String) × World) : Type 0 where
  refused : (code : String) → x ≡ (fail 400 code, w) → Outcome env encode req w x
  ran :
      (fields : Fields) (k : ℕ)
      → bench_payload env w.db req ≡ bench fields
      → x.1.db.jobs ≡ w.db.jobs ++ rows_of env (job_for encode req fields) k
      → Ends env (job_for encode req fields) (runs_of req.runs) k x.0
      → Outcome env encode req w x
