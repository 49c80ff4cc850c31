-- ===== src/System/Invariant/Requests.antt =====
-- Requests to models and benchmarks keep the invariant of the job tables.
use llm_mcp.Prelude.{
  ℕ, zero, suc, String, not, ◌==◌, Option, none, some, List, ◌∷◌, refl, if_both, concat,
}
use llm_mcp.Prelude.Int.{ℤ}
use llm_mcp.Db.{Db, Env}
use llm_mcp.Db.Values.{Json}
use llm_mcp.Queue.Invariant.{Sound}
use llm_mcp.Routing.Models.{Pricing}
use llm_mcp.Routing.Llm.Request.{Payload, Route, routed, refused}
use llm_mcp.Routing.Llm.{route_llm}
use llm_mcp.Http.{reply, fail, Request, World, post_rule}
use llm_mcp.Http.Jobs.{insert_row}
use llm_mcp.Http.Llm.{
  LlmSubmit, LlmResponse, deadline_of, llm_job, store_llm, queue_route, handle_llm_request,
}
use llm_mcp.Http.Bench.{
  BenchmarkRunRequest, Fields, Bench, bench, refusal, bench_word, bench_payload, next_id,
  queue_runs, bench_job, queued_reply, run_bench, runs_of, priority_of, handle_benchmark_run,
}
use llm_mcp.System.Invariant.Http.{Ends, ends}
use llm_mcp.System.Invariant.Parts.{Leaves, Sound-insert_row}

module _ (env : Env) (w : World) (v : Sound w.db) where
  Ends-stored :
      (provider kind : String) (id : String) (o : Option Db)
      → Leaves o
      → Ends LlmResponse (elim o [
        | none ↦ (fail 500 "db_insert_failed", w)
        | some db ↦ (
          reply 202 (record { job_id = id; provider = provider; kind = kind }),
          record w { db = db },
        )
      ])
  Ends-stored provider kind id none h = ends v
  Ends-stored provider kind id (some db) h = ends h

  Ends-dated :
      (encode : Payload → Json) (req : LlmSubmit) (provider kind : String) (payload : Payload)
      (o : Option (Option ℕ))
      → Ends LlmResponse (elim o [
        | none ↦ (fail 400 "invalid_deadline_at", w)
        | some deadline ↦ store_llm env provider (llm_job env encode req kind payload deadline) w
      ])
  Ends-dated encode req provider kind payload none = ends v
  Ends-dated encode req provider kind payload (some deadline) =
      let j = llm_job env encode req kind payload deadline in
      Ends-stored provider kind j.id (insert_row env j w.db) (Sound-insert_row env j w.db refl v)

  Ends-queue_route :
      (encode : Payload → Json) (req : LlmSubmit) (route : Route)
      → Ends LlmResponse (queue_route env encode req w route)
  Ends-queue_route encode req (refused reason) = ends v
  Ends-queue_route encode req (routed provider kind payload) =
      Ends-dated encode req provider kind payload (deadline_of env req)

pub Sound-handle_llm_request :
    (env : Env) (encode : Payload → Json) (table : List Pricing) (r : Request LlmSubmit) (w : World)
    → Sound w.db
    → Sound (handle_llm_request env encode table r w).1.db
unfolding handle_llm_request
Sound-handle_llm_request env encode table r w v =
    (post_rule (Ends LlmResponse) r w _ (λ _ _. ends v)
      (λ req _.
        Ends-queue_route env w v encode req (route_llm env w.db w.circuits table req.llm))).sound

-- The rows of the runs, all without a lease.
record Runs (x : Option (List String) × Db) : Type 0 where
  sound : Sound x.1

Runs-queue_runs :
    (kind : String) (payload : Json) (priority : ℤ) (env : Env) (n : ℕ) (db : Db)
    → Sound db
    → Runs (queue_runs env n (bench_job kind payload priority) db)
unfolding queue_runs
Runs-queue_runs kind payload priority env zero db v = record { sound = v }
Runs-queue_runs kind payload priority env (suc n) db v =
    next (λ db' h. Runs-queue_runs kind payload priority (next_id env) n db' h)
      (insert_row env (bench_job kind payload priority env) db)
      (Sound-insert_row env (bench_job kind payload priority env) db refl v)
  where
    next :
        ((db' : Db)
          → Sound db'
          → Runs (queue_runs (next_id env) n (bench_job kind payload priority) db'))
        → (o : Option Db) → Leaves o
        → Runs (elim o [
          | none ↦ (none, db)
          | some db' ↦
              let (ids, end) = queue_runs (next_id env) n (bench_job kind payload priority) db' in
              (elim ids [ none ↦ none | some is ↦ some (env.uuid 0 ∷ is) ], end)
        ])
    next ih none h = record { sound = v }
    next ih (some db') h = record { sound = (ih db' h).sound }

Ends-queued_reply :
    (w : World) (x : Option (List String) × Db) → Runs x → Ends (List String) (queued_reply w x)
Ends-queued_reply w (none, db) h = ends h.sound
Ends-queued_reply w (some ids, db) h = ends h.sound

Ends-run_bench :
    (env : Env) (encode : Fields → Json) (task : String) (req : BenchmarkRunRequest) (w : World)
    (b : Bench)
    → Sound w.db
    → Ends (List String) (run_bench env encode task req w b)
unfolding queue_runs
Ends-run_bench env encode task req w (refusal code) v = ends v
Ends-run_bench env encode task req w (bench fields) v =
    let kind = concat "benchmark.ollama." task in
    Ends-queued_reply w
      (queue_runs env (runs_of req.runs) (bench_job kind (encode fields) (priority_of req.priority))
        w.db)
      (Runs-queue_runs kind (encode fields) (priority_of req.priority) env (runs_of req.runs) w.db
        v)

pub Sound-handle_benchmark_run :
    (env : Env) (encode : Fields → Json) (r : Request BenchmarkRunRequest) (w : World)
    → Sound w.db
    → Sound (handle_benchmark_run env encode r w).1.db
unfolding handle_benchmark_run
Sound-handle_benchmark_run env encode r w v =
    (post_rule (Ends (List String)) r w _ (λ _ _. ends v)
      (λ req _.
        if_both (Ends (List String)) (not (bench_word "ollama" req.provider == "ollama")) (ends v) (
          Ends-run_bench env encode (bench_word "generate" req.task_type) req w
            (bench_payload env w.db req) v))).sound
