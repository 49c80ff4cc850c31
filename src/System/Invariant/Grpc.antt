-- ===== src/System/Invariant/Grpc.antt =====
-- The gRPC methods and the offline handler of discovery keep the invariant of the job tables.
use llm_mcp.Prelude.{
  ℕ, String, Bool, not, ◌||◌, ◌==◌, Option, none, some, List, [], ◌∷◌, refl, inr, if_both, if_each,
  or_false, find_if, any,
}
use llm_mcp.Prelude.Int.{ℤ}
use llm_mcp.Db.{
  Job, Db, Env, commit_tx, update_job as update_job_stmt, upsert_device, insert_metrics,
  upsert_model, insert_benchmark, reset_leases, begin_tx, select_job, read_job,
}
use llm_mcp.Queue.{set_done, set_failed, set_lease}
use llm_mcp.Queue.Invariant.{Sound, Inv-update_where}
use llm_mcp.Limits.{known_device}
use llm_mcp.Http.Jobs.{new_job, insert_row, or_three}
use llm_mcp.Http.Workers.{attempt_fails}
use llm_mcp.Http.Finish.{status_after_fail}
use llm_mcp.Grpc.{Answer, answer, failed, sanitize_json}
use llm_mcp.Grpc.Jobs.{
  SubmitJobRequest, ClaimJobRequest, CompleteJobRequest, FailJobRequest, enqueue, submit_job,
  select_waiting, take, hand_out, claim_job, heartbeat, complete_job, fail_row, fail_job,
}
use llm_mcp.Grpc.Reports.{
  WorkerInfo, BenchmarkReport, register_worker, touch_worker, add_metrics, report_metrics,
  save_model, save_benchmark, report_benchmark,
}
use llm_mcp.Discovery.Offline.{stranded, handle_offline_devices}
use llm_mcp.System.Invariant.Parts.{
  Leaves, Sound-insert_row, Sound-update_job, Sound-extend_lease, Sound-close, Sound-taken,
  Sound-same,
}

-- An answer that leaves a sound database.
record Ends {ℓ} (A : Type ℓ) (x : A × Db) : Type 0 where
  sound : Sound x.1

ends {ℓ} : {A : Type ℓ} {r : A} {db : Db} → Sound db → Ends A (r, db)
ends v = record { sound = v }

-- An error.
stay {ℓ} : {A : Type ℓ} (db : Db) → Sound db → Ends (Answer A) (failed, db)
stay db v = ends v

inserted :
    (j : Job) (db : Db) (o : Option Db)
    → Sound db
    → Leaves o
    → Ends (Answer String) (elim o [ none ↦ (failed, db) | some db' ↦ (answer j.id, db') ])
inserted j db none v h = ends v
inserted j db (some db') v h = ends h

Sound-enqueue :
    (env : Env) (req : SubmitJobRequest) (deadline : Option ℕ) (db : Db)
    → Sound db
    → Ends (Answer String) (enqueue env req deadline db)
Sound-enqueue env req deadline db v =
    let j =
      new_job env req.kind (sanitize_json env req.payload_json) req.priority req.source
        (or_three req.max_attempts) deadline in
    inserted j db (insert_row env j db) v (Sound-insert_row env j db refl v)

deadline_parsed :
    (env : Env) (req : SubmitJobRequest) (db : Db) (o : Option ℕ)
    → Sound db
    → Ends (Answer String) (elim o [ none ↦ (failed, db) | some t ↦ enqueue env req (some t) db ])
deadline_parsed env req db none v = ends v
deadline_parsed env req db (some t) v = Sound-enqueue env req (some t) db v

pub Sound-submit_job :
    (env : Env) (req : SubmitJobRequest) (db : Db) → Sound db → Sound (submit_job env req db).1
unfolding submit_job
Sound-submit_job env req db v =
    (if_both (Ends (Answer String)) (req.deadline_at == "") (Sound-enqueue env req none db v)
      (deadline_parsed env req db (env.parse_time req.deadline_at) v)).sound

pub Sound-register_worker :
    (env : Env) (info : Option WorkerInfo) (db : Db)
    → Sound db
    → Sound (register_worker env info db).1
unfolding register_worker
Sound-register_worker env none db v = v
Sound-register_worker env (some info) db v =
    (if_both (Ends (Answer String)) (env.down upsert_device) (stay db v)
      (ends (Sound-same db _ refl refl v))).sound

Sound-take :
    (env : Env) (id : String) (lease : ℕ) (j : Job) (db : Db)
    → Sound db
    → Ends (Answer (Option Job)) (take env id lease j db)
Sound-take env id lease j db v = if_both (Ends (Answer (Option Job))) _ (stay db v) (
    if_each (Ends (Answer (Option Job))) (attempt_fails env j.id db || env.down commit_tx)
      (λ _. stay db v)
      λ h. ends (Sound-taken env id lease j db (or_false (attempt_fails env j.id db) _ h).0 v))

Sound-hand_out :
    (env : Env) (id : String) (lease : ℕ) (o : Option Job) (db : Db)
    → Sound db
    → Ends (Answer (Option Job)) (hand_out env id lease o db)
Sound-hand_out env id lease none db v = ends v
Sound-hand_out env id lease (some j) db v = Sound-take env id lease j db v

pub Sound-claim_job :
    (env : Env) (req : ClaimJobRequest) (db : Db) → Sound db → Sound (claim_job env req db).1
unfolding claim_job
Sound-claim_job env req db v =
    (if_both (Ends (Answer (Option Job))) (env.down begin_tx) (stay db v) (
      if_both (Ends (Answer (Option Job))) (env.down select_job) (stay db v) (
        Sound-hand_out env req.worker_id _ (select_waiting env.db_now env.locked req.kinds db) db
          v))).sound

pub Sound-heartbeat :
    (env : Env) (id : String) (s : ℤ) (db : Db) → Sound db → Sound (heartbeat env id s db).1
unfolding heartbeat
Sound-heartbeat env id s db v =
    (if_both (Ends (Answer (Unit {0}))) (env.down update_job_stmt) (stay db v)
      (ends (Sound-extend_lease id env.db_now _ db v))).sound

pub Sound-complete_job :
    (env : Env) (req : CompleteJobRequest) (db : Db) → Sound db → Sound (complete_job env req db).1
unfolding complete_job
Sound-complete_job env req db v =
    let set = set_done env.db_now (sanitize_json env req.result_json) in
    (if_both (Ends (Answer (Unit {0}))) (env.down update_job_stmt) (stay db v) (
      ends (
        Sound-close env req.job_id _ _ (λ _. refl)
          (Sound-update_job req.job_id set db (λ _. refl) (λ _. inr refl) v)))).sound

Sound-fail_row :
    (env : Env) (req : FailJobRequest) (j : Job) (db : Db)
    → Sound db
    → Ends (Answer (Unit {0})) (fail_row env req j db)
Sound-fail_row env req j db v =
    let set = set_failed env.db_now (status_after_fail j) req.error_text in
    if_both (Ends (Answer (Unit {0}))) (env.down update_job_stmt) (stay db v) (
      ends (
        Sound-close env req.job_id _ _ (λ _. refl)
          (Sound-update_job req.job_id set db (λ _. refl) (λ _. inr refl) v)))

row_read :
    (env : Env) (req : FailJobRequest) (db : Db) (o : Option Job)
    → Sound db
    → Ends (Answer (Unit {0})) (elim o [ none ↦ (failed, db) | some j ↦ fail_row env req j db ])
row_read env req db none v = ends v
row_read env req db (some j) v = Sound-fail_row env req j db v

pub Sound-fail_job :
    (env : Env) (req : FailJobRequest) (db : Db) → Sound db → Sound (fail_job env req db).1
unfolding fail_job
Sound-fail_job env req db v =
    (if_both (Ends (Answer (Unit {0}))) (env.down read_job) (stay db v)
      (row_read env req db (find_if (λ j. j.id == req.job_id) db.jobs) v)).sound

Sound-touch_worker :
    (env : Env) (info : Option WorkerInfo) (db : Db) → Sound db → Sound (touch_worker env info db)
Sound-touch_worker env none db v = v
Sound-touch_worker env (some info) db v =
    if_both Sound (env.down upsert_device) v (Sound-same db _ refl refl v)

Sound-add_metrics :
    (env : Env) (info : Option WorkerInfo) (raw : String) (db : Db)
    → Sound db
    → Sound (add_metrics env info raw db)
Sound-add_metrics env none raw db v = v
Sound-add_metrics env (some info) raw db v =
    if_both Sound (raw == "" || env.down insert_metrics || not (known_device info.id db.devices)) v
      (Sound-same db _ refl refl v)

pub Sound-report_metrics :
    (env : Env) (info : Option WorkerInfo) (raw : String) (db : Db)
    → Sound db
    → Sound (report_metrics env info raw db).1
unfolding report_metrics
Sound-report_metrics env info raw db v =
    Sound-add_metrics env info raw (touch_worker env info db) (Sound-touch_worker env info db v)

Sound-save_model :
    (env : Env) (b : BenchmarkReport) (db : Db) → Sound db → Sound (save_model env b db)
Sound-save_model env b db v = if_both Sound (env.down upsert_model) v (Sound-same db _ refl refl v)

Sound-save_benchmark :
    (env : Env) (b : BenchmarkReport) (db : Db)
    → Sound db
    → Ends (Answer (Unit {0})) (save_benchmark env b db)
Sound-save_benchmark env b db v =
    if_both (Ends (Answer (Unit {0})))
      (env.down insert_benchmark
        || not (known_device b.device_id db.devices)
        || not (any (λ m. m.id == b.model_id) db.models))
      (stay db v) (ends (Sound-same db _ refl refl v))

pub Sound-report_benchmark :
    (env : Env) (b : Option BenchmarkReport) (db : Db)
    → Sound db
    → Sound (report_benchmark env b db).1
unfolding report_benchmark
Sound-report_benchmark env none db v = v
Sound-report_benchmark env (some b) db v =
    (Sound-save_benchmark env b (save_model env b db) (Sound-save_model env b db v)).sound

pub Sound-handle_offline_devices :
    (env : Env) (ids : List String) (db : Db)
    → Sound db
    → Sound (handle_offline_devices env ids db).1
unfolding handle_offline_devices
Sound-handle_offline_devices env [] db v = v
Sound-handle_offline_devices env (d ∷ ds) db v =
    (if_both (Ends Bool) (env.down reset_leases) (ends v) (
      ends record {
        inv =
            Inv-update_where (stranded env.db_now (d ∷ ds)) (set_lease env.db_now none) (λ _. refl)
              db.jobs db.attempts (λ _ _ _. inr refl) v.inv;
      })).sound
