-- ===== src/System/Invariant/Http.antt =====
-- The HTTP handlers keep the invariant of the job tables.
use llm_mcp.Prelude.{
  ℕ, String, ◌||◌, ◌==◌, Option, none, some, refl, inr, if_both, if_each, or_false, blank, find_if,
}
use llm_mcp.Db.{
  Job, Db, Env, update_job as update_job_stmt, commit_tx, upsert_device, update_device,
}
use llm_mcp.Queue.{set_done, set_failed, select_claimable}
use llm_mcp.Queue.Invariant.{Sound}
use llm_mcp.Http.{Ack, Reply, reply, fail, Request, World, post_rule}
use llm_mcp.Http.Jobs.{
  SubmitJobRequest, new_job, insert_row, or_three, submit, enqueue, handle_jobs,
}
use llm_mcp.Http.Workers.{
  WorkerInfo, ClaimJobRequest, attempt_fails, take, answer, claim, handle_worker_register,
  handle_worker_claim, device_limit,
}
use llm_mcp.Http.Finish.{
  CompleteJobRequest, FailJobRequest, record_cost, complete, status_after_fail, fail_row, fail_job,
  handle_worker_complete, handle_worker_fail,
}
use llm_mcp.Http.Lease.{
  HeartbeatRequest, DeviceOfflineRequest, heartbeat, handle_worker_heartbeat, take_offline,
  handle_device_offline,
}
use llm_mcp.Db.Values.{Json, or_empty}
use llm_mcp.System.Invariant.Parts.{
  Leaves, Sound-insert_row, Sound-same, Sound-update_job, Sound-extend_lease, Sound-close,
  Sound-taken,
}

-- A reply that leaves a sound database.
pub record Ends {ℓ} (A : Type ℓ) (x : Reply A × World) : Type 0 where
  pub sound : Sound x.1.db

pub ends {ℓ} : {A : Type ℓ} {r : Reply A} {w : World} → Sound w.db → Ends A (r, w)
ends v = record { sound = v }

-- A refusal.
stay {ℓ} :
    {A : Type ℓ} (status : ℕ) (code : String) (w : World)
    → Sound w.db
    → Ends A (fail status code, w)
stay status code w v = ends v

inserted :
    (j : Job) (w : World) (o : Option Db)
    → Sound w.db
    → Leaves o
    → Ends String (elim o [
      | none ↦ (fail 500 "db_insert_failed", w)
      | some db ↦ (reply 202 j.id, record w { db = db })
    ])
inserted j w none v h = ends v
inserted j w (some db) v h = ends h

Sound-enqueue :
    (env : Env) (req : SubmitJobRequest) (deadline : Option ℕ) (w : World)
    → Sound w.db
    → Ends String (enqueue env req deadline w)
Sound-enqueue env req deadline w v =
    let j =
      new_job env req.kind (or_empty req.payload) req.priority req.source
        (or_three req.max_attempts) deadline in
    if_both (Ends String) _ (stay 400 "model_not_allowed" w v)
      (inserted j w (insert_row env j w.db) v (Sound-insert_row env j w.db refl v))

deadline_parsed :
    (env : Env) (req : SubmitJobRequest) (w : World) (o : Option ℕ)
    → Sound w.db
    → Ends String (elim o [
      | none ↦ (fail 400 "invalid_deadline_at", w)
      | some t ↦ enqueue env req (some t) w
    ])
deadline_parsed env req w none v = ends v
deadline_parsed env req w (some t) v = Sound-enqueue env req (some t) w v

Sound-submit :
    (env : Env) (req : SubmitJobRequest) (w : World) → Sound w.db → Ends String (submit env req w)
Sound-submit env req w v = if_both (Ends String) _ (stay 400 "kind_required" w v) (
    if_both (Ends String) _ (Sound-enqueue env req none w v)
      (deadline_parsed env req w (env.parse_time req.deadline_at) v))

pub Sound-handle_jobs :
    (env : Env) (r : Request SubmitJobRequest) (w : World)
    → Sound w.db
    → Sound (handle_jobs env r w).1.db
unfolding handle_jobs
Sound-handle_jobs env r w v =
    (post_rule (Ends String) r w _ (λ _ _. ends v) (λ req _. Sound-submit env req w v)).sound

pub Sound-handle_worker_register :
    (env : Env) (r : Request WorkerInfo) (w : World)
    → Sound w.db
    → Sound (handle_worker_register env r w).1.db
unfolding handle_worker_register
Sound-handle_worker_register env r w v =
    (post_rule (Ends String) r w _ (λ _ _. ends v)
      (λ info _.
        if_both (Ends String) (env.down upsert_device) (stay 500 "db_upsert_failed" w v)
          (ends (Sound-same w.db _ refl refl v)))).sound

Sound-take :
    (env : Env) (id : String) (lease : ℕ) (j : Job) (w : World)
    → Sound w.db
    → Ends (Option Job) (take env id lease j w)
Sound-take env id lease j w v =
    if_both (Ends (Option Job)) (env.down update_job_stmt) (stay 500 "db_update_failed" w v) (
      if_each (Ends (Option Job)) (attempt_fails env j.id w.db || env.down commit_tx) (λ _. ends v)
        λ h.
          ends (Sound-taken env id lease j w.db (or_false (attempt_fails env j.id w.db) _ h).0 v))

Sound-answer :
    (env : Env) (id : String) (lease : ℕ) (o : Option Job) (w : World)
    → Sound w.db
    → Ends (Option Job) (answer env id lease o w)
Sound-answer env id lease none w v = ends v
Sound-answer env id lease (some j) w v = Sound-take env id lease j w v

Sound-claim :
    (env : Env) (req : ClaimJobRequest) (w : World)
    → Sound w.db
    → Ends (Option Job) (claim env req w)
Sound-claim env req w v = if_both (Ends (Option Job)) _ (stay 400 "worker_id_required" w v) (
    if_both (Ends (Option Job)) _ (stay 500 "db_tx_failed" w v) (
      if_both (Ends (Option Job)) _ (stay 500 "db_read_failed" w v) (
        Sound-answer env req.worker_id _
          (select_claimable env.db_now env.locked req.kinds (device_limit env) w.db) w v)))

pub Sound-handle_worker_claim :
    (env : Env) (r : Request ClaimJobRequest) (w : World)
    → Sound w.db
    → Sound (handle_worker_claim env r w).1.db
unfolding handle_worker_claim
Sound-handle_worker_claim env r w v =
    (post_rule (Ends (Option Job)) r w _ (λ _ _. ends v) (λ req _. Sound-claim env req w v)).sound

Sound-record_cost :
    (env : Env) (id : String) (metrics : Json) (db : Db)
    → Sound db
    → Sound (record_cost env id metrics db)
unfolding record_cost
Sound-record_cost env id metrics db v =
    if_both Sound _ v (if_both Sound _ v (Sound-same db _ refl refl v))

Sound-complete :
    (env : Env) (req : CompleteJobRequest) (w : World) → Sound w.db → Ends Ack (complete env req w)
Sound-complete env req w v =
    let set = set_done env.db_now (or_empty req.result) in
    if_both (Ends Ack) (blank req.worker_id || blank req.job_id)
      (stay 400 "worker_id_job_id_required" w v)
      (if_both (Ends Ack) (env.down update_job_stmt) (stay 500 "db_update_failed" w v) (
        ends (
          Sound-record_cost env req.job_id (or_empty req.metrics) _ (
            Sound-close env req.job_id _ _ (λ _. refl)
              (Sound-update_job req.job_id set w.db (λ _. refl) (λ _. inr refl) v)))))

pub Sound-handle_worker_complete :
    (env : Env) (r : Request CompleteJobRequest) (w : World)
    → Sound w.db
    → Sound (handle_worker_complete env r w).1.db
unfolding handle_worker_complete
Sound-handle_worker_complete env r w v =
    (post_rule (Ends Ack) r w _ (λ _ _. ends v) (λ req _. Sound-complete env req w v)).sound

Sound-fail_row :
    (env : Env) (req : FailJobRequest) (j : Job) (w : World)
    → Sound w.db
    → Ends Ack (fail_row env req j w)
Sound-fail_row env req j w v =
    let set = set_failed env.db_now (status_after_fail j) req.error_text in
    if_both (Ends Ack) (env.down update_job_stmt) (stay 500 "db_update_failed" w v) (
      ends (
        Sound-close env req.job_id _ _ (λ _. refl)
          (Sound-update_job req.job_id set w.db (λ _. refl) (λ _. inr refl) v)))

row_read :
    (env : Env) (req : FailJobRequest) (w : World) (o : Option Job)
    → Sound w.db
    → Ends Ack (elim o [ none ↦ (fail 404 "not_found", w) | some j ↦ fail_row env req j w ])
row_read env req w none v = ends v
row_read env req w (some j) v = Sound-fail_row env req j w v

Sound-fail_job :
    (env : Env) (req : FailJobRequest) (w : World) → Sound w.db → Ends Ack (fail_job env req w)
Sound-fail_job env req w v =
    if_both (Ends Ack) (blank req.worker_id || blank req.job_id)
      (stay 400 "worker_id_job_id_required" w v)
      (if_both (Ends Ack) _ (stay 500 "db_read_failed" w v)
        (row_read env req w (find_if (λ j. j.id == req.job_id) w.db.jobs) v))

pub Sound-handle_worker_fail :
    (env : Env) (r : Request FailJobRequest) (w : World)
    → Sound w.db
    → Sound (handle_worker_fail env r w).1.db
unfolding handle_worker_fail
Sound-handle_worker_fail env r w v =
    (post_rule (Ends Ack) r w _ (λ _ _. ends v) (λ req _. Sound-fail_job env req w v)).sound

Sound-heartbeat :
    (env : Env) (req : HeartbeatRequest) (w : World) → Sound w.db → Ends Ack (heartbeat env req w)
Sound-heartbeat env req w v =
    if_both (Ends Ack) (blank req.worker_id || blank req.job_id)
      (stay 400 "worker_id_job_id_required" w v)
      (if_both (Ends Ack) (env.down update_job_stmt) (stay 500 "db_update_failed" w v)
        (ends (Sound-extend_lease req.job_id env.db_now _ w.db v)))

pub Sound-handle_worker_heartbeat :
    (env : Env) (r : Request HeartbeatRequest) (w : World)
    → Sound w.db
    → Sound (handle_worker_heartbeat env r w).1.db
unfolding handle_worker_heartbeat
Sound-handle_worker_heartbeat env r w v =
    (post_rule (Ends Ack) r w _ (λ _ _. ends v) (λ req _. Sound-heartbeat env req w v)).sound

Sound-take_offline :
    (env : Env) (req : DeviceOfflineRequest) (w : World)
    → Sound w.db
    → Ends Ack (take_offline env req w)
Sound-take_offline env req w v =
    if_both (Ends Ack) (blank req.device_id) (stay 400 "device_id_required" w v) (
      if_both (Ends Ack) (env.down update_device) (stay 500 "db_update_failed" w v)
        (ends (Sound-same w.db _ refl refl v)))

pub Sound-handle_device_offline :
    (env : Env) (r : Request DeviceOfflineRequest) (w : World)
    → Sound w.db
    → Sound (handle_device_offline env r w).1.db
unfolding handle_device_offline
Sound-handle_device_offline env r w v =
    (post_rule (Ends Ack) r w _ (λ _ _. ends v) (λ req _. Sound-take_offline env req w v)).sound
