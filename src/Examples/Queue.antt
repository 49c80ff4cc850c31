-- ===== src/Examples/Queue.antt =====
-- The theorems on claims and on the end of a job, at the server of two jobs.
use llm_mcp.Http.Jobs.{SubmitJobRequest, handle_jobs}
use llm_mcp.System.Submitted.{IsSubmitted, get_job-handle_jobs}
use llm_mcp.Routing.Payload.{parse_payload_model_device}
use llm_mcp.Limits.{model_allowed}
use llm_mcp.Prelude.{
  has_prefix, ◌+◌, ◌≡◌, refl, ◌≢◌, ◌⊎◌, true, false, none, some, [], ◌∷◌, Has, here, trim_space,
  arith,
}
use llm_mcp.Prelude.Int.{pos, ◌≤ℤ◌}
use llm_mcp.Config.{getenv_int}
use llm_mcp.Db.{Job, JobStatus, error, queued}
use llm_mcp.Db.Values.{object}
use llm_mcp.Queue.{device_of, set_running, claimable, running_on, select_claimable, lease_free}
use llm_mcp.Queue.Order.{NotAfter}
use llm_mcp.Queue.Invariant.{Inv}
use llm_mcp.Http.{reply, posted, post}
use llm_mcp.Http.Workers.{device_limit, handle_worker_claim}
use llm_mcp.Http.Finish.{
  CompleteJobRequest, FailJobRequest, handle_worker_complete, handle_worker_fail,
}
use llm_mcp.Http.Lease.{handle_device_offline}
use llm_mcp.Http.Claim.{
  claimed, after_claim, lease_of, handle_worker_claim-first, running_on-handle_worker_claim,
}
use llm_mcp.Http.Exclusive.{handle_worker_claim_twice, handle_worker_claim_overflow}
use llm_mcp.Http.Progress.{handle_worker_claim-hands_out, handle_worker_claim-handle_device_offline}
use llm_mcp.Grpc.{answer}
use llm_mcp.Grpc.Jobs.{row_to_pb, get_job}
use llm_mcp.System.{run, http_claim, http_fail}
use llm_mcp.System.Invariant.{run-Inv}
use llm_mcp.System.Lookup.{get_job-handle_worker_complete, get_job-handle_worker_fail}
use llm_mcp.Examples.Data.{env_at, job_a, job_b, two_jobs, claim_60, world_of, waiting_job}

abbrev taken_b : Job
taken_b = claimed 60_000_000_100 job_b

abbrev job_c : Job
job_c = waiting_job "c" (pos 0) (object [])

abbrev job_e : Job
job_e = waiting_job "e" (pos 0) (object [])

handle_worker_claim-first_example :
    (j : Job) × Has j two_jobs.db.jobs
    × (claimable 100 [] (device_limit (env_at 100)) two_jobs.db j ≡ true)
    × (false ≡ false)
    × NotAfter j job_a
    × (taken_b ≡ claimed (lease_of (env_at 100) claim_60) j)
    × ((handle_worker_claim (env_at 100) (posted claim_60) two_jobs).1
        ≡ after_claim (env_at 100) "w1" (lease_of (env_at 100) claim_60) j two_jobs)
unfolding handle_worker_claim device_limit select_claimable getenv_int trim_space post
handle_worker_claim-first_example =
    handle_worker_claim-first (env_at 100) claim_60 two_jobs taken_b job_a refl (here refl) refl
      refl

running_on-handle_worker_claim_example :
    pos
      (running_on 100 (handle_worker_claim (env_at 100) (posted claim_60) two_jobs).1.db.jobs "d1")
    ≤ℤ device_limit (env_at 100)
unfolding device_limit getenv_int
running_on-handle_worker_claim_example =
    running_on-handle_worker_claim (env_at 100) (posted claim_60) two_jobs "d1"
      ((refl, tt), (tt, tt)) (λ q. cc) (omega arith)

handle_worker_claim-hands_out_example :
    (got : Job) × ((handle_worker_claim (env_at 100) (posted claim_60) two_jobs).0
      ≡ reply 200 (some got))
unfolding device_limit getenv_int trim_space
handle_worker_claim-hands_out_example =
    handle_worker_claim-hands_out (env_at 100) claim_60 two_jobs job_a refl (λ s. refl) refl
      (here refl) refl refl

handle_worker_claim-handle_device_offline_example : device_of job_c ≢ "d1"
unfolding handle_worker_claim handle_device_offline device_limit select_claimable getenv_int
    trim_space post
handle_worker_claim-handle_device_offline_example =
    handle_worker_claim-handle_device_offline (env_at 100) (env_at 100)
      (record { device_id = "d1"; reason = "" }) claim_60 (world_of (job_a ∷ job_c ∷ []))
      (claimed 60_000_000_100 job_c) refl refl

handle_worker_claim_twice_example : job_e.id ≢ job_c.id
unfolding handle_worker_claim device_limit select_claimable getenv_int trim_space post
handle_worker_claim_twice_example =
    handle_worker_claim_twice (env_at 100) (record (env_at 200) { uuid = λ n. "u2" }) claim_60
      claim_60 (world_of (job_c ∷ job_e ∷ [])) (claimed 60_000_000_100 job_c)
      (claimed 60_000_000_200 job_e) 60 refl (omega arith) (omega arith) (omega arith) refl refl

handle_worker_claim_overflow_example :
    lease_free 100
      (some (lease_of (env_at 100) (record claim_60 { lease_seconds = pos 9_223_372_037 })))
    ≡ true
unfolding handle_worker_claim device_limit select_claimable getenv_int trim_space post
handle_worker_claim_overflow_example =
    let req = record claim_60 { lease_seconds = pos 9_223_372_037 } in
    let lease = lease_of (env_at 100) req in
    handle_worker_claim_overflow (env_at 100) req (world_of (job_c ∷ [])) (claimed lease job_c)
      (set_running 100 lease job_c) 9_223_372_037 100 refl (omega arith) (omega arith) (omega arith)
      (omega arith) refl (here refl) refl

abbrev complete_a : CompleteJobRequest
complete_a = record { worker_id = "w1"; job_id = "a"; result = none; metrics = none }

get_job-handle_worker_complete_example :
    get_job (env_at 300) "a" (handle_worker_complete (env_at 200) (posted complete_a) two_jobs).1.db
    ≡ answer (record (row_to_pb job_a) {
      status = JobStatus.done;
      result = some (object []);
      lease_until = none;
      updated_at = 200;
    })
unfolding get_job handle_worker_complete trim_space post
get_job-handle_worker_complete_example =
    get_job-handle_worker_complete (env_at 200) (env_at 300) complete_a two_jobs (row_to_pb job_a)
      refl refl

abbrev fail_a : FailJobRequest
fail_a = record { worker_id = "w1"; job_id = "a"; error_text = "timeout"; metrics = none }

get_job-handle_worker_fail_example :
    (status : JobStatus) × (get_job
        (env_at 300)
        "a"
        (handle_worker_fail (env_at 200) (posted fail_a) two_jobs).1.db
      ≡ answer (record (row_to_pb job_a) {
        status = status;
        error_text = some "timeout";
        lease_until = none;
        updated_at = 200;
      }))
    × (((pos 3 ≤ℤ pos 0) × (status ≡ error)) ⊎ ((pos (0 + 1) ≤ℤ pos 3) × (status ≡ queued)))
unfolding get_job handle_worker_fail trim_space post
get_job-handle_worker_fail_example =
    get_job-handle_worker_fail (env_at 200) (env_at 300) fail_a two_jobs (row_to_pb job_a) refl refl

run-Inv_example :
    Inv
      (run
        ((env_at 100, http_claim (posted claim_60)) ∷ (env_at 200, http_fail (posted fail_a)) ∷ [])
        (world_of [])).db.jobs
      (run
        ((env_at 100, http_claim (posted claim_60)) ∷ (env_at 200, http_fail (posted fail_a)) ∷ [])
        (world_of [])).db.attempts
run-Inv_example =
    run-Inv
      ((env_at 100, http_claim (posted claim_60)) ∷ (env_at 200, http_fail (posted fail_a)) ∷ [])
      (world_of []) refl refl

abbrev submit_c : SubmitJobRequest
submit_c = record {
  kind = "ollama.generate";
  payload = none;
  priority = pos 0;
  source = "";
  max_attempts = pos 0;
  deadline_at = "";
}

get_job-handle_jobs_example :
    IsSubmitted
      (env_at 100)
      (env_at 200)
      submit_c
      "u1"
      (handle_jobs (env_at 100) (posted submit_c) (world_of [])).1.db
unfolding handle_jobs trim_space has_prefix parse_payload_model_device model_allowed
get_job-handle_jobs_example =
    get_job-handle_jobs (env_at 100) (env_at 200) submit_c (world_of []) "u1" refl
