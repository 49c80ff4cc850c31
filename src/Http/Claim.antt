-- ===== src/Http/Claim.antt =====
-- The claim of a job over HTTP.
use llm_mcp.Prelude.{
  ℕ, suc, ◌≡◌, refl, ◌≢◌, String, true, false, Option, none, some, [], ◌∷◌, ◌++◌, arith, Has, inl,
  inr, ◌⊎◌, if_both,
}
use llm_mcp.Prelude.Int.{pos, ◌≤ℤ◌}
use llm_mcp.Db.{running, Job, Env, add_duration, seconds}
use llm_mcp.Queue.{select_claimable, claimable, running_on, update_job, set_running, new_attempt}
use llm_mcp.Queue.Order.{select_claimable-first, NotAfter}
use llm_mcp.Queue.Slots.{UniqueIds, running_on-set_running}
use llm_mcp.Http.{Reply, reply, fail, Request, World, posted, post_rule}
use llm_mcp.Http.Workers.{
  ClaimJobRequest, lease_or, device_limit, answer, claim, take, handle_worker_claim,
}

abbrev pub lease_of : Env → ClaimJobRequest → ℕ
lease_of env req = add_duration env.app_now (seconds (lease_or (pos 60) req.lease_seconds))

-- The job as the worker receives it, and the state that a claim leaves.
abbrev pub claimed : ℕ → Job → Job
claimed lease j = record j { status = running; attempts = suc j.attempts; lease_until = some lease }

abbrev pub after_claim : Env → String → ℕ → Job → World → World
after_claim env worker_id lease j w = record w {
  db = record w.db {
    jobs = update_job j.id (set_running env.db_now lease) w.db.jobs;
    attempts = w.db.attempts ++ new_attempt (env.uuid 0) j.id worker_id env.db_now ∷ [];
  };
}

-- A claim leaves all as it was and hands out no job, or takes the row that the query returned.
abbrev pub Claims : Env → ClaimJobRequest → World → Reply (Option Job) × World → Type 0
Claims env req w (r, w') =
    ((w' ≡ w) × ((j : Job) → r ≢ reply 200 (some j)))
    ⊎ ((j : Job) × (select_claimable env.db_now env.locked req.kinds (device_limit env) w.db
          ≡ some j)
        × (r ≡ reply 200 (some (claimed (lease_of env req) j)))
        × (w' ≡ after_claim env req.worker_id (lease_of env req) j w))

refused :
    (env : Env) (req : ClaimJobRequest) (w : World) (status : ℕ) (code : String)
    → Claims env req w (fail status code, w)
refused env req w status code = inl (refl, λ j q. cc)

take_cases :
    (env : Env) (req : ClaimJobRequest) (w : World) (j : Job)
    → select_claimable env.db_now env.locked req.kinds (device_limit env) w.db ≡ some j
    → Claims env req w (take env req.worker_id (lease_of env req) j w)
take_cases env req w j e = if_both (Claims env req w) _ (refused env req w 500 "db_update_failed") (
    if_both (Claims env req w) _ (refused env req w 500 "db_commit_failed")
      (inr (j, e, refl, refl)))

answer_cases :
    (env : Env) (req : ClaimJobRequest) (w : World) (o : Option Job)
    → select_claimable env.db_now env.locked req.kinds (device_limit env) w.db ≡ o
    → Claims env req w (answer env req.worker_id (lease_of env req) o w)
answer_cases env req w none e = inl (refl, λ j q. cc)
answer_cases env req w (some j) e = take_cases env req w j e

pub claim_cases :
    (env : Env) (req : ClaimJobRequest) (w : World) → Claims env req w (claim env req w)
claim_cases env req w = if_both (Claims env req w) _ (refused env req w 400 "worker_id_required") (
    if_both (Claims env req w) _ (refused env req w 500 "db_tx_failed") (
      if_both (Claims env req w) _ (refused env req w 500 "db_read_failed")
        (answer_cases env req w _ refl)))

-- The same of the handler, for the request that its body decodes to.
abbrev Handles : Env → Request ClaimJobRequest → World → Reply (Option Job) × World → Type 0
Handles env r w (a, w') =
    ((w' ≡ w) × ((j : Job) → a ≢ reply 200 (some j)))
    ⊎ ((req : ClaimJobRequest) × (r.body ≡ some req) × Claims env req w (a, w'))

handle_cases :
    (env : Env) (r : Request ClaimJobRequest) (w : World)
    → Handles env r w (handle_worker_claim env r w)
unfolding handle_worker_claim
handle_cases env r w =
    post_rule (Handles env r w) r w (λ req. claim env req w) (λ s c. inl (refl, λ j q. cc))
      (λ req e. inr (req, e, claim_cases env req w))

-- A claim that hands out no job changes nothing, whichever statement failed.
pub handle_worker_claim_atomic :
    (env : Env) (r : Request ClaimJobRequest) (w : World)
    → ((j : Job) → (handle_worker_claim env r w).0 ≢ reply 200 (some j))
    → (handle_worker_claim env r w).1 ≡ w
handle_worker_claim_atomic env r w h = elim (handle_cases env r w) [
  | inl (e, _) ↦ e
  | inr (req, _, c) ↦ elim c [
    | inl (e, _) ↦ e
    | inr (j, _, e, _) ↦ absurd (h (claimed (lease_of env req) j) e)
  ]
]

-- A claim that hands out a job hands out the first row that may be claimed: it stands in the table,
-- meets the WHERE clause and is not locked, and any row `k` that meets both has a lower priority, or the
-- same priority and no earlier time of entry. The worker receives it as `running` with one more attempt
-- and the lease; the update of its row and a new attempt are all that changes.
pub handle_worker_claim-first :
    (env : Env) (req : ClaimJobRequest) (w : World) (got k : Job)
    → (handle_worker_claim env (posted req) w).0 ≡ reply 200 (some got)
    → Has k w.db.jobs
    → claimable env.db_now req.kinds (device_limit env) w.db k ≡ true
    → env.locked k.id ≡ false
    → (j : Job) × Has j w.db.jobs
      × (claimable env.db_now req.kinds (device_limit env) w.db j ≡ true)
      × (env.locked j.id ≡ false)
      × NotAfter j k
      × (got ≡ claimed (lease_of env req) j)
      × ((handle_worker_claim env (posted req) w).1
          ≡ after_claim env req.worker_id (lease_of env req) j w)
unfolding handle_worker_claim
handle_worker_claim-first env req w got k h m c l = elim (claim_cases env req w) [
  | inl (_, n) ↦ absurd (n got h)
  | inr (j, s, e, e') ↦
      let (m', ok, free, first) =
        select_claimable-first env.db_now env.locked req.kinds (device_limit env) w.db j s in
      (j, m', ok, free, first k m (rw (c, l) refl), ground arith, e')
]

-- With distinct ids, a claim keeps every device within `DEVICE_MAX_CONCURRENCY`: a named device with at
-- most that many running jobs under a live lease has at most that many after it.
pub running_on-handle_worker_claim :
    (env : Env) (r : Request ClaimJobRequest) (w : World) (d : String)
    → UniqueIds w.db.jobs
    → d ≢ ""
    → pos (running_on env.db_now w.db.jobs d) ≤ℤ device_limit env
    → pos (running_on env.db_now (handle_worker_claim env r w).1.db.jobs d) ≤ℤ device_limit env
running_on-handle_worker_claim env r w d u n within = elim (handle_cases env r w) [
  | inl (e, _) ↦ rw e within
  | inr (req, _, c) ↦ elim c [
    | inl (e, _) ↦ rw e within
    | inr (j, s, _, e) ↦
        let (m, ok, _, _) =
          select_claimable-first env.db_now env.locked req.kinds (device_limit env) w.db j s in
        rw e (
          running_on-set_running env.db_now env.db_now (lease_of env req) req.kinds
            (device_limit env) w.db j d u m ok n within)
  ]
]
