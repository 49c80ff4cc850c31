-- ===== src/Grpc/Agree.antt =====
-- Where the gRPC methods do as the HTTP handlers.
use llm_mcp.Prelude.{
  ℕ, String, Bool, true, false, not, ◌&&◌, ◌||◌, Option, none, some, List, [], ◌∷◌, ◌≡◌, refl, ap,
  arith, All, filter_if, first_by, blank, if◌then◌else◌,
}
use llm_mcp.Db.{
  Job, Device, Db, Env, begin_tx, commit_tx, select_job, update_job as update_job_stmt,
}
use llm_mcp.Queue.{before, device_of, is_waiting, claimable, select_claimable}
use llm_mcp.Http.{Reply, reply, fail, World, posted}
use llm_mcp.Http.Workers as HttpWorkers
use llm_mcp.Http.Workers.{device_limit, attempt_fails, claim, handle_worker_claim}
use llm_mcp.Http.Claim.{lease_of}
use llm_mcp.Grpc.{Answer, answer, failed, panic}
use llm_mcp.Grpc.Jobs.{ClaimJobRequest, select_waiting, take, hand_out, claim_job}

-- What holds of both pairs of branches holds of two conditionals with one test.
if_two {ℓ κ ι} :
    {A : Type ℓ} {B : Type κ} (R : A → B → Type ι) (b : Bool) {x x' : A} {y y' : B}
    → R x y
    → R x' y'
    → R (if b then x else x') (if b then y else y')
if_two R true p q = p
if_two R false p q = q

filter_if_same {ℓ} :
    {A : Type ℓ} (p q : A → Bool) (xs : List A)
    → All (λ x. p x ≡ q x) xs
    → filter_if p xs ≡ filter_if q xs
filter_if_same p q [] h = refl
filter_if_same p q (x ∷ xs) (h, hs) = rw (h, filter_if_same p q xs hs) refl

drop_true : (a b : Bool) → (a && true && true && b) ≡ (a && b)
drop_true a b = ground arith

-- The job of a reply, and of an answer.
abbrev pub handed : Reply (Option Job) → Option Job
handed (reply s o) = o
handed (fail s c) = none

abbrev pub given : Answer (Option Job) → Option Job
given (answer o) = o
given failed = none
given panic = none

abbrev pub Agree : World → Reply (Option Job) × World → Answer (Option Job) × Db → Type 0
Agree w x y = (x.1 ≡ record w { db = y.1 }) × (handed x.0 ≡ given y.0)

-- The message of the one server for the other.
abbrev pub message : HttpWorkers.ClaimJobRequest → ClaimJobRequest
message req = record {
  worker_id = req.worker_id;
  kinds = req.kinds;
  lease_seconds = req.lease_seconds;
}

module _ (env : Env) (kinds : List String) (db : Db) where
  same_test :
      (jobs : List Job)
      → All (λ j. device_of j ≡ "") jobs
      → All
          (λ j.
            (claimable env.db_now kinds (device_limit env) db j && not (env.locked j.id))
            ≡ (is_waiting env.db_now kinds j && not (env.locked j.id)))
          jobs
  same_test [] h = tt
  same_test (j ∷ js) (e, hs) =
      (rw e (drop_true (is_waiting env.db_now kinds j) (not (env.locked j.id))), same_test js hs)

  select_same :
      All (λ j. device_of j ≡ "") db.jobs
      → select_claimable env.db_now env.locked kinds (device_limit env) db
        ≡ select_waiting env.db_now env.locked kinds db
  unfolding select_claimable select_waiting
  select_same h = ap (first_by before) (filter_if_same _ _ db.jobs (same_test db.jobs h))

module _ (env : Env) (id : String) (lease : ℕ) (w : World) where
  take_agrees : (j : Job) → Agree w (HttpWorkers.take env id lease j w) (take env id lease j w.db)
  take_agrees j =
      if_two (Agree w) (env.down update_job_stmt) (refl, refl)
        (if_two (Agree w) (attempt_fails env j.id w.db || env.down commit_tx) (refl, refl)
          (refl, refl))

  answer_agrees :
      (o : Option Job)
      → Agree w (HttpWorkers.answer env id lease o w) (hand_out env id lease o w.db)
  answer_agrees none = (refl, refl)
  answer_agrees (some j) = take_agrees j

-- While no job names a device, a claim of a named worker over gRPC hands out the job that the same claim
-- over HTTP hands out, or none where that hands out none, and leaves the same database.
pub handle_worker_claim-claim_job :
    (env : Env) (req : HttpWorkers.ClaimJobRequest) (w : World)
    → blank req.worker_id ≡ false
    → All (λ j. device_of j ≡ "") w.db.jobs
    → Agree w (handle_worker_claim env (posted req) w) (claim_job env (message req) w.db)
unfolding handle_worker_claim claim_job
handle_worker_claim-claim_job env req w named free = rw (named) (
    if_two (Agree w) (env.down begin_tx) (refl, refl)
      (if_two (Agree w) (env.down select_job) (refl, refl)
        (rw (select_same env req.kinds w.db free) (
          answer_agrees env req.worker_id (lease_of env req) w
            (select_waiting env.db_now env.locked req.kinds w.db)))))

abbrev SameAnswer : Answer (Option Job) × Db → Answer (Option Job) × Db → Type 0
SameAnswer x y = x.0 ≡ y.0

hand_out-devices :
    (env : Env) (id : String) (lease : ℕ) (db : Db) (devices : List Device) (o : Option Job)
    → SameAnswer
        (hand_out env id lease o (record db { devices = devices }))
        (hand_out env id lease o db)
hand_out-devices env id lease db devices none = refl
hand_out-devices env id lease db devices (some j) =
    if_two SameAnswer (env.down update_job_stmt) refl
      (if_two SameAnswer (attempt_fails env j.id db || env.down commit_tx) refl refl)

-- The job that a claim over gRPC hands out does not depend on the table of devices: a device that is
-- offline, or not in the table, is given its jobs all the same.
pub claim_job-devices :
    (env : Env) (req : ClaimJobRequest) (db : Db) (devices : List Device)
    → (claim_job env req (record db { devices = devices })).0 ≡ (claim_job env req db).0
unfolding claim_job select_waiting
claim_job-devices env req db devices = if_two SameAnswer (env.down begin_tx) refl (
    if_two SameAnswer (env.down select_job) refl (
      hand_out-devices env req.worker_id _ db devices
        (select_waiting env.db_now env.locked req.kinds db)))
