-- ===== src/Queue.antt =====
-- The SQL statements of the job queue in core/internal/api/handlers.go, as functions on the tables.
pub mod Order
pub mod Invariant
pub mod Slots
use llm_mcp.Prelude.{
  ℕ, suc, String, Bool, true, false, not, ◌&&◌, ◌||◌, ◌==◌, Option, none, some, List, [], ◌∷◌, ltb,
  any, filter_if, count_if, update_where, first_by,
}
use llm_mcp.Prelude.Int.{ℤ, pos, ltb_ℤ, eqb_ℤ}
use llm_mcp.Db.Values.{Json, arrow_text, coalesce}
use llm_mcp.Db.{
  JobStatus, running, done, is_running, is_active, Job, Attempt, Device, is_online, Db,
}

-- `payload->>'device_id'`, with NULL as the empty text, as which every condition treats it.
abbrev pub device_of : Job → String
device_of j = coalesce (arrow_text "device_id" j.payload) ""

-- `lease_until IS NULL OR lease_until < now()`
abbrev pub lease_free : ℕ → Option ℕ → Bool
lease_free now none = true
lease_free now (some t) = ltb t now

-- `lease_until > now()`
abbrev pub lease_live : ℕ → Option ℕ → Bool
lease_live now none = false
lease_live now (some t) = ltb now t

-- The rows that `running_per_device` counts for one device.
abbrev pub occupies : ℕ → String → Job → Bool
occupies now d j = is_running j.status && lease_live now j.lease_until && device_of j == d

-- `COALESCE(rpd.cnt, 0)`
abbrev pub running_on : ℕ → List Job → String → ℕ
running_on now jobs d = count_if (occupies now d) jobs

abbrev pub slot_free : ℕ → List Job → ℤ → String → Bool
slot_free now jobs limit d = d == "" || ltb_ℤ (pos (running_on now jobs d)) limit

abbrev pub device_online : List Device → String → Bool
device_online devices d = d == "" || any (λ r. r.id == d && is_online r.status) devices

-- `kind = ANY($1)`, left out when no kinds are asked for.
abbrev pub kind_wanted : List String → String → Bool
kind_wanted [] k = true
kind_wanted (c ∷ cs) k = any (λ w. k == w) (c ∷ cs)

-- What both claim queries require of a row.
abbrev pub is_waiting : ℕ → List String → Job → Bool
is_waiting now kinds j =
    is_active j.status && lease_free now j.lease_until && kind_wanted kinds j.kind

-- The WHERE clause of the claim query of the HTTP server.
abbrev pub claimable : ℕ → List String → ℤ → Db → Job → Bool
claimable now kinds limit db j =
    is_waiting now kinds j
    && slot_free now db.jobs limit (device_of j)
    && device_online db.devices (device_of j)

-- `ORDER BY priority DESC, queued_at`
abbrev pub before : Job → Job → Bool
before a b =
    ltb_ℤ b.priority a.priority || (eqb_ℤ a.priority b.priority && ltb a.queued_at b.queued_at)

-- `FOR UPDATE SKIP LOCKED LIMIT 1`
unfoldable pub select_claimable : ℕ → (String → Bool) → List String → ℤ → Db → Option Job
select_claimable now locked kinds limit db =
    first_by before (filter_if (λ j. claimable now kinds limit db j && not (locked j.id)) db.jobs)

-- `UPDATE jobs SET … WHERE id = $n`
abbrev pub update_job : String → (Job → Job) → List Job → List Job
update_job id f jobs = update_where (λ j. j.id == id) f jobs

-- `SET status='running', attempts=attempts+1, lease_until=$1, updated_at=now()`
abbrev pub set_running : ℕ → ℕ → Job → Job
set_running now lease j = record j {
  status = running;
  attempts = suc j.attempts;
  lease_until = some lease;
  updated_at = now;
}

-- `SET status='done', result=$1::jsonb, lease_until=NULL, updated_at=now()`
abbrev pub set_done : ℕ → Json → Job → Job
set_done now result j = record j {
  status = done;
  result = some result;
  lease_until = none;
  updated_at = now;
}

-- `SET status=$1, error=$2, lease_until=NULL, updated_at=now()`
abbrev pub set_failed : ℕ → JobStatus → String → Job → Job
set_failed now status text j = record j {
  status = status;
  error_text = some text;
  lease_until = none;
  updated_at = now;
}

-- `SET lease_until=$1, updated_at=now()`
abbrev pub set_lease : ℕ → Option ℕ → Job → Job
set_lease now lease j = record j { lease_until = lease; updated_at = now }

-- `INSERT INTO job_attempts (job_id, worker_id, status) VALUES ($1, $2, 'running')`
abbrev pub new_attempt : String → String → String → ℕ → Attempt
new_attempt id job_id worker_id now = record {
  id = id;
  job_id = job_id;
  worker_id = worker_id;
  started_at = now;
  finished_at = none;
  status = running;
  error_text = none;
  metrics = none;
}

-- `ORDER BY started_at DESC`
abbrev pub later : Attempt → Attempt → Bool
later a b = ltb b.started_at a.started_at

-- The attempt that a completion or a failure closes: the latest running one of the job.
unfoldable pub open_attempt : String → List Attempt → Option Attempt
open_attempt job_id attempts =
    first_by later (filter_if (λ a. a.job_id == job_id && is_running a.status) attempts)

-- `UPDATE job_attempts SET … WHERE id = (SELECT …)`
unfoldable pub close_attempt : String → (Attempt → Attempt) → List Attempt → List Attempt
unfolding open_attempt
close_attempt job_id f attempts = elim (open_attempt job_id attempts) [
  | none ↦ attempts
  | some a ↦ update_where (λ b. b.id == a.id) f attempts
]
