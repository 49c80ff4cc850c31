-- ===== src/Debug/Health.antt =====
-- `HandleDebugHealth` in core/internal/api/handlers.go, without the numbers of the connection pool and the
-- texts of the issues.
use llm_mcp.Prelude.{
  ℕ, ◌+◌, ◌-◌, ◌/◌, String, Bool, true, false, not, ◌&&◌, ◌==◌, Option, none, some, List, [], ◌∷◌,
  ◌++◌, ltb, eqb, if◌then◌else◌, count_if, filter_if, first_by,
}
use llm_mcp.Prelude.Int.{ℤ, pos, scale, wrap64}
use llm_mcp.Config.{getenv_int}
use llm_mcp.Db.{
  Job, Device, queued, is_running, is_online, Db, Env, ping, count_jobs, count_hosts, list_hosts,
}
use llm_mcp.Dashboard.Stats.{in_units}
use llm_mcp.Http.{Reply, reply, fail}
use llm_mcp.Debug.{workers_online, is_base_host}

pub data Level : Type 0 where
  ok warning error : Level

-- `setWorst`
abbrev pub set_worst : Level → Level → Level
set_worst old ok = old
set_worst error warning = error
set_worst _ warning = warning
set_worst old error = error

abbrev pub is_queued : Job → Bool
is_queued j = elim j.status [ queued ↦ true | _ ↦ false ]

abbrev pub over_by : ℕ → Option ℕ → Bool
over_by now none = false
over_by now (some t) = ltb t now

-- `status = 'running' AND lease_until < now()`
abbrev pub is_stuck : ℕ → Job → Bool
is_stuck now j = is_running j.status && over_by now j.lease_until

abbrev pub count_jobs_if : Env → (Job → Bool) → Db → ℕ
count_jobs_if env p db = if env.down count_jobs then 0 else count_if p db.jobs

-- The seconds since the oldest queued job came.
abbrev pub oldest_queued : Env → Db → Option ℕ
oldest_queued env db =
    if env.down count_jobs
    then none
    else elim (first_by (λ a b. ltb a.queued_at b.queued_at) (filter_if is_queued db.jobs)) [
      | none ↦ none
      | some j ↦ some ((env.db_now - j.queued_at) / 1_000_000_000)
    ]

pub record QueueCheck : Type 0 where
  pub level : Level
  pub queued : ℕ
  pub running : ℕ
  pub stuck : ℕ
  pub oldest_queued_sec : Option ℕ

abbrev pub check_queue : Env → Db → QueueCheck
check_queue env db =
    let stuck = count_jobs_if env (is_stuck env.db_now) db in
    record {
      level = if ltb 0 stuck then warning else ok;
      queued = count_jobs_if env is_queued db;
      running = count_jobs_if env (λ j. is_running j.status) db;
      stuck = stuck;
      oldest_queued_sec = oldest_queued env db;
    }

pub record HostsCheck : Type 0 where
  pub level : Level
  pub total : ℕ
  pub online : ℕ
  pub offline : ℕ

abbrev pub count_hosts_if : Env → (Device → Bool) → Db → ℕ
count_hosts_if env p db =
    if env.down count_hosts then 0 else count_if (λ d. is_base_host d && p d) db.devices

abbrev pub hosts_level : ℕ → ℕ → ℕ → Level
hosts_level total online offline =
    if eqb online 0 && ltb 0 total then error else if ltb 0 offline then warning else ok

abbrev pub check_hosts : Env → Db → HostsCheck
check_hosts env db =
    let total = count_hosts_if env (λ d. true) db in
    let online = count_hosts_if env (λ d. is_online d.status) db in
    let offline = count_hosts_if env (λ d. not (is_online d.status)) db in
    record {
      level = hosts_level total online offline;
      total = total;
      online = online;
      offline = offline;
    }

pub record WorkersCheck : Type 0 where
  pub level : Level
  pub online : ℕ
  pub capacity : ℤ

abbrev pub check_workers : Env → Db → WorkersCheck
check_workers env db =
    let n = workers_online env db in
    record {
      level = if eqb n 0 then warning else ok;
      online = n;
      capacity = wrap64 (scale n (getenv_int env.vars "DEVICE_MAX_CONCURRENCY" (pos 1)));
    }

-- The issues; how long a host was not seen is unknown, or in minutes or hours.
pub data HealthIssue : Type 0 where
  host_unseen : String → HealthIssue
  host_minutes : String → ℤ → HealthIssue
  host_hours : String → ℤ → HealthIssue
  expired_leases : ℕ → HealthIssue
  queue_stuck : ℕ → HealthIssue
  queue_backlog : ℕ → HealthIssue

abbrev pub host_issue : ℕ → String → Option ℕ → HealthIssue
host_issue now name none = host_unseen name
host_issue now name (some seen) =
    if ltb now (seen + 3_600_000_000_000)
    then host_minutes name (in_units now seen 60_000_000_000)
    else host_hours name (in_units now seen 3_600_000_000_000)

abbrev pub host_issues : ℕ → List Device → List HealthIssue
host_issues now [] = []
host_issues now (d ∷ ds) =
    if is_base_host d && not (is_online d.status)
    then host_issue now d.name d.last_seen ∷ host_issues now ds
    else host_issues now ds

abbrev pub issue_if : Bool → HealthIssue → List HealthIssue
issue_if true i = i ∷ []
issue_if false i = []

pub record Health : Type 0 where
  pub level : Level
  pub database : Level
  pub queue : QueueCheck
  pub hosts : HostsCheck
  pub workers : WorkersCheck
  pub issues : List HealthIssue

abbrev pub check_database : Env → Level
check_database env = if env.down ping then error else ok

-- The calls of `setWorst` in their order.
unfoldable pub health : Env → Db → Health
unfolding workers_online
health env db =
    let d = check_database env in
    let q = check_queue env db in
    let h = check_hosts env db in
    let k = check_workers env db in
    record {
      level = set_worst (set_worst (set_worst (set_worst ok d) q.level) h.level) k.level;
      database = d;
      queue = q;
      hosts = h;
      workers = k;
      issues =
          (if env.down list_hosts then [] else host_issues env.app_now db.devices)
          ++ issue_if (ltb 0 q.stuck) (expired_leases q.stuck)
          ++ issue_if (ltb 0 q.queued && eqb q.running 0 && ltb 0 k.online) (queue_stuck q.queued)
          ++ issue_if (ltb 10 q.queued) (queue_backlog q.queued);
    }

unfoldable pub handle_debug_health : Env → String → Db → Reply Health
unfolding health
handle_debug_health env method db =
    if not (method == "GET") then fail 405 "method_not_allowed" else reply 200 (health env db)
