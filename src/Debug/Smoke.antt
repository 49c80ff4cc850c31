-- ===== src/Debug/Smoke.antt =====
-- `HandleDebugTest` in core/internal/api/handlers.go, without the times and the texts of its results. Which
-- status a host answers is a parameter.
use llm_mcp.Prelude.{
  ℕ, suc, String, true, not, ◌&&◌, ◌==◌, Option, none, some, List, [], ◌∷◌, ◌++◌, eqb, ltb,
  if◌then◌else◌, length, count_if, filter_if, concat,
}
use llm_mcp.Prelude.Int.{pos, negsuc}
use llm_mcp.Db.Values.{object, bool}
use llm_mcp.Db.{
  Job, done, Device, is_online, Db, Env, ping, count_hosts, count_models, list_hosts,
  update_job as update_job_stmt,
}
use llm_mcp.Limits.{tagged_ollama}
use llm_mcp.Queue.{update_job}
use llm_mcp.Routing.Device.{tag}
use llm_mcp.Http.{Reply, reply, fail, World}
use llm_mcp.Http.Jobs.{new_job, insert_row}
use llm_mcp.Proxy.{with_scheme}
use llm_mcp.Debug.{is_base_host}

pub data Outcome : Type 0 where
  pass warn failed : Outcome

pub data SmokeIssue : Type 0 where
  no_database : SmokeIssue
  host_status : String → ℕ → SmokeIssue
  host_unreachable : String → SmokeIssue
  no_jobs : SmokeIssue

pub record Smoke : Type 0 where
  pub status : Outcome
  pub db_ping : Outcome
  pub devices : ℕ
  pub models : ℕ
  pub ollama_ping : Outcome
  pub reachable : ℕ
  pub hosts : ℕ
  pub job_id : Option String
  pub issues : List SmokeIssue

-- The hosts that are online and have an address.
abbrev pub pinged : Env → Db → List Device
pinged env db =
    if env.down list_hosts
    then []
    else filter_if (λ d. is_base_host d && is_online d.status && not (tag "ollama_addr" d == ""))
        db.devices

-- The answer of one host: `none` is an error.
abbrev pub host_result : Device → Option ℕ → ℕ × List SmokeIssue → ℕ × List SmokeIssue
host_result d none rest = (rest.0, host_unreachable d.name ∷ rest.1)
host_result d (some status) rest =
    if eqb status 200 then (suc rest.0, rest.1) else (rest.0, host_status d.name status ∷ rest.1)

abbrev pub ping_hosts : (String → Option ℕ) → List Device → ℕ × List SmokeIssue
ping_hosts get [] = (0, [])
ping_hosts get (d ∷ ds) =
    host_result d (get (concat (with_scheme (tag "ollama_addr" d)) "/api/tags")) (ping_hosts get ds)

abbrev pub test_job : Env → Job
test_job env =
    new_job env "debug.test" (object (("smoke_test", bool true) ∷ [])) (negsuc 0) "debug" (pos 1)
      none

-- `SET status = 'done', result = '{"test": true}'`
abbrev pub mark_tested : Job → Job
mark_tested j = record j { status = done; result = some (object (("test", bool true) ∷ [])) }

-- The error of the update is dropped. The INSERT and this UPDATE commit one after the other; they are one
-- step here, so that no claim comes between them.
abbrev pub finish_test : Env → Db → Db
finish_test env db =
    if env.down update_job_stmt
    then db
    else record db { jobs = update_job (test_job env).id mark_tested db.jobs }

abbrev pub smoke_of : Env → (String → Option ℕ) → Db → Option String → Smoke
smoke_of env get db job =
    let hosts = pinged env db in
    let p = ping_hosts get hosts in
    let alive = not (env.down ping) in
    let all = not (ltb p.0 (length hosts)) in
    record {
      status = elim job [
        | none ↦ failed
        | some id ↦ if not alive then failed else if all then pass else warn
      ];
      db_ping = if alive then pass else failed;
      devices = if env.down count_hosts then 0 else count_if tagged_ollama db.devices;
      models = if env.down count_models then 0 else count_if (λ r. r.available) db.device_models;
      ollama_ping = if all then pass else warn;
      reachable = p.0;
      hosts = length hosts;
      job_id = job;
      issues =
          (if alive then [] else no_database ∷ [])
          ++ p.1
          ++ elim job [ none ↦ no_jobs ∷ [] | some id ↦ [] ];
    }

abbrev pub smoke_reply : Env → (String → Option ℕ) → World → Option Db → Reply Smoke × World
smoke_reply env get w none = (reply 200 (smoke_of env get w.db none), w)
smoke_reply env get w (some db) = (
  reply 200 (smoke_of env get w.db (some (test_job env).id)),
  record w { db = finish_test env db },
)

unfoldable pub handle_debug_test : Env → (String → Option ℕ) → String → World → Reply Smoke × World
handle_debug_test env get method w =
    if not (method == "POST")
    then (fail 405 "method_not_allowed", w)
    else smoke_reply env get w (insert_row env (test_job env) w.db)
