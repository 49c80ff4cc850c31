-- ===== src/Http/Runs.antt =====
-- `HandleDiscoveryRun` and `HandleDiscoveryLast` in core/internal/api/handlers.go. A run of discovery returns
-- no error.
use llm_mcp.Prelude.{ℕ, String, not, ◌==◌, Option, none, some, if◌then◌else◌}
use llm_mcp.Db.{Env}
use llm_mcp.Discovery.Net.{Net}
use llm_mcp.Discovery.Run.{Tailscale, Runner, run}
use llm_mcp.Http.{Ack, Reply, reply, fail, World}

unfoldable pub handle_discovery_run :
    Env → Net → Tailscale → String → Runner → World → Reply Ack × Runner × World
unfolding run
handle_discovery_run env net t method r w =
    if not (method == "POST")
    then (fail 405 "method_not_allowed", r, w)
    else let (r', db) = run env net t w.db in (reply 200 tt, r', record w { db = db })

-- The time of the last run, empty before the first.
abbrev pub last_text : Env → Option ℕ → String
last_text env none = ""
last_text env (some t) = env.format_time t

pub handle_discovery_last : Env → String → Runner → Reply String
handle_discovery_last env method r =
    if not (method == "GET")
    then fail 405 "method_not_allowed"
    else reply 200 (last_text env r.last_run)
