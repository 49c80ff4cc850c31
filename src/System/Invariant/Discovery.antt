-- ===== src/System/Invariant/Discovery.antt =====
-- A run of discovery keeps the invariant of the tables.
use llm_mcp.Prelude.{String, not, ◌==◌, if_both}
use llm_mcp.Http.{Ack, Reply, World}
use llm_mcp.Http.Runs.{handle_discovery_run}
use llm_mcp.Db.{Db, Env}
use llm_mcp.Queue.Invariant.{Sound}
use llm_mcp.Discovery.Net.{Net}
use llm_mcp.Discovery.Run.{Tailscale, Runner, discover, named_self, collect_offline_device_ids, run}
use llm_mcp.Discovery.Freed.{SameQueue, discover-SameQueue}
use llm_mcp.System.Invariant.Grpc.{Sound-handle_offline_devices}

pub SameQueue-Sound : (a b : Db) → SameQueue a b → Sound a → Sound b
SameQueue-Sound a b (e, e') v = record { inv = rw (e, e') v.inv }

pub Sound-run_discovery :
    (env : Env) (net : Net) (t : Tailscale) (db : Db) → Sound db → Sound (run env net t db).1
unfolding run
Sound-run_discovery env net t db v =
    let mid = discover env net t db in
    let kept = SameQueue-Sound db mid (discover-SameQueue env net t db) v in
    if_both Sound (named_self t)
      (Sound-handle_offline_devices env (collect_offline_device_ids t) mid kept) kept

pub Sound-handle_discovery_run :
    (env : Env) (net : Net) (t : Tailscale) (method : String) (r : Runner) (w : World)
    → Sound w.db
    → Sound (handle_discovery_run env net t method r w).2.db
unfolding handle_discovery_run
Sound-handle_discovery_run env net t method r w v =
    if_both (λ (x : Reply Ack × Runner × World). Sound x.2.db) (not (method == "POST")) v
      (Sound-run_discovery env net t w.db v)
