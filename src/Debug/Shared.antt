-- ===== src/Debug/Shared.antt =====
-- The slots in use that HandleDebugCapacity shows, against the nodes of the hosts.
use llm_mcp.Prelude.{ℕ, ◌+◌, ◌≡◌, refl, List, [], ◌∷◌, All, arith}
use llm_mcp.Dashboard.Hosts.{HostInfo}
use llm_mcp.Prelude.Int.{ℤ}
use llm_mcp.Dashboard.Sort.{sum_by}
use llm_mcp.Dashboard.Totals.{Adds}
use llm_mcp.Dashboard.Shown.{build_host_hierarchy-Adds}
use llm_mcp.Db.{Env}
use llm_mcp.Http.{World}
use llm_mcp.Debug.Capacity.{
  View, load_devices, with_stats, sum_used, shown_hosts, max_concurrency, capacity,
}

-- The jobs that run on the nodes of the hosts.
pub running_on_nodes : List HostInfo → ℕ
running_on_nodes [] = 0
running_on_nodes (h ∷ hs) = sum_by (λ n. n.running) h.nodes + running_on_nodes hs

used_on_nodes : (m : ℤ) (hs : List HostInfo) → All (Adds m) hs → sum_used hs ≡ running_on_nodes hs
unfolding sum_used running_on_nodes
used_on_nodes m [] h = refl
used_on_nodes m (x ∷ xs) (((a, b), c), hs) = omega (arith, b, used_on_nodes m xs hs)

-- The slots in use are the jobs that run on the nodes of the hosts that are shown.
pub capacity-used :
    (env : Env) (v : View) (w : World)
    → (capacity env v w).used_slots ≡ running_on_nodes (shown_hosts env v w)
unfolding capacity
capacity-used env v w =
    used_on_nodes (max_concurrency env) (shown_hosts env v w)
      (build_host_hierarchy-Adds (with_stats env v w (load_devices env v w.db))
        (max_concurrency env) "").0
