-- ===== src/Examples/Dashboard.antt =====
-- The theorems on the dashboard, at a host with a port device and one that is offline.
use llm_mcp.Prelude.{
  ◌+◌, ◌≡◌, ℕ, Bool, true, ◌&&◌, ◌==◌, String, none, some, List, [], ◌∷◌, All, count_if,
}
use llm_mcp.Prelude.Int.{pos}
use llm_mcp.Db.{names}
use llm_mcp.Db.Values.{object, bool, str}
use llm_mcp.Dashboard.Sort.{Sorted, sum_by}
use llm_mcp.Dashboard.Hosts.{DeviceInfo, HostInfo, is_port_device, attach_ports, base_hosts}
use llm_mcp.Dashboard.Stats.{host_before, hosts_of, build_host_hierarchy}
use llm_mcp.Dashboard.Ordered.{build_host_hierarchy-Sorted}
use llm_mcp.Dashboard.Totals.{Adds}
use llm_mcp.Dashboard.Shown.{nodes_of, shows_itself, build_host_hierarchy-Adds}

abbrev info : String → String → ℕ → DeviceInfo
info id status models = record {
  id = id;
  name = id;
  status = status;
  platform = "linux";
  models = models;
  model_names = names ("llama3" ∷ "nomic-embed-text" ∷ []);
  load = 1;
  latency = some (pos 20);
  last_seen = none;
  tags = none;
  stats = some (record {
    total_jobs = 4;
    done_jobs = 3;
    success_rate = pos 75_000_000;
    avg_latency_ms = 100;
  });
  circuit = "ok";
}

abbrev infos : List DeviceInfo
infos =
    info "d2" "offline" 1
    ∷ record (info "d1:8080" "online" 2) {
      tags = some (
          object (
            ("port_device", bool true)
            ∷ ("base_device", str "d1")
            ∷ ("ollama_port", str "8080")
            ∷ []));
      circuit = "probe";
    }
    ∷ info "d1" "online" 2
    ∷ []

build_host_hierarchy-Sorted_example :
    Sorted host_before (build_host_hierarchy infos (pos 2))
    × ((p : HostInfo → Bool)
        → count_if p (build_host_hierarchy infos (pos 2)) ≡ count_if p (hosts_of infos (pos 2)))
build_host_hierarchy-Sorted_example = build_host_hierarchy-Sorted infos (pos 2)

build_host_hierarchy-Adds_example :
    All (Adds (pos 2)) (build_host_hierarchy infos (pos 2))
    × (sum_by (nodes_of "d1") (build_host_hierarchy infos (pos 2))
        ≡ count_if (λ d. is_port_device d && d.id == "d1") infos
          + count_if (shows_itself infos "d1") (attach_ports infos (base_hosts infos [])))
build_host_hierarchy-Adds_example = build_host_hierarchy-Adds infos (pos 2) "d1"
