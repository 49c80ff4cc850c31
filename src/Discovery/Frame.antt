-- ===== src/Discovery/Frame.antt =====
-- What the statements of core/internal/discovery/discovery.go keep of the database.
pub mod Probes
pub mod Runs
use llm_mcp.Prelude.{
  ◌≡◌, ℕ, String, Bool, true, ◌&&◌, ◌||◌, ◌==◌, refl, Option, none, some, List, [], ◌∷◌, find_if,
  update_where, trim_space, split_on, concat, decimal, eqb, if◌then◌else◌, if_both,
}
use llm_mcp.Prelude.Int.{ℤ, pos}
use llm_mcp.Config.{atoi_value}
use llm_mcp.Db.{
  Device, Db, Env, update_device, upsert_device as upsert_device_stmt, insert_port_device,
}
use llm_mcp.Discovery.Net.{
  Net, OllamaModel, TailNode, Answer, no_request, unreachable, bad_status, garbled, listed,
}
use llm_mcp.Discovery.Address.{stands_in, build_addrs, build_host_headers, get_ollama_ports}
use llm_mcp.Discovery.Subnets.{items, parse_subnets, scan_targets}
use llm_mcp.Discovery.Sync.{
  save_model, save_offer, retire, sync_model, sync_all, listed_names, sync_device_models,
}
use llm_mcp.Discovery.Devices.{
  put, node_row, refresh, upsert_device, port_row, revive, ensure_port_device, extra_row,
  upsert_extra, lan_row, upsert_lan_device, remove_devices, is_lan, clear_lan_devices,
}
use llm_mcp.Discovery.Probe.{
  Search, take_answer, tags_url, try_hosts, attempt_hosts, try_addr, try_addrs, start_search,
  ollama_tags, retag, finish_probe, probe_ollama_port, probe_port, probe_ports, probe_ollama,
  endpoint_of, default_port, extra_id, probe_extra_endpoint,
}
use llm_mcp.Discovery.Run.{
  Tailscale, node_id, first_ip, process_node, process_nodes, own_hosts, remove_own, scan_answer,
  scan_ports, scan_all, scan_of, scan_subnets, named_self, no_node, scan_or_clear, probe_extras,
  discover, lan_id,
}

-- The statements keep the predicate.
pub record Kept {ℓ} (env : Env) (net : Net) (P : Db → Type ℓ) : Type ℓ where
  pub model : (m : OllamaModel) (name : String) (db : Db) → P db → P (save_model env net m name db)
  pub offer : (device name : String) (db : Db) → P db → P (save_offer env device name db)
  pub narrow :
      (device : String) (names : List String) (db : Db) → P db → P (retire env device names db)
  pub row :
      (d : Device) (f : Device → Device) (db : Db)
      → ((e : Device) → (f e).id ≡ e.id)
      → P db
      → P (put d f db)
  pub tags :
      (p : Device → Bool) (f : Device → Device) (db : Db)
      → ((e : Device) → (f e).id ≡ e.id)
      → P db
      → P (record db { devices = update_where p f db.devices })
  pub removal : (p : String → Bool) (db : Db) → P db → P (remove_devices env p db)
