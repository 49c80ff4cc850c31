-- ===== src/Discovery/Frame/Runs.antt =====
-- A predicate that the statements of core/internal/discovery/discovery.go keep is kept by a run, up to the jobs
-- of the devices that are offline.
use llm_mcp.Prelude.{
  ℕ, String, true, ◌&&◌, ◌==◌, refl, Option, none, some, List, [], ◌∷◌, find_if, split_on, concat,
  decimal, eqb, if◌then◌else◌, if_both,
}
use llm_mcp.Prelude.Int.{pos}
use llm_mcp.Config.{atoi_value}
use llm_mcp.Db.{Device, Db, Env, upsert_device as upsert_device_stmt, insert_port_device}
use llm_mcp.Discovery.Net.{
  Net, TailNode, Answer, no_request, unreachable, bad_status, garbled, listed,
}
use llm_mcp.Discovery.Address.{build_addrs, build_host_headers, get_ollama_ports}
use llm_mcp.Discovery.Subnets.{items, parse_subnets, scan_targets}
use llm_mcp.Discovery.Sync.{listed_names}
use llm_mcp.Discovery.Devices.{
  put, node_row, refresh, upsert_device, port_row, revive, ensure_port_device, extra_row,
  upsert_extra, lan_row, upsert_lan_device, remove_devices, is_lan, clear_lan_devices,
}
use llm_mcp.Discovery.Probe.{
  probe_ollama_port, probe_port, probe_ports, probe_ollama, endpoint_of, default_port, extra_id,
  probe_extra_endpoint,
}
use llm_mcp.Discovery.Run.{
  Tailscale, node_id, first_ip, process_node, process_nodes, own_hosts, remove_own, scan_answer,
  scan_ports, scan_all, scan_of, scan_subnets, named_self, no_node, scan_or_clear, probe_extras,
  discover, lan_id,
}
use llm_mcp.Discovery.Frame.{Kept}
use llm_mcp.Discovery.Frame.Probes.{on_probe_port}

module _ {ℓ} (env : Env) (net : Net) (P : Db → Type ℓ) (kept : Kept env net P) where
  -- What holds of the result of a statement that may fail.
  abbrev Good : Option Db → Type ℓ
  Good none = Unit
  Good (some x) = P x

  on_result :
      (o : Option Db) (db : Db) (g : Db → Db)
      → P db
      → Good o
      → ((x : Db) → P x → P (g x))
      → P (elim o [ none ↦ db | some x ↦ g x ])
  on_result none db g h k then_g = h
  on_result (some x) db g h k then_g = then_g x k

  on_base :
      (o : Option Device) (port_device_id base_device_id : String) (port : ℕ) (db : Db)
      → P db
      → P (elim o [
        | none ↦ db
        | some base ↦
            let d = port_row env port_device_id base_device_id port base in put d (revive d) db
      ])
  on_base none port_device_id base_device_id port db h = h
  on_base (some base) port_device_id base_device_id port db h =
      let d = port_row env port_device_id base_device_id port base in
      kept.row d (revive d) db (λ e. refl) h

  on_ensure :
      (port_device_id base_device_id : String) (port : ℕ) (db : Db)
      → P db
      → Good (ensure_port_device env port_device_id base_device_id port db)
  unfolding ensure_port_device
  on_ensure port_device_id base_device_id port db h =
      if_both Good (env.down insert_port_device) tt (
        on_base (find_if (λ d. d.id == base_device_id) db.devices) port_device_id base_device_id
          port db h)

  on_ports :
      (device : String) (addrs host_headers : List String) (ports : List ℕ) (db : Db)
      → P db
      → P (probe_ports env net device addrs host_headers ports db)
  on_ports device addrs host_headers [] db h = h
  on_ports device addrs host_headers (p ∷ ps) db h =
      let id = concat device (concat ":" (decimal p)) in
      on_ports device addrs host_headers ps (probe_port env net device addrs host_headers p db) (
        if_both P (eqb p 11434)
          (on_probe_port env net P kept device addrs host_headers (pos p) db h)
          (on_result (ensure_port_device env id device p db) db
            (λ x. probe_ollama_port env net id addrs host_headers (pos p) x) h
            (on_ensure id device p db h)
            (λ x k. on_probe_port env net P kept id addrs host_headers (pos p) x k)))

  on_extra : (endpoint : String) (db : Db) → P db → P (probe_extra_endpoint env net endpoint db)
  unfolding probe_extra_endpoint
  on_extra endpoint db h =
      let (host, text) = endpoint_of net endpoint in
      let (port_str, port) = default_port text (atoi_value text) in
      let id = extra_id host port_str port in
      let d = extra_row env id host in
      on_result (upsert_extra env id host db) db
        (λ x. probe_ollama_port env net id (host ∷ []) [] port x) h
        (if_both Good (env.down upsert_device_stmt) tt (kept.row d (revive d) db (λ e. refl) h))
        (λ x k. on_probe_port env net P kept id (host ∷ []) [] port x k)

  on_extras : (es : List String) (db : Db) → P db → P (probe_extras env net es db)
  on_extras [] db h = h
  on_extras (e ∷ es) db h = on_extras es (probe_extra_endpoint env net e db) (on_extra e db h)

  on_upsert :
      (id : String) (node : TailNode) (ip : String) (addrs host_headers : List String) (db : Db)
      → P db
      → Good (upsert_device env net id node ip addrs host_headers db)
  unfolding upsert_device
  on_upsert id node ip addrs host_headers db h =
      let d = node_row env net id node ip addrs host_headers in
      if_both Good (env.down upsert_device_stmt) tt
        (kept.row d (refresh d node.online) db (λ e. refl) h)

  on_node : (node : TailNode) (db : Db) → P db → P (process_node env net node db)
  unfolding probe_ollama
  on_node node db h =
      let addrs = build_addrs node in
      let host_headers = build_host_headers node in
      let id = node_id node in
      if_both P (id == "") h (
        on_result
          (upsert_device env net id node (first_ip node.tailscale_ips) addrs host_headers db) db
          (λ x. if node.online then probe_ollama env net id addrs host_headers x else x) h
          (on_upsert id node (first_ip node.tailscale_ips) addrs host_headers db h)
          (λ x k.
            if_both P node.online (on_ports id addrs host_headers (get_ollama_ports env.vars) x k)
              k))

  on_nodes : (nodes : List TailNode) (db : Db) → P db → P (process_nodes env net nodes db)
  on_nodes [] db h = h
  on_nodes (n ∷ ns) db h = on_nodes ns (process_node env net n db) (on_node n db h)

  on_own : (ips : List String) (db : Db) → P db → P (remove_own env ips db)
  on_own [] db h = h
  on_own (ip ∷ ips) db h =
      on_own ips (remove_devices env (λ id. id == concat "lan-" ip) db)
        (kept.removal (λ id. id == concat "lan-" ip) db h)

  on_lan :
      (ip : String) (models : List String) (port : ℕ) (db : Db)
      → P db
      → P (upsert_lan_device env net ip models port db)
  unfolding upsert_lan_device
  on_lan ip models port db h =
      let d = lan_row env net ip models port in
      if_both P (env.down upsert_device_stmt) h (kept.row d (refresh d true) db (λ e. refl) h)

  on_scan :
      (ip : String) (port : ℕ) (answer : Answer) (db : Db)
      → P db
      → P (scan_answer env net ip port answer db)
  on_scan ip port no_request db h = h
  on_scan ip port (unreachable t e) db h = h
  on_scan ip port (bad_status t c) db h = h
  on_scan ip port (garbled t e) db h = h
  on_scan ip port (listed l ms) db h = on_lan (lan_id ip port) (listed_names ms) port db h

  on_scan_ports :
      (ip : String) (ports : List ℕ) (db : Db) → P db → P (scan_ports env net ip ports db)
  on_scan_ports ip [] db h = h
  on_scan_ports ip (p ∷ ps) db h =
      let answer =
        net.scan (concat "http://" (concat ip (concat ":" (concat (decimal p) "/api/tags")))) in
      on_scan_ports ip ps (scan_answer env net ip p answer db) (on_scan ip p answer db h)

  on_scan_all : (targets : List ℕ) (db : Db) → P db → P (scan_all env net targets db)
  on_scan_all [] db h = h
  on_scan_all (a ∷ rest) db h =
      let ports = get_ollama_ports env.vars in
      on_scan_all rest (scan_ports env net (net.show_addr a) ports db)
        (on_scan_ports (net.show_addr a) ports db h)

  on_scan_of :
      (self : TailNode) (cidrs : List String) (db : Db) → P db → P (scan_of env net self cidrs db)
  on_scan_of self [] db h = h
  on_scan_of self (c ∷ cs) db h =
      let own = own_hosts net self.addrs in
      on_scan_all (scan_targets net own (c ∷ cs)) (remove_own env own db) (on_own own db h)

  on_subnets : (self : TailNode) (db : Db) → P db → P (scan_subnets env net self db)
  unfolding scan_subnets
  on_subnets self db h = on_scan_of self (parse_subnets net env.vars self) db h

  on_scan_or_clear : (t : Tailscale) (db : Db) → P db → P (scan_or_clear env net t db)
  unfolding clear_lan_devices
  on_scan_or_clear t db h =
      if_both P (env.vars "DISCOVERY_SCAN_SUBNETS" == "1")
        (on_subnets (if named_self t then t.self else no_node) db h) (kept.removal is_lan db h)

  pub on_discover : (t : Tailscale) (db : Db) → P db → P (discover env net t db)
  unfolding discover
  on_discover t db h =
      let nodes = if t.available && t.decoded then t.self ∷ t.peers else [] in
      let nodes_done = process_nodes env net nodes db in
      on_extras (items (split_on b',' (env.vars "OLLAMA_EXTRA_ENDPOINTS")))
        (scan_or_clear env net t nodes_done) (on_scan_or_clear t nodes_done (on_nodes nodes db h))
