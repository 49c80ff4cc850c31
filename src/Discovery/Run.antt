-- ===== src/Discovery/Run.antt =====
-- `Run` and `scanSubnets` in core/internal/discovery/discovery.go. The 24 goroutines of the scan are modelled as one
-- that takes the addresses in their order; `status.Peer`, a map, as a list in the order of the iteration.
use llm_mcp.Prelude.{
  ℕ, String, Bool, false, not, ◌&&◌, ◌||◌, ◌==◌, Option, none, some, List, [], ◌∷◌, if◌then◌else◌,
  eqb, concat, decimal, split_on,
}
use llm_mcp.Db.{Db, Env}
use llm_mcp.Discovery.Net.{Net, TailNode, Answer, listed}
use llm_mcp.Discovery.Address.{build_addrs, build_host_headers, extract_host, get_ollama_ports}
use llm_mcp.Discovery.Subnets.{items, parse_subnets, scan_targets}
use llm_mcp.Discovery.Sync.{listed_names}
use llm_mcp.Discovery.Devices.{upsert_device, upsert_lan_device, remove_devices, clear_lan_devices}
use llm_mcp.Discovery.Probe.{probe_ollama, probe_extra_endpoint}
use llm_mcp.Discovery.Offline.{handle_offline_devices}

-- The zero value of `tailNode`.
abbrev pub no_node : TailNode
no_node = record {
  host_name = "";
  dns_name = "";
  tailscale_ips = [];
  online = false;
  os = "";
  allowed_ips = [];
  primary_routes = [];
  addrs = [];
}

-- Whether `tailscale` is found and its status decodes, and what `status` holds then: without a status
-- the zero value, and what the decoder has filled when it fails.
pub record Tailscale : Type 0 where
  pub available : Bool
  pub decoded : Bool
  pub self : TailNode
  pub peers : List TailNode

-- `DNSName`, or else `HostName`.
abbrev pub node_id : TailNode → String
node_id node = if node.dns_name == "" then node.host_name else node.dns_name

abbrev pub first_ip : List String → String
first_ip [] = ""
first_ip (ip ∷ ips) = ip

abbrev pub process_node : Env → Net → TailNode → Db → Db
process_node env net node db =
    let addrs = build_addrs node in
    let host_headers = build_host_headers node in
    if node_id node == ""
    then db
    else elim (upsert_device env net (node_id node) node (first_ip node.tailscale_ips) addrs
        host_headers db) [
          | none ↦ db
          | some db' ↦
              if node.online
              then probe_ollama env net (node_id node) addrs host_headers db'
              else db'
        ]

abbrev pub process_nodes : Env → Net → List TailNode → Db → Db
process_nodes env net [] db = db
process_nodes env net (n ∷ ns) db = process_nodes env net ns (process_node env net n db)

-- The addresses of the node itself are not scanned, and have no rows.
abbrev pub own_hosts : Net → List String → List String
own_hosts net [] = []
own_hosts net (a ∷ rest) =
    let hosts = own_hosts net rest in
    if extract_host net a == "" then hosts else extract_host net a ∷ hosts

abbrev pub remove_own : Env → List String → Db → Db
remove_own env [] db = db
remove_own env (ip ∷ ips) db =
    remove_own env ips (remove_devices env (λ id. id == concat "lan-" ip) db)

abbrev pub lan_id : String → ℕ → String
lan_id ip port = if eqb port 11434 then ip else concat ip (concat ":" (decimal port))

abbrev pub scan_answer : Env → Net → String → ℕ → Answer → Db → Db
scan_answer env net ip port (listed latency models) db =
    upsert_lan_device env net (lan_id ip port) (listed_names models) port db
scan_answer env net ip port _ db = db

abbrev pub scan_ports : Env → Net → String → List ℕ → Db → Db
scan_ports env net ip [] db = db
scan_ports env net ip (p ∷ ps) db =
    let url = concat "http://" (concat ip (concat ":" (concat (decimal p) "/api/tags"))) in
    scan_ports env net ip ps (scan_answer env net ip p (net.scan url) db)

abbrev pub scan_all : Env → Net → List ℕ → Db → Db
scan_all env net [] db = db
scan_all env net (a ∷ rest) db =
    scan_all env net rest (scan_ports env net (net.show_addr a) (get_ollama_ports env.vars) db)

abbrev pub scan_of : Env → Net → TailNode → List String → Db → Db
scan_of env net self [] db = db
scan_of env net self (c ∷ cs) db =
    let own = own_hosts net self.addrs in
    scan_all env net (scan_targets net own (c ∷ cs)) (remove_own env own db)

unfoldable pub scan_subnets : Env → Net → TailNode → Db → Db
scan_subnets env net self db = scan_of env net self (parse_subnets net env.vars self) db

abbrev pub named_self : Tailscale → Bool
named_self t = t.available && not (t.self.host_name == "")

abbrev pub scan_or_clear : Env → Net → Tailscale → Db → Db
scan_or_clear env net t db =
    if env.vars "DISCOVERY_SCAN_SUBNETS" == "1"
    then scan_subnets env net (if named_self t then t.self else no_node) db
    else clear_lan_devices env db

abbrev pub probe_extras : Env → Net → List String → Db → Db
probe_extras env net [] db = db
probe_extras env net (e ∷ es) db = probe_extras env net es (probe_extra_endpoint env net e db)

-- `collectOfflineDeviceIDs`
abbrev pub offline_ids : List TailNode → List String
offline_ids [] = []
offline_ids (n ∷ ns) =
    let rest = offline_ids ns in if n.online || node_id n == "" then rest else node_id n ∷ rest

unfoldable pub collect_offline_device_ids : Tailscale → List String
collect_offline_device_ids t = offline_ids (t.self ∷ t.peers)

-- The error of the handler is logged.
abbrev pub settle_offline : Env → Tailscale → Db → Db
settle_offline env t db =
    if named_self t then (handle_offline_devices env (collect_offline_device_ids t) db).1 else db

-- What comes before the devices that are offline are handled.
unfoldable pub discover : Env → Net → Tailscale → Db → Db
discover env net t db =
    let nodes = if t.available && t.decoded then t.self ∷ t.peers else [] in
    let extras = items (split_on b',' (env.vars "OLLAMA_EXTRA_ENDPOINTS")) in
    probe_extras env net extras (scan_or_clear env net t (process_nodes env net nodes db))

-- `Runner`: the time of the last run.
pub record Runner : Type 0 where
  pub last_run : Option ℕ

unfoldable pub run : Env → Net → Tailscale → Db → Runner × Db
run env net t db =
    (record { last_run = some env.app_now }, settle_offline env t (discover env net t db))
