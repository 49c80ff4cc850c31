-- ===== src/Discovery/Devices.antt =====
-- The rows of `devices` that core/internal/discovery/discovery.go writes and deletes.
use llm_mcp.Prelude.{
  ℕ, suc, String, Bool, true, not, ◌==◌, Option, none, some, List, [], ◌∷◌, if◌then◌else◌, find_if,
  filter_if, concat, decimal, has_prefix,
}
use llm_mcp.Prelude.Int.{ℤ, pos, negsuc}
use llm_mcp.Db.{
  Device, online, offline, Db, Env, upsert_device as upsert_device_stmt, insert_port_device,
  delete_device as delete_device_stmt,
}
use llm_mcp.Db.Values.{Value, Json, object, bool, num, str, composite}
use llm_mcp.Discovery.Net.{Net, TailNode}

-- `INSERT … ON CONFLICT (id) DO UPDATE`.
abbrev pub put_device : Device → (Device → Device) → List Device → List Device
put_device d f [] = d ∷ []
put_device d f (e ∷ es) = if e.id == d.id then f e ∷ es else e ∷ put_device d f es

abbrev pub put : Device → (Device → Device) → Db → Db
put d f db = record db { devices = put_device d f db.devices }

-- `strconv.Itoa`
abbrev pub itoa : ℤ → String
itoa (pos n) = decimal n
itoa (negsuc n) = concat "-" (decimal (suc n))

abbrev pub num_of : ℤ → Value
num_of n = num (itoa n) n

abbrev pub node_tags : Net → TailNode → String → List String → List String → Json
node_tags net node ip addrs host_headers = object (
    ("dns", str node.dns_name)
    ∷ ("hostname", str node.host_name)
    ∷ ("ip", str ip)
    ∷ ("ips", composite (net.show_names node.tailscale_ips))
    ∷ ("addrs", composite (net.show_names addrs))
    ∷ ("host_headers", composite (net.show_names host_headers))
    ∷ ("os", str node.os)
    ∷ ("online", bool node.online)
    ∷ [])

abbrev pub node_row : Env → Net → String → TailNode → String → List String → List String → Device
node_row env net id node ip addrs host_headers = record {
  id = id;
  name = node.host_name;
  platform = node.os;
  arch = "";
  host = node.dns_name;
  tags = some (node_tags net node ip addrs host_headers);
  status = if node.online then online else offline;
  last_seen = if node.online then some env.app_now else none;
  updated_at = env.db_now;
}

-- The architecture is kept, and for a node that is offline the time when it was seen.
abbrev pub refresh : Device → Bool → Device → Device
refresh d is_up e = record e {
  name = d.name;
  platform = d.platform;
  host = d.host;
  tags = d.tags;
  status = d.status;
  last_seen = if is_up then d.last_seen else e.last_seen;
  updated_at = d.updated_at;
}

-- An error of the statement is `none`.
unfoldable pub upsert_device :
    Env → Net → String → TailNode → String → List String → List String → Db → Option Db
upsert_device env net id node ip addrs host_headers db =
    let d = node_row env net id node ip addrs host_headers in
    if env.down upsert_device_stmt then none else some (put d (refresh d node.online) db)

-- The row of a port is a copy of the row of its device.
abbrev pub port_row : Env → String → String → ℕ → Device → Device
port_row env port_device_id base_device_id port base = record {
  id = port_device_id;
  name = concat base.name (concat ":" (decimal port));
  platform = base.platform;
  arch = base.arch;
  host = base.host;
  tags = some (
      object (
        ("port_device", bool true)
        ∷ ("base_device", str base_device_id)
        ∷ ("ollama_port", str (decimal port))
        ∷ []));
  status = base.status;
  last_seen = base.last_seen;
  updated_at = env.db_now;
}

-- `status = EXCLUDED.status, last_seen = EXCLUDED.last_seen`
abbrev pub revive : Device → Device → Device
revive d e = record e { status = d.status; last_seen = d.last_seen; updated_at = d.updated_at }

-- `INSERT … SELECT … FROM devices WHERE id = $2` adds no row when there is no such device.
unfoldable pub ensure_port_device : Env → String → String → ℕ → Db → Option Db
ensure_port_device env port_device_id base_device_id port db =
    if env.down insert_port_device
    then none
    else some (elim (find_if (λ d. d.id == base_device_id) db.devices) [
      | none ↦ db
      | some base ↦
          let d = port_row env port_device_id base_device_id port base in put d (revive d) db
    ])

abbrev pub extra_row : Env → String → String → Device
extra_row env id host = record {
  id = id;
  name = host;
  platform = "linux";
  arch = "unknown";
  host = host;
  tags =
      some (object (("extra_endpoint", bool true) ∷ ("source", str "OLLAMA_EXTRA_ENDPOINTS") ∷ []));
  status = online;
  last_seen = some env.db_now;
  updated_at = env.db_now;
}

-- The first statement of `probeExtraEndpoint`.
abbrev pub upsert_extra : Env → String → String → Db → Option Db
upsert_extra env id host db =
    let d = extra_row env id host in
    if env.down upsert_device_stmt then none else some (put d (revive d) db)

abbrev pub lan_tags : Net → String → List String → ℕ → Json
lan_tags net ip models port = object (
    ("ip", str ip)
    ∷ ("ollama", bool true)
    ∷ ("ollama_addr", str (concat ip (concat ":" (decimal port))))
    ∷ ("ollama_port", num_of (pos port))
    ∷ ("models", composite (net.show_names models))
    ∷ ("source", str "subnet")
    ∷ [])

abbrev pub lan_row : Env → Net → String → List String → ℕ → Device
lan_row env net ip models port = record {
  id = concat "lan-" ip;
  name = concat "lan-" ip;
  platform = "lan";
  arch = "";
  host = ip;
  tags = some (lan_tags net ip models port);
  status = online;
  last_seen = some env.db_now;
  updated_at = env.db_now;
}

unfoldable pub upsert_lan_device : Env → Net → String → List String → ℕ → Db → Db
upsert_lan_device env net ip models port db =
    let d = lan_row env net ip models port in
    if env.down upsert_device_stmt then db else put d (refresh d true) db

-- `DELETE FROM devices WHERE …` with what `ON DELETE CASCADE` takes along.
abbrev pub delete_devices : (String → Bool) → Db → Db
delete_devices p db = record db {
  devices = filter_if (λ d. not (p d.id)) db.devices;
  device_models = filter_if (λ r. not (p r.device_id)) db.device_models;
  device_limits = filter_if (λ l. not (p l.device_id)) db.device_limits;
  benchmarks = filter_if (λ b. not (p b.device_id)) db.benchmarks;
  device_metrics = filter_if (λ m. not (p m.0)) db.device_metrics;
}

abbrev pub remove_devices : Env → (String → Bool) → Db → Db
remove_devices env p db = if env.down delete_device_stmt then db else delete_devices p db

-- `id LIKE 'lan-%'`
abbrev pub is_lan : String → Bool
is_lan id = has_prefix id "lan-"

unfoldable pub clear_lan_devices : Env → Db → Db
clear_lan_devices env db = remove_devices env is_lan db
