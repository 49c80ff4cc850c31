-- ===== src/Dashboard/Hosts.antt =====
-- `buildHostHierarchy`, `inferNodeRole` and `buildDashboardIssues` in core/internal/api/handlers.go. `hostMap` is
-- a list of hosts in the order of their insertion; counts are natural numbers.
use llm_mcp.Prelude.{
  ℕ, ◌+◌, String, Bool, false, not, ◌&&◌, ◌||◌, ◌==◌, Option, none, some, List, [], ◌∷◌, ◌++◌, ltb,
  any, find_if, if◌then◌else◌, to_lower, contains,
}
use llm_mcp.Prelude.Int.{ℤ, pos, eqb_ℤ}
use llm_mcp.Db.{Micro, Names, absent, json_null, names}
use llm_mcp.Db.Values.{Value, bool, num, Json, field, as_string}
use llm_mcp.Discovery.Devices.{itoa}

-- models.DeviceStats
pub record DeviceStats : Type 0 where
  pub total_jobs : ℕ
  pub done_jobs : ℕ
  pub success_rate : Micro
  pub avg_latency_ms : ℕ

-- models.DeviceInfo, as far as the hierarchy reads it.
pub record DeviceInfo : Type 0 where
  pub id : String
  pub name : String
  pub status : String
  pub platform : String
  pub models : ℕ
  pub model_names : Names
  pub load : ℕ
  pub latency : Option ℤ
  pub last_seen : Option ℕ
  pub tags : Option Json
  pub stats : Option DeviceStats
  pub circuit : String

-- models.NodeInfo
pub record NodeInfo : Type 0 where
  pub port : ℤ
  pub device_id : String
  pub role : String
  pub models : ℕ
  pub model_names : Names
  pub latency : Option ℤ
  pub running : ℕ
  pub stats : Option DeviceStats
  pub circuit : String

-- models.HostInfo
pub record HostInfo : Type 0 where
  pub id : String
  pub name : String
  pub platform : String
  pub status : String
  pub orchestration : String
  pub last_seen : Option ℕ
  pub nodes : List NodeInfo
  pub total_models : ℕ
  pub total_running : ℕ
  pub total_slots : ℤ
  pub stats : Option DeviceStats
  pub circuit : String

-- `parsedTags`: a field that does not decode keeps its zero value.
pub record ParsedTags : Type 0 where
  pub port_device : Bool
  pub base_device : String
  pub ollama_port : ℤ

abbrev pub as_bool : Option Value → Bool
as_bool (some (bool b)) = b
as_bool _ = false

-- An int is printed as `Itoa` does, or it does not decode.
abbrev pub as_int : Option Value → ℤ
as_int (some (num t n)) = if itoa n == t then n else pos 0
as_int _ = pos 0

-- encoding/json would also take a key in another case when the exact one is not there; keys that differ in
-- case only are taken as different here.
abbrev pub parse_tags : Option Json → ParsedTags
parse_tags none = record { port_device = false; base_device = ""; ollama_port = pos 0 }
parse_tags (some j) = record {
  port_device = as_bool (field "port_device" j);
  base_device = as_string (field "base_device" j);
  ollama_port = as_int (field "ollama_port" j);
}

abbrev pub is_embed : String → Bool
is_embed n = contains (to_lower n) "embed"

abbrev pub role_of : List String → String
role_of ns =
    let has_embed = any (λ n. is_embed n) ns in
    let has_chat = any (λ n. not (is_embed n)) ns in
    if has_embed && has_chat then "mixed" else if has_embed then "embed" else "chat"

unfoldable pub infer_node_role : Names → String
infer_node_role absent = "chat"
infer_node_role json_null = "chat"
infer_node_role (names ns) = role_of ns

-- `t.PortDevice && t.BaseDevice != ""`
abbrev pub is_port_device : DeviceInfo → Bool
is_port_device d = let t = parse_tags d.tags in t.port_device && not (t.base_device == "")

abbrev pub base_host : DeviceInfo → HostInfo
base_host d = record {
  id = d.id;
  name = d.name;
  platform = d.platform;
  status = d.status;
  orchestration = "";
  last_seen = d.last_seen;
  nodes = [];
  total_models = 0;
  total_running = 0;
  total_slots = pos 0;
  stats = none;
  circuit = "ok";
}

-- `hostMap[h.ID] = h`
abbrev pub set_host : HostInfo → List HostInfo → List HostInfo
set_host h [] = h ∷ []
set_host h (g ∷ gs) = if g.id == h.id then h ∷ gs else g ∷ set_host h gs

-- The first loop.
abbrev pub base_hosts : List DeviceInfo → List HostInfo → List HostInfo
base_hosts [] hosts = hosts
base_hosts (d ∷ ds) hosts =
    base_hosts ds (if is_port_device d then hosts else set_host (base_host d) hosts)

abbrev pub node_at : ℤ → DeviceInfo → NodeInfo
node_at port d = record {
  port = port;
  device_id = d.id;
  role = infer_node_role d.model_names;
  models = d.models;
  model_names = d.model_names;
  latency = d.latency;
  running = d.load;
  stats = d.stats;
  circuit = d.circuit;
}

abbrev pub add_node : ℤ → DeviceInfo → HostInfo → HostInfo
add_node port d h = record h {
  nodes = h.nodes ++ (node_at port d ∷ []);
  total_models = h.total_models + d.models;
  total_running = h.total_running + d.load;
}

abbrev pub missing_host : DeviceInfo → String → HostInfo
missing_host d base = record (base_host d) { id = base; name = base; orchestration = "docker" }

abbrev pub add_port : DeviceInfo → HostInfo → HostInfo
add_port d h =
    let port = (parse_tags d.tags).ollama_port in
    add_node (if eqb_ℤ port (pos 0) then pos 11434 else port) d
      (record h { orchestration = "docker" })

-- A host that is not there is made of the device.
abbrev pub attach : DeviceInfo → String → List HostInfo → List HostInfo
attach d base [] = add_port d (missing_host d base) ∷ []
attach d base (h ∷ hs) = if h.id == base then add_port d h ∷ hs else h ∷ attach d base hs

-- The second loop.
abbrev pub attach_ports : List DeviceInfo → List HostInfo → List HostInfo
attach_ports [] hosts = hosts
attach_ports (d ∷ ds) hosts =
    attach_ports ds
      (if is_port_device d then attach d (parse_tags d.tags).base_device hosts else hosts)

-- The third loop: the node of the host itself, and `native` without one of a port.
abbrev pub own_device : List DeviceInfo → String → Option DeviceInfo
own_device devices id = find_if (λ d. d.id == id && ltb 0 d.models) devices

abbrev pub add_own : List DeviceInfo → HostInfo → HostInfo
add_own devices h = elim (own_device devices h.id) [ none ↦ h | some d ↦ add_node (pos 11434) d h ]

abbrev pub or_native : HostInfo → HostInfo
or_native h = record h {
  orchestration = if h.orchestration == "" then "native" else h.orchestration;
}

-- The fourth loop.
abbrev pub worst_of : String → List NodeInfo → String
worst_of worst [] = worst
worst_of worst (n ∷ ns) =
    worst_of
      (if n.circuit == "degraded" || (n.circuit == "probe" && worst == "ok")
        then n.circuit
        else worst)
      ns
