-- ===== src/Debug/Capacity.antt =====
-- `HandleDebugCapacity` in core/internal/api/handlers.go, and the devices that it and HandleDashboard load.
-- The view `v_device_stats` and the order of the rows are parameters. The share of slots in use is a float64
-- in the code and rounded down to a millionth here.
use llm_mcp.Prelude.{
  ℕ, zero, suc, ◌+◌, ◌*◌, ◌/◌, String, Bool, false, not, ◌&&◌, ◌==◌, Option, none, some, List, [],
  ◌∷◌, map, if◌then◌else◌, count_if, filter_if, trim_space,
}
use llm_mcp.Prelude.Int.{ℤ, pos, negsuc, scale, wrap64, ltb_ℤ, ◌+ℤ◌, ◌-ℤ◌}
use llm_mcp.Config.{getenv_int, atoi}
use llm_mcp.Db.Values.{arrow_text}
use llm_mcp.Db.{
  Micro, names, Job, DeviceModel, Device, DeviceStatus, unknown, online, offline, Db, Env,
  is_running, list_hosts, read_device_stats,
}
use llm_mcp.Routing.Device.{tag_text}
use llm_mcp.Routing.Circuit.{get_circuit_status}
use llm_mcp.Stats.{fits_int4}
use llm_mcp.Dashboard.Hosts.{DeviceStats, DeviceInfo, HostInfo}
use llm_mcp.Dashboard.Stats.{build_host_hierarchy}
use llm_mcp.Http.{Reply, reply, fail, World}
use llm_mcp.Debug.{is_host, workers_online}

-- The rows of the view, and `ORDER BY d.status DESC, d.name ASC`.
pub record View : Type 0 where
  pub device_stats : Db → List (String × DeviceStats)
  pub sorted : List Device → List Device

abbrev pub status_text : DeviceStatus → String
status_text unknown = "unknown"
status_text online = "online"
status_text offline = "offline"

-- The models that the device offers.
abbrev pub offered_ids : String → List DeviceModel → List String
offered_ids id [] = []
offered_ids id (r ∷ rs) =
    if r.device_id == id && r.available then r.model_id ∷ offered_ids id rs else offered_ids id rs

abbrev pub count_ids : List String → ℕ
count_ids [] = 0
count_ids (x ∷ xs) = suc (count_ids xs)

-- `(d.tags->>'ollama_latency_ms')::int`: a text that is no INT is an error of the whole query.
abbrev pub int4_of : Option ℤ → Option ℤ
int4_of none = none
int4_of (some n) = if fits_int4 n then some n else none

abbrev pub latency_of : Device → Option (Option ℤ)
latency_of d = elim (tag_text "ollama_latency_ms" d) [
  | none ↦ some none
  | some t ↦ elim (int4_of (atoi (trim_space t))) [ none ↦ none | some n ↦ some (some n) ]
]

-- `j.payload->>'device_id' = d.id`
abbrev pub is_for : String → Job → Bool
is_for id j = elim (arrow_text "device_id" j.payload) [ none ↦ false | some t ↦ t == id ]

abbrev pub device_info : Db → Device → Option ℤ → DeviceInfo
device_info db d latency = record {
  id = d.id;
  name = d.name;
  status = status_text d.status;
  platform = d.platform;
  models = count_ids (offered_ids d.id db.device_models);
  model_names = names (offered_ids d.id db.device_models);
  load = count_if (λ j. is_running j.status && is_for d.id j) db.jobs;
  latency = latency;
  last_seen = d.last_seen;
  tags = d.tags;
  stats = none;
  circuit = "";
}

abbrev pub device_infos : Db → List Device → Option (List DeviceInfo)
device_infos db [] = some []
device_infos db (d ∷ ds) = elim (latency_of d) [
  | none ↦ none
  | some l ↦ elim (device_infos db ds) [ none ↦ none | some is ↦ some (device_info db d l ∷ is) ]
]

abbrev pub first_rows : ℕ → List Device → List Device
first_rows zero ds = []
first_rows (suc n) [] = []
first_rows (suc n) (d ∷ ds) = d ∷ first_rows n ds

abbrev pub or_no_rows : Option (List DeviceInfo) → List DeviceInfo
or_no_rows none = []
or_no_rows (some is) = is

unfoldable pub load_devices : Env → View → Db → List DeviceInfo
load_devices env v db =
    if env.down list_hosts
    then []
    else or_no_rows (device_infos db (first_rows 50 (v.sorted (filter_if is_host db.devices))))

abbrev pub stats_at : String → List (String × DeviceStats) → Option DeviceStats
stats_at id [] = none
stats_at id ((j, s) ∷ rest) = if j == id then some s else stats_at id rest

-- The loop that adds the statistics and the circuits.
unfoldable pub with_stats : Env → View → World → List DeviceInfo → List DeviceInfo
with_stats env v w infos =
    let rows = if env.down read_device_stats then [] else v.device_stats w.db in
    map
      (λ (i : DeviceInfo). record i {
        stats = stats_at i.id rows;
        circuit = get_circuit_status env.app_now w.circuits i.id;
      })
      infos

pub record HostCap : Type 0 where
  pub name : String
  pub status : String
  pub slots : ℤ
  pub used : ℕ
  pub free : ℤ
  pub utilization_pct : Micro
  pub models : ℕ
  pub circuit : String

-- The slots that are left, none when more are used than there are.
abbrev pub free_of : ℤ → ℕ → ℤ
free_of slots used = let f = wrap64 (slots -ℤ pos used) in if ltb_ℤ f (pos 0) then pos 0 else f

abbrev pub percent_of : ℤ → ℕ → Micro
percent_of (pos zero) used = pos 0
percent_of (pos (suc n)) used = pos (used * 100_000_000 / suc n)
percent_of (negsuc n) used = pos 0

abbrev pub host_cap : HostInfo → HostCap
host_cap h = record {
  name = h.name;
  status = h.status;
  slots = h.total_slots;
  used = h.total_running;
  free = free_of h.total_slots h.total_running;
  utilization_pct = percent_of h.total_slots h.total_running;
  models = h.total_models;
  circuit = h.circuit;
}

unfoldable pub sum_slots : List HostInfo → ℤ
sum_slots [] = pos 0
sum_slots (h ∷ hs) = wrap64 (h.total_slots +ℤ sum_slots hs)

unfoldable pub sum_used : List HostInfo → ℕ
sum_used [] = 0
sum_used (h ∷ hs) = h.total_running + sum_used hs

pub record Capacity : Type 0 where
  pub total_slots : ℤ
  pub used_slots : ℕ
  pub free_slots : ℤ
  pub utilization_pct : Micro
  pub hosts : List HostCap
  pub workers : ℕ
  pub worker_capacity : ℤ

abbrev pub max_concurrency : Env → ℤ
max_concurrency env = getenv_int env.vars "DEVICE_MAX_CONCURRENCY" (pos 1)

abbrev pub shown_hosts : Env → View → World → List HostInfo
shown_hosts env v w =
    build_host_hierarchy (with_stats env v w (load_devices env v w.db)) (max_concurrency env)

unfoldable pub capacity : Env → View → World → Capacity
unfolding load_devices with_stats sum_slots sum_used workers_online
capacity env v w =
    let hosts = shown_hosts env v w in
    let slots = sum_slots hosts in
    let used = sum_used hosts in
    record {
      total_slots = slots;
      used_slots = used;
      free_slots = free_of slots used;
      utilization_pct = percent_of slots used;
      hosts = map host_cap hosts;
      workers = workers_online env w.db;
      worker_capacity = wrap64 (scale (workers_online env w.db) (max_concurrency env));
    }

unfoldable pub handle_debug_capacity : Env → View → String → World → Reply Capacity
unfolding capacity
handle_debug_capacity env v method w =
    if not (method == "GET") then fail 405 "method_not_allowed" else reply 200 (capacity env v w)
