-- ===== src/Discovery/Probe.antt =====
-- The probes of core/internal/discovery/discovery.go: `probeOllama`, `probeOllamaPort` and
-- `probeExtraEndpoint`.
use llm_mcp.Prelude.{
  ℕ, String, true, ◌||◌, ◌==◌, none, some, List, [], ◌∷◌, ◌++◌, if◌then◌else◌, update_where, ltb,
  eqb, concat, decimal, trim_space,
}
use llm_mcp.Prelude.Int.{ℤ, pos, eqb_ℤ}
use llm_mcp.Config.{atoi_value}
use llm_mcp.Db.{Device, Db, Env, update_device}
use llm_mcp.Db.Values.{Value, merge, bool, str, composite}
use llm_mcp.Discovery.Net.{Net, Answer, no_request, listed, Attempted}
use llm_mcp.Discovery.Address.{format_addr, stands_in, get_ollama_ports}
use llm_mcp.Discovery.Sync.{listed_names, sync_device_models}
use llm_mcp.Discovery.Devices.{itoa, num_of, ensure_port_device, upsert_extra}

-- `bestAddr`, `bestLatency`, `bestModels` and `bestHost`.
pub record Best : Type 0 where
  pub addr : String
  pub latency : ℕ
  pub models : List String
  pub host : String

abbrev pub no_best : Best
no_best = record { addr = ""; latency = 0; models = []; host = "" }

-- The local variables of the loops over addresses and hosts, and the database.
pub record Search : Type 0 where
  pub seen : List String
  pub results : List Attempted
  pub best : Best
  pub db : Db

-- The first answer, or one that is faster than the best.
abbrev pub better : Best → Best → Best
better old new = if old.addr == "" || ltb new.latency old.latency then new else old

-- A request that cannot be made leaves no result.
abbrev pub note_attempt : Attempted → List Attempted → List Attempted
note_attempt a results = elim a.answer [ no_request ↦ results | _ ↦ results ++ (a ∷ []) ]

-- The body of the inner loop, on the answer to the request.
abbrev pub take_answer : Env → Net → String → String → String → Answer → Search → Search
take_answer env net device_id addr host (listed latency models) s = record s {
  results =
      note_attempt (record { addr = addr; host = host; answer = listed latency models }) s.results;
  best =
      better s.best
        (record { addr = addr; latency = latency; models = listed_names models; host = host });
  db = sync_device_models env net device_id models s.db;
}
take_answer env net device_id addr host answer s = record s {
  results = note_attempt (record { addr = addr; host = host; answer = answer }) s.results;
}

-- `url`
abbrev pub tags_url : String → ℤ → String
tags_url addr port =
    concat "http://" (concat (format_addr addr) (concat ":" (concat (itoa port) "/api/tags")))

unfoldable pub try_hosts : Env → Net → String → String → ℤ → List String → Search → Search
try_hosts env net device_id addr port [] s = s
try_hosts env net device_id addr port (h ∷ hs) s =
    try_hosts env net device_id addr port hs
      (take_answer env net device_id addr h (net.fetch (tags_url addr port) h) s)

-- An IP address is also asked under the names of its node.
abbrev pub attempt_hosts : Net → String → List String → List String
attempt_hosts net addr host_headers = if net.is_ip addr then "" ∷ host_headers else "" ∷ []

abbrev pub try_addr : Env → Net → String → List String → ℤ → String → Search → Search
try_addr env net device_id host_headers port raw s =
    let addr = trim_space raw in
    if addr == "" || stands_in s.seen addr
    then s
    else try_hosts env net device_id addr port (attempt_hosts net addr host_headers)
        (record s { seen = addr ∷ s.seen })

unfoldable pub try_addrs : Env → Net → String → List String → ℤ → List String → Search → Search
try_addrs env net device_id host_headers port [] s = s
try_addrs env net device_id host_headers port (a ∷ rest) s =
    try_addrs env net device_id host_headers port rest
      (try_addr env net device_id host_headers port a s)

abbrev pub start_search : Db → Search
start_search db = record { seen = []; results = []; best = no_best; db = db }

abbrev pub ollama_tags : Net → ℤ → Search → List (String × Value)
ollama_tags net port s =
    ("ollama", bool true)
    ∷ ("models", composite (net.show_names s.best.models))
    ∷ ("ollama_addr", str (concat s.best.addr (concat ":" (itoa port))))
    ∷ ("ollama_port", num_of port)
    ∷ ("ollama_latency_ms", num_of (pos s.best.latency))
    ∷ ("ollama_addrs", composite (net.show_attempts port s.results))
    ∷ ("ollama_host", str s.best.host)
    ∷ []

-- `UPDATE devices SET tags = COALESCE(tags, '{}'::jsonb) || $1::jsonb … WHERE id = $2`
abbrev pub retag : ℕ → List (String × Value) → Device → Device
retag now meta d = record d { tags = some (merge d.tags meta); updated_at = now }

abbrev pub finish_probe : Env → Net → String → ℤ → Search → Db
finish_probe env net device_id port s =
    if s.best.addr == "" || env.down update_device then s.db else record s.db {
      devices =
          update_where (λ d. d.id == device_id) (retag env.db_now (ollama_tags net port s))
            s.db.devices;
    }

unfoldable pub probe_ollama_port : Env → Net → String → List String → List String → ℤ → Db → Db
unfolding try_addrs try_hosts
probe_ollama_port env net device_id addrs host_headers port db =
    finish_probe env net device_id port
      (try_addrs env net device_id host_headers port addrs (start_search db))

-- The rows of ports other than 11434 have ids of their own.
abbrev pub probe_port : Env → Net → String → List String → List String → ℕ → Db → Db
probe_port env net device_id addrs host_headers port db =
    let port_device_id = concat device_id (concat ":" (decimal port)) in
    if eqb port 11434
    then probe_ollama_port env net device_id addrs host_headers (pos port) db
    else elim (ensure_port_device env port_device_id device_id port db) [
      | none ↦ db
      | some db' ↦ probe_ollama_port env net port_device_id addrs host_headers (pos port) db'
    ]

abbrev pub probe_ports : Env → Net → String → List String → List String → List ℕ → Db → Db
probe_ports env net device_id addrs host_headers [] db = db
probe_ports env net device_id addrs host_headers (p ∷ ps) db =
    probe_ports env net device_id addrs host_headers ps
      (probe_port env net device_id addrs host_headers p db)

unfoldable pub probe_ollama : Env → Net → String → List String → List String → Db → Db
probe_ollama env net device_id addrs host_headers db =
    probe_ports env net device_id addrs host_headers (get_ollama_ports env.vars) db

-- `probeExtraEndpoint`: without a port, or with the port 0, the port is 11434.
abbrev pub endpoint_of : Net → String → String × String
endpoint_of net endpoint = elim (net.split_host_port endpoint) [
  | none ↦ (endpoint, "11434")
  | some hp ↦ hp
]

abbrev pub default_port : String → ℤ → String × ℤ
default_port text port = if eqb_ℤ port (pos 0) then ("11434", pos 11434) else (text, port)

abbrev pub extra_id : String → String → ℤ → String
extra_id host port_str port =
    if eqb_ℤ port (pos 11434)
    then concat "extra:" host
    else concat "extra:" (concat host (concat ":" port_str))

unfoldable pub probe_extra_endpoint : Env → Net → String → Db → Db
probe_extra_endpoint env net endpoint db =
    let (host, text) = endpoint_of net endpoint in
    let (port_str, port) = default_port text (atoi_value text) in
    let device_id = extra_id host port_str port in
    elim (upsert_extra env device_id host db) [
      | none ↦ db
      | some db' ↦ probe_ollama_port env net device_id (host ∷ []) [] port db'
    ]
