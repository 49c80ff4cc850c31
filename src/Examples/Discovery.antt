-- ===== src/Examples/Discovery.antt =====
-- The theorems on discovery, at a network of one node.
use llm_mcp.Prelude.{
  ◌≡◌, refl, inl, inr, Bool-cases, String, true, false, ◌==◌, none, some, List, [], ◌∷◌, All,
  trim_space, if◌then◌else◌,
}
use llm_mcp.Prelude.Int.{pos}
use llm_mcp.Config.{Vars}
use llm_mcp.Db.{Db, running}
use llm_mcp.Discovery.Net.{Net, OllamaModel, TailNode, Prefix, listed}
use llm_mcp.Discovery.Subnets.{is_private_ipv4, parse_subnets, scan_targets, targets_of}
use llm_mcp.Discovery.Private.{IsBounded, scan_targets-IsBounded}
use llm_mcp.Discovery.Sync.{sync_device_models}
use llm_mcp.Discovery.Offered.{offered, offered-sync_device_models}
use llm_mcp.Discovery.Run.{Tailscale, collect_offline_device_ids, run}
use llm_mcp.Discovery.Stranded.{Freed, Rows}
use llm_mcp.Discovery.Freed.{run-Rows}
use llm_mcp.Examples.Data.{env_at, job_a, job_b, two_jobs, world_of}

abbrev llama : OllamaModel
llama = record {
  name = "llama3:8b";
  size = pos 4_000_000_000;
  family = "llama";
  parameter_size = "8B";
}

abbrev small_prefix : Prefix
small_prefix = record { is4 = true; addr = 167_837_697; bits = 30 }

-- A node that answers faster under its name.
abbrev net_llama : Net
net_llama = record {
  parse_float = λ s. if s == "8" then some (pos 8_000_000) else none;
  is_ip = λ s. s == "10.1.2.1";
  split_host_port = λ s. none;
  parse_prefix = λ s. if s == "10.1.2.0/30" then some small_prefix else none;
  show_prefix = λ p. "10.1.2.0/30";
  show_addr = λ n. "10.1.2.2";
  show_names = λ ns. "[]";
  show_attempts = λ p as'. "[]";
  fetch = λ url host. if host == "" then listed 30 (llama ∷ []) else listed 12 (llama ∷ []);
  scan = λ url. listed 5 [];
}

abbrev node_d1 : TailNode
node_d1 = record {
  host_name = "d1";
  dns_name = "d1.ts.net.";
  tailscale_ips = "10.1.2.1" ∷ "10.1.2.1" ∷ [];
  online = false;
  os = "linux";
  allowed_ips = "10.1.2.0/30" ∷ [];
  primary_routes = [];
  addrs = [];
}

offered-sync_device_models_example :
    offered "d1" "llama3:8b"
      (sync_device_models (env_at 100) net_llama "d1" (llama ∷ []) two_jobs.db).device_models
    ≡ true
unfolding trim_space
offered-sync_device_models_example =
    offered-sync_device_models (env_at 100) net_llama "d1" two_jobs.db (llama ∷ []) "d1" "llama3:8b"
      refl refl refl refl

abbrev two_ports : Vars
two_ports key = if key == "OLLAMA_PORTS" then "11434,x, 8080" else ""

reads_back :
    (c : String) (p : Prefix)
    → net_llama.parse_prefix c ≡ some p
    → net_llama.parse_prefix (net_llama.show_prefix p) ≡ some p
reads_back c p h = elim (Bool-cases (c == "10.1.2.0/30")) [
  | inl e ↦ rw e at h
  | inr e ↦ let k : none ≡ some p = rw e at h in absurd (cc)
]

scan_targets-IsBounded_example :
    All
      (λ a. is_private_ipv4 a ≡ true)
      (scan_targets net_llama [] (parse_subnets net_llama two_ports node_d1))
    × All (λ c. IsBounded (targets_of net_llama [] c)) (parse_subnets net_llama two_ports node_d1)
scan_targets-IsBounded_example = scan_targets-IsBounded net_llama [] two_ports node_d1 reads_back

abbrev hosts_d1 : List String
hosts_d1 = "d1.ts.net" ∷ []

abbrev mesh : Tailscale
mesh = record {
  available = true;
  decoded = true;
  self = record node_d1 { dns_name = "" };
  peers = [];
}

-- A job runs on the node, under a live lease.
abbrev one_runs : Db
one_runs = (world_of (record job_a { status = running; lease_until = some 900 } ∷ job_b ∷ [])).db

run-Rows_example :
    Rows
      (Freed (env_at 100) ("d1" ∷ []))
      one_runs.jobs
      (run (env_at 100) net_llama mesh one_runs).1.jobs
unfolding collect_offline_device_ids
run-Rows_example = run-Rows (env_at 100) net_llama mesh one_runs refl refl
