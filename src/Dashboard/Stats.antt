-- ===== src/Dashboard/Stats.antt =====
-- The statistics of a host, the hierarchy and the issues in core/internal/api/handlers.go.
use llm_mcp.Prelude.{
  ℕ, ◌+◌, ◌-◌, ◌*◌, ◌/◌, String, Bool, not, ◌&&◌, ◌||◌, ◌==◌, Option, none, some, List, [], ◌∷◌,
  ◌++◌, map, ltb, leb, eqb, length, if◌then◌else◌,
}
use llm_mcp.Prelude.Int.{ℤ, pos, negsuc, ltb_ℤ, scale, wrap64}
use llm_mcp.Db.{Micro}
use llm_mcp.Dashboard.Sort.{text_before, exchange_sort}
use llm_mcp.Dashboard.Hosts.{
  DeviceStats, DeviceInfo, NodeInfo, HostInfo, base_hosts, attach_ports, add_own, or_native,
  worst_of,
}

-- `totalJobs`, `doneJobs`, `latencySum` and `latencyCount`.
pub record Sums : Type 0 where
  pub total_jobs : ℕ
  pub done_jobs : ℕ
  pub latency_sum : ℕ
  pub latency_count : ℕ

abbrev pub add_stats : Option DeviceStats → Sums → Sums
add_stats none s = s
add_stats (some d) s = record {
  total_jobs = s.total_jobs + d.total_jobs;
  done_jobs = s.done_jobs + d.done_jobs;
  latency_sum =
      if ltb 0 d.avg_latency_ms
      then s.latency_sum + d.avg_latency_ms * d.total_jobs
      else s.latency_sum;
  latency_count =
      if ltb 0 d.avg_latency_ms then s.latency_count + d.total_jobs else s.latency_count;
}

abbrev pub sum_stats : Sums → List NodeInfo → Sums
sum_stats s [] = s
sum_stats s (n ∷ ns) = sum_stats (add_stats n.stats s) ns

abbrev pub host_stats : Sums → Option DeviceStats
host_stats s =
    if ltb 0 s.total_jobs
    then some (record {
      total_jobs = s.total_jobs;
      done_jobs = s.done_jobs;
      success_rate = pos (s.done_jobs * 100_000_000 / s.total_jobs);
      avg_latency_ms = if ltb 0 s.latency_count then s.latency_sum / s.latency_count else 0;
    })
    else none

abbrev pub aggregate : ℤ → HostInfo → HostInfo
aggregate max_conc h = record h {
  total_slots = wrap64 (scale (length h.nodes) max_conc);
  circuit = worst_of "ok" h.nodes;
  stats = host_stats (
      sum_stats (record { total_jobs = 0; done_jobs = 0; latency_sum = 0; latency_count = 0 })
        h.nodes);
}

-- Hosts that are online first, then by name.
abbrev pub is_up : HostInfo → Bool
is_up h = h.status == "online"

abbrev pub host_before : HostInfo → HostInfo → Bool
host_before a b =
    is_up a && not (is_up b)
    || (is_up a && is_up b || not (is_up a) && not (is_up b)) && text_before a.name b.name

abbrev pub finish_host : List DeviceInfo → ℤ → HostInfo → HostInfo
finish_host devices max_conc h = aggregate max_conc (or_native (add_own devices h))

abbrev pub hosts_of : List DeviceInfo → ℤ → List HostInfo
hosts_of devices max_conc =
    map (λ h. finish_host devices max_conc h) (attach_ports devices (base_hosts devices []))

unfoldable pub build_host_hierarchy : List DeviceInfo → ℤ → List HostInfo
build_host_hierarchy devices max_conc = exchange_sort host_before (hosts_of devices max_conc)

-- The issues, without their texts: how long a host was not seen is in minutes or in hours.
pub data Issue : Type 0 where
  offline_minutes : String → ℤ → Issue
  offline_hours : String → ℤ → Issue
  degraded : String → Issue
  low_success : String → Micro → Issue
  stuck : ℕ → Issue
  backlog : ℕ → Issue

-- A duration, truncated to whole units.
abbrev pub in_units : ℕ → ℕ → ℕ → ℤ
in_units now seen unit =
    if leb seen now then pos ((now - seen) / unit) else scale_neg ((seen - now) / unit)
  where
    scale_neg : ℕ → ℤ
    scale_neg m = if eqb m 0 then pos 0 else negsuc (m - 1)

abbrev pub offline_issue : ℕ → HostInfo → List Issue
offline_issue now h = elim h.last_seen [
  | none ↦ []
  | some seen ↦
      if is_up h
      then []
      else (if ltb now (seen + 3_600_000_000_000)
          then offline_minutes h.name (in_units now seen 60_000_000_000)
          else offline_hours h.name (in_units now seen 3_600_000_000_000))
        ∷ []
]

abbrev pub degraded_issue : HostInfo → List Issue
degraded_issue h = if h.circuit == "degraded" then degraded h.name ∷ [] else []

abbrev pub success_issue : HostInfo → List Issue
success_issue h = elim h.stats [
  | none ↦ []
  | some s ↦
      if leb 5 s.total_jobs && ltb_ℤ s.success_rate (pos 80_000_000)
      then low_success h.name s.success_rate ∷ []
      else []
]

abbrev pub issues_of : (HostInfo → List Issue) → List HostInfo → List Issue
issues_of f [] = []
issues_of f (h ∷ hs) = f h ++ issues_of f hs

unfoldable pub build_dashboard_issues : ℕ → List HostInfo → ℕ → ℕ → ℕ → List Issue
build_dashboard_issues now hosts queued running workers_online =
    issues_of (offline_issue now) hosts
    ++ issues_of degraded_issue hosts
    ++ issues_of success_issue hosts
    ++ (if ltb 0 queued && eqb running 0 && ltb 0 workers_online then stuck queued ∷ [] else [])
    ++ (if ltb 10 queued then backlog queued ∷ [] else [])
