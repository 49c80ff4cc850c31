-- ===== src/Dashboard/Ordered.antt =====
-- The order of the hosts on the dashboard.
use llm_mcp.Prelude.{◌≡◌, Bool, true, false, List, arith, count_if}
use llm_mcp.Prelude.Int.{ℤ}
use llm_mcp.Dashboard.Sort.{text_before-asym, text_before-weak, Sorted, exchange_sort-Sorted}
use llm_mcp.Dashboard.Hosts.{DeviceInfo, HostInfo}
use llm_mcp.Dashboard.Stats.{host_before, hosts_of, build_host_hierarchy}

host_before-asym : (a b : HostInfo) → host_before a b ≡ true → host_before b a ≡ false
host_before-asym a b h = ground (arith, text_before-asym a.name b.name)

host_before-weak :
    (a b c : HostInfo) → host_before a b ≡ false → host_before b c ≡ false → host_before a c ≡ false
host_before-weak a b c h k = ground (arith, text_before-weak a.name b.name c.name)

-- The hierarchy lists each host that was built as often as it was built, and in order: no host stands
-- behind one that is offline when it is online, or behind one of the same kind with a later name.
pub build_host_hierarchy-Sorted :
    (devices : List DeviceInfo) (max_conc : ℤ)
    → Sorted host_before (build_host_hierarchy devices max_conc)
      × ((p : HostInfo → Bool)
          → count_if p (build_host_hierarchy devices max_conc)
            ≡ count_if p (hosts_of devices max_conc))
unfolding build_host_hierarchy
build_host_hierarchy-Sorted devices max_conc =
    exchange_sort-Sorted host_before host_before-asym host_before-weak (hosts_of devices max_conc)
