-- ===== src/Dashboard/Totals.antt =====
-- The nodes of the hosts on the dashboard, and their totals.
use llm_mcp.Prelude.{
  ℕ, ◌+◌, ◌≡◌, inl, inr, refl, subst, sym, String, ◌==◌, none, some, List, [], ◌∷◌, ◌++◌, map,
  length, arith, if◌then◌else◌, if_both, Option-cases, All,
}
use llm_mcp.Prelude.Int.{ℤ, pos, eqb_ℤ, scale, wrap64}
use llm_mcp.Dashboard.Sort.{sum_by}
use llm_mcp.Dashboard.Hosts.{
  DeviceInfo, NodeInfo, HostInfo, is_port_device, base_host, set_host, base_hosts, node_at,
  add_node, missing_host, add_port, attach, attach_ports, own_device, add_own, parse_tags,
}
use llm_mcp.Dashboard.Stats.{finish_host}

-- The totals of a host are those of its nodes.
abbrev pub IsCounted : HostInfo → Type 0
IsCounted h =
    (h.total_models ≡ sum_by (λ n. n.models) h.nodes)
    × (h.total_running ≡ sum_by (λ n. n.running) h.nodes)

sum_append :
    (f : NodeInfo → ℕ) (ns : List NodeInfo) (n : NodeInfo)
    → sum_by f (ns ++ (n ∷ [])) ≡ sum_by f ns + f n
sum_append f [] n = omega arith
sum_append f (m ∷ ms) n = omega (arith, sum_append f ms n)

add_node-IsCounted :
    (port : ℤ) (d : DeviceInfo) (h : HostInfo) → IsCounted h → IsCounted (add_node port d h)
add_node-IsCounted port d h (m, r) = (
  rw m (sym (sum_append (λ n. n.models) h.nodes (node_at port d))),
  rw r (sym (sum_append (λ n. n.running) h.nodes (node_at port d))),
)

All-set_host :
    (P : HostInfo → Type 0) (h : HostInfo) (hs : List HostInfo)
    → P h
    → All P hs
    → All P (set_host h hs)
All-set_host P h [] k ks = (k, tt)
All-set_host P h (g ∷ gs) k (l, ls) =
    if_both (All P) (g.id == h.id) (k, ls) (l, All-set_host P h gs k ls)

-- At first no host has a node.
abbrev pub IsBare : HostInfo → Type 0
IsBare h = (h.nodes ≡ []) × (h.total_models ≡ 0) × (h.total_running ≡ 0)

pub base_hosts-IsBare :
    (ds : List DeviceInfo) (hs : List HostInfo) → All IsBare hs → All IsBare (base_hosts ds hs)
base_hosts-IsBare [] hs h = h
base_hosts-IsBare (d ∷ ds) hs h =
    base_hosts-IsBare ds (if is_port_device d then hs else set_host (base_host d) hs) (
      if_both (All IsBare) (is_port_device d) h
        (All-set_host IsBare (base_host d) hs (refl, refl, refl) h))

pub IsBare-IsCounted : (hs : List HostInfo) → All IsBare hs → All IsCounted hs
IsBare-IsCounted [] h = tt
IsBare-IsCounted (x ∷ xs) ((n, m, r), h) = ((rw (n, m) refl, rw (n, r) refl), IsBare-IsCounted xs h)

add_port-IsCounted : (d : DeviceInfo) (h : HostInfo) → IsCounted h → IsCounted (add_port d h)
add_port-IsCounted d h k =
    let port = (parse_tags d.tags).ollama_port in
    add_node-IsCounted (if eqb_ℤ port (pos 0) then pos 11434 else port) d
      (record h { orchestration = "docker" }) k

attach-IsCounted :
    (d : DeviceInfo) (base : String) (hs : List HostInfo)
    → All IsCounted hs
    → All IsCounted (attach d base hs)
attach-IsCounted d base [] h = (add_port-IsCounted d (missing_host d base) (refl, refl), tt)
attach-IsCounted d base (x ∷ xs) (h, hs) =
    if_both (All IsCounted) (x.id == base) (add_port-IsCounted d x h, hs)
      (h, attach-IsCounted d base xs hs)

pub attach_ports-IsCounted :
    (ds : List DeviceInfo) (hs : List HostInfo)
    → All IsCounted hs
    → All IsCounted (attach_ports ds hs)
attach_ports-IsCounted [] hs h = h
attach_ports-IsCounted (d ∷ ds) hs h =
    let base = (parse_tags d.tags).base_device in
    attach_ports-IsCounted ds (if is_port_device d then attach d base hs else hs)
      (if_both (All IsCounted) (is_port_device d) (attach-IsCounted d base hs h) h)

-- What a finished host shows.
abbrev pub Adds : ℤ → HostInfo → Type 0
Adds max_conc h = IsCounted h × (h.total_slots ≡ wrap64 (scale (length h.nodes) max_conc))

add_own-IsCounted :
    (devices : List DeviceInfo) (h : HostInfo) → IsCounted h → IsCounted (add_own devices h)
add_own-IsCounted devices h k = elim (Option-cases (own_device devices h.id)) [
  | inl e ↦ subst IsCounted (sym (not_own devices h e)) k
  | inr (d, e) ↦ subst IsCounted (sym (owned devices h d e)) (add_node-IsCounted (pos 11434) d h k)
]
  where
    not_own :
        (devices : List DeviceInfo) (h : HostInfo)
        → own_device devices h.id ≡ none
        → add_own devices h ≡ h
    not_own devices h e = rw (add_own, e) refl

    owned :
        (devices : List DeviceInfo) (h : HostInfo) (d : DeviceInfo)
        → own_device devices h.id ≡ some d
        → add_own devices h ≡ add_node (pos 11434) d h
    owned devices h d e = rw (add_own, e) refl

pub finished :
    (devices : List DeviceInfo) (max_conc : ℤ) (hs : List HostInfo)
    → All IsCounted hs
    → All (Adds max_conc) (map (λ h. finish_host devices max_conc h) hs)
finished devices max_conc [] h = tt
finished devices max_conc (x ∷ xs) (h, hs) =
    (((add_own-IsCounted devices x h), refl), finished devices max_conc xs hs)
