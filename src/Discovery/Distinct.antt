-- ===== src/Discovery/Distinct.antt =====
-- The addresses and the ports that a probe goes through.
use llm_mcp.Prelude.{
  ℕ, ◌≤◌, ◌≡◌, ◌≢◌, String, false, ◌||◌, ◌==◌, inl, inr, refl, ◌∙◌, Option, none, some, List, [],
  ◌∷◌, ◌++◌, trim_space, split_on, trim_suffix, arith, if◌then◌else◌, if_both, if_each, or_false,
  Bool-cases, Option-cases, All, eq_comm,
}
use llm_mcp.Prelude.Int.{ℤ, pos, negsuc}
use llm_mcp.Config.{Vars, atoi}
use llm_mcp.Discovery.Net.{TailNode}
use llm_mcp.Discovery.Address.{
  stands_in, add_addr, add_addrs, add_names, spaced, build_addrs, build_host_headers, valid_port,
  port_of, ports_in, or_default, get_ollama_ports,
}

-- No text is empty or stands there twice.
abbrev pub Distinct : List String → Type 0
Distinct [] = Unit
Distinct (v ∷ vs) = (v == "" ≡ false) × (stands_in vs v ≡ false) × Distinct vs

stands_in-append :
    (vs : List String) (w v : String) → stands_in (vs ++ (w ∷ [])) v ≡ (stands_in vs v || w == v)
stands_in-append [] w v = ground arith
stands_in-append (x ∷ xs) w v = rw (stands_in-append xs w v) (ground arith)

Distinct-append :
    (vs : List String) (w : String)
    → w == "" ≡ false
    → stands_in vs w ≡ false
    → Distinct vs
    → Distinct (vs ++ (w ∷ []))
Distinct-append [] w e n h = (e, refl, tt)
Distinct-append (v ∷ vs) w e n (f, m, h) =
    let (p, q) = or_false (v == w) (stands_in vs w) n in
    (f, stands_in-append vs w v ∙ rw (m, eq_comm w v, p) refl, Distinct-append vs w e q h)

Distinct-add_addr : (out : List String) (v : String) → Distinct out → Distinct (add_addr out v)
Distinct-add_addr out v h =
    let w = trim_suffix b'.' (trim_space v) in
    if_each Distinct (w == "" || stands_in out w) (λ e. h)
      (λ e. let (p, q) = or_false (w == "") (stands_in out w) e in Distinct-append out w p q h)

Distinct-add_addrs : (out vs : List String) → Distinct out → Distinct (add_addrs out vs)
Distinct-add_addrs out [] h = h
Distinct-add_addrs out (v ∷ vs) h =
    Distinct-add_addrs (add_addr out v) vs (Distinct-add_addr out v h)

Distinct-add_names :
    (node : TailNode) (out : List String) → Distinct out → Distinct (add_names node out)
Distinct-add_names node out h =
    let named : Distinct (if node.dns_name == "" then out else add_addr out node.dns_name) =
      if_both Distinct (node.dns_name == "") h (Distinct-add_addr out node.dns_name h) in
    if_both Distinct (node.host_name == "" || spaced node.host_name) named (
      Distinct-add_addr (if node.dns_name == "" then out else add_addr out node.dns_name)
        node.host_name named)

-- Neither the addresses of a node nor its host headers hold a text twice, or an empty one.
pub build_addrs-Distinct :
    (node : TailNode) → Distinct (build_addrs node) × Distinct (build_host_headers node)
unfolding build_addrs build_host_headers
build_addrs-Distinct node = (
  Distinct-add_names node (add_addrs [] node.tailscale_ips)
      (Distinct-add_addrs [] node.tailscale_ips tt),
  Distinct-add_names node [] tt,
)

abbrev pub IsPort : ℕ → Type 0
IsPort p = (1 ≤ p) × (p ≤ 65535)

valid_port-IsPort : (o : Option ℤ) (p : ℕ) → valid_port o ≡ some p → IsPort p
valid_port-IsPort none p h = absurd (cc)
valid_port-IsPort (some (negsuc n)) p h = absurd (cc)
valid_port-IsPort (some (pos n)) p h = ground arith

port_of-IsPort : (item : String) (p : ℕ) → port_of item ≡ some p → IsPort p
port_of-IsPort item p h = elim (Bool-cases (trim_space item == "")) [
  | inl e ↦ let k : none ≡ some p = rw e at h in absurd (cc)
  | inr e ↦ valid_port-IsPort (atoi (trim_space item)) p (rw e at h)
]

ports_in-IsPort : (items : List String) → All IsPort (ports_in items)
ports_in-IsPort [] = tt
ports_in-IsPort (i ∷ is) = elim (Option-cases (port_of i)) [
  | inl e ↦ rw (All, e) (ports_in-IsPort is)
  | inr (p, e) ↦ rw (All, e) (port_of-IsPort i p e, ports_in-IsPort is)
]

-- There is a port, and all are ports.
abbrev pub ArePorts : List ℕ → Type 0
ArePorts ps = (ps ≢ []) × All IsPort ps

default-ArePorts : ArePorts (11434 ∷ [])
default-ArePorts = (λ q. cc, ((omega arith, omega arith), tt))

or_default-ArePorts : (ps : List ℕ) → All IsPort ps → ArePorts (or_default ps)
or_default-ArePorts [] h = default-ArePorts
or_default-ArePorts (p ∷ ps) h = (λ q. cc, h)

-- Whatever OLLAMA_PORTS holds, at least one port is probed, and only numbers from 1 to 65535 are.
pub get_ollama_ports-ArePorts : (vars : Vars) → ArePorts (get_ollama_ports vars)
unfolding get_ollama_ports
get_ollama_ports-ArePorts vars =
    if_both ArePorts (trim_space (vars "OLLAMA_PORTS") == "") default-ArePorts (
      or_default-ArePorts (ports_in (split_on b',' (trim_space (vars "OLLAMA_PORTS"))))
        (ports_in-IsPort (split_on b',' (trim_space (vars "OLLAMA_PORTS")))))
