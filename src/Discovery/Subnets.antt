-- ===== src/Discovery/Subnets.antt =====
-- The subnets that core/internal/discovery/discovery.go scans, and their addresses.
use llm_mcp.Prelude.{
  ℕ, zero, suc, ◌+◌, ◌-◌, ◌*◌, ◌/◌, ◌%◌, ◌^◌, String, Bool, ◌&&◌, ◌||◌, ◌==◌, Option, none, some,
  List, [], ◌∷◌, ◌++◌, leb, eqb, if◌then◌else◌, trim_space, split_on,
}
use llm_mcp.Config.{Vars}
use llm_mcp.Discovery.Net.{Net, TailNode, Prefix}
use llm_mcp.Discovery.Address.{stands_in}

abbrev pub get_env : Vars → String → String
get_env vars key = trim_space (vars key)

-- The two upper bytes decide.
abbrev pub private_bytes : ℕ → ℕ → Bool
private_bytes b0 b1 =
    eqb b0 10 || (eqb b0 172 && leb 16 b1 && leb b1 31) || (eqb b0 192 && eqb b1 168)

abbrev pub is_private_ipv4 : ℕ → Bool
is_private_ipv4 addr = private_bytes (addr / 2 ^ 24 % 256) (addr / 2 ^ 16 % 256)

abbrev pub items : List String → List String
items [] = []
items (i ∷ is) = let rest = items is in if trim_space i == "" then rest else trim_space i ∷ rest

abbrev pub candidates : Vars → TailNode → List String
candidates vars self =
    items (split_on b',' (get_env vars "DISCOVERY_SUBNETS"))
    ++ self.primary_routes
    ++ self.allowed_ips

-- An IPv4 prefix of private addresses with at most nine host bits.
abbrev pub scannable : Prefix → Bool
scannable p = p.is4 && is_private_ipv4 p.addr && leb (32 - p.bits) 9

abbrev pub subnet_of : Net → String → Option String
subnet_of net c = elim (net.parse_prefix c) [
  | none ↦ none
  | some p ↦ if scannable p then some (net.show_prefix p) else none
]

-- The loop, with the candidates that it has seen.
abbrev pub pick_subnets : Net → List String → List String → List String
pick_subnets net seen [] = []
pick_subnets net seen (c ∷ cs) =
    let skip = c == "" || stands_in seen c in
    let rest = pick_subnets net (if skip then seen else c ∷ seen) cs in
    if skip then rest else elim (subnet_of net c) [ none ↦ rest | some s ↦ s ∷ rest ]

unfoldable pub parse_subnets : Net → Vars → TailNode → List String
parse_subnets net vars self = pick_subnets net [] (candidates vars self)

-- `ipv4Range`: the address with its host bits cleared, and with them set, which is a sum of the two
-- since the low bits of the first are 0.
abbrev pub ipv4_range : Prefix → ℕ × ℕ
ipv4_range p =
    let size = 2 ^ (32 - p.bits) in let start = p.addr / size * size in (start, start + (size - 1))

-- The addresses `a`, `a + 1`, …
abbrev pub addrs_from : ℕ → ℕ → List ℕ
addrs_from a zero = []
addrs_from a (suc n) = a ∷ addrs_from (a + 1) n

-- Without the network and the broadcast address.
abbrev pub hosts_in : Prefix → List ℕ
hosts_in p = let (start, last) = ipv4_range p in addrs_from (start + 1) (last - (start + 1))

-- The loop over a subnet hands out the addresses that are not to be skipped.
abbrev pub unskipped : Net → List String → List ℕ → List ℕ
unskipped net skip [] = []
unskipped net skip (a ∷ rest_of) =
    let rest = unskipped net skip rest_of in
    if stands_in skip (net.show_addr a) then rest else a ∷ rest

abbrev pub targets_in : Net → List String → Option Prefix → List ℕ
targets_in net skip none = []
targets_in net skip (some p) = if p.is4 then unskipped net skip (hosts_in p) else []

abbrev pub targets_of : Net → List String → String → List ℕ
targets_of net skip cidr = targets_in net skip (net.parse_prefix cidr)

unfoldable pub scan_targets : Net → List String → List String → List ℕ
scan_targets net skip [] = []
scan_targets net skip (c ∷ cs) = targets_of net skip c ++ scan_targets net skip cs
