-- ===== src/Discovery/Address.antt =====
-- The addresses, host headers and ports that core/internal/discovery/discovery.go probes.
use llm_mcp.Prelude.{
  ℕ, ◌≡◌, refl, String, Bool, not, ◌&&◌, ◌||◌, ◌==◌, Option, none, some, List, [], ◌∷◌, ◌++◌, leb,
  eqb, if◌then◌else◌, any, trim_space, has_prefix, concat, split_on, trim_suffix, has_code,
}
use llm_mcp.Prelude.Int.{ℤ, pos}
use llm_mcp.Config.{Vars, atoi}
use llm_mcp.Discovery.Net.{Net, TailNode}

unfoldable pub format_addr : String → String
format_addr addr =
    if has_code b':' addr && not (has_prefix addr "[") then concat "[" (concat addr "]") else addr

abbrev pub stands_in : List String → String → Bool
stands_in out v = any (λ w. w == v) out

-- The closure `add` of both loops: `seen` holds what `out` does.
abbrev pub add_addr : List String → String → List String
add_addr out v =
    let w = trim_suffix b'.' (trim_space v) in
    if w == "" || stands_in out w then out else out ++ (w ∷ [])

abbrev pub add_addrs : List String → List String → List String
add_addrs out [] = out
add_addrs out (v ∷ vs) = add_addrs (add_addr out v) vs

-- `strings.ContainsAny(name, " \t")`
abbrev pub spaced : String → Bool
spaced name = has_code b' ' name || has_code 9 name

abbrev pub add_names : TailNode → List String → List String
add_names node out =
    let named = if node.dns_name == "" then out else add_addr out node.dns_name in
    if node.host_name == "" || spaced node.host_name then named else add_addr named node.host_name

unfoldable pub build_addrs : TailNode → List String
build_addrs node = add_names node (add_addrs [] node.tailscale_ips)

unfoldable pub build_host_headers : TailNode → List String
build_host_headers node = add_names node []

-- `addr[:strings.LastIndex(addr, ":")]` when the index is positive: the text without what stands from the
-- last colon on.
before_last : String → Option String
before_last String.[] = none
before_last (String.◌∷◌ c s) = elim (before_last s) [
  | some t ↦ some (String.◌∷◌ c t)
  | none ↦ if eqb (Prim.Native.Char.code c) b':' then some "" else none
]

host_of : String → String
unfolding before_last
host_of addr = elim (before_last addr) [ none ↦ addr | some h ↦ if h == "" then addr else h ]

unfoldable pub extract_host : Net → String → String
unfolding host_of
extract_host net addr =
    let a = trim_space addr in
    if a == "" then "" else elim (net.split_host_port a) [ some (h, p) ↦ h | none ↦ host_of a ]

abbrev pub valid_port : Option ℤ → Option ℕ
valid_port (some (pos n)) = if leb 1 n && leb n 65535 then some n else none
valid_port _ = none

-- An entry that is blank or no port is passed over.
abbrev pub port_of : String → Option ℕ
port_of item = let p = trim_space item in if p == "" then none else valid_port (atoi p)

abbrev pub ports_in : List String → List ℕ
ports_in [] = []
ports_in (p ∷ ps) = let rest = ports_in ps in elim (port_of p) [ none ↦ rest | some n ↦ n ∷ rest ]

abbrev pub or_default : List ℕ → List ℕ
or_default [] = 11434 ∷ []
or_default (p ∷ ps) = p ∷ ps

unfoldable pub get_ollama_ports : Vars → List ℕ
get_ollama_ports vars =
    let raw = trim_space (vars "OLLAMA_PORTS") in
    if raw == "" then 11434 ∷ [] else or_default (ports_in (split_on b',' raw))

hosts : (host_of "h:80" ≡ "h") × (host_of ":80" ≡ ":80") × (host_of "a:b:1" ≡ "a:b")
unfolding host_of
hosts = (refl, refl, refl)
