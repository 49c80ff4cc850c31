-- ===== src/Discovery/Net.antt =====
-- What core/internal/discovery/discovery.go asks of the network and of Go's packages for numbers, hosts and
-- addresses, and the status that `tailscale status --json` prints.
use llm_mcp.Prelude.{ℕ, String, Bool, Option, List}
use llm_mcp.Prelude.Int.{ℤ}
use llm_mcp.Db.{Micro}

-- `ollamaModel`
pub record OllamaModel : Type 0 where
  pub name : String
  pub size : ℤ
  pub family : String
  pub parameter_size : String

-- `tailNode`
pub record TailNode : Type 0 where
  pub host_name : String
  pub dns_name : String
  pub tailscale_ips : List String
  pub online : Bool
  pub os : String
  pub allowed_ips : List String
  pub primary_routes : List String
  pub addrs : List String

-- A prefix of `net/netip`, whose address, when it is one of IPv4, is a number below 2 ^ 32.
pub record Prefix : Type 0 where
  pub is4 : Bool
  pub addr : ℕ
  pub bits : ℕ

-- The answer to `GET /api/tags`, with the milliseconds that it took: no request, an error, a status other
-- than 200, a body that does not decode, or the models.
pub data Answer : Type 0 where
  no_request : Answer
  unreachable : ℕ → String → Answer
  bad_status : ℕ → ℕ → Answer
  garbled : ℕ → String → Answer
  listed : ℕ → List OllamaModel → Answer

-- A request of a probe, and its answer.
pub record Attempted : Type 0 where
  pub addr : String
  pub host : String
  pub answer : Answer

-- `strconv.ParseFloat`, `net.ParseIP` as a test, `net.SplitHostPort`, `netip.ParsePrefix`, the printers of
-- a prefix, an address, a list of texts (which is empty for a nil slice) and the attempts on a port, and
-- the answer to an URL with a `Host` header, and in the scan of the subnets.
pub record Net : Type 0 where
  pub parse_float : String → Option Micro
  pub is_ip : String → Bool
  pub split_host_port : String → Option (String × String)
  pub parse_prefix : String → Option Prefix
  pub show_prefix : Prefix → String
  pub show_addr : ℕ → String
  pub show_names : List String → String
  pub show_attempts : ℤ → List Attempted → String
  pub fetch : String → String → Answer
  pub scan : String → Answer
