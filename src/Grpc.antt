-- ===== src/Grpc.antt =====
-- core/internal/grpcserver/server.go: the answer of a call, which is an error or, where the code
-- dereferences a missing message, a panic.
pub mod Jobs
pub mod Reports
pub mod Agree
pub mod Stream
use llm_mcp.Prelude.{String, ◌==◌, Option, none, some, [], if◌then◌else◌}
use llm_mcp.Db.Values.{Json, object, or_empty}
use llm_mcp.Db.{Env}

pub data Answer {ℓ} (A : Type ℓ) : Type ℓ where
  answer : A → Answer A
  failed : Answer A
  panic : Answer A

-- `sanitizeJSON`: what is no JSON becomes an empty object.
unfoldable pub sanitize_json : Env → String → Json
sanitize_json env raw = if raw == "" then object [] else or_empty (env.parse_json raw)
