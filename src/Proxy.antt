-- ===== src/Proxy.antt =====
-- The proxies of core/internal/api/handlers.go to services that answer at once: chats and embeddings.
-- What the services answer and how encoding/json decodes it are parameters (`EmbedClient`,
-- `ChatClient`); metrics are left out.
pub mod Truncate
pub mod Cut
pub mod Embed
pub mod Retried
pub mod Stream
pub mod Providers
pub mod Chat
pub mod Streamed
pub mod Kept
pub mod Usage
pub mod First
use llm_mcp.Prelude.{
  ℕ, String, Bool, ◌==◌, Option, none, some, List, [], ◌∷◌, ◌++◌, if◌then◌else◌, contains, concat,
}
use llm_mcp.Prelude.Int.{ℤ}
use llm_mcp.Db.Values.{Value, str, lookup}
use llm_mcp.Db.{Micro, Env}
use llm_mcp.Routing.Circuit.{record_device_result}
use llm_mcp.Routing.Device.{DeviceTarget}
use llm_mcp.Http.Scanner.{Bytes}
use llm_mcp.Http.Lines.{join_all}
use llm_mcp.Http.{World}

-- A message of a chat: its fields.
abbrev pub Message : Type 0
Message = List (String × Value)

-- What a proxy sends: the body of its caller, or one that it builds.
pub data Body : Type 0 where
  forwarded : Bytes → Body
  ollama_chat : String → List Message → Bool → Option Micro → Body
  ollama_embed : String → List String → Body
  cloud_embed : String → List String → Option ℕ → Body

-- A request with the headers `Host` and `Authorization`, empty where the proxy sets none.
pub record Outgoing : Type 0 where
  pub url : String
  pub host : String
  pub authorization : String
  pub body : Body

-- What is read of an answer: chunks, and the bytes that come with the error that ends it.
pub record Source : Type 0 where
  pub chunks : List Bytes
  pub last : Bytes

-- `http.NewRequestWithContext` fails, `client.Do` fails, or there is an answer with its status.
pub data Sent : Type 0 where
  bad_request : Sent
  unreachable : Sent
  answered : ℕ → Source → Sent

-- The answer of `/api/embed`.
pub record OllamaEmbed : Type 0 where
  pub model : String
  pub embeddings : List (List Micro)
  pub prompt_eval_count : ℤ

-- The answer of `/api/chat`, or a line of it.
pub record OllamaChat : Type 0 where
  pub model : String
  pub message : Message
  pub done : Bool
  pub prompt_eval_count : ℤ
  pub eval_count : ℤ

-- `io.ReadAll` of an answer.
abbrev pub read_all : Source → Bytes
read_all s = join_all s.chunks ++ s.last

-- `"http://" + addr` for an address without a scheme.
unfoldable pub with_scheme : String → String
with_scheme addr = if contains addr "://" then addr else concat "http://" addr

-- `host` is what the code sets as the header Host, which the client of Go does not send.
abbrev pub to_device : DeviceTarget → String → Body → Outgoing
to_device t path body = record {
  url = concat (with_scheme t.addr) path;
  host = t.host;
  authorization = "";
  body = body;
}

abbrev pub to_cloud : String → String → String → Body → Outgoing
to_cloud api_url path api_key body = record {
  url = concat api_url path;
  host = "";
  authorization = concat "Bearer " api_key;
  body = body;
}

-- `s.Router.RecordDeviceResult`
unfoldable pub report : Env → DeviceTarget → Bool → World → World
report env t ok w = record w { circuits = record_device_result env.app_now w.circuits t.id ok }

-- `m["content"].(string)`, with `none` for what is no text.
abbrev pub content_of : Message → Option String
content_of m = elim (lookup "content" m) [ some (str s) ↦ some s | _ ↦ none ]
