-- ===== src/Proxy/Providers.antt =====
-- The four proxies of chats in core/internal/api/handlers.go, to OpenRouter and to a device, each for an
-- answer and for a stream. The goroutine that counts a chat is taken as a part of the call.
use llm_mcp.Prelude.{
  ℕ, zero, suc, String, Bool, true, false, not, Option, none, some, List, [], ◌∷◌, eqb,
  if◌then◌else◌,
}
use llm_mcp.Prelude.Int.{ℤ}
use llm_mcp.Db.{Micro, Env}
use llm_mcp.Routing.Device.{DeviceTarget, select_ollama_device}
use llm_mcp.Http.Scanner.{Bytes}
use llm_mcp.Http.{Reply, reply, fail, World}
use llm_mcp.Stats.{Usage, update_model_stats, record_chat_cost}
use llm_mcp.Proxy.{
  Message, Body, forwarded, ollama_chat, Outgoing, Source, Sent, bad_request, unreachable, answered,
  OllamaChat, read_all, to_device, to_cloud, report,
}
use llm_mcp.Proxy.Embed.{api_url_of, api_key_of}
use llm_mcp.Proxy.Stream.{Event, Tokens, lines_in, convert_lines, pass_lines, is_counted, no_tokens}

-- The body of a chat.
pub record ChatRequest : Type 0 where
  pub model : String
  pub messages : List Message
  pub stream : Bool
  pub temperature : Option Micro
  pub max_tokens : Option ℤ
  pub top_p : Option Micro
  pub task_type : String
  pub accuracy : String
  pub max_cost_usd : Micro

-- The request: `none` for a body that cannot be read, and the headers, empty where one is not set.
pub record ChatCall : Type 0 where
  pub method : String
  pub body : Option Bytes
  pub header : String → String

-- The service, and what encoding/json makes of texts: `with_model` sets the field `model` of a body.
-- `elapsed_ms` is the time that the call takes.
pub record ChatClient : Type 0 where
  pub send : Outgoing → Sent
  pub decode_request : Bytes → Option ChatRequest
  pub with_model : Bytes → String → Bytes
  pub decode_chat : Bytes → Option OllamaChat
  pub decode_usage : Bytes → Option Tokens
  pub parse_float : String → Option Micro
  pub elapsed_ms : ℕ

-- What a client receives: bytes of a service, a completion, or a stream of events. The id of the last two
-- is made of the time.
pub data ChatBody : Type 0 where
  passed : Bytes → ChatBody
  completion : ℕ → String → Message → Tokens → ChatBody
  events : ℕ → List Event → ChatBody

abbrev pub Chatted : Type 0
Chatted = Reply ChatBody × World

abbrev pub as_usage : Tokens → ℕ → Usage
as_usage t ms = record { tokens_in = t.input; tokens_out = t.output; duration_ms = ms }

-- `go s.updateModelStats(…, false)`
abbrev pub count_chat : Env → String → Tokens → ℕ → World → World
count_chat env model t ms w = record w {
  db = update_model_stats env model (as_usage t ms) false w.db;
}

-- A chat with a device counts only with tokens.
abbrev pub count_device_chat : Env → ChatClient → String → Tokens → World → World
count_device_chat env c model t w =
    if is_counted t then count_chat env model t c.elapsed_ms w else w

abbrev pub charge_chat : Env → String → Tokens → World → World
charge_chat env model t w = record w {
  db = record_chat_cost env model "openrouter" t.input t.output w.db;
}

-- The duration that `recordChatUsage` passes on is 0.
abbrev pub told_usage : Env → String → World → Option Tokens → World
told_usage env model w none = w
told_usage env model w (some t) = count_chat env model t 0 (charge_chat env model t w)

-- `recordChatUsage`
unfoldable pub record_chat_usage : Env → ChatClient → Bytes → String → World → World
unfolding update_model_stats record_chat_cost
record_chat_usage env c body model w = told_usage env model w (c.decode_usage body)

-- `proxyOpenAIChat`
abbrev pub cloud_chat_answer : Env → ChatClient → String → World → Sent → Chatted
cloud_chat_answer env c model w bad_request = (fail 500 "request_error", w)
cloud_chat_answer env c model w unreachable = (fail 502 "cloud_chat_failed", w)
cloud_chat_answer env c model w (answered status s) =
    if not (eqb status 200)
    then (reply status (passed (read_all s)), w)
    else (reply 200 (passed (read_all s)), record_chat_usage env c (read_all s) model w)

abbrev pub to_openrouter : Env → Bytes → Outgoing
to_openrouter env body =
    to_cloud (api_url_of env) "/chat/completions" (api_key_of env) (forwarded body)

unfoldable pub proxy_openai_chat : Env → ChatClient → Bytes → String → World → Chatted
unfolding record_chat_usage
proxy_openai_chat env c body model w =
    cloud_chat_answer env c model w (c.send (to_openrouter env body))

-- The cost and the count of a stream, when it told its tokens.
abbrev pub settle_stream : Env → ChatClient → String → Tokens → World → World
settle_stream env c model t w =
    if is_counted t then count_chat env model t c.elapsed_ms (charge_chat env model t w) else w

-- `io.LimitReader(body, n)`
unfoldable pub limited : ℕ → Bytes → Bytes
limited zero bs = []
limited (suc n) [] = []
limited (suc n) (b ∷ bs) = b ∷ limited n bs

-- `streamOpenAIChat`
abbrev pub cloud_stream_answer : Env → ChatClient → String → World → Sent → Chatted
cloud_stream_answer env c model w bad_request = (fail 500 "request_error", w)
cloud_stream_answer env c model w unreachable = (fail 502 "cloud_chat_failed", w)
cloud_stream_answer env c model w (answered status s) =
    let p = pass_lines c.decode_usage (lines_in s) no_tokens in
    if not (eqb status 200)
    then (reply status (passed (limited 1024 (read_all s))), w)
    else (reply 200 (passed p.0), settle_stream env c model p.1 w)

unfoldable pub stream_openai_chat : Env → ChatClient → Bytes → String → World → Chatted
unfolding pass_lines lines_in limited
stream_openai_chat env c body model w =
    cloud_stream_answer env c model w (c.send (to_openrouter env body))

abbrev pub tokens_of : OllamaChat → Tokens
tokens_of k = record { input = k.prompt_eval_count; output = k.eval_count }

-- `proxyOllamaChat` with the decoded answer.
abbrev pub complete_chat :
    Env → ChatClient → ChatRequest → DeviceTarget → World → Option OllamaChat → Chatted
complete_chat env c req t w none = (fail 502 "decode_error", w)
complete_chat env c req t w (some k) = (
  reply 200 (completion env.app_now k.model k.message (tokens_of k)),
  count_device_chat env c req.model (tokens_of k) (report env t true w),
)

abbrev pub stream_chat : Env → ChatClient → ChatRequest → DeviceTarget → World → Source → Chatted
stream_chat env c req t w s =
    let p = convert_lines c.decode_chat (lines_in s) in
    (
      reply 200 (events env.app_now p.0),
      count_device_chat env c req.model p.1 (report env t true w),
    )

-- What both proxies to a device make of an answer.
abbrev pub device_answer : Env → ChatClient → ChatRequest → DeviceTarget → World → Sent → Chatted
device_answer env c req t w bad_request = (fail 500 "request_error", w)
device_answer env c req t w unreachable = (fail 502 "ollama_chat_failed", report env t false w)
device_answer env c req t w (answered status s) =
    if not (eqb status 200)
    then (fail 502 "ollama_chat_failed", report env t false w)
    else if req.stream
    then stream_chat env c req t w s
    else complete_chat env c req t w (c.decode_chat (read_all s))

abbrev pub chat_body : ChatRequest → Body
chat_body req = ollama_chat req.model req.messages req.stream req.temperature

-- `proxyOllamaChat` and `streamOllamaChat`, which differ in `stream`.
unfoldable pub device_chat : Env → ChatClient → ChatRequest → World → Chatted
unfolding report convert_lines lines_in update_model_stats
device_chat env c req w = elim (select_ollama_device env w.db req.model "chat") [
  | none ↦ (fail 503 "no_device", w)
  | some t ↦ device_answer env c req t w (c.send (to_device t "/api/chat" (chat_body req)))
]
