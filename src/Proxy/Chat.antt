-- ===== src/Proxy/Chat.antt =====
-- `HandleChatCompletions` in core/internal/api/handlers.go.
use llm_mcp.Prelude.{
  ℕ, String, not, ◌||◌, ◌==◌, Option, none, some, List, [], ◌∷◌, map, if◌then◌else◌, contains,
}
use llm_mcp.Db.{Micro, Ranking, Db, Env}
use llm_mcp.Http.Scanner.{Bytes}
use llm_mcp.Http.{fail, World}
use llm_mcp.Stats.Select.{Floats, select_model}
use llm_mcp.Proxy.{Message, content_of}
use llm_mcp.Proxy.Embed.{api_key_of}
use llm_mcp.Proxy.Providers.{
  ChatRequest, ChatCall, ChatClient, Chatted, proxy_openai_chat, limited, stream_openai_chat,
  device_chat,
}

abbrev pub cloud_chat : Env → ChatClient → ChatRequest → Bytes → World → Chatted
cloud_chat env c req body w =
    if api_key_of env == "" || api_key_of env == "not-used"
    then (fail 503 "no_api_key", w)
    else if req.stream
    then stream_openai_chat env c body req.model w
    else proxy_openai_chat env c body req.model w

-- A model of the cloud has a slash in its name.
unfoldable pub route_chat : Env → ChatClient → ChatRequest → Bytes → World → Chatted
unfolding stream_openai_chat proxy_openai_chat device_chat
route_chat env c req body w =
    if contains req.model "/" then cloud_chat env c req body w else device_chat env c req w

-- A header, a field of the body, and a default.
abbrev pub first_word : String → String → String → String
first_word header field default =
    if header == "" then (if field == "" then default else field) else header

abbrev pub max_cost_of : ChatClient → String → Micro → Micro
max_cost_of c header field =
    if header == "" then field else elim (c.parse_float header) [ none ↦ field | some v ↦ v ]

-- The model for a request that names none; `none` when there is none.
unfoldable pub choose_chat_model :
    Env
    → Floats
    → (List Ranking → List Ranking)
    → ChatClient
    → ChatCall
    → ChatRequest
    → Db
    → Option String
unfolding select_model
choose_chat_model env fl sorted c call req db =
    select_model env fl sorted db (first_word (call.header "X-Task-Type") req.task_type "general")
      (first_word (call.header "X-Accuracy") req.accuracy "medium")
      (max_cost_of c (call.header "X-Max-Cost") req.max_cost_usd) (map content_of req.messages)

-- What follows the checks of the body.
abbrev pub chat_with :
    Env
    → Floats
    → (List Ranking → List Ranking)
    → ChatClient
    → ChatCall
    → Bytes
    → World
    → ChatRequest
    → Chatted
chat_with env fl sorted c call body w req =
    if not (req.model == "")
    then route_chat env c req body w
    else elim (choose_chat_model env fl sorted c call req w.db) [
      | none ↦ (fail 400 "no_model", w)
      | some m ↦
          if m == ""
          then (fail 400 "no_model", w)
          else route_chat env c (record req { model = m }) (c.with_model body m) w
    ]

abbrev pub check_messages :
    Env
    → Floats
    → (List Ranking → List Ranking)
    → ChatClient
    → ChatCall
    → Bytes
    → World
    → ChatRequest
    → List Message
    → Chatted
check_messages env fl sorted c call body w req [] = (fail 400 "messages_required", w)
check_messages env fl sorted c call body w req (m ∷ ms) = chat_with env fl sorted c call body w req

abbrev pub read_chat :
    Env → Floats → (List Ranking → List Ranking) → ChatClient → ChatCall → Bytes → World → Chatted
read_chat env fl sorted c call body w = elim (c.decode_request body) [
  | none ↦ (fail 400 "invalid_json", w)
  | some req ↦ check_messages env fl sorted c call body w req req.messages
]

-- `10<<20`
abbrev pub body_limit : ℕ
body_limit = 10_485_760

unfoldable pub handle_chat_completions :
    Env → Floats → (List Ranking → List Ranking) → ChatClient → ChatCall → World → Chatted
unfolding route_chat choose_chat_model limited
handle_chat_completions env fl sorted c call w =
    if not (call.method == "POST") then (fail 405 "method_not_allowed", w) else elim call.body [
      | none ↦ (fail 400 "read_error", w)
      | some bytes ↦ read_chat env fl sorted c call (limited body_limit bytes) w
    ]
