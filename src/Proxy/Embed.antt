-- ===== src/Proxy/Embed.antt =====
-- `HandleEmbeddings` in core/internal/api/handlers.go, with the proxies to a device and to OpenRouter.
use llm_mcp.Prelude.{
  ℕ, zero, suc, ◌+◌, ◌/◌, String, Bool, true, false, ◌||◌, ◌==◌, Option, none, some, List, [], ◌∷◌,
  eqb, if◌then◌else◌, byte_len, contains,
}
use llm_mcp.Prelude.Int.{ℤ, pos, negsuc}
use llm_mcp.Config.{getenv, getenv_int}
use llm_mcp.Db.{Micro, Env}
use llm_mcp.Routing.Device.{DeviceTarget, select_ollama_device}
use llm_mcp.Http.Scanner.{Bytes}
use llm_mcp.Http.{Reply, reply, fail, Request, World, post}
use llm_mcp.Proxy.{
  Outgoing, ollama_embed, cloud_embed, Sent, bad_request, unreachable, answered, OllamaEmbed,
  read_all, to_device, to_cloud, report,
}
use llm_mcp.Proxy.Truncate.{Members, truncate_embeddings}

-- The field `input`: a text, an array whose items are texts or not, or something else.
pub data Input : Type 0 where
  one : String → Input
  many : List (Option String) → Input
  neither : Input

pub record EmbedRequest : Type 0 where
  pub model : String
  pub input : Input
  pub dimensions : ℤ

abbrev pub only_texts : List (Option String) → List String
only_texts [] = []
only_texts (none ∷ l) = only_texts l
only_texts (some s ∷ l) = s ∷ only_texts l

abbrev pub texts_of : Input → Option (List String)
texts_of (one s) = some (s ∷ [])
texts_of (many l) = some (only_texts l)
texts_of neither = none

-- The n-th request of a call and its answer, the decoders of the answers, and whether the context of
-- the whole call, which ends after 120 seconds or when the client leaves, is over when the n-th attempt
-- selects its device.
pub record EmbedClient : Type 0 where
  pub send : ℕ → Outgoing → Sent
  pub decode_ollama : Bytes → Option OllamaEmbed
  pub decode_cloud : Bytes → Option Members
  pub expired : ℕ → Bool

-- The answer in the format of OpenAI: the vectors, whose places are their indices, and the tokens.
pub record EmbedList : Type 0 where
  pub model : String
  pub vectors : List (List Micro)
  pub prompt_tokens : ℤ

pub data Embeddings : Type 0 where
  local : EmbedList → Embeddings
  cloud : Members → Embeddings

abbrev pub sum_bytes : List String → ℕ
sum_bytes [] = 0
sum_bytes (t ∷ ts) = byte_len t + sum_bytes ts

-- About four bytes a token, when the device does not say.
abbrev pub tokens_or : List String → ℤ → ℤ
tokens_or texts (pos n) = if eqb n 0 then pos (sum_bytes texts / 4) else pos n
tokens_or texts (negsuc n) = negsuc n

abbrev pub embed_list : List String → OllamaEmbed → EmbedList
embed_list texts a = record {
  model = a.model;
  vectors = a.embeddings;
  prompt_tokens = tokens_or texts a.prompt_eval_count;
}

abbrev pub decoded_list : List String → Option OllamaEmbed → Option EmbedList
decoded_list texts none = none
decoded_list texts (some a) = some (embed_list texts a)

abbrev pub embed_answer : EmbedClient → List String → Sent → Option EmbedList
embed_answer c texts bad_request = none
embed_answer c texts unreachable = none
embed_answer c texts (answered status s) =
    if eqb status 200 then decoded_list texts (c.decode_ollama (read_all s)) else none

-- `none` is an error.
unfoldable pub proxy_ollama_embed :
    EmbedClient → ℕ → DeviceTarget → String → List String → Option EmbedList
proxy_ollama_embed c n t model texts =
    embed_answer c texts (c.send n (to_device t "/api/embed" (ollama_embed model texts)))

abbrev pub cloud_answer : EmbedClient → Sent → Option Members
cloud_answer c bad_request = none
cloud_answer c unreachable = none
cloud_answer c (answered status s) = if eqb status 200 then c.decode_cloud (read_all s) else none

abbrev pub positive : ℤ → Option ℕ
positive (pos zero) = none
positive (pos (suc n)) = some (suc n)
positive (negsuc n) = none

unfoldable pub proxy_openai_embed :
    EmbedClient → String → String → String → List String → ℤ → Option Members
proxy_openai_embed c api_url api_key model texts dims =
    cloud_answer c
      (c.send 0 (to_cloud api_url "/embeddings" api_key (cloud_embed model texts (positive dims))))

abbrev pub api_url_of : Env → String
api_url_of env = getenv env.vars "OPENROUTER_BASE_URL" "https://openrouter.ai/api/v1"

abbrev pub api_key_of : Env → String
api_key_of env = getenv env.vars "OPENROUTER_API_KEY" ""

abbrev pub dims_of : Env → ℤ → ℤ
dims_of env (pos n) =
    if eqb n 0 then getenv_int env.vars "CLOUD_EMBED_DIMENSIONS" (pos 0) else pos n
dims_of env (negsuc n) = negsuc n

-- The client's truncation, for a service that does not know `dimensions`.
abbrev pub cut_to : ℤ → Members → Members
cut_to dims result = elim (positive dims) [ none ↦ result | some n ↦ truncate_embeddings result n ]

-- The branch of a model of the cloud.
unfoldable pub embed_in_cloud :
    Env → EmbedClient → EmbedRequest → List String → World → Reply Embeddings × World
unfolding proxy_openai_embed
embed_in_cloud env c req texts w =
    let key = api_key_of env in
    let dims = dims_of env req.dimensions in
    if key == "" || key == "not-used"
    then (fail 503 "no_api_key", w)
    else elim (proxy_openai_embed c (api_url_of env) key req.model texts dims) [
      | none ↦ (fail 502 "cloud_embed_failed", w)
      | some result ↦ (reply 200 (cloud (cut_to dims result)), w)
    ]

-- The selection of attempt `n`: a query on a context that is over gives no device.
abbrev pub select_at : Env → EmbedClient → String → ℕ → World → Option DeviceTarget
select_at env c model n w =
    if c.expired n then none else select_ollama_device env w.db model "embed"

-- What is left of the loop over the attempts, from attempt `n` on.
unfoldable pub embed_attempts :
    Env → EmbedClient → String → List String → ℕ → ℕ → World → Reply Embeddings × World
unfolding proxy_ollama_embed report
embed_attempts env c model texts zero n w = (fail 502 "embed_failed", w)
embed_attempts env c model texts (suc left) n w = elim (select_at env c model n w) [
  | none ↦ (if eqb n 0 then fail 503 "no_device" else fail 502 "embed_failed", w)
  | some t ↦ elim (proxy_ollama_embed c n t model texts) [
    | none ↦ embed_attempts env c model texts left (suc n) (report env t false w)
    | some a ↦ (reply 200 (local a), report env t true w)
  ]
]

-- A model of the cloud has a slash in its name.
abbrev pub embed_texts :
    Env → EmbedClient → EmbedRequest → World → List String → Reply Embeddings × World
embed_texts env c req w [] = (fail 400 "empty_input", w)
embed_texts env c req w (t ∷ ts) =
    if contains req.model "/"
    then embed_in_cloud env c req (t ∷ ts) w
    else embed_attempts env c req.model (t ∷ ts) 3 0 w

-- What follows the decoding.
abbrev pub embed : Env → EmbedClient → EmbedRequest → World → Reply Embeddings × World
embed env c req w =
    if req.model == "" then (fail 400 "model_required", w) else elim (texts_of req.input) [
      | none ↦ (fail 400 "invalid_input", w)
      | some texts ↦ embed_texts env c req w texts
    ]

unfoldable pub handle_embeddings :
    Env → EmbedClient → Request EmbedRequest → World → Reply Embeddings × World
unfolding post embed_in_cloud embed_attempts
handle_embeddings env c r w = post r w (λ req. embed env c req w)
