-- ===== src/Routing/Llm.antt =====
-- `RouteLLM` in core/internal/routing/router.go: the provider, the kind of the job and its payload for a
-- request to a language model.
pub mod Request
pub mod Smart
pub mod Choice
pub mod Provider
use llm_mcp.Prelude.{
  String, Bool, true, false, not, ◌&&◌, ◌||◌, ◌==◌, Option, none, some, List, [], ◌∷◌, ◌++◌, blank,
  concat, if◌then◌else◌,
}
use llm_mcp.Prelude.Int.{ℤ, pos, ltb_ℤ}
use llm_mcp.Config.{Vars, has_openai, has_openrouter}
use llm_mcp.Db.{Db, Env}
use llm_mcp.Db.Values.{Json}
use llm_mcp.Limits.{model_allowed, is_strict}
use llm_mcp.Routing.Circuit.{Circuits}
use llm_mcp.Routing.Device.{DeviceTarget, select_ollama_device, has_local_ollama, meets_latency}
use llm_mcp.Routing.Payload.{parse_payload_model_device}
use llm_mcp.Routing.Models.{Pricing}
use Request.{
  LlmRequest, Content, word, options, Payload, sent, built, Route, routed, refused, word_or, is_nil,
  prompt_of, messages_of, unless_empty, if_given,
}
use Smart.{kind_of, cloud_payload, route_smart_llm}

-- The cloud provider with a key, and a default without any.
unfoldable pub cloud_or : Vars → String → String
cloud_or vars default =
    if has_openrouter vars then "openrouter" else if has_openai vars then "openai" else default

-- `provider == "auto"`
unfoldable pub auto_provider : Vars → LlmRequest → String → Bool → String
auto_provider vars req task local =
    if task == "embed"
    then "ollama"
    else if not req.force_cloud && req.prefer_local && local
    then "ollama"
    else cloud_or vars "ollama"

-- A model that is too slow locally goes to the cloud, if there is one.
unfoldable pub provider_for : Env → Db → LlmRequest → String → String
provider_for env db req task =
    let named = word_or "auto" req.provider in
    let provider =
      if named == "auto"
      then auto_provider env.vars req task (has_local_ollama env db)
      else named in
    if provider == "ollama"
      && ltb_ℤ (pos 0) req.max_latency_ms
      && not (req.model == "")
      && not (meets_latency env db req.model task req.max_latency_ms)
    then cloud_or env.vars provider
    else provider

abbrev pub sent_route : Env → Db → String → String → Json → Route
sent_route env db provider kind payload =
    let (model, device) = parse_payload_model_device (some payload) in
    let (allowed, reason) = model_allowed env db device model in
    if provider == "ollama" && not (model == "") && not (device == "") && not allowed
    then refused (concat "model_not_allowed:" reason)
    else routed provider kind (sent payload)

abbrev pub target_fields : DeviceTarget → List (String × Content)
target_fields t =
    ("ollama_addr", word t.addr) ∷ unless_empty "ollama_host" t.host
    ++ ("device_id", word t.id) ∷ []

-- The device for a named model; none is an error in strict mode only.
abbrev pub with_target :
    Env → Option DeviceTarget → String → String → List (String × Content) → Route
with_target env (some t) provider kind fields =
    routed provider kind (built (fields ++ target_fields t))
with_target env none provider kind fields =
    if is_strict env.vars then refused "no_eligible_device" else routed provider kind (built fields)

abbrev pub local_route :
    Env → Db → LlmRequest → String → String → String → List (String × Content) → Route
local_route env db req provider kind prompt extra =
    let fields = unless_empty "model" req.model ++ ("prompt", word prompt) ∷ extra in
    let task = if kind == "ollama.embed" then "embed" else "generate" in
    if prompt == ""
    then refused "prompt_required"
    else if req.model == ""
    then routed provider kind (built fields)
    else with_target env (select_ollama_device env db req.model task) provider kind fields

abbrev pub built_route : Env → Db → LlmRequest → String → String → Route
built_route env db req provider kind =
    if kind == "ollama.generate"
    then local_route env db req provider kind (prompt_of req)
        (if_given "options" options req.options)
    else if kind == "ollama.embed"
    then local_route env db req provider kind req.prompt []
    else if is_nil (messages_of req)
    then refused "messages_required"
    else routed provider kind (built (cloud_payload req (unless_empty "model" req.model)))

abbrev pub plain_route : Env → Db → LlmRequest → Route
plain_route env db req =
    let task = word_or "chat" req.task in
    let provider = provider_for env db req task in
    let kind = kind_of provider task in
    if kind == "" then refused "provider_not_supported" else elim req.payload [
      | none ↦ built_route env db req provider kind
      | some payload ↦ sent_route env db provider kind payload
    ]

unfoldable pub route_llm : Env → Db → Circuits → List Pricing → LlmRequest → Route
route_llm env db circuits table req =
    if blank req.model && not (blank req.quality)
    then route_smart_llm env db circuits table req
    else plain_route env db req
