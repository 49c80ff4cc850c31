-- ===== src/Routing/Llm/Smart.antt =====
-- `routeSmartLLM` in core/internal/routing/router.go: the model is chosen by the quality.
use llm_mcp.Prelude.{
  ℕ, ◌/◌, String, Bool, true, ◌||◌, ◌==◌, Option, none, some, List, [], ◌∷◌, ◌++◌, ltb, concat,
  to_lower, trim_space, if◌then◌else◌,
}
use llm_mcp.Db.{Db, Env}
use llm_mcp.Routing.Circuit.{Circuits}
use llm_mcp.Routing.Models.{
  ModelSelection, Pricing, find_local_model, find_cloud_model, lookup_pricing,
}
use llm_mcp.Routing.Llm.Request.{
  LlmRequest, Content, word, amount, count, flag, chat, options, built, Route, routed, refused,
  estimate_tokens, word_or, is_nil, prompt_of, messages_of, unless_empty, if_given,
}

-- Up to 4000 tokens, up to 32000, and beyond.
pub data Bucket : Type 0 where
  short medium long : Bucket

abbrev pub bucket_of : ℕ → Bucket
bucket_of tokens = if ltb 32000 tokens then long else if ltb 4000 tokens then medium else short

pub data Quality : Type 0 where
  turbo economy standard premium ultra max : Quality

abbrev pub quality_of : String → Option Quality
quality_of s =
    if s == "turbo"
    then some turbo
    else if s == "economy"
    then some economy
    else if s == "standard"
    then some standard
    else if s == "premium"
    then some premium
    else if s == "ultra"
    then some ultra
    else if s == "max"
    then some max
    else none

-- `qualityTiers`
abbrev pub quality_tiers : Quality → Bucket → List String
quality_tiers turbo short = "tiny" ∷ []
quality_tiers turbo medium = "tiny" ∷ "small" ∷ []
quality_tiers economy short = "tiny" ∷ "small" ∷ []
quality_tiers economy medium = "small" ∷ "medium" ∷ []
quality_tiers standard short = "small" ∷ "medium" ∷ []
quality_tiers standard medium = "medium" ∷ "large" ∷ []
quality_tiers premium short = "medium" ∷ "large" ∷ []
quality_tiers premium medium = "large" ∷ "xl" ∷ []
quality_tiers ultra short = "large" ∷ "xl" ∷ []
quality_tiers ultra medium = "xl" ∷ []
quality_tiers _ _ = []

-- `cloudFallbackTiers`
abbrev pub cloud_fallback_tiers : Quality → List String
cloud_fallback_tiers turbo = "cloud_economy" ∷ []
cloud_fallback_tiers economy = "cloud_economy" ∷ []
cloud_fallback_tiers standard = "cloud_economy" ∷ []
cloud_fallback_tiers premium = "cloud_economy" ∷ "cloud_premium" ∷ []
cloud_fallback_tiers ultra = "cloud_premium" ∷ "cloud_economy" ∷ []
cloud_fallback_tiers max = "cloud_premium" ∷ "cloud_economy" ∷ []

abbrev pub min_context_k : ℕ → ℕ
min_context_k tokens = let k = tokens / 1000 in if ltb k 1 then 1 else k

-- A local model, or else one in the cloud.
unfoldable pub choose_model : Env → Db → Circuits → Quality → String → ℕ → Option ModelSelection
choose_model env db circuits quality task tokens =
    let needed = min_context_k tokens in
    let prefer = task == "reason" in
    let tiers = quality_tiers quality (bucket_of tokens) in
    let cloud = find_cloud_model env db (cloud_fallback_tiers quality) needed prefer in
    if is_nil tiers then cloud else elim (find_local_model env db circuits tiers needed prefer) [
      | none ↦ cloud
      | some sel ↦ some sel
    ]

abbrev pub kind_of : String → String → String
kind_of provider task =
    if provider == "ollama"
    then (if task == "embed" then "ollama.embed" else "ollama.generate")
    else if provider == "openrouter"
    then "openrouter.chat"
    else if provider == "openai"
    then "openai.chat"
    else ""

abbrev pub is_local : String → Bool
is_local kind = kind == "ollama.generate" || kind == "ollama.embed"

-- Tier, prices and thinking, for the worker.
abbrev pub meta : Env → List Pricing → LlmRequest → ModelSelection → List (String × Content)
meta env table req sel =
    let (price_in, price_out) = lookup_pricing env table sel.model in
    let thought = if sel.thinking then ("thinking", flag true) ∷ [] else [] in
    ("_tier", word sel.tier)
    ∷ ("_price_in_1m", amount price_in)
    ∷ ("_price_out_1m", amount price_out)
    ∷ elim req.thinking [ none ↦ thought | some b ↦ ("thinking", flag b) ∷ [] ]

abbrev pub local_payload : LlmRequest → ModelSelection → List (String × Content)
local_payload req sel =
    ("model", word sel.model)
      ∷ ("prompt", word (prompt_of req))
      ∷ if_given "options" options req.options
    ++ unless_empty "ollama_addr" sel.addr
    ++ unless_empty "ollama_host" sel.host
    ++ unless_empty "device_id" sel.device_id

abbrev pub cloud_payload : LlmRequest → List (String × Content) → List (String × Content)
cloud_payload req model =
    model
    ++ ("messages", chat (messages_of req)) ∷ if_given "temperature" amount req.temperature
    ++ if_given "max_tokens" count req.max_tokens

abbrev pub smart_route : Env → List Pricing → LlmRequest → String → ModelSelection → Route
smart_route env table req task sel =
    let kind = kind_of sel.provider task in
    if is_local kind
    then (if prompt_of req == ""
        then refused "prompt_required"
        else routed sel.provider kind (built (local_payload req sel ++ meta env table req sel)))
    else if is_nil (messages_of req)
    then refused "messages_required"
    else routed sel.provider kind
        (built (cloud_payload req (("model", word sel.model) ∷ []) ++ meta env table req sel))

abbrev pub no_model : String → String
no_model quality = concat "no_model_available: quality=" quality

abbrev pub invalid_quality : String → String
invalid_quality quality =
    concat "invalid_quality: " (concat quality " (use turbo|economy|standard|premium|ultra|max)")

unfoldable pub route_smart_llm : Env → Db → Circuits → List Pricing → LlmRequest → Route
route_smart_llm env db circuits table req =
    let quality = to_lower (trim_space req.quality) in
    let task = word_or "chat" req.task in
    elim (quality_of quality) [
      | none ↦ refused (invalid_quality quality)
      | some q ↦
          elim (choose_model env db circuits q task (estimate_tokens req.prompt req.messages)) [
            | none ↦ refused (no_model quality)
            | some sel ↦ smart_route env table req task sel
          ]
    ]
