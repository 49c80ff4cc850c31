-- ===== src/Routing/Llm/Provider.antt =====
-- Which provider a request to a language model is sent to.
use llm_mcp.Prelude.{
  to_lower, trim_space, String, Bool, not, ◌&&◌, ◌==◌, ◌≡◌, refl, inl, inr, Option, none, some,
  List, [], if_both, if_each, blank, if◌then◌else◌,
}
use llm_mcp.Prelude.Int.{pos, ltb_ℤ}
use llm_mcp.Config.{Vars, has_openai, has_openrouter}
use llm_mcp.Db.{Db, Env}
use llm_mcp.Routing.Models.{ModelSelection, Pricing}
use llm_mcp.Routing.Circuit.{Circuits}
use llm_mcp.Routing.Llm.Request.{
  estimate_tokens, Content, prompt_of, messages_of, is_nil, LlmRequest, Route, routed, refused,
  word_or,
}
use llm_mcp.Routing.Llm.{
  cloud_or, auto_provider, provider_for, with_target, local_route, built_route, sent_route,
  plain_route, route_llm,
}
use llm_mcp.Routing.Llm.Smart.{
  Quality, quality_of, choose_model, kind_of, is_local, smart_route, no_model, invalid_quality,
  route_smart_llm,
}
use llm_mcp.Db.Values.{Json}
use llm_mcp.Limits.{is_strict, model_allowed}
use llm_mcp.Routing.Payload.{parse_payload_model_device}
use llm_mcp.Routing.Device.{DeviceTarget, select_ollama_device, has_local_ollama, meets_latency}
use llm_mcp.Routing.Llm.Choice.{Usable, Serves, choose_model-Serves}

cloud_or-Usable :
    (vars : Vars) (default : String) → Usable vars default → Usable vars (cloud_or vars default)
unfolding cloud_or
cloud_or-Usable vars default u =
    if_each (Usable vars) (has_openrouter vars) (λ e. inr (inl (refl, e)))
      (λ n. if_each (Usable vars) (has_openai vars) (λ e. inr (inr (refl, e))) (λ _. u))

auto_provider-Usable :
    (vars : Vars) (req : LlmRequest) (task : String) (local : Bool)
    → Usable vars (auto_provider vars req task local)
unfolding auto_provider
auto_provider-Usable vars req task local = if_both (Usable vars) (task == "embed") (inl refl) (
    if_both (Usable vars) (not req.force_cloud && req.prefer_local && local) (inl refl)
      (cloud_or-Usable vars "ollama" (inl refl)))

provider_for-Usable :
    (env : Env) (db : Db) (req : LlmRequest) (task : String)
    → word_or "auto" req.provider ≡ "auto"
    → Usable env.vars (provider_for env db req task)
unfolding provider_for
provider_for-Usable env db req task auto =
    let p = auto_provider env.vars req task (has_local_ollama env db) in
    let u = auto_provider-Usable env.vars req task (has_local_ollama env db) in
    let slow =
      p == "ollama"
      && ltb_ℤ (pos 0) req.max_latency_ms
      && not (req.model == "")
      && not (meets_latency env db req.model task req.max_latency_ms) in
    rw auto (if_both (Usable env.vars) slow (cloud_or-Usable env.vars p u) u)

-- A route by a provider and a kind, if it is one.
abbrev Via : String → String → Route → Type 0
Via p k (routed q l payload) = (q ≡ p) × (l ≡ k)
Via p k (refused reason) = Unit

module _ (env : Env) (db : Db) (req : LlmRequest) (p k : String) where
  with_target-Via :
      (o : Option DeviceTarget) (fields : List (String × Content))
      → Via p k (with_target env o p k fields)
  with_target-Via none fields = if_both (Via p k) (is_strict env.vars) tt (refl, refl)
  with_target-Via (some t) fields = (refl, refl)

  local_route-Via :
      (prompt : String) (extra : List (String × Content))
      → Via p k (local_route env db req p k prompt extra)
  local_route-Via prompt extra = if_both (Via p k) (prompt == "") tt (
      if_both (Via p k) (req.model == "") (refl, refl)
        (with_target-Via
          (select_ollama_device env db req.model
            (if k == "ollama.embed" then "embed" else "generate"))
          _))

  built_route-Via : Via p k (built_route env db req p k)
  built_route-Via = if_both (Via p k) (k == "ollama.generate") (local_route-Via (prompt_of req) _) (
      if_both (Via p k) (k == "ollama.embed") (local_route-Via req.prompt [])
        (if_both (Via p k) (is_nil (messages_of req)) tt (refl, refl)))

  sent_route-Via : (payload : Json) → Via p k (sent_route env db p k payload)
  sent_route-Via payload =
      if_both (Via p k)
        (p == "ollama"
          && not ((parse_payload_model_device (some payload)).0 == "")
          && not ((parse_payload_model_device (some payload)).1 == "")
          && not
              (model_allowed env db (parse_payload_model_device (some payload)).1
                (parse_payload_model_device (some payload)).0).0)
        tt (refl, refl)

-- What a route may be: by a usable provider, with the kind of the provider.
abbrev pub Sound : Env → String → Route → Type 0
Sound env task (refused reason) = Unit
Sound env task (routed p k payload) = Usable env.vars p × (k ≡ kind_of p task)

Via-Sound :
    (env : Env) (task p : String) (r : Route)
    → Usable env.vars p
    → Via p (kind_of p task) r
    → Sound env task r
Via-Sound env task p (refused reason) u v = tt
Via-Sound env task p (routed q k payload) u (e, e') = (rw e u, rw (e, e') refl)

plain_route-Sound :
    (env : Env) (db : Db) (req : LlmRequest)
    → word_or "auto" req.provider ≡ "auto"
    → Sound env (word_or "chat" req.task) (plain_route env db req)
plain_route-Sound env db req auto =
    let task = word_or "chat" req.task in
    let p = provider_for env db req task in
    let k = kind_of p task in
    let u = provider_for-Usable env db req task auto in
    if_both (Sound env task) (k == "") tt (Via-Sound env task p _ u (body p k req.payload))
  where
    body :
        (p k : String) (o : Option Json)
        → Via p k (elim o [ none ↦ built_route env db req p k | some j ↦ sent_route env db p k j ])
    body p k none = built_route-Via env db req p k
    body p k (some j) = sent_route-Via env db req p k j

smart_route-Sound :
    (env : Env) (table : List Pricing) (req : LlmRequest) (task : String) (sel : ModelSelection)
    → Usable env.vars sel.provider
    → Sound env task (smart_route env table req task sel)
smart_route-Sound env table req task sel u =
    let kind = kind_of sel.provider task in
    if_both (Sound env task) (is_local kind)
      (if_both (Sound env task) (prompt_of req == "") tt (u, refl))
      (if_both (Sound env task) (is_nil (messages_of req)) tt (u, refl))

route_smart_llm-Sound :
    (env : Env) (db : Db) (circuits : Circuits) (table : List Pricing) (req : LlmRequest)
    → Sound env (word_or "chat" req.task) (route_smart_llm env db circuits table req)
unfolding route_smart_llm
route_smart_llm-Sound env db circuits table req =
    known (quality_of (to_lower (trim_space req.quality)))
  where
    selected :
        (o : Option ModelSelection)
        → Serves env o
        → Sound env (word_or "chat" req.task) (elim o [
          | none ↦ refused (no_model (to_lower (trim_space req.quality)))
          | some sel ↦ smart_route env table req (word_or "chat" req.task) sel
        ])
    selected none u = tt
    selected (some sel) u = smart_route-Sound env table req (word_or "chat" req.task) sel u

    known :
        (o : Option Quality)
        → Sound env (word_or "chat" req.task) (elim o [
          | none ↦ refused (invalid_quality (to_lower (trim_space req.quality)))
          | some q ↦
              elim (choose_model env db circuits q
                (word_or "chat" req.task)
                (estimate_tokens req.prompt req.messages)) [
                  | none ↦ refused (no_model (to_lower (trim_space req.quality)))
                  | some sel ↦ smart_route env table req (word_or "chat" req.task) sel
                ]
        ])
    known none = tt
    known (some q) = selected _ (
        choose_model-Serves env db circuits q (word_or "chat" req.task)
          (estimate_tokens req.prompt req.messages))

-- A request that names no provider, or `auto`, is refused or routed by a provider that can serve it: by
-- `ollama`, or by `openrouter` or `openai` with the API key of that provider set. The kind of the job is
-- the one of the provider and the task. This holds of the routes by provider and of those by quality.
pub route_llm-Sound :
    (env : Env) (db : Db) (circuits : Circuits) (table : List Pricing) (req : LlmRequest)
    → word_or "auto" req.provider ≡ "auto"
    → Sound env (word_or "chat" req.task) (route_llm env db circuits table req)
unfolding route_llm
route_llm-Sound env db circuits table req auto =
    if_both (Sound env (word_or "chat" req.task)) (blank req.model && not (blank req.quality))
      (route_smart_llm-Sound env db circuits table req) (plain_route-Sound env db req auto)
