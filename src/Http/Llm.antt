-- ===== src/Http/Llm.antt =====
-- `HandleLLMRequest` in core/internal/api/handlers.go: a request to a model is routed and put into the queue.
-- `json.Marshal` of a payload is a parameter.
use llm_mcp.Prelude.{
  ℕ, String, ◌==◌, Option, none, some, if◌then◌else◌, blank, to_lower, trim_space, List,
}
use llm_mcp.Prelude.Int.{ℤ, pos}
use llm_mcp.Db.{Job, Env, add_duration, seconds}
use llm_mcp.Db.Values.{Json}
use llm_mcp.Routing.Models.{Pricing}
use llm_mcp.Routing.Llm.Request.{LlmRequest, Payload, Route, routed, refused}
use llm_mcp.Routing.Llm.{route_llm}
use llm_mcp.Http.{Reply, reply, fail, Request, World, post}
use llm_mcp.Http.Jobs.{new_job, insert_row, or_three}

-- models.LLMRequest: the part that is routed, and that of the job.
pub record LlmSubmit : Type 0 where
  pub llm : LlmRequest
  pub priority : ℤ
  pub source : String
  pub max_attempts : ℤ
  pub deadline_at : String

-- models.LLMResponse
pub record LlmResponse : Type 0 where
  pub job_id : String
  pub provider : String
  pub kind : String

-- `qualityTimeouts`
abbrev pub quality_timeout : String → Option ℤ
quality_timeout q =
    if q == "turbo"
    then some (pos 15)
    else if q == "economy"
    then some (pos 30)
    else if q == "standard"
    then some (pos 60)
    else if q == "premium"
    then some (pos 90)
    else if q == "ultra"
    then some (pos 120)
    else if q == "max"
    then some (pos 180)
    else none

abbrev pub auto_deadline : Env → String → Option ℕ
auto_deadline env quality = elim (quality_timeout (to_lower (trim_space quality))) [
  | none ↦ none
  | some secs ↦ some (add_duration env.app_now (seconds secs))
]

-- The deadline that is given, or that of the quality; an ill-formed one is `none`.
abbrev pub deadline_of : Env → LlmSubmit → Option (Option ℕ)
deadline_of env req =
    if blank req.deadline_at
    then some (auto_deadline env req.llm.quality)
    else elim (env.parse_time req.deadline_at) [ none ↦ none | some t ↦ some (some t) ]

abbrev pub llm_job : Env → (Payload → Json) → LlmSubmit → String → Payload → Option ℕ → Job
llm_job env encode req kind payload deadline =
    new_job env kind (encode payload) req.priority req.source (or_three req.max_attempts) deadline

abbrev pub store_llm : Env → String → Job → World → Reply LlmResponse × World
store_llm env provider j w = elim (insert_row env j w.db) [
  | none ↦ (fail 500 "db_insert_failed", w)
  | some db ↦ (
    reply 202 (record { job_id = j.id; provider = provider; kind = j.kind }),
    record w { db = db },
  )
]

-- What follows the routing.
abbrev pub queue_route :
    Env → (Payload → Json) → LlmSubmit → World → Route → Reply LlmResponse × World
queue_route env encode req w (refused reason) = (fail 400 "routing_failed", w)
queue_route env encode req w (routed provider kind payload) = elim (deadline_of env req) [
  | none ↦ (fail 400 "invalid_deadline_at", w)
  | some deadline ↦ store_llm env provider (llm_job env encode req kind payload deadline) w
]

unfoldable pub handle_llm_request :
    Env → (Payload → Json) → List Pricing → Request LlmSubmit → World → Reply LlmResponse × World
unfolding post
handle_llm_request env encode table r w =
    post r w (λ req. queue_route env encode req w (route_llm env w.db w.circuits table req.llm))
