-- ===== src/Examples/Llm.antt =====
-- The theorems on routes, at a request without a provider.
use llm_mcp.Routing.Circuit.{get, is_device_degraded}
use llm_mcp.Prelude.{
  any, true, false, ◌==◌, none, some, [], ◌∷◌, ◌≡◌, refl, if◌then◌else◌, trim_space, to_lower,
}
use llm_mcp.Prelude.Int.{pos}
use llm_mcp.Db.{Env, Db}
use llm_mcp.Routing.Models.{find_local_model}
use llm_mcp.Routing.Models.Local.{Found, find_local_model-Found}
use llm_mcp.Routing.Llm.{route_llm}
use llm_mcp.Routing.Llm.Request.{LlmRequest}
use llm_mcp.Routing.Llm.Provider.{Sound, route_llm-Sound}
use llm_mcp.Examples.Data.{env_at, two_jobs}

abbrev ask : LlmRequest
ask = record {
  task = "";
  provider = "";
  model = "";
  prompt = "hello";
  messages = [];
  temperature = none;
  max_tokens = none;
  options = none;
  payload = none;
  quality = "turbo";
  thinking = none;
  prefer_local = false;
  force_cloud = true;
  max_latency_ms = pos 0;
}

-- The environment with a key.
abbrev env_key : Env
env_key = record (env_at 100) { vars = λ k. if k == "OPENROUTER_API_KEY" then "key" else "" }

-- A small model on the device.
abbrev with_tiny : Db
with_tiny = record two_jobs.db {
  models =
      record {
        id = "m";
        provider = "ollama";
        kind = "chat";
        tier = some "tiny";
        thinking = none;
        status = none;
        params_b = some (pos 1_000_000);
        size_gb = none;
        context_k = some (pos 8);
      }
      ∷ [];
  device_models = record { device_id = "d1"; model_id = "m"; available = true } ∷ [];
}

tiny_selected :
    any
      (λ sel. sel.model == "m")
      (elim (find_local_model (env_at 100) with_tiny [] ("tiny" ∷ []) 1 false) [
        | none ↦ []
        | some sel ↦ sel ∷ []
      ])
    ≡ true
unfolding find_local_model is_device_degraded get
tiny_selected = refl

route_llm-Sound_example : Sound env_key "chat" (route_llm env_key with_tiny [] [] ask)
unfolding trim_space to_lower
route_llm-Sound_example = route_llm-Sound env_key with_tiny [] [] ask refl

find_local_model-Found_example :
    Found
      (env_at 100)
      with_tiny
      []
      ("tiny" ∷ [])
      1
      (find_local_model (env_at 100) with_tiny [] ("tiny" ∷ []) 1 false)
find_local_model-Found_example =
    find_local_model-Found (env_at 100) with_tiny [] ("tiny" ∷ []) 1 false
