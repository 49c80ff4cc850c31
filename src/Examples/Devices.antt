-- ===== src/Examples/Devices.antt =====
-- The theorems on devices, circuits and limits, and on the gRPC server.
use llm_mcp.Prelude.{
  ℕ, ◌≡◌, refl, ◌≢◌, String, true, false, none, some, List, [], ◌∷◌, here, trim_space,
}
use llm_mcp.Prelude.Int.{pos}
use llm_mcp.Db.{Device, Db}
use llm_mcp.Db.Values.{object}
use llm_mcp.Limits.{
  DeviceLimitSpec, derive_device_limits, apply_device_limits, apply_one, limits_of, model_allowed,
  not_in_allowlist, names_col,
}
use llm_mcp.Routing.Circuit.{get}
use llm_mcp.Routing.Circuit.History.{Report, replay, expected, get-replay}
use llm_mcp.Routing.Device.{DeviceTarget, select_ollama_device, eligible}
use llm_mcp.Routing.Device.Allowed.{model_allowed-select_ollama_device}
use llm_mcp.Routing.Device.Ineligible.{select_ollama_device-apply_device_limits}
use llm_mcp.Http.{World, posted}
use llm_mcp.Http.Workers.{handle_worker_claim}
use llm_mcp.Grpc.Jobs.{claim_job}
use llm_mcp.Grpc.Agree.{Agree, message, handle_worker_claim-claim_job}
use llm_mcp.Examples.Data.{env_at, device_d1, two_jobs, claim_60, world_of, waiting_job}

abbrev failure_at : ℕ → Report
failure_at t = record { at = t; device_id = "d1"; success = false }

abbrev three_failures : List Report
three_failures = failure_at 30 ∷ failure_at 20 ∷ failure_at 10 ∷ []

get-replay_example : get (replay three_failures) "d1" ≡ expected "d1" three_failures
get-replay_example = get-replay "d1" three_failures (λ q. cc)

abbrev free_job : World
free_job = world_of (waiting_job "c" (pos 0) (object []) ∷ [])

handle_worker_claim-claim_job_example :
    Agree free_job
      (handle_worker_claim (env_at 100) (posted claim_60) free_job)
      (claim_job (env_at 100) (message claim_60) free_job.db)
unfolding trim_space
handle_worker_claim-claim_job_example =
    handle_worker_claim-claim_job (env_at 100) claim_60 free_job refl (refl, tt)

-- 24 GB of memory, and nothing else.
abbrev spec_24 : DeviceLimitSpec
spec_24 = record {
  ram_gb = some (pos 24_000_000);
  vram_gb = none;
  max_params_b = none;
  max_size_gb = none;
  max_context_k = none;
  allow_models = none;
  deny_models = none;
}

abbrev spec_48 : DeviceLimitSpec
spec_48 = record spec_24 { ram_gb = some (pos 48_000_000) }

abbrev config_d1 : List (String × DeviceLimitSpec)
config_d1 = ("d1", spec_24) ∷ []

-- The device has a small model.
abbrev with_model : Db
with_model = record two_jobs.db {
  models =
      record {
        id = "m";
        provider = "ollama";
        kind = "chat";
        tier = none;
        thinking = none;
        status = none;
        params_b = some (pos 7_000_000);
        size_gb = some (pos 4_000_000);
        context_k = some (pos 8);
      }
      ∷ [];
  device_models = record { device_id = "d1"; model_id = "m"; available = true } ∷ [];
}

abbrev target_d1 : DeviceTarget
target_d1 = record { id = "d1"; addr = "http://h:11434"; host = "" }

model_allowed-select_ollama_device_example :
    model_allowed (env_at 100) with_model "d1" "m" ≡ (true, "")
unfolding select_ollama_device eligible trim_space model_allowed
model_allowed-select_ollama_device_example =
    model_allowed-select_ollama_device (env_at 100) with_model "m" "generate" target_d1 refl refl
      refl tt refl

abbrev device_d2 : Device
device_d2 = record device_d1 { id = "d2" }

-- A second device without limits, which is what the query then selects.
abbrev two_devices : Db
two_devices = record with_model {
  devices = device_d1 ∷ device_d2 ∷ [];
  device_models =
      record { device_id = "d1"; model_id = "m"; available = true }
      ∷ record { device_id = "d2"; model_id = "m"; available = true }
      ∷ [];
}

select_ollama_device-apply_device_limits_example :
    (device_d2.id ≢ device_d1.id)
    × (not_in_allowlist
          (names_col
            (limits_of (apply_device_limits (env_at 100) config_d1 none two_devices).1 "d1")
            (λ l. l.allow_models))
          "m"
        ≡ false)
unfolding select_ollama_device eligible trim_space apply_device_limits derive_device_limits
    apply_one
select_ollama_device-apply_device_limits_example =
    select_ollama_device-apply_device_limits (env_at 100) (env_at 200) config_d1 none two_devices
      "d1" "m" "generate" (record target_d1 { id = "d2" }) refl (here refl) refl refl
