-- ===== src/Examples/Requests.antt =====
-- The theorems on streams, specifications, and requests to models and benchmarks.
use llm_mcp.Prelude.{
  ◌≡◌, refl, String, true, false, ◌==◌, none, some, List, [], ◌∷◌, trim_space, to_lower,
  if◌then◌else◌,
}
use llm_mcp.Prelude.Int.{pos}
use llm_mcp.Config.{Vars}
use llm_mcp.Db.{Job, Db, running, done}
use llm_mcp.Db.Values.{Json, object, str}
use llm_mcp.Limits.{DeviceLimitSpec}
use llm_mcp.Limits.Load.{Specs, Decided, load_device_limit_specs, load_device_limit_specs-last}
use llm_mcp.Routing.Llm.Request.{Payload}
use llm_mcp.Routing.Llm.{provider_for, route_llm}
use llm_mcp.Routing.Payload.{parse_payload_model_device}
use llm_mcp.Http.{reply, posted}
use llm_mcp.Http.Read.{is_uuid, fetch_job}
use llm_mcp.Http.Stream.{Turn, elapsed, notified, status, Connection, handle_job_stream}
use llm_mcp.Http.Reported.{handle_job_stream-told}
use llm_mcp.Http.Llm.{LlmSubmit, LlmResponse, handle_llm_request}
use llm_mcp.Http.Bench.{BenchmarkRunRequest, Fields}
use llm_mcp.Http.Scanner.{scan_lines}
use llm_mcp.Http.Lines.{scan_lines-lines_of}
use llm_mcp.Grpc.Stream.{Tick, tick}
use llm_mcp.System.Routed.{IsQueued, get_job-handle_llm_request}
use llm_mcp.Examples.Data.{env_at, two_jobs, world_of, waiting_job}

abbrev uuid_0 : String
uuid_0 = "00000000-0000-0000-0000-000000000000"

abbrev streamed : Job
streamed = waiting_job uuid_0 (pos 0) (object [])

abbrev db_of : Job → Db
db_of j = (world_of (j ∷ [])).db

-- The job starts, is read twice, and is done.
abbrev turns : List Turn
turns =
    notified uuid_0 (env_at 10) (db_of (record streamed { status = running }))
    ∷ elapsed (env_at 20) (db_of (record streamed { status = running }))
    ∷ notified "other" (env_at 25) (db_of (record streamed { status = done }))
    ∷ notified uuid_0 (env_at 30) (db_of (record streamed { status = done }))
    ∷ elapsed (env_at 40) (db_of streamed)
    ∷ []

abbrev connected : Connection
connected = record { flushes = true; acquired = true; listens = true }

handle_job_stream-told_example :
    handle_job_stream (env_at 5) connected "GET" uuid_0 (db_of streamed) turns
    ≡ reply 200 (
      status streamed
          ∷ status (record streamed { status = running })
          ∷ status (record streamed { status = done })
          ∷ [],
      true,
    )
unfolding is_uuid fetch_job
handle_job_stream-told_example =
    handle_job_stream-told (env_at 5) connected uuid_0 (db_of streamed) turns refl refl refl

abbrev ticks : List Tick
ticks =
    tick (env_at 10) (db_of streamed) true
    ∷ tick (env_at 20) (db_of (record streamed { status = done })) true
    ∷ []

abbrev spec_8 : DeviceLimitSpec
spec_8 = record {
  ram_gb = some (pos 8_000_000);
  vram_gb = none;
  max_params_b = none;
  max_size_gb = none;
  max_context_k = none;
  allow_models = none;
  deny_models = none;
}

abbrev entries : Specs
entries = (" d1 ", spec_8) ∷ ("*", record spec_8 { ram_gb = none }) ∷ ("", spec_8) ∷ []

abbrev limits_vars : Vars
limits_vars key = if key == "DEVICE_LIMITS_JSON" then "{...}" else ""

load_device_limit_specs-last_example :
    Decided
      (λ raw. some entries)
      (trim_space (limits_vars "DEVICE_LIMITS_JSON"))
      "d1"
      (load_device_limit_specs (λ file. none) (λ raw. some entries) limits_vars)
unfolding trim_space
load_device_limit_specs-last_example =
    load_device_limit_specs-last (λ file. none) (λ raw. some entries) limits_vars "d1" refl

abbrev embed_request : LlmSubmit
embed_request = record {
  llm = record {
    task = "embed";
    provider = "ollama";
    model = "m";
    prompt = "text";
    messages = [];
    temperature = none;
    max_tokens = none;
    options = none;
    payload = some (object (("model", str "m") ∷ []));
    quality = "turbo";
    thinking = none;
    prefer_local = true;
    force_cloud = false;
    max_latency_ms = pos 0;
  };
  priority = pos 1;
  source = "test";
  max_attempts = pos 0;
  deadline_at = "";
}

abbrev encode : Payload → Json
encode p = object []

abbrev embedded : LlmResponse
embedded = record { job_id = "u1"; provider = "ollama"; kind = "ollama.embed" }

get_job-handle_llm_request_example :
    IsQueued
      (env_at 100)
      (env_at 200)
      encode
      embed_request
      (route_llm (env_at 100) two_jobs.db two_jobs.circuits [] embed_request.llm)
      embedded
      (handle_llm_request (env_at 100) encode [] (posted embed_request) two_jobs).1.db
unfolding handle_llm_request route_llm trim_space provider_for to_lower parse_payload_model_device
get_job-handle_llm_request_example =
    get_job-handle_llm_request (env_at 100) (env_at 200) encode [] embed_request two_jobs embedded
      refl

abbrev bench_request : BenchmarkRunRequest
bench_request = record {
  provider = " Ollama ";
  model = "m";
  task_type = "";
  prompt = "text";
  runs = pos 2;
  priority = pos 0;
  device_id = "d1";
}

abbrev encode_fields : Fields → Json
encode_fields fields = object []

-- `ab`, a carriage return and a newline, and `cd`, cut within the first line's end.
scan_lines-lines_of_example :
    scan_lines 7
      (record { buf = []; chunks = (97 ∷ 98 ∷ 13 ∷ []) ∷ (10 ∷ 99 ∷ 100 ∷ []) ∷ []; last = [] })
    ≡ (97 ∷ 98 ∷ []) ∷ (99 ∷ 100 ∷ []) ∷ []
scan_lines-lines_of_example = scan_lines-lines_of ((97 ∷ 98 ∷ 13 ∷ []) ∷ (10 ∷ 99 ∷ 100 ∷ []) ∷ [])
