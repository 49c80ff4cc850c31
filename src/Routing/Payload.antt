-- ===== src/Routing/Payload.antt =====
-- The device and the model that a job payload names: `ParsePayloadModelDevice` in
-- core/internal/routing/router.go.
use llm_mcp.Prelude.{String, Option, none, some, trim_space}
use llm_mcp.Db.Values.{Json, field, as_string}

-- A payload of length 0 has neither.
unfoldable pub parse_payload_model_device : Option Json → String × String
parse_payload_model_device none = ("", "")
parse_payload_model_device (some j) =
    (trim_space (as_string (field "model" j)), trim_space (as_string (field "device_id" j)))
