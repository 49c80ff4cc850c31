-- ===== src/Discovery/Sync.antt =====
-- `syncDeviceModels` in core/internal/discovery/discovery.go: the models that a device lists. The errors of
-- its statements are ignored.
use llm_mcp.Prelude.{
  String, Bool, true, false, not, ◌&&◌, ◌||◌, ◌==◌, some, List, [], ◌∷◌, if◌then◌else◌, any,
  update_where, trim_space,
}
use llm_mcp.Prelude.Int.{pos}
use llm_mcp.Db.{
  Model, DeviceModel, Db, Env, upsert_model as upsert_model_stmt,
  upsert_device_model as upsert_device_model_stmt, mark_unavailable,
}
use llm_mcp.Limits.{known_device}
use llm_mcp.Discovery.Net.{Net, OllamaModel}
use llm_mcp.Discovery.Infer.{
  infer_tier, infer_thinking, infer_context_k, infer_kind, parse_params_b, size_in_gb,
}

-- A new row, with the default of the table for its status.
abbrev pub synced_model : Net → OllamaModel → String → Model
synced_model net m name =
    let params = parse_params_b net m.parameter_size in
    record {
      id = name;
      provider = "ollama";
      kind = infer_kind name;
      tier = some (infer_tier params name);
      thinking = some (infer_thinking name m.family);
      status = some "active";
      params_b = params;
      size_gb = size_in_gb m.size;
      context_k = some (pos (infer_context_k name m.family));
    }

-- `ON CONFLICT (id) DO UPDATE`, which keeps the status.
abbrev pub upsert_model : Model → List Model → List Model
upsert_model m [] = m ∷ []
upsert_model m (n ∷ ns) =
    if n.id == m.id then record m { status = n.status } ∷ ns else n ∷ upsert_model m ns

abbrev pub offer : String → String → DeviceModel
offer device model = record { device_id = device; model_id = model; available = true }

-- `ON CONFLICT (device_id, model_id) DO UPDATE SET available = TRUE`
abbrev pub upsert_device_model : DeviceModel → List DeviceModel → List DeviceModel
upsert_device_model r [] = r ∷ []
upsert_device_model r (s ∷ ss) =
    if s.device_id == r.device_id && s.model_id == r.model_id
    then r ∷ ss
    else s ∷ upsert_device_model r ss

abbrev pub save_model : Env → Net → OllamaModel → String → Db → Db
save_model env net m name db =
    if env.down upsert_model_stmt
    then db
    else record db { models = upsert_model (synced_model net m name) db.models }

-- The foreign keys refuse a device or a model that is not in its table.
abbrev pub save_offer : Env → String → String → Db → Db
save_offer env device name db =
    if env.down upsert_device_model_stmt
      || not (known_device device db.devices)
      || not (any (λ m. m.id == name) db.models)
    then db
    else record db { device_models = upsert_device_model (offer device name) db.device_models }

-- One turn of the loop.
abbrev pub sync_model : Env → Net → String → OllamaModel → Db → Db
sync_model env net device m db =
    let name = trim_space m.name in
    if name == "" then db else save_offer env device name (save_model env net m name db)

unfoldable pub sync_all : Env → Net → String → List OllamaModel → Db → Db
sync_all env net device [] db = db
sync_all env net device (m ∷ ms) db = sync_all env net device ms (sync_model env net device m db)

-- The names that the loop collects.
abbrev pub listed_names : List OllamaModel → List String
listed_names [] = []
listed_names (m ∷ ms) =
    let rest = listed_names ms in if trim_space m.name == "" then rest else trim_space m.name ∷ rest

abbrev pub is_listed : List String → String → Bool
is_listed names name = any (λ n. name == n) names

-- `UPDATE device_models SET available = FALSE … WHERE device_id = $1 AND NOT (model_id = ANY($2))`, when
-- there is a name.
abbrev pub retire : Env → String → List String → Db → Db
retire env device [] db = db
retire env device (n ∷ ns) db = if env.down mark_unavailable then db else record db {
  device_models =
      update_where (λ r. r.device_id == device && not (is_listed (n ∷ ns) r.model_id))
        (λ r. record r { available = false }) db.device_models;
}

unfoldable pub sync_device_models : Env → Net → String → List OllamaModel → Db → Db
unfolding sync_all
sync_device_models env net device models db =
    retire env device (listed_names models) (sync_all env net device models db)
