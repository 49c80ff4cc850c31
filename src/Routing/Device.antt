-- ===== src/Routing/Device.antt =====
-- The device queries of core/internal/routing/router.go: the best device for a model, whether any is
-- online, the latency test and the address of a device.
pub mod Allowed
pub mod Ineligible
use llm_mcp.Prelude.{
  ℕ, ◌≡◌, refl, String, Bool, true, false, not, ◌&&◌, ◌||◌, ◌==◌, Option, none, some, List, [], ◌∷◌,
  ltb, eqb, if◌then◌else◌, any, find_if, filter_if, first_by, trim_space,
}
use llm_mcp.Prelude.Int.{ℤ, pos, ltb_ℤ, leb_ℤ}
use llm_mcp.Db.Values.{Json, arrow_text, coalesce}
use llm_mcp.Db.{
  Model, DeviceModel, Names, absent, json_null, names, DeviceLimits, Device, Benchmark, is_online,
  Db, Env, select_device,
}
use llm_mcp.Limits.{
  tagged_ollama, string_list_contains, model_row, limits_of, device_model, col, names_col,
  is_strict,
}

-- models.DeviceTarget
pub record DeviceTarget : Type 0 where
  pub id : String
  pub addr : String
  pub host : String

-- `COALESCE(d.tags->>'k', '')`
abbrev pub tag : String → Device → String
tag k d = elim d.tags [ none ↦ "" | some t ↦ coalesce (arrow_text k t) "" ]

-- `dl.allow_models IS NULL OR dl.allow_models = '[]' OR dl.allow_models ? $1`
abbrev pub allow_admits : Names → String → Bool
allow_admits absent model = true
allow_admits json_null model = false
allow_admits (names []) model = true
allow_admits (names (x ∷ l)) model = string_list_contains (x ∷ l) model

-- `dl.deny_models IS NULL OR dl.deny_models = '[]' OR NOT (dl.deny_models ? $1)`
abbrev pub deny_admits : Names → String → Bool
deny_admits absent model = true
deny_admits json_null model = true
deny_admits (names []) model = true
deny_admits (names (x ∷ l)) model = not (string_list_contains (x ∷ l) model)

-- `dl.max IS NULL OR (v IS NOT NULL AND v <= dl.max) OR ($3 = 0 AND v IS NULL)`
abbrev pub fits : Bool → Option ℤ → Option ℤ → Bool
fits strict none v = true
fits strict (some m) none = not strict
fits strict (some m) (some v) = leb_ℤ v m

abbrev pub limits_admit : Bool → String → Option Model → Option DeviceLimits → Bool
limits_admit strict model m dl =
    allow_admits (names_col dl (λ l. l.allow_models)) model
    && deny_admits (names_col dl (λ l. l.deny_models)) model
    && fits strict (col dl (λ l. l.max_params_b)) (col m (λ r. r.params_b))
    && fits strict (col dl (λ l. l.max_size_gb)) (col m (λ r. r.size_gb))
    && fits strict (col dl (λ l. l.max_context_k)) (col m (λ r. r.context_k))

-- `JOIN device_models dm ON … AND dm.available = TRUE`
abbrev pub offers : Db → String → Device → Bool
offers db model d = elim (device_model db d.id model) [ none ↦ false | some dm ↦ dm.available ]

-- The joins and the WHERE clause of `SelectOllamaDevice`.
unfoldable pub eligible : Bool → Db → String → Device → Bool
eligible strict db model d =
    is_online d.status
    && tagged_ollama d
    && not (tag "ollama_addr" d == "")
    && offers db model d
    && limits_admit strict model (model_row db model) (limits_of db d.id)

-- The latest benchmark of a device, model and task: `ORDER BY created_at DESC LIMIT 1`.
abbrev pub latest_benchmark : Db → String → String → String → Option Benchmark
latest_benchmark db device model task =
    first_by (λ a b. ltb b.created_at a.created_at)
      (filter_if (λ b. b.device_id == device && b.model_id == model && b.task_type == task)
        db.benchmarks)

-- A column's order with NULLS LAST: the first argument comes strictly first.
abbrev pub desc_first : Option ℤ → Option ℤ → Bool
desc_first none b = false
desc_first (some a) none = true
desc_first (some a) (some b) = ltb_ℤ b a

abbrev pub asc_first : Option ℤ → Option ℤ → Bool
asc_first none b = false
asc_first (some a) none = true
asc_first (some a) (some b) = ltb_ℤ a b

abbrev pub as_int : Option ℕ → Option ℤ
as_int none = none
as_int (some n) = some (pos n)

-- `ORDER BY tps DESC NULLS LAST, latency ASC NULLS LAST, d.last_seen DESC NULLS LAST`
abbrev pub faster : Db → String → String → Device → Device → Bool
faster db model task a b =
    let x = latest_benchmark db a.id model task in
    let y = latest_benchmark db b.id model task in
    let tps_a = col x (λ r. r.tps) in
    let tps_b = col y (λ r. r.tps) in
    let lat_a = col x (λ r. r.latency_ms) in
    let lat_b = col y (λ r. r.latency_ms) in
    desc_first tps_a tps_b
    || (not (desc_first tps_b tps_a)
        && (asc_first lat_a lat_b
            || (not (asc_first lat_b lat_a)
                && desc_first (as_int a.last_seen) (as_int b.last_seen))))

abbrev pub target_of : Device → DeviceTarget
target_of d = record { id = d.id; addr = tag "ollama_addr" d; host = tag "ollama_host" d }

unfoldable pub select_ollama_device : Env → Db → String → String → Option DeviceTarget
select_ollama_device env db model task =
    if trim_space model == "" || env.down select_device
    then none
    else elim (first_by (faster db model task)
        (filter_if (eligible (is_strict env.vars) db model) db.devices)) [
          | none ↦ none
          | some d ↦ some (target_of d)
        ]

-- `SELECT 1 FROM devices WHERE status='online' AND tags->>'ollama'='true'`
unfoldable pub has_local_ollama : Env → Db → Bool
has_local_ollama env db =
    not (env.down select_device) && any (λ d. is_online d.status && tagged_ollama d) db.devices

-- The latest benchmark of the model and task on any device; a NULL latency does not scan.
unfoldable pub meets_latency : Env → Db → String → String → ℤ → Bool
meets_latency env db model task max_ms =
    if env.down select_device
    then false
    else elim (first_by (λ a b. ltb b.created_at a.created_at)
        (filter_if (λ b. b.model_id == model && b.task_type == task) db.benchmarks)) [
          | none ↦ false
          | some b ↦ elim b.latency_ms [
            | none ↦ false
            | some ms ↦ ltb_ℤ (pos 0) ms && leb_ℤ ms max_ms
          ]
        ]

abbrev pub tag_text : String → Device → Option String
tag_text k d = elim d.tags [ none ↦ none | some t ↦ arrow_text k t ]

-- `none` is an error; without `ollama_addr` both texts are empty.
unfoldable pub fetch_device_addr : Env → Db → String → Option (String × String)
fetch_device_addr env db id =
    if env.down select_device then none else elim (find_if (λ d. d.id == id) db.devices) [
      | none ↦ none
      | some d ↦ elim (tag_text "ollama_addr" d) [
        | none ↦ some ("", "")
        | some addr ↦ some (addr, coalesce (tag_text "ollama_host" d) "")
      ]
    ]
