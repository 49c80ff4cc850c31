-- ===== src/Limits.antt =====
-- core/internal/limits/limits.go: which models a device may run.
pub mod Applied
pub mod Bounds
pub mod Load
use llm_mcp.Prelude.{
  ℕ, zero, suc, ◌+◌, ◌-◌, ◌*◌, ◌/◌, ◌≡◌, refl, String, Bool, true, false, not, ◌&&◌, ◌||◌, ◌==◌,
  Option, none, some, List, [], ◌∷◌, ◌++◌, map, ltb, leb, eqb, if◌then◌else◌, any, find_if,
  filter_if, update_where, trim_space,
}
use llm_mcp.Prelude.Int.{ℤ, pos, negsuc, ltb_ℤ, leb_ℤ}
use llm_mcp.Config.{Vars, getenv}
use llm_mcp.Db.Values.{arrow_text}
use llm_mcp.Db.{
  Micro, Model, DeviceModel, Names, absent, json_null, names, DeviceLimits, Device, Db, Env,
  read_limits, list_devices, upsert_limits,
}

-- models.DeviceLimitSpec: a `nil` pointer or slice is `none`.
pub record DeviceLimitSpec : Type 0 where
  pub ram_gb : Option Micro
  pub vram_gb : Option Micro
  pub max_params_b : Option Micro
  pub max_size_gb : Option Micro
  pub max_context_k : Option ℤ
  pub allow_models : Option (List String)
  pub deny_models : Option (List String)

-- A pointer to a positive number, as a number of millionths.
abbrev pub positive : Option Micro → Option ℕ
positive none = none
positive (some (pos n)) = if ltb 0 n then some n else none
positive (some (negsuc n)) = none

-- The memory that the limits are derived from: VRAM before RAM, 0 when neither is positive.
abbrev pub memory : DeviceLimitSpec → ℕ
memory spec = elim (positive spec.vram_gb) [
  | some v ↦ v
  | none ↦ elim (positive spec.ram_gb) [ some r ↦ r | none ↦ 0 ]
]

-- `math.Floor(mem*0.75*2) / 2` above 16 GB.
abbrev pub params_for : ℕ → ℕ
params_for mem =
    if leb mem 8_000_000
    then 5_000_000
    else if leb mem 16_000_000
    then 12_000_000
    else mem * 3 / 2_000_000 * 500_000

-- `math.Floor(mem*0.8*10) / 10`
abbrev pub size_for : ℕ → ℕ
size_for mem = mem * 8 / 1_000_000 * 100_000

abbrev pub context_for : ℕ → ℕ
context_for mem = if leb mem 8_000_000 then 4096 else if leb mem 16_000_000 then 8192 else 16384

-- A limit that is given stays; one that is not is derived when the memory is known.
abbrev pub derive : Option ℤ → ℕ → ℕ → Option ℤ
derive (some given) mem val = some given
derive none mem val = if ltb 0 mem then some (pos val) else none

unfoldable pub derive_device_limits : DeviceLimitSpec → DeviceLimitSpec
derive_device_limits spec =
    let mem = memory spec in
    record spec {
      max_params_b = derive spec.max_params_b mem (params_for mem);
      max_size_gb = derive spec.max_size_gb mem (size_for mem);
      max_context_k = derive spec.max_context_k mem (context_for mem);
    }

-- `json.Marshal` of a slice: the `nil` slice is the JSON `null`.
abbrev pub marshal_names : Option (List String) → Names
marshal_names none = json_null
marshal_names (some l) = names l

abbrev pub limits_row : ℕ → String → DeviceLimitSpec → DeviceLimits
limits_row now id derived = record {
  device_id = id;
  ram_gb = derived.ram_gb;
  vram_gb = derived.vram_gb;
  max_params_b = derived.max_params_b;
  max_size_gb = derived.max_size_gb;
  max_context_k = derived.max_context_k;
  allow_models = marshal_names derived.allow_models;
  deny_models = marshal_names derived.deny_models;
  updated_at = now;
}

-- `INSERT INTO device_limits … ON CONFLICT (device_id) DO UPDATE SET …`
abbrev pub upsert : DeviceLimits → List DeviceLimits → List DeviceLimits
upsert r [] = r ∷ []
upsert r (l ∷ ls) = if l.device_id == r.device_id then r ∷ ls else l ∷ upsert r ls

abbrev pub spec_of : String → List (String × DeviceLimitSpec) → Option DeviceLimitSpec
spec_of id [] = none
spec_of id ((k, s) ∷ specs) = if k == id then some s else spec_of id specs

-- The zero value of the struct.
abbrev pub no_spec : DeviceLimitSpec
no_spec = record {
  ram_gb = none;
  vram_gb = none;
  max_params_b = none;
  max_size_gb = none;
  max_context_k = none;
  allow_models = none;
  deny_models = none;
}

abbrev pub spec_for :
    List (String × DeviceLimitSpec) → Option DeviceLimitSpec → String → DeviceLimitSpec
spec_for specs default id = elim (spec_of id specs) [
  | some s ↦ s
  | none ↦ elim default [ some s ↦ s | none ↦ no_spec ]
]

abbrev pub known_device : String → List Device → Bool
known_device id devices = any (λ d. d.id == id) devices

-- One turn of the loop that writes the rows: the foreign key refuses a device that is not in the table.
unfoldable pub apply_one :
    Env → List (String × DeviceLimitSpec) → Option DeviceLimitSpec → String → Db → Option Db
apply_one env specs default id db =
    if env.down upsert_limits || not (known_device id db.devices)
    then none
    else some (record db {
      device_limits =
          upsert (limits_row env.db_now id (derive_device_limits (spec_for specs default id)))
            db.device_limits;
    })

-- The first error ends the loop; the rows written before it stay.
unfoldable pub apply_all :
    Env → List (String × DeviceLimitSpec) → Option DeviceLimitSpec → List String → Db → Bool × Db
apply_all env specs default [] db = (true, db)
apply_all env specs default (id ∷ ids) db = elim (apply_one env specs default id db) [
  | none ↦ (false, db)
  | some db' ↦ apply_all env specs default ids db'
]

-- `WHERE tags->>'ollama' = 'true'`
abbrev pub tagged_ollama : Device → Bool
tagged_ollama d = elim d.tags [
  | none ↦ false
  | some t ↦ elim (arrow_text "ollama" t) [ none ↦ false | some v ↦ v == "true" ]
]

abbrev pub unlisted : List (String × DeviceLimitSpec) → Device → Bool
unlisted specs d = elim (spec_of d.id specs) [ none ↦ true | some s ↦ false ]

unfoldable pub first_rows {ℓ} : {A : Type ℓ} → ℕ → List A → List A
first_rows zero l = []
first_rows (suc n) [] = []
first_rows (suc n) (x ∷ l) = x ∷ first_rows n l

-- The rows that `rows.Next` gives before the connection breaks; nothing asks for the error afterwards.
abbrev pub read_rows {ℓ} : {A : Type ℓ} → Option ℕ → List A → List A
read_rows none l = l
read_rows (some n) l = first_rows n l

-- `SELECT id FROM devices WHERE tags->>'ollama' = 'true'`, as far as it is read, less the ids that have a
-- spec of their own.
abbrev pub default_ids :
    Env → List (String × DeviceLimitSpec) → Option DeviceLimitSpec → Db → List String
default_ids env specs none db = []
default_ids env specs (some s) db =
    map (λ d. d.id)
      (filter_if (unlisted specs)
        (read_rows (env.cut list_devices) (filter_if tagged_ollama db.devices)))

abbrev pub is_some {ℓ} : {A : Type ℓ} → Option A → Bool
is_some none = false
is_some (some a) = true

-- `ApplyDeviceLimits` after the configuration is loaded; the flag says that no error is returned.
unfoldable pub apply_device_limits :
    Env → List (String × DeviceLimitSpec) → Option DeviceLimitSpec → Db → Bool × Db
unfolding apply_all first_rows
apply_device_limits env specs default db =
    if is_some default && env.down list_devices
    then (false, db)
    else apply_all env specs default (map (λ s. s.0) specs ++ default_ids env specs default db) db

-- `parseStringList`
abbrev pub trim_names : List String → List String
trim_names [] = []
trim_names (v ∷ vs) =
    let rest = trim_names vs in if trim_space v == "" then rest else trim_space v ∷ rest

abbrev pub parse_string_list : Names → List String
parse_string_list (names l) = trim_names l
parse_string_list _ = []

abbrev pub string_list_contains : List String → String → Bool
string_list_contains l v = any (λ x. x == v) l

abbrev pub is_empty {ℓ} : {A : Type ℓ} → List A → Bool
is_empty [] = true
is_empty (x ∷ xs) = false

abbrev pub not_in_allowlist : Names → String → Bool
not_in_allowlist stored model =
    let allow = parse_string_list stored in
    not (is_empty allow) && not (string_list_contains allow model)

abbrev pub in_denylist : Names → String → Bool
in_denylist stored model =
    let deny = parse_string_list stored in not (is_empty deny) && string_list_contains deny model

-- The three numeric checks have one shape: the reason to refuse, if there is one.
abbrev pub check_max : Bool → String → String → Option ℤ → Option ℤ → Option String
check_max strict too_large unknown max none = elim max [
  | none ↦ none
  | some m ↦ if strict then some unknown else none
]
check_max strict too_large unknown max (some v) = elim max [
  | none ↦ none
  | some m ↦ if ltb_ℤ m v then some too_large else none
]

abbrev pub first_reason : List (Option String) → Bool × String
first_reason [] = (true, "")
first_reason (none ∷ checks) = first_reason checks
first_reason (some reason ∷ checks) = (false, reason)

abbrev pub refuse_if : Bool → String → Option String
refuse_if bad reason = if bad then some reason else none

-- `LEFT JOIN`: the row of the key, if any.
abbrev pub model_row : Db → String → Option Model
model_row db id = find_if (λ m. m.id == id) db.models

abbrev pub limits_of : Db → String → Option DeviceLimits
limits_of db id = find_if (λ l. l.device_id == id) db.device_limits

abbrev pub device_model : Db → String → String → Option DeviceModel
device_model db device model =
    find_if (λ r. r.device_id == device && r.model_id == model) db.device_models

abbrev pub col {ℓ κ} : {A : Type ℓ} {B : Type κ} → Option A → (A → Option B) → Option B
col none f = none
col (some a) f = f a

abbrev pub names_col : Option DeviceLimits → (DeviceLimits → Names) → Names
names_col none f = absent
names_col (some l) f = f l

-- `config.Getenv("STRICT_MODEL_LIMITS", "0") == "1"`
abbrev pub is_strict : Vars → Bool
is_strict vars = getenv vars "STRICT_MODEL_LIMITS" "0" == "1"

unfoldable pub check_row :
    Bool → String → DeviceModel → Option Model → Option DeviceLimits → Bool × String
check_row strict model dm m dl = first_reason (
    refuse_if (not dm.available) "model_not_available"
    ∷ refuse_if (not_in_allowlist (names_col dl (λ l. l.allow_models)) model)
        "model_not_in_allowlist"
    ∷ refuse_if (in_denylist (names_col dl (λ l. l.deny_models)) model) "model_denied"
    ∷ check_max strict "model_params_too_large" "model_params_unknown"
        (col dl (λ l. l.max_params_b)) (col m (λ r. r.params_b))
    ∷ check_max strict "model_size_too_large" "model_size_unknown" (col dl (λ l. l.max_size_gb))
        (col m (λ r. r.size_gb))
    ∷ check_max strict "model_context_too_large" "model_context_unknown"
        (col dl (λ l. l.max_context_k)) (col m (λ r. r.context_k))
    ∷ [])

unfoldable pub model_allowed : Env → Db → String → String → Bool × String
unfolding check_row
model_allowed env db device_id model_id =
    let device = trim_space device_id in
    let model = trim_space model_id in
    if device == "" || model == ""
    then (true, "")
    else if env.down read_limits
    then (false, "db_error")
    else elim (device_model db device model) [
      | none ↦ (false, "model_not_on_device")
      | some dm ↦ check_row (is_strict env.vars) model dm (model_row db model) (limits_of db device)
    ]
