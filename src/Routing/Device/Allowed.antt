-- ===== src/Routing/Device/Allowed.antt =====
-- The device query against the check in core/internal/limits: what the SQL selects, the Go code allows.
use llm_mcp.Prelude.{
  ap, and_split, Has, Has-filter_if, first_by-Has, ◌≡◌, refl, String, Bool, true, false, not, ◌&&◌,
  ◌==◌, eq_iff, eq_refl, Option, none, some, List, [], ◌∷◌, arith, filter_if, first_by, trim_space,
  All, inl, inr, Bool-cases, Option-cases,
}
use llm_mcp.Prelude.Int.{ℤ}
use llm_mcp.Db.{
  Model, DeviceModel, Names, absent, json_null, names, DeviceLimits, Device, Db, Env, read_limits,
  is_online,
}
use llm_mcp.Limits.{
  tagged_ollama, trim_names, string_list_contains, check_max, check_row, model_allowed, model_row,
  limits_of, device_model, col, is_strict, refuse_if, first_reason, not_in_allowlist, in_denylist,
}
use llm_mcp.Routing.Device.{
  DeviceTarget, allow_admits, deny_admits, fits, limits_admit, offers, eligible,
  select_ollama_device, target_of, faster, tag,
}

-- The stored names carry no spaces at their ends and are not empty.
abbrev pub AreTrimmed : List String → Type 0
AreTrimmed = All (λ s. (trim_space s ≡ s) × ((s == "") ≡ false))

trim_names-AreTrimmed : (l : List String) → AreTrimmed l → trim_names l ≡ l
trim_names-AreTrimmed [] h = refl
trim_names-AreTrimmed (v ∷ vs) ((t, n), h) = simp (t, n, trim_names-AreTrimmed vs h)

-- A trimmed name that the list holds, the trimmed list holds.
contains-trim_names :
    (l : List String) (m : String)
    → trim_space m ≡ m
    → (m == "") ≡ false
    → string_list_contains l m ≡ true
    → string_list_contains (trim_names l) m ≡ true
contains-trim_names [] m t n h = absurd (cc)
contains-trim_names (v ∷ vs) m t n h = elim (Bool-cases (v == m)) [
  | inl e ↦ let q : v ≡ m = (eq_iff v m).0 e in rw (q, t, n, eq_refl) refl
  | inr e ↦ let ih = contains-trim_names vs m t n (ground arith) in ground arith
]

module _ (m : String) (t : trim_space m ≡ m) (n : (m == "") ≡ false) where
  allow_agrees : (l : Names) → allow_admits l m ≡ true → not_in_allowlist l m ≡ false
  allow_agrees absent h = refl
  allow_agrees json_null h = refl
  allow_agrees (names []) h = refl
  allow_agrees (names (x ∷ l)) h = rw (contains-trim_names (x ∷ l) m t n h) (ground arith)

  deny_agrees :
      (l : List String)
      → AreTrimmed l
      → deny_admits (names l) m ≡ true
      → in_denylist (names l) m ≡ false
  deny_agrees [] a h = refl
  deny_agrees (x ∷ l) a h = rw (trim_names-AreTrimmed (x ∷ l) a) (ground arith)

fits_agrees :
    (strict : Bool) (max v : Option ℤ) (r s : String)
    → fits strict max v ≡ true
    → check_max strict r s max v ≡ none
fits_agrees strict none none r s h = refl
fits_agrees strict none (some v) r s h = refl
fits_agrees strict (some m) none r s h = ground arith
fits_agrees strict (some m) (some v) r s h = ground arith

abbrev pub NamesTrimmed : Names → Type 0
NamesTrimmed (names d) = AreTrimmed d
NamesTrimmed _ = Unit

-- The denylist of a row, if there is one, holds trimmed names.
abbrev pub DenyIsTrimmed : Option DeviceLimits → Type 0
DenyIsTrimmed none = Unit {0}
DenyIsTrimmed (some l) = NamesTrimmed l.deny_models

deny_col_agrees :
    (m : String) (t : trim_space m ≡ m) (n : (m == "") ≡ false) (l : Names)
    → NamesTrimmed l
    → deny_admits l m ≡ true
    → in_denylist l m ≡ false
deny_col_agrees m t n absent a h = refl
deny_col_agrees m t n json_null a h = refl
deny_col_agrees m t n (names d) a h = deny_agrees m t n d a h

numeric_agrees :
    (strict : Bool) (dl : Option DeviceLimits) (r : Option Model)
    → fits strict (col dl (λ l. l.max_params_b)) (col r (λ x. x.params_b)) ≡ true
    → fits strict (col dl (λ l. l.max_size_gb)) (col r (λ x. x.size_gb)) ≡ true
    → fits strict (col dl (λ l. l.max_context_k)) (col r (λ x. x.context_k)) ≡ true
    → (check_max strict "model_params_too_large" "model_params_unknown"
          (col dl (λ l. l.max_params_b))
          (col r (λ x. x.params_b))
        ≡ none)
      × (check_max strict "model_size_too_large" "model_size_unknown"
            (col dl (λ l. l.max_size_gb))
            (col r (λ x. x.size_gb))
          ≡ none)
      × (check_max strict "model_context_too_large" "model_context_unknown"
            (col dl (λ l. l.max_context_k))
            (col r (λ x. x.context_k))
          ≡ none)
numeric_agrees strict dl r p s c = (
  fits_agrees strict (col dl (λ l. l.max_params_b)) (col r (λ x. x.params_b))
      "model_params_too_large" "model_params_unknown" p,
  fits_agrees strict (col dl (λ l. l.max_size_gb)) (col r (λ x. x.size_gb)) "model_size_too_large"
      "model_size_unknown" s,
  fits_agrees strict (col dl (λ l. l.max_context_k)) (col r (λ x. x.context_k))
      "model_context_too_large" "model_context_unknown" c,
)

refuse_if-false : {b : Bool} (reason : String) → b ≡ false → refuse_if b reason ≡ none
refuse_if-false r h = ap (λ b. refuse_if b r) h

no_reason :
    {a b c d e f : Option String}
    → a ≡ none
    → b ≡ none
    → c ≡ none
    → d ≡ none
    → e ≡ none
    → f ≡ none
    → first_reason (a ∷ b ∷ c ∷ d ∷ e ∷ f ∷ []) ≡ (true, "")
no_reason p q r s t u = rw (p, q, r, s, t, u) refl

check_row_agrees :
    (strict : Bool) (m : String) (dm : DeviceModel) (r : Option Model) (dl : Option DeviceLimits)
    → trim_space m ≡ m
    → (m == "") ≡ false
    → DenyIsTrimmed dl
    → dm.available ≡ true
    → limits_admit strict m r dl ≡ true
    → check_row strict m dm r dl ≡ (true, "")
unfolding check_row
check_row_agrees strict m dm r none t n a v h =
    let (params, size, context) = numeric_agrees strict none r refl refl refl in
    no_reason (rw v) refl refl params size context
check_row_agrees strict m dm r (some dl) t n a v h =
    let (g1, h5) = and_split _ _ h in
    let (g2, h4) = and_split _ _ g1 in
    let (g3, h3) = and_split _ _ g2 in
    let (h1, h2) = and_split _ _ g3 in
    let (params, size, context) = numeric_agrees strict (some dl) r h3 h4 h5 in
    no_reason (rw v)
      (refuse_if-false "model_not_in_allowlist" (allow_agrees m t n dl.allow_models h1))
      (refuse_if-false "model_denied" (deny_col_agrees m t n dl.deny_models a h2)) params size
      context

-- The device that the query selects stands in the table and is eligible.
pub select_ollama_device-eligible :
    (env : Env) (db : Db) (model task : String) (t : DeviceTarget)
    → select_ollama_device env db model task ≡ some t
    → (d : Device) × Has d db.devices
      × (eligible (is_strict env.vars) db model d ≡ true)
      × (t ≡ target_of d)
      × ((trim_space model == "") ≡ false)
unfolding select_ollama_device
select_ollama_device-eligible env db model task t h =
    let ok = eligible (is_strict env.vars) db model in
    elim (Option-cases (first_by (faster db model task) (filter_if ok db.devices))) [
      | inl e ↦ absurd (ground arith)
      | inr (d, e) ↦
          let (p, m) = Has-filter_if ok d db.devices (first_by-Has (faster db model task) d _ e) in
          (d, m, p, ground arith, ground arith)
    ]

offers-some :
    (db : Db) (model : String) (d : Device)
    → offers db model d ≡ true
    → (dm : DeviceModel) × (device_model db d.id model ≡ some dm) × (dm.available ≡ true)
offers-some db model d h = elim (Option-cases (device_model db d.id model)) [
  | inl e ↦ absurd (ground arith)
  | inr (dm, e) ↦ (dm, e, ground arith)
]

pub eligible_parts :
    (strict : Bool) (db : Db) (model : String) (d : Device)
    → eligible strict db model d ≡ true
    → (offers db model d ≡ true)
      × (limits_admit strict model (model_row db model) (limits_of db d.id) ≡ true)
unfolding eligible
eligible_parts strict db model d ok =
    let (g, l) =
      and_split
        (is_online d.status
          && tagged_ollama d
          && not (tag "ollama_addr" d == "")
          && offers db model d)
        (limits_admit strict model (model_row db model) (limits_of db d.id)) ok in
    let (_, o) =
      and_split (is_online d.status && tagged_ollama d && not (tag "ollama_addr" d == ""))
        (offers db model d) g in
    (o, l)

model_allowed-eligible :
    (env : Env) (db : Db) (model : String) (d : Device)
    → eligible (is_strict env.vars) db model d ≡ true
    → trim_space model ≡ model
    → (model == "") ≡ false
    → trim_space d.id ≡ d.id
    → DenyIsTrimmed (limits_of db d.id)
    → env.down read_limits ≡ false
    → model_allowed env db d.id model ≡ (true, "")
unfolding model_allowed
model_allowed-eligible env db model d ok tm n td deny up =
    let (o, l) = eligible_parts (is_strict env.vars) db model d ok in
    let (dm, e, v) = offers-some db model d o in
    elim (Bool-cases (d.id == "")) [
      | inl b ↦ simp (td, tm, b)
      | inr b ↦
          simp (td, tm, b, n, up, e)
            (check_row_agrees (is_strict env.vars) model dm (model_row db model) (limits_of db d.id)
              tm n deny v l)
    ]

-- Whatever device the query selects for a model, the check of core/internal/limits allows the model on
-- it, when the name of the model and the id of the device carry no spaces at their ends, the device's
-- denylist holds trimmed names, and the check can read the database.
pub model_allowed-select_ollama_device :
    (env : Env) (db : Db) (model task : String) (t : DeviceTarget)
    → select_ollama_device env db model task ≡ some t
    → trim_space model ≡ model
    → trim_space t.id ≡ t.id
    → DenyIsTrimmed (limits_of db t.id)
    → env.down read_limits ≡ false
    → model_allowed env db t.id model ≡ (true, "")
model_allowed-select_ollama_device env db model task t h tm td deny up =
    let (d, m, ok, e, n) = select_ollama_device-eligible env db model task t h in
    let q : t.id ≡ d.id = ap (λ (x : DeviceTarget). x.id) e in
    rw q (model_allowed-eligible env db model d ok tm (rw tm at n) (rw q at td) (rw q at deny) up)
