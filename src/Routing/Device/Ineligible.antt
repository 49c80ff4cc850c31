-- ===== src/Routing/Device/Ineligible.antt =====
-- A device whose configuration names no `allow_models` after `ApplyDeviceLimits`: the `nil` slice is
-- stored as the JSON `null`, which the device query takes for a list without the model.
use llm_mcp.Prelude.{
  ◌≡◌, refl, sym, ap, ◌∙◌, ◌≢◌, String, Bool, true, false, Option, none, some, List, map, arith,
  ◌++◌, Has,
}
use llm_mcp.Db.{DeviceLimits, json_null, Device, Db, Env}
use llm_mcp.Limits.{
  DeviceLimitSpec, spec_for, derive_device_limits, apply_device_limits, default_ids, limits_of,
  model_row, is_strict, not_in_allowlist, names_col,
}
use llm_mcp.Limits.Applied.{wanted_row, apply_device_limits_row}
use llm_mcp.Routing.Device.{DeviceTarget, limits_admit, eligible, select_ollama_device}
use llm_mcp.Routing.Device.Allowed.{select_ollama_device-eligible, eligible_parts}

null_list_ineligible :
    (strict : Bool) (db : Db) (model : String) (d : Device) (l : DeviceLimits)
    → limits_of db d.id ≡ some l
    → l.allow_models ≡ json_null
    → eligible strict db model d ≢ true
null_list_ineligible strict db model d l e n ok =
    let (_, a) = eligible_parts strict db model d ok in
    let b : limits_admit strict model (model_row db model) (some l) ≡ true = rw e at a in
    ground arith

-- After `ApplyDeviceLimits` has applied, with no error, a specification without `allow_models` to a
-- device, the device query never selects that device, for any model and task and whatever else the
-- specification says; the allowlist check of `ModelAllowed` refuses no model on that row.
pub select_ollama_device-apply_device_limits :
    (env later : Env) (specs : List (String × DeviceLimitSpec)) (default : Option DeviceLimitSpec)
    (db : Db) (id model task : String) (t : DeviceTarget)
    → (apply_device_limits env specs default db).0 ≡ true
    → Has id (map (λ s. s.0) specs ++ default_ids env specs default db)
    → (spec_for specs default id).allow_models ≡ none
    → select_ollama_device later (apply_device_limits env specs default db).1 model task ≡ some t
    → (t.id ≢ id)
      × (not_in_allowlist
            (names_col
              (limits_of (apply_device_limits env specs default db).1 id)
              (λ l. l.allow_models))
            model
          ≡ false)
unfolding derive_device_limits
select_ollama_device-apply_device_limits env later specs default db id model task t h m n s =
    let db' = (apply_device_limits env specs default db).1 in
    let row = apply_device_limits_row env specs default db id h m in
    let (d, _, ok, e, _) = select_ollama_device-eligible later db' model task t s in
    (
      λ q.
          null_list_ineligible (is_strict later.vars) db' model d (wanted_row env specs default id)
            (ap (limits_of db') (sym (ap (λ (x : DeviceTarget). x.id) e) ∙ q) ∙ row) (rw n) ok,
      rw (row, n) refl,
    )
