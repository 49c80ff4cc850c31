-- ===== src/Discovery/Offered.antt =====
-- What a device offers after `syncDeviceModels`.
use llm_mcp.Prelude.{
  String, Bool, true, false, not, ◌&&◌, ◌||◌, ◌==◌, ◌≡◌, inl, inr, refl, ◌∙◌, List, [], ◌∷◌,
  if◌then◌else◌, any, update_where, trim_space, eq_iff, eq_refl, eq_comm, arith, if_both, if_each,
  Bool-cases, and_split,
}
use llm_mcp.Db.{
  Model, DeviceModel, Db, Env, upsert_model as upsert_model_stmt,
  upsert_device_model as upsert_device_model_stmt, mark_unavailable,
}
use llm_mcp.Limits.{known_device}
use llm_mcp.Discovery.Net.{Net, OllamaModel}
use llm_mcp.Discovery.Sync.{
  synced_model, upsert_model, offer, upsert_device_model, save_model, save_offer, sync_model,
  sync_all, listed_names, is_listed, retire, sync_device_models,
}

-- A device has an available row for a model.
abbrev pub offered : String → String → List DeviceModel → Bool
offered d n rows = any (λ r. r.device_id == d && r.model_id == n && r.available) rows

offered-upsert_device_model :
    (d m e n : String) (rows : List DeviceModel)
    → offered e n (upsert_device_model (offer d m) rows) ≡ (d == e && m == n || offered e n rows)
offered-upsert_device_model d m e n [] = ground arith
offered-upsert_device_model d m e n (s ∷ ss) =
    elim (Bool-cases (s.device_id == d && s.model_id == m)) [
      | inl h ↦
          let (p, q) = and_split (s.device_id == d) (s.model_id == m) h in
          let p' : s.device_id ≡ d = (eq_iff s.device_id d).0 p in
          let q' : s.model_id ≡ m = (eq_iff s.model_id m).0 q in rw (h, p', q') (ground arith)
      | inr h ↦ rw (h, offered-upsert_device_model d m e n ss) (ground arith)
    ]

any_model : (m : Model) (ms : List Model) → any (λ x. x.id == m.id) (upsert_model m ms) ≡ true
any_model m [] = rw (eq_refl m.id) refl
any_model m (x ∷ xs) = elim (Bool-cases (x.id == m.id)) [
  | inl h ↦ rw h (ground (arith, eq_refl m.id))
  | inr h ↦ rw (h, h) (any_model m xs)
]

-- A row counts for a model.
abbrev counts : String → String → DeviceModel → Bool
counts e n r = r.device_id == e && r.model_id == n && r.available

-- What may stay available on a device.
abbrev stays : String → List String → String → String → Bool
stays d names e n = not (e == d) || is_listed names n

module _ (d : String) (names : List String) (e n : String) where
  row_kept :
      (r : DeviceModel)
      → counts e n (
          if r.device_id == d && not (is_listed names r.model_id)
          then record r { available = false }
          else r)
        ≡ (stays d names e n && counts e n r)
  row_kept r = elim (Bool-cases (r.device_id == e)) [
    | inl p ↦ elim (Bool-cases (r.model_id == n)) [
      | inl q ↦
          let p' : r.device_id ≡ e = (eq_iff r.device_id e).0 p in
          let q' : r.model_id ≡ n = (eq_iff r.model_id n).0 q in
          if_each (λ x. counts e n x ≡ (stays d names e n && counts e n r))
            (r.device_id == d && not (is_listed names r.model_id)) (λ h. rw (p', q') (ground arith))
            (λ h. rw (p', q') (ground arith))
      | inr q ↦
          if_both (λ x. counts e n x ≡ (stays d names e n && counts e n r))
            (r.device_id == d && not (is_listed names r.model_id)) (ground arith) (ground arith)
    ]
    | inr p ↦
        if_both (λ x. counts e n x ≡ (stays d names e n && counts e n r))
          (r.device_id == d && not (is_listed names r.model_id)) (ground arith) (ground arith)
  ]

  offered-update_where :
      (rows : List DeviceModel)
      → offered e n (
          update_where
            (λ r. r.device_id == d && not (is_listed names r.model_id))
            (λ r. record r { available = false })
            rows)
        ≡ (stays d names e n && offered e n rows)
  offered-update_where [] = ground arith
  offered-update_where (r ∷ rs) = rw (row_kept r, offered-update_where rs) (ground arith)

module _ (env : Env) (net : Net) (d : String) where
  offered-sync_model :
      (m : OllamaModel) (e n : String) (db : Db)
      → env.down upsert_model_stmt ≡ false
      → env.down upsert_device_model_stmt ≡ false
      → known_device d db.devices ≡ true
      → offered e n (sync_model env net d m db).device_models ≡ (
          d == e && not (trim_space m.name == "") && trim_space m.name == n
          || offered e n db.device_models)
  offered-sync_model m e n db u v k = elim (Bool-cases (trim_space m.name == "")) [
    | inl h ↦ rw h (ground arith)
    | inr h ↦
        rw (h, u, v, k, any_model (synced_model net m (trim_space m.name)) db.models)
          (offered-upsert_device_model d (trim_space m.name) e n db.device_models ∙ ground arith)
  ]

  devices-save_model :
      (m : OllamaModel) (n : String) (db : Db) → (save_model env net m n db).devices ≡ db.devices
  devices-save_model m n db =
      if_both (λ (x : Db). x.devices ≡ db.devices) (env.down upsert_model_stmt) refl refl

  devices-save_offer : (n : String) (db : Db) → (save_offer env d n db).devices ≡ db.devices
  devices-save_offer n db =
      if_both (λ (x : Db). x.devices ≡ db.devices)
        (env.down upsert_device_model_stmt
          || not (known_device d db.devices)
          || not (any (λ m. m.id == n) db.models))
        refl refl

  devices-sync_model :
      (m : OllamaModel) (db : Db) → (sync_model env net d m db).devices ≡ db.devices
  devices-sync_model m db =
      let n = trim_space m.name in
      if_both (λ (x : Db). x.devices ≡ db.devices) (n == "") refl
        (devices-save_offer n (save_model env net m n db) ∙ devices-save_model m n db)

  offered-sync_all :
      (ms : List OllamaModel) (e n : String) (db : Db)
      → env.down upsert_model_stmt ≡ false
      → env.down upsert_device_model_stmt ≡ false
      → known_device d db.devices ≡ true
      → offered e n (sync_all env net d ms db).device_models
        ≡ (e == d && is_listed (listed_names ms) n || offered e n db.device_models)
  unfolding sync_all
  offered-sync_all [] e n db u v k = ground arith
  offered-sync_all (m ∷ ms) e n db u v k =
      let k' : known_device d (sync_model env net d m db).devices ≡ true =
        rw (devices-sync_model m db) k in
      offered-sync_all ms e n (sync_model env net d m db) u v k'
      ∙ rw (offered-sync_model m e n db u v k) (elim (Bool-cases (trim_space m.name == "")) [
        | inl h ↦ rw h (ground arith)
        | inr h ↦ rw (h, eq_comm d e, eq_comm (trim_space m.name) n) (ground arith)
      ])

  offered-retire :
      (x : String) (xs : List String) (e n : String) (db : Db)
      → env.down mark_unavailable ≡ false
      → offered e n (retire env d (x ∷ xs) db).device_models
        ≡ (stays d (x ∷ xs) e n && offered e n db.device_models)
  offered-retire x xs e n db h = rw h (offered-update_where d (x ∷ xs) e n db.device_models)

-- The models that a device offers once its list is taken: those listed, when a name is.
abbrev pub offers_after : String → List String → String → String → List DeviceModel → Bool
offers_after d [] e n rows = offered e n rows
offers_after d (x ∷ xs) e n rows = if e == d then is_listed (x ∷ xs) n else offered e n rows

module _ (env : Env) (net : Net) (d : String) (db : Db) where
  retired :
      (names : List String) (e n : String) (db' : Db)
      → env.down mark_unavailable ≡ false
      → offered e n db'.device_models
        ≡ (e == d && is_listed names n || offered e n db.device_models)
      → offered e n (retire env d names db').device_models
        ≡ offers_after d names e n db.device_models
  retired [] e n db' u h = h ∙ ground arith
  retired (x ∷ xs) e n db' u h = offered-retire env net d x xs e n db' u ∙ rw h (ground arith)

  -- When the device is known and no statement fails, the device then offers exactly the models that it
  -- lists under a name that is not blank, what any other device offers is as before, and a list without
  -- such a name changes nothing for any device.
  pub offered-sync_device_models :
      (models : List OllamaModel) (e n : String)
      → env.down upsert_model_stmt ≡ false
      → env.down upsert_device_model_stmt ≡ false
      → env.down mark_unavailable ≡ false
      → known_device d db.devices ≡ true
      → offered e n (sync_device_models env net d models db).device_models
        ≡ offers_after d (listed_names models) e n db.device_models
  unfolding sync_device_models
  offered-sync_device_models models e n u v w k =
      retired (listed_names models) e n (sync_all env net d models db) w
        (offered-sync_all env net d models e n db u v k)
