-- ===== src/Limits/Applied.antt =====
-- What `ApplyDeviceLimits` leaves in the table `device_limits`.
use llm_mcp.Prelude.{
  ◌≡◌, refl, ap, ◌∙◌, ◌&&◌, String, true, ◌==◌, eq_iff, eq_refl, Option, some, List, [], ◌∷◌, ◌++◌,
  map, arith, if◌then◌else◌, find_if, Has, here, there, inl, inr, ◌⊎◌, Bool-cases, Option-cases,
}
use llm_mcp.Db.{DeviceLimits, Db, Env, list_devices}
use llm_mcp.Limits.{
  DeviceLimitSpec, derive_device_limits, limits_row, upsert, spec_for, apply_one, apply_all,
  apply_device_limits, default_ids, limits_of, is_some,
}

abbrev find_row : String → List DeviceLimits → Option DeviceLimits
find_row id = find_if (λ l. l.device_id == id)

find_row-upsert :
    (r : DeviceLimits) (id : String) (ls : List DeviceLimits)
    → find_row id (upsert r ls) ≡ (if r.device_id == id then some r else find_row id ls)
find_row-upsert r id [] = refl
find_row-upsert r id (l ∷ ls) = ground (
  arith,
  find_row-upsert r id ls,
  eq_iff l.device_id r.device_id,
  eq_iff l.device_id id,
  eq_iff r.device_id id,
)

-- The row that the configuration asks for.
abbrev pub wanted_row :
    Env → List (String × DeviceLimitSpec) → Option DeviceLimitSpec → String → DeviceLimits
wanted_row env specs default id =
    limits_row env.db_now id (derive_device_limits (spec_for specs default id))

module _ (env : Env) (specs : List (String × DeviceLimitSpec))
    (default : Option DeviceLimitSpec) where
  apply_one_row :
      (k id : String) (db db' : Db)
      → apply_one env specs default k db ≡ some db'
      → limits_of db' id
        ≡ (if k == id then some (wanted_row env specs default k) else limits_of db id)
  unfolding apply_one
  apply_one_row k id db db' h =
      let e : db'.device_limits ≡ upsert (wanted_row env specs default k) db.device_limits =
        ground arith in
      rw e (find_row-upsert (wanted_row env specs default k) id db.device_limits)

  settled :
      (k id : String) (ids : List String) (db db' : Db)
      → apply_one env specs default k db ≡ some db'
      → (limits_of db id ≡ some (wanted_row env specs default id)) ⊎ Has id (k ∷ ids)
      → (limits_of db' id ≡ some (wanted_row env specs default id)) ⊎ Has id ids
  settled k id ids db db' h (inl e) = elim (Bool-cases (k == id)) [
    | inl b ↦
        let q : k ≡ id = (eq_iff k id).0 b in
        inl (apply_one_row k id db db' h ∙ rw b (ap (λ x. some (wanted_row env specs default x)) q))
    | inr b ↦ inl (apply_one_row k id db db' h ∙ rw b e)
  ]
  settled k id ids db db' h (inr (here q)) =
      inl (apply_one_row k id db db' h ∙ rw (q, eq_refl k) refl)
  settled k id ids db db' h (inr (there m)) = inr m

  -- A row that is as wanted stays so, and the loop makes the row of each of its ids so.
  apply_all_row :
      (id : String) (ids : List String) (db : Db)
      → (apply_all env specs default ids db).0 ≡ true
      → (limits_of db id ≡ some (wanted_row env specs default id)) ⊎ Has id ids
      → limits_of (apply_all env specs default ids db).1 id ≡ some (wanted_row env specs default id)
  unfolding apply_all
  apply_all_row id [] db h (inl e) = e
  apply_all_row id [] db h (inr m) = elim m [ ]
  apply_all_row id (k ∷ ids) db h s = elim (Option-cases (apply_one env specs default k db)) [
    | inl e ↦ absurd (ground arith)
    | inr (db', e) ↦
        rw (e, apply_all)
          (apply_all_row id ids db' (rw (e, apply_all) at h) (settled k id ids db db' e s))
  ]

  pub apply_device_limits_row :
      (db : Db) (id : String)
      → (apply_device_limits env specs default db).0 ≡ true
      → Has id (map (λ s. s.0) specs ++ default_ids env specs default db)
      → limits_of (apply_device_limits env specs default db).1 id
        ≡ some (wanted_row env specs default id)
  unfolding apply_device_limits
  apply_device_limits_row db id h m = elim (Bool-cases (is_some default && env.down list_devices)) [
    | inl e ↦ absurd (ground arith)
    | inr e ↦ rw e (apply_all_row id _ db (rw e at h) (inr m))
  ]
