-- ===== src/Discovery/Freed.antt =====
-- A run of discovery as seen by the queue.
use llm_mcp.Prelude.{
  ◌≡◌, String, true, false, not, ◌||◌, ◌==◌, inl, inr, refl, sym, subst, List, [], ◌∷◌, any,
  if_both,
}
use llm_mcp.Db.{
  Db, Env, upsert_model as upsert_model_stmt, upsert_device_model as upsert_device_model_stmt,
  mark_unavailable, delete_device as delete_device_stmt, reset_leases,
}
use llm_mcp.Limits.{known_device}
use llm_mcp.Discovery.Net.{Net}
use llm_mcp.Discovery.Sync.{retire}
use llm_mcp.Discovery.Run.{
  Tailscale, discover, named_self, collect_offline_device_ids, settle_offline, run,
}
use llm_mcp.Discovery.Frame.{Kept}
use llm_mcp.Discovery.Frame.Runs.{on_discover}
use llm_mcp.Discovery.Offline.{handle_offline_devices}
use llm_mcp.Discovery.Stranded.{Freed, Rows, handle_offline_devices-Settles}

-- The queue is as it was.
abbrev pub SameQueue : Db → Db → Type 0
SameQueue a b = (b.jobs ≡ a.jobs) × (b.attempts ≡ a.attempts)

same_retire :
    (env : Env) (device : String) (names : List String) (a db : Db)
    → SameQueue a db
    → SameQueue a (retire env device names db)
same_retire env device [] a db h = h
same_retire env device (n ∷ ns) a db h = if_both (SameQueue a) (env.down mark_unavailable) h h

SameQueue-Kept : (env : Env) (net : Net) (a : Db) → Kept env net (SameQueue a)
SameQueue-Kept env net a = record {
  model = λ m name db h. if_both (SameQueue a) (env.down upsert_model_stmt) h h;
  offer = λ device name db h.
      if_both (SameQueue a)
        (env.down upsert_device_model_stmt
          || not (known_device device db.devices)
          || not (any (λ m. m.id == name) db.models))
        h h;
  narrow = λ device names db h. same_retire env device names a db h;
  row = λ d f db keep h. h;
  tags = λ p f db keep h. h;
  removal = λ p db h. if_both (SameQueue a) (env.down delete_device_stmt) h h;
}

-- The probes and the scan leave the queue alone.
pub discover-SameQueue :
    (env : Env) (net : Net) (t : Tailscale) (db : Db) → SameQueue db (discover env net t db)
discover-SameQueue env net t db =
    on_discover env net (SameQueue db) (SameQueue-Kept env net db) t db (refl, refl)

answers :
    (env : Env) (ids : List String) (db : Db)
    → env.down reset_leases ≡ false
    → (handle_offline_devices env ids db).0 ≡ true
unfolding handle_offline_devices
answers env [] db h = refl
answers env (d ∷ ds) db h = rw h refl

settled :
    (env : Env) (t : Tailscale) (mid : Db)
    → named_self t ≡ true
    → settle_offline env t mid ≡ (handle_offline_devices env (collect_offline_device_ids t) mid).1
settled env t mid h = rw h refl

-- When the status of the node itself is known and its statement does not fail, a run of discovery frees
-- exactly the jobs that run under a live lease on a node whose status is offline, so that they wait for a
-- claim again, and whatever the probes of that run found, every other job is as before the run.
pub run-Rows :
    (env : Env) (net : Net) (t : Tailscale) (db : Db)
    → named_self t ≡ true
    → env.down reset_leases ≡ false
    → Rows (Freed env (collect_offline_device_ids t)) db.jobs (run env net t db).1.jobs
unfolding run
run-Rows env net t db named up =
    let mid = discover env net t db in
    let ids = collect_offline_device_ids t in
    let rows : Rows (Freed env ids) mid.jobs (handle_offline_devices env ids mid).1.jobs =
      elim (handle_offline_devices-Settles env ids mid) [
        | inl (_, r) ↦ r
        | inr (e, _) ↦ let k = answers env ids mid up in absurd (cc)
      ] in
    subst (λ (x : Db). Rows (Freed env ids) db.jobs x.jobs) (sym (settled env t mid named))
      (subst (λ js. Rows (Freed env ids) js (handle_offline_devices env ids mid).1.jobs)
        (discover-SameQueue env net t db).0 rows)
