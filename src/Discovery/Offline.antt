-- ===== src/Discovery/Offline.antt =====
-- core/internal/discovery/offline_handler.go: the leases of the jobs that run on devices found offline.
use llm_mcp.Prelude.{
  String, Bool, ◌&&◌, ◌==◌, List, [], ◌∷◌, none, some, any, update_where, if◌then◌else◌, true,
  false, ℕ,
}
use llm_mcp.Db.{is_running, Job, Db, Env, reset_leases}
use llm_mcp.Db.Values.{arrow_text}
use llm_mcp.Queue.{lease_live, set_lease}

-- `payload->>'device_id' = ANY($1)`, which NULL never is.
abbrev pub on_any : List String → Job → Bool
on_any ids j = elim (arrow_text "device_id" j.payload) [
  | none ↦ false
  | some p ↦ any (λ d. p == d) ids
]

-- `status = 'running' AND payload->>'device_id' = ANY($1) AND lease_until > now()`
abbrev pub stranded : ℕ → List String → Job → Bool
stranded now ids j = is_running j.status && on_any ids j && lease_live now j.lease_until

-- The flag says that no error is returned.
unfoldable pub handle_offline_devices : Env → List String → Db → Bool × Db
handle_offline_devices env [] db = (true, db)
handle_offline_devices env (d ∷ ds) db = if env.down reset_leases then (false, db) else (
  true,
  record db {
    jobs = update_where (stranded env.db_now (d ∷ ds)) (set_lease env.db_now none) db.jobs;
  },
)
