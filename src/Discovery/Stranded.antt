-- ===== src/Discovery/Stranded.antt =====
-- The jobs of devices found offline go back to the queue.
use llm_mcp.Prelude.{
  ℕ, String, Bool, true, false, ◌&&◌, ◌==◌, Option, ◌⊎◌, none, some, List, [], ◌∷◌, ◌≡◌, refl,
  arith, inl, inr, any, update_where, and_split, if◌then◌else◌, if_both, if_each,
}
use llm_mcp.Db.{
  Job, JobStatus, queued, running, done, error, is_running, is_active, Db, Env, reset_leases,
}
use llm_mcp.Db.Values.{arrow_text}
use llm_mcp.Queue.{set_lease, lease_live, is_waiting}
use llm_mcp.Discovery.Offline.{on_any, stranded, handle_offline_devices}

-- The rule for one row of the table.
abbrev pub Freed : Env → List String → Job → Job → Type 0
Freed env ids j k =
    ((stranded env.db_now ids j ≡ true)
      × (k ≡ set_lease env.db_now none j)
      × (is_waiting env.db_now [] k ≡ true))
    ⊎ ((stranded env.db_now ids j ≡ false) × (k ≡ j))

-- Two tables, row by row.
abbrev pub Rows : (Job → Job → Type 0) → List Job → List Job → Type 0
Rows R [] [] = Unit
Rows R (j ∷ js) (k ∷ ks) = R j k × Rows R js ks
Rows R [] (k ∷ ks) = ⊥
Rows R (j ∷ js) [] = ⊥

waiting_again : (s : JobStatus) → is_running s ≡ true → is_active s ≡ true
waiting_again running h = refl
waiting_again queued h = absurd (cc)
waiting_again done h = absurd (cc)
waiting_again error h = absurd (cc)

module _ (env : Env) (ids : List String) where
  freed :
      (j : Job)
      → Freed env ids j (if stranded env.db_now ids j then set_lease env.db_now none j else j)
  freed j =
      if_each (Freed env ids j) (stranded env.db_now ids j)
        (λ e.
          let (h, _) =
            and_split (is_running j.status && on_any ids j) (lease_live env.db_now j.lease_until)
              e in
          let (r, _) = and_split (is_running j.status) (on_any ids j) h in
          inl (e, refl, rw (waiting_again j.status r) refl))
        (λ e. inr (e, refl))

  update_leaves :
      (jobs : List Job)
      → Rows
          (Freed env ids)
          jobs
          (update_where (stranded env.db_now ids) (set_lease env.db_now none) jobs)
  update_leaves [] = tt
  update_leaves (j ∷ js) = (freed j, update_leaves js)

on_none : (o : Option String) → (elim o [ none ↦ false | some p ↦ any (λ d. p == d) [] ]) ≡ false
on_none none = refl
on_none (some p) = refl

middle_false : (a b c : Bool) → b ≡ false → (a && b && c) ≡ false
middle_false a b c h = ground arith

none_stranded : (now : ℕ) (j : Job) → stranded now [] j ≡ false
none_stranded now j =
    middle_false (is_running j.status) (on_any [] j) (lease_live now j.lease_until)
      (on_none (arrow_text "device_id" j.payload))

kept_each : (env : Env) (jobs : List Job) → Rows (Freed env []) jobs jobs
kept_each env [] = tt
kept_each env (j ∷ js) = (inr (none_stranded env.db_now j, refl), kept_each env js)

abbrev pub Settles : Env → List String → Db → Bool × Db → Type 0
Settles env ids db x =
    ((x.0 ≡ true) × Rows (Freed env ids) db.jobs x.1.jobs) ⊎ ((x.0 ≡ false) × (x.1 ≡ db))

-- The offline handler frees the stranded jobs and no others: without an error, each running job under a
-- live lease whose device is listed loses its lease and so is waiting for a claim of any kind again, and
-- every other row is as it was; with an error the database is as it was.
pub handle_offline_devices-Settles :
    (env : Env) (ids : List String) (db : Db)
    → Settles env ids db (handle_offline_devices env ids db)
unfolding handle_offline_devices
handle_offline_devices-Settles env [] db = inl (refl, kept_each env db.jobs)
handle_offline_devices-Settles env (d ∷ ds) db =
    if_both (Settles env (d ∷ ds) db) (env.down reset_leases) (inr (refl, refl))
      (inl (refl, update_leaves env (d ∷ ds) db.jobs))
