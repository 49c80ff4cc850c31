-- ===== src/Http/Progress.antt =====
-- A claim over HTTP is not empty as long as there is a job to hand out, and what it may hand out follows
-- the state of the devices.
use llm_mcp.Prelude.{
  String, true, false, ◌&&◌, ◌==◌, eq_iff, eq_refl, none, some, List, [], ◌∷◌, ◌≡◌, refl, sym,
  trim_space, ◌≢◌, arith, inl, inr, Has, here, there, All-Has, any, update_where, Option-cases,
  Bool-cases, and_split, blank, if_both, if_each,
}
use llm_mcp.Db.{
  update_device, Job, Device, is_online, Env, Stmt, begin_tx, commit_tx, select_job, insert_attempt,
  update_job as update_job_stmt,
}
use llm_mcp.Queue.{select_claimable, claimable, is_waiting, slot_free, device_online, device_of}
use llm_mcp.Queue.Order.{select_claimable-first, select_claimable-none, available}
use llm_mcp.Http.{Ack, Reply, reply, World, posted}
use llm_mcp.Http.Workers.{ClaimJobRequest, device_limit, handle_worker_claim}
use llm_mcp.Http.Lease.{DeviceOfflineRequest, set_offline, handle_device_offline}
use llm_mcp.Http.Claim.{claimed, lease_of, claim_cases}

found_id : (j : Job) (jobs : List Job) → Has j jobs → any (λ k. k.id == j.id) jobs ≡ true
found_id j [] m = elim m [ ]
found_id j (k ∷ ks) (here e) = rw (e, eq_refl k.id) refl
found_id j (k ∷ ks) (there m) = ground (arith, found_id j ks m)

module _ (env : Env) (req : ClaimJobRequest) (w : World) where
  first_none-absent :
      (k : Job)
      → select_claimable env.db_now env.locked req.kinds (device_limit env) w.db ≡ none
      → Has k w.db.jobs
      → available env.db_now env.locked req.kinds (device_limit env) w.db k ≡ false
  first_none-absent k e m =
      All-Has _ k w.db.jobs
        (select_claimable-none env.db_now env.locked req.kinds (device_limit env) w.db e) m

-- A claim of a named worker hands out a job (status 200 and a job) whenever some row may be claimed and is
-- not locked, provided that no statement fails and the id of the new attempt is free.
pub handle_worker_claim-hands_out :
    (env : Env) (req : ClaimJobRequest) (w : World) (k : Job)
    → blank req.worker_id ≡ false
    → ((s : Stmt) → env.down s ≡ false)
    → any (λ a. a.id == env.uuid 0) w.db.attempts ≡ false
    → Has k w.db.jobs
    → claimable env.db_now req.kinds (device_limit env) w.db k ≡ true
    → env.locked k.id ≡ false
    → (got : Job) × ((handle_worker_claim env (posted req) w).0 ≡ reply 200 (some got))
unfolding handle_worker_claim
handle_worker_claim-hands_out env req w k named up free m c l =
    elim (Option-cases (select_claimable env.db_now env.locked req.kinds (device_limit env) w.db)) [
      | inl e ↦ let n = first_none-absent env req w k e m in absurd (ground arith)
      | inr (j, e) ↦
          let (m', _, _, _) =
            select_claimable-first env.db_now env.locked req.kinds (device_limit env) w.db j e in
          (
            claimed (lease_of env req) j,
            rw
                (
                  named,
                  up begin_tx,
                  up select_job,
                  e,
                  up update_job_stmt,
                  up insert_attempt,
                  free,
                  found_id j w.db.jobs m',
                  up commit_tx,
                )
                refl,
          )
    ]

none_online :
    (env : Env) (reason d : String) (devices : List Device)
    → any
        (λ r. r.id == d && is_online r.status)
        (update_where (λ r. r.id == d) (set_offline env reason) devices)
      ≡ false
none_online env reason d [] = refl
none_online env reason d (r ∷ rs) = elim (Bool-cases (r.id == d)) [
  | inl e ↦ rw (e) (ground (arith, none_online env reason d rs))
  | inr e ↦ rw (e, e) (none_online env reason d rs)
]

not_both : true ≡ false → ⊥
not_both h = cc

blank_empty : blank "" ≡ false → ⊥
unfolding trim_space
blank_empty h = not_both h

blank_ne : (s : String) → blank s ≡ false → (s == "") ≡ false
blank_ne s h = elim (Bool-cases (s == "")) [
  | inl e ↦ let q : s ≡ "" = (eq_iff s "").0 e in absurd (blank_empty (rw q at h))
  | inr e ↦ e
]

offline_shut :
    (env : Env) (reason d : String) (devices : List Device)
    → blank d ≡ false
    → device_online (update_where (λ r. r.id == d) (set_offline env reason) devices) d ≡ false
offline_shut env reason d devices h = rw (blank_ne d h) (none_online env reason d devices)

-- What an accepted report leaves in the table of devices.
Marks : Env → DeviceOfflineRequest → World → Reply Ack × World → Type 0
Marks env off w x =
    x.0 ≡ reply 200 tt
    → (blank off.device_id ≡ false)
      × (x.1.db.devices
          ≡ update_where (λ d. d.id == off.device_id) (set_offline env off.reason) w.db.devices)

handle_device_offline-Marks :
    (env : Env) (off : DeviceOfflineRequest) (w : World)
    → Marks env off w (handle_device_offline env (posted off) w)
unfolding handle_device_offline Marks
handle_device_offline-Marks env off w =
    if_each (Marks env off w) (blank off.device_id) (λ _ h. cc)
      λ named. if_both (Marks env off w) (env.down update_device) (λ h. cc) (λ _. (named, refl))

claim_online :
    (env : Env) (req : ClaimJobRequest) (w : World) (got : Job)
    → (handle_worker_claim env (posted req) w).0 ≡ reply 200 (some got)
    → device_online w.db.devices (device_of got) ≡ true
unfolding handle_worker_claim
claim_online env req w got h = elim (claim_cases env req w) [
  | inl (_, n) ↦ absurd (n got h)
  | inr (j, s, e, _) ↦
      let (_, c, _, _) =
        select_claimable-first env.db_now env.locked req.kinds (device_limit env) w.db j s in
      let (_, on) =
        and_split
          (is_waiting env.db_now req.kinds j
            && slot_free env.db_now w.db.jobs (device_limit env) (device_of j))
          (device_online w.db.devices (device_of j)) c in
      let q : claimed (lease_of env req) j ≡ got = ground arith in rw (← q) on
]

-- Once a device is reported offline (status 200), a claim that directly follows hands out no job of that
-- device.
pub handle_worker_claim-handle_device_offline :
    (env env' : Env) (off : DeviceOfflineRequest) (req : ClaimJobRequest) (w : World) (got : Job)
    → (handle_device_offline env (posted off) w).0 ≡ reply 200 tt
    → (handle_worker_claim env' (posted req) (handle_device_offline env (posted off) w).1).0
      ≡ reply 200 (some got)
    → device_of got ≢ off.device_id
unfolding Marks
handle_worker_claim-handle_device_offline env env' off req w got ok h same =
    let (named, e) = handle_device_offline-Marks env off w ok in
    let on = claim_online env' req (handle_device_offline env (posted off) w).1 got h in
    not_both
      (sym (rw (same, e, offline_shut env off.reason off.device_id w.db.devices named) at on))
