-- ===== src/Http/Exclusive.antt =====
-- How long a claim keeps a job for its worker.
use llm_mcp.Prelude.{
  ℕ, ◌+◌, ◌*◌, ◌≤◌, ◌<◌, ◌≡◌, refl, sym, ap, subst, ◌∙◌, ◌≢◌, String, true, ◌&&◌, ◌==◌, eq_iff,
  Option, some, List, arith, ltb, Has, Has-update_where, inl, inr, and_split, Bool-cases,
}
use llm_mcp.Prelude.Int.{ℤ, pos}
use llm_mcp.Db.{Job, Db, Env, add_duration, seconds, is_active}
use llm_mcp.Queue.{
  claimable, is_waiting, lease_free, kind_wanted, slot_free, device_online, device_of, update_job,
  set_running,
}
use llm_mcp.Queue.Order.{select_claimable-first}
use llm_mcp.Http.{Reply, reply, World, posted}
use llm_mcp.Http.Workers.{ClaimJobRequest, lease_or, device_limit, handle_worker_claim}
use llm_mcp.Http.Claim.{claim_cases, lease_of, claimed}

claimable-lease_free :
    (now : ℕ) (kinds : List String) (limit : ℤ) (db : Db) (j : Job)
    → claimable now kinds limit db j ≡ true
    → lease_free now j.lease_until ≡ true
claimable-lease_free now kinds limit db j h =
    let (g, _) =
      and_split (is_waiting now kinds j && slot_free now db.jobs limit (device_of j))
        (device_online db.devices (device_of j)) h in
    let (w, _) = and_split (is_waiting now kinds j) (slot_free now db.jobs limit (device_of j)) g in
    let (v, _) =
      and_split (is_active j.status && lease_free now j.lease_until) (kind_wanted kinds j.kind) w in
    (and_split (is_active j.status) (lease_free now j.lease_until) v).1

-- A lease of at most 9223372036 seconds does not overflow an int64 of nanoseconds.
seconds-exact : (n : ℕ) → n ≤ 9_223_372_036 → seconds (pos n) ≡ pos (1_000_000_000 * n)
seconds-exact n h = ground arith

lease_or_pos : (m : ℕ) → 0 < m → lease_or (pos 60) (pos m) ≡ pos m
lease_or_pos m q = ground arith

lease_of-exact :
    (env : Env) (req : ClaimJobRequest) (n : ℕ)
    → req.lease_seconds ≡ pos n
    → 0 < n
    → n ≤ 9_223_372_036
    → lease_of env req ≡ env.app_now + 1_000_000_000 * n
lease_of-exact env req n e p h = rw (e, lease_or_pos n p, seconds-exact n h) refl

-- After the update every row of the claimed id carries the lease.
leased :
    (id : String) (stamp lease : ℕ) (jobs : List Job) (k : Job)
    → Has k (update_job id (set_running stamp lease) jobs)
    → k.id ≡ id
    → k.lease_until ≡ some lease
leased id stamp lease jobs k m q =
    let (b, _, e) = Has-update_where (λ j. j.id == id) (set_running stamp lease) k jobs m in
    elim (Bool-cases (b.id == id)) [
      | inl t ↦
          let e' : k ≡ set_running stamp lease b = rw t at e in ap (λ (j : Job). j.lease_until) e'
      | inr f ↦
          let e' : k ≡ b = rw f at e in
          let q' : b.id ≡ id = sym (ap (λ (j : Job). j.id) e') ∙ q in
          absurd (ground (arith, eq_iff b.id id))
    ]

same_id :
    (got got' j k : Job) (a a' : Reply (Option Job)) (x y : ℕ)
    → a ≡ reply 200 (some got)
    → a ≡ reply 200 (some (claimed x j))
    → a' ≡ reply 200 (some got')
    → a' ≡ reply 200 (some (claimed y k))
    → got'.id ≡ got.id
    → k.id ≡ j.id
same_id got got' j k a a' x y u v u' v' z = ground arith

-- While the lease of a claimed job lasts, a claim by any worker that directly follows does not hand the
-- job out again: not up to the claim's time plus the lease, for a lease of 1 to 9223372036 seconds.
pub handle_worker_claim_twice :
    (env later : Env) (req req' : ClaimJobRequest) (w : World) (got got' : Job) (n : ℕ)
    → req.lease_seconds ≡ pos n
    → 0 < n
    → n ≤ 9_223_372_036
    → later.db_now ≤ env.app_now + 1_000_000_000 * n
    → (handle_worker_claim env (posted req) w).0 ≡ reply 200 (some got)
    → (handle_worker_claim later (posted req') (handle_worker_claim env (posted req) w).1).0
      ≡ reply 200 (some got')
    → got'.id ≢ got.id
unfolding handle_worker_claim
handle_worker_claim_twice env later req req' w got got' n s p b t h h' q =
    elim (claim_cases env req w) [
      | inl (_, refuses) ↦ absurd (refuses got h)
      | inr (j, _, e, e') ↦
          elim (claim_cases later req' (handle_worker_claim env (posted req) w).1) [
            | inl (_, refuses) ↦ absurd (refuses got' h')
            | inr (k, s', f, _) ↦
                let w' = (handle_worker_claim env (posted req) w).1 in
                let (m, c, _, _) =
                  select_claimable-first later.db_now later.locked req'.kinds (device_limit later)
                    w'.db k s' in
                overlap j k (lease_of env req) later.db_now
                  (same_id got got' j k _ _ (lease_of env req) (lease_of later req') h e h' f q)
                  (subst (λ (x : World). Has k x.db.jobs) e' m)
                  (claimable-lease_free later.db_now req'.kinds (device_limit later) w'.db k c)
                  (rw (lease_of-exact env req n s p b) t)
          ]
    ]
  where
    overlap :
        (j k : Job) (lease now : ℕ)
        → k.id ≡ j.id
        → Has k (update_job j.id (set_running env.db_now lease) w.db.jobs)
        → lease_free now k.lease_until ≡ true
        → now ≤ lease
        → ⊥
    overlap j k lease now z m c u =
        let l = leased j.id env.db_now lease w.db.jobs k m z in
        let c' : lease_free now (some lease) ≡ true = rw l at c in ground arith

-- From 9223372037 to 18446744073 seconds the product with `time.Second` is negative as an int64.
back :
    (n now : ℕ)
    → 9_223_372_037 ≤ n
    → n ≤ 18_446_744_073
    → 0 < now
    → add_duration now (seconds (pos n)) < now
back n now l u p = ground arith

lease_of_overflow :
    (env : Env) (req : ClaimJobRequest) (n : ℕ)
    → req.lease_seconds ≡ pos n
    → 9_223_372_037 ≤ n
    → n ≤ 18_446_744_073
    → 0 < env.app_now
    → lease_of env req < env.app_now
lease_of_overflow env req n e l u p =
    rw (e, lease_or_pos n (omega arith)) (back n env.app_now l u p)

-- A claim that asks for 9223372037 to 18446744073 seconds gets a lease that is over at once: from the
-- time of the claim on, every row of the claimed job has a lease that counts as free.
pub handle_worker_claim_overflow :
    (env : Env) (req : ClaimJobRequest) (w : World) (got k : Job) (n later : ℕ)
    → req.lease_seconds ≡ pos n
    → 9_223_372_037 ≤ n
    → n ≤ 18_446_744_073
    → 0 < env.app_now
    → env.app_now ≤ later
    → (handle_worker_claim env (posted req) w).0 ≡ reply 200 (some got)
    → Has k (handle_worker_claim env (posted req) w).1.db.jobs
    → k.id ≡ got.id
    → lease_free later k.lease_until ≡ true
unfolding handle_worker_claim
handle_worker_claim_overflow env req w got k n later s l u p t h m q =
    elim (claim_cases env req w) [
      | inl (_, refuses) ↦ absurd (refuses got h)
      | inr (j, _, e, e') ↦
          let z : k.id ≡ j.id = ground arith in
          let x =
            leased j.id env.db_now (lease_of env req) w.db.jobs k
              (subst (λ (x : World). Has k x.db.jobs) e' m) z in
          let y = lease_of_overflow env req n s l u p in
          rw x (over (lease_of env req) later (omega arith))
    ]
  where
    over : (a b : ℕ) → a < b → ltb a b ≡ true
    over a b c = ground arith
