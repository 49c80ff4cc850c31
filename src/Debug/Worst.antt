-- ===== src/Debug/Worst.antt =====
-- What the status of HandleDebugHealth says of the tables.
use llm_mcp.Prelude.{
  ℕ, suc, ◌≡◌, refl, sym, ap, ◌∙◌, ◌↔◌, ◌+◌, Bool, true, false, not, ◌&&◌, List, [], ◌∷◌, ltb, eqb,
  if◌then◌else◌, count_if, any, All, Bool-cases, inl, inr, arith,
}
use llm_mcp.Db.{Device, is_online, Db, Env, ping, count_jobs, count_hosts, count_workers}
use llm_mcp.Debug.{is_live_worker, is_base_host, workers_online}
use llm_mcp.Debug.Health.{Level, ok, warning, error, set_worst, is_stuck, hosts_level, health}

module _ {ℓ} {A : Type ℓ} (p : A → Bool) where
  count_none : (xs : List A) → count_if p xs ≡ 0 → All (λ x. p x ≡ false) xs
  count_none [] h = tt
  count_none (x ∷ xs) h = elim (Bool-cases (p x)) [
    | inl e ↦ let k : suc (count_if p xs) ≡ 0 = rw e at h in absurd (omega arith)
    | inr e ↦ (e, count_none xs (rw e at h))
  ]

  none_count : (xs : List A) → All (λ x. p x ≡ false) xs → count_if p xs ≡ 0
  none_count [] h = refl
  none_count (x ∷ xs) (e, h) = rw e (none_count xs h)

  any-count_if : (xs : List A) → any p xs ≡ not (eqb (count_if p xs) 0)
  any-count_if [] = refl
  any-count_if (x ∷ xs) = elim (Bool-cases (p x)) [
    | inl e ↦ rw e (ground arith)
    | inr e ↦ rw e (any-count_if xs)
  ]

-- The table behind a good state: no job runs past its lease, every host is online, and a worker is there.
pub record IsFine (now : ℕ) (db : Db) : Type 0 where
  pub leases : All (λ j. is_stuck now j ≡ false) db.jobs
  pub hosts : All (λ d. (is_base_host d && not (is_online d.status)) ≡ false) db.devices
  pub workers : any (is_live_worker now) db.devices ≡ true

-- The worst of four levels, the first good.
abbrev worst : Level → Level → Level → Level
worst q h k = set_worst (set_worst (set_worst (set_worst ok ok) q) h) k

abbrev level_of : ℕ → ℕ → ℕ → ℕ → ℕ → Level
level_of stuck total on off live =
    worst (if ltb 0 stuck then warning else ok) (hosts_level total on off)
      (if eqb live 0 then warning else ok)

level_of-ok :
    (stuck total on off live : ℕ)
    → level_of stuck total on off live ≡ ok
    → (stuck ≡ 0) × (off ≡ 0) × (eqb live 0 ≡ false)
level_of-ok stuck total on off live e = ground arith

ok-level_of :
    (stuck total on off live : ℕ)
    → total ≡ on + off
    → stuck ≡ 0
    → off ≡ 0
    → eqb live 0 ≡ false
    → level_of stuck total on off live ≡ ok
ok-level_of stuck total on off live t p q r = ground arith

-- The hosts are the online ones and the others.
count_split :
    (ds : List Device)
    → count_if (λ d. is_base_host d && true) ds
      ≡ count_if (λ d. is_base_host d && is_online d.status) ds
        + count_if (λ d. is_base_host d && not (is_online d.status)) ds
count_split [] = refl
count_split (d ∷ ds) =
    split (is_base_host d) (is_online d.status) (count_if (λ d. is_base_host d && true) ds)
      (count_if (λ d. is_base_host d && is_online d.status) ds)
      (count_if (λ d. is_base_host d && not (is_online d.status)) ds) (count_split ds)
  where
    split :
        (a b : Bool) (m n k : ℕ)
        → m ≡ n + k
        → (if a && true then suc m else m)
          ≡ (if a && b then suc n else n) + (if a && not b then suc k else k)
    split true true m n k e = omega arith
    split true false m n k e = omega arith
    split false b m n k e = e

-- Every host is down, and there is one.
pub record IsDown (db : Db) : Type 0 where
  pub some_host : any is_base_host db.devices ≡ true
  pub hosts : All (λ d. (is_base_host d && is_online d.status) ≡ false) db.devices

level_of-error :
    (stuck total on off live : ℕ)
    → (level_of stuck total on off live ≡ error) ↔ ((on ≡ 0) × (eqb total 0 ≡ false))
level_of-error stuck total on off live = (λ e. ground arith, λ (p, q). ground arith)

base_hosts :
    (ds : List Device) → count_if (λ d. is_base_host d && true) ds ≡ count_if is_base_host ds
base_hosts [] = refl
base_hosts (d ∷ ds) = elim (Bool-cases (is_base_host d)) [
  | inl e ↦ rw e (ap suc (base_hosts ds))
  | inr e ↦ rw e (base_hosts ds)
]

module _ (env : Env) (db : Db) where
  abbrev stuck : ℕ
  stuck = count_if (is_stuck env.db_now) db.jobs

  abbrev total : ℕ
  total = count_if (λ d. is_base_host d && true) db.devices

  abbrev on : ℕ
  on = count_if (λ d. is_base_host d && is_online d.status) db.devices

  abbrev off : ℕ
  off = count_if (λ d. is_base_host d && not (is_online d.status)) db.devices

  abbrev live : ℕ
  live = count_if (is_live_worker env.db_now) db.devices

  abbrev levels : Level
  levels = level_of stuck total on off live

  levels-IsFine : (levels ≡ ok) ↔ IsFine env.db_now db
  levels-IsFine = (
    λ e.
        let (p, q, r) = level_of-ok stuck total on off live e in
        record {
          leases = count_none (is_stuck env.db_now) db.jobs p;
          hosts = count_none (λ d. is_base_host d && not (is_online d.status)) db.devices q;
          workers = any-count_if (is_live_worker env.db_now) db.devices ∙ rw r refl;
        },
    λ fine.
        let h : not (eqb live 0) ≡ true =
          sym (any-count_if (is_live_worker env.db_now) db.devices) ∙ fine.workers in
        ok-level_of stuck total on off live (count_split db.devices)
          (none_count (is_stuck env.db_now) db.jobs fine.leases)
          (none_count (λ d. is_base_host d && not (is_online d.status)) db.devices fine.hosts)
          (ground arith),
  )

  levels-IsDown : (levels ≡ error) ↔ IsDown db
  levels-IsDown =
      let (to, back) = level_of-error stuck total on off live in
      let same : any is_base_host db.devices ≡ not (eqb total 0) =
        any-count_if is_base_host db.devices
        ∙ ap (λ n. not (eqb n 0)) (sym (base_hosts db.devices)) in
      (
        λ e.
            let (p, q) = to e in
            record {
              some_host = same ∙ rw q refl;
              hosts = count_none (λ d. is_base_host d && is_online d.status) db.devices p;
            },
        λ down.
            let h : not (eqb total 0) ≡ true = sym same ∙ down.some_host in
            back (
              none_count (λ d. is_base_host d && is_online d.status) db.devices down.hosts,
              ground arith,
            ),
      )

-- When no statement fails, the status is `ok` exactly when no running job is past its lease, every host is
-- online, and some worker that is online was seen in the last ten minutes; it is `error` exactly when there are hosts and
-- none of them is online.
pub health-IsFine :
    (env : Env) (db : Db)
    → env.down ping ≡ false
    → env.down count_jobs ≡ false
    → env.down count_hosts ≡ false
    → env.down count_workers ≡ false
    → (((health env db).level ≡ ok) ↔ IsFine env.db_now db)
      × (((health env db).level ≡ error) ↔ IsDown db)
unfolding health workers_online
health-IsFine env db a b c d =
    rw (a, health)
      (rw (b, health)
        (rw (c, health) (rw (d, workers_online) (levels-IsFine env db, levels-IsDown env db))))
