-- ===== src/Queue/Slots.antt =====
-- How many slots of a device a claim takes.
use llm_mcp.Prelude.{
  ℕ, ◌+◌, ◌≤◌, ◌≡◌, refl, ◌≢◌, String, Bool, true, false, ◌&&◌, ◌||◌, ◌==◌, eq_iff, eq_refl, some,
  List, [], ◌∷◌, arith, Has, here, there, All, All-Has, count_if, inl, inr, Bool-cases, and_split,
}
use llm_mcp.Prelude.Int.{ℤ, pos, ◌≤ℤ◌, ltb_ℤ}
use llm_mcp.Db.{Job, Db}
use llm_mcp.Queue.{
  lease_live, device_of, occupies, running_on, slot_free, claimable, is_waiting, device_online,
  update_job, set_running,
}

-- The primary key of the table `jobs`.
abbrev pub UniqueIds : List Job → Type 0
UniqueIds [] = Unit {0}
UniqueIds (j ∷ js) = All (λ k. (k.id == j.id) ≡ false) js × UniqueIds js

module _ (id : String) (f : Job → Job) where
  pub update_job-absent :
      (jobs : List Job) → All (λ k. (k.id == id) ≡ false) jobs → update_job id f jobs ≡ jobs
  update_job-absent [] h = refl
  update_job-absent (j ∷ js) (h, hs) = rw (h, update_job-absent js hs)

module _ (p : Job → Bool) (f : Job → Job) where
  count_if-update_job :
      (jobs : List Job) (id : String)
      → UniqueIds jobs
      → count_if p (update_job id f jobs) ≤ count_if p jobs + 1
  count_if-update_job [] id u = omega arith
  count_if-update_job (j ∷ js) id (h, u) = elim (Bool-cases (j.id == id)) [
    | inl e ↦
        let q : j.id ≡ id = (eq_iff j.id id).0 e in
        rw (e, update_job-absent id f js (rw q at h)) (ground arith)
    | inr e ↦ rw e (ground (arith, count_if-update_job js id u))
  ]

  count_if-update_job_quiet :
      (jobs : List Job) (j : Job)
      → UniqueIds jobs
      → Has j jobs
      → p (f j) ≡ false
      → count_if p (update_job j.id f jobs) ≤ count_if p jobs
  count_if-update_job_quiet [] j u m q = elim m [ ]
  count_if-update_job_quiet (k ∷ ks) j (h, u) (here e) q =
      let a : All (λ x. (x.id == j.id) ≡ false) ks = rw (← e) at h in
      rw (← e, eq_refl j.id, update_job-absent j.id f ks a, q) (ground arith)
  count_if-update_job_quiet (k ∷ ks) j (h, u) (there m) q =
      let other : (j.id == k.id) ≡ false = All-Has (λ x. (x.id == k.id) ≡ false) j ks h m in
      ground (arith, count_if-update_job_quiet ks j u m q, eq_iff j.id k.id, eq_iff k.id j.id)

and_false : (a : Bool) → (a && false) ≡ false
and_false a = ground arith

room_for_one :
    (n : ℕ) (limit : ℤ) (b : Bool)
    → b ≡ false
    → (b || ltb_ℤ (pos n) limit) ≡ true
    → pos (n + 1) ≤ℤ limit
room_for_one n limit b e h = ground arith

≤ℤ_down : (m n : ℕ) (limit : ℤ) → m ≤ n → pos n ≤ℤ limit → pos m ≤ℤ limit
≤ℤ_down m n limit h k = omega arith

not_empty : (d : String) → d ≢ "" → (d == "") ≡ false
not_empty d n = ground (arith, eq_iff d "")

-- Taking a row that may be claimed keeps every device within the limit.
pub running_on-set_running :
    (now stamp lease : ℕ) (kinds : List String) (limit : ℤ) (db : Db) (j : Job) (d : String)
    → UniqueIds db.jobs
    → Has j db.jobs
    → claimable now kinds limit db j ≡ true
    → d ≢ ""
    → pos (running_on now db.jobs d) ≤ℤ limit
    → pos (running_on now (update_job j.id (set_running stamp lease) db.jobs) d) ≤ℤ limit
running_on-set_running now stamp lease kinds limit db j d u m c n within =
    let p = occupies now d in
    let f = set_running stamp lease in
    elim (Bool-cases (device_of j == d)) [
      | inl e ↦
          let q : device_of j ≡ d = (eq_iff (device_of j) d).0 e in
          let (c', _) =
            and_split (is_waiting now kinds j && slot_free now db.jobs limit (device_of j))
              (device_online db.devices (device_of j)) c in
          let (_, free) =
            and_split (is_waiting now kinds j) (slot_free now db.jobs limit (device_of j)) c' in
          ≤ℤ_down (running_on now (update_job j.id f db.jobs) d) (running_on now db.jobs d + 1)
            limit (count_if-update_job p f db.jobs j.id u)
            (room_for_one (running_on now db.jobs d) limit (d == "") (not_empty d n) (rw q at free))
      | inr e ↦
          ≤ℤ_down (running_on now (update_job j.id f db.jobs) d) (running_on now db.jobs d) limit
            (count_if-update_job_quiet p f db.jobs j u m
              (rw e (and_false (lease_live now (some lease)))))
            within
    ]
