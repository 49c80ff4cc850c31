-- ===== src/Debug/Unnoticed.antt =====
-- The job of a smoke test, against the claims of workers.
use llm_mcp.Prelude.{
  ℕ, ◌≡◌, refl, ap, ◌∙◌, String, Bool, true, false, not, ◌&&◌, ◌||◌, ◌==◌, eq_refl, Option, List,
  [], ◌∷◌, ◌++◌, inl, inr, ◌⊎◌, if_both, if_each, or_false, Bool-cases, count_if, filter_if,
  first_by, update_where,
}
use llm_mcp.Prelude.Int.{ℤ, pos, ltb_ℤ}
use llm_mcp.Db.{Job, Db, Env, insert_job, update_job as update_job_stmt}
use llm_mcp.Queue.{
  before, occupies, running_on, is_waiting, device_of, device_online, claimable, select_claimable,
}
use llm_mcp.Queue.Invariant.{has_id, Inv-insert, Sound}
use llm_mcp.Http.{Reply, World}
use llm_mcp.Debug.Smoke.{Smoke, test_job, mark_tested, finish_test, smoke_reply, handle_debug_test}

update_where-absent :
    (j : Job) (f : Job → Job) (jobs : List Job)
    → has_id j.id jobs ≡ false
    → update_where (λ k. k.id == j.id) f (jobs ++ j ∷ []) ≡ jobs ++ f j ∷ []
update_where-absent j f [] h = rw (eq_refl j.id) refl
update_where-absent j f (k ∷ ks) h =
    let (e, m) = or_false (k.id == j.id) (has_id j.id ks) h in
    rw e (ap (λ l. k ∷ l) (update_where-absent j f ks m))

module _ {ℓ} {A : Type ℓ} (p q : A → Bool) (same : (x : A) → p x ≡ q x) (t : A)
    (out : q t ≡ false) where
  filter_if-append : (xs : List A) → filter_if p (xs ++ t ∷ []) ≡ filter_if q xs
  filter_if-append [] = rw (same t, out) refl
  filter_if-append (x ∷ xs) = rw (same x, filter_if-append xs) refl

  count_if-append : (xs : List A) → count_if p (xs ++ t ∷ []) ≡ count_if q xs
  count_if-append [] = rw (same t, out) refl
  count_if-append (x ∷ xs) = rw (same x, count_if-append xs) refl

-- The table with a job that is done.
abbrev with_done : Db → Job → Db
with_done db t = record db { jobs = db.jobs ++ mark_tested t ∷ [] }

select_claimable-with_done :
    (now : ℕ) (locked : String → Bool) (kinds : List String) (limit : ℤ) (db : Db) (t : Job)
    → select_claimable now locked kinds limit (with_done db t)
      ≡ select_claimable now locked kinds limit db
unfolding select_claimable
select_claimable-with_done now locked kinds limit db t = ap (first_by before) (
    filter_if-append (λ j. claimable now kinds limit (with_done db t) j && not (locked j.id))
      (λ j. claimable now kinds limit db j && not (locked j.id)) same (mark_tested t) refl db.jobs)
  where
    slots : (d : String) → running_on now (with_done db t).jobs d ≡ running_on now db.jobs d
    slots d =
        count_if-append (occupies now d) (occupies now d) (λ x. refl) (mark_tested t) refl db.jobs

    same :
        (j : Job)
        → (claimable now kinds limit (with_done db t) j && not (locked j.id))
          ≡ (claimable now kinds limit db j && not (locked j.id))
    same j =
        ap
          (λ (n : ℕ).
            (is_waiting now kinds j
              && (device_of j == "" || ltb_ℤ (pos n) limit)
              && device_online db.devices (device_of j))
            && not (locked j.id))
          (slots (device_of j))

-- What a test writes when its update does not fail.
finished :
    (env : Env) (db : Db)
    → env.down update_job_stmt ≡ false
    → has_id (test_job env).id db.jobs ≡ false
    → finish_test env (record db { jobs = db.jobs ++ test_job env ∷ [] })
      ≡ with_done db (test_job env)
finished env db u free = rw u (
    ap (λ (l : List Job). record db { jobs = l })
      (update_where-absent (test_job env) mark_tested db.jobs free))

-- A smoke test whose update does not fail is not noticed by the workers: before and after it the claim
-- query of the HTTP server returns the same row, whatever kinds, slots and locks it is asked with and
-- whether or not the row of the test could be inserted.
pub select_claimable-handle_debug_test :
    (env : Env) (get : String → Option ℕ) (method : String) (w : World) (now : ℕ)
    (locked : String → Bool) (kinds : List String) (limit : ℤ)
    → env.down update_job_stmt ≡ false
    → select_claimable now locked kinds limit (handle_debug_test env get method w).1.db
      ≡ select_claimable now locked kinds limit w.db
unfolding handle_debug_test
select_claimable-handle_debug_test env get method w now locked kinds limit u =
    if_both Same (not (method == "POST")) refl (
      if_each (λ o. Same (smoke_reply env get w o))
        (env.down insert_job || has_id (test_job env).id w.db.jobs) (λ _. refl)
        (λ free.
          ap (select_claimable now locked kinds limit)
            (finished env w.db u (or_false (env.down insert_job) _ free).1)
          ∙ select_claimable-with_done now locked kinds limit w.db (test_job env)))
  where
    Same : Reply Smoke × World → Type 0
    Same x =
        select_claimable now locked kinds limit x.1.db
        ≡ select_claimable now locked kinds limit w.db

-- A smoke test keeps the invariant of the job tables.
pub Sound-handle_debug_test :
    (env : Env) (get : String → Option ℕ) (method : String) (w : World)
    → Sound w.db
    → Sound (handle_debug_test env get method w).1.db
unfolding handle_debug_test
Sound-handle_debug_test env get method w v = if_both Kept (not (method == "POST")) v (
    if_each (λ o. Kept (smoke_reply env get w o))
      (env.down insert_job || has_id (test_job env).id w.db.jobs) (λ _. v)
      (λ h. wrote (or_false (env.down insert_job) _ h).1 (Bool-cases (env.down update_job_stmt))))
  where
    Kept : Reply Smoke × World → Type 0
    Kept x = Sound x.1.db

    wrote :
        has_id (test_job env).id w.db.jobs ≡ false
        → (env.down update_job_stmt ≡ true) ⊎ (env.down update_job_stmt ≡ false)
        → Sound (finish_test env (record w.db { jobs = w.db.jobs ++ test_job env ∷ [] }))
    wrote free (inl e) =
        rw e (record { inv = Inv-insert (test_job env) w.db.jobs w.db.attempts free refl v.inv })
    wrote free (inr e) = rw (finished env w.db e free) (record {
      inv = Inv-insert (mark_tested (test_job env)) w.db.jobs w.db.attempts free refl v.inv;
    })
