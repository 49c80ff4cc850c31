-- ===== src/Queue/Invariant.antt =====
-- The invariant of the tables `jobs` and `job_attempts`, and the statements that keep it.
use llm_mcp.Prelude.{
  ◌≡◌, refl, ◌∙◌, ◌⊎◌, inl, inr, String, Bool, true, false, ◌==◌, eq_iff, none, List, [], ◌∷◌, ◌++◌,
  arith, any, update_where, All, All-update_where, All-append, All-imp, Bool-cases, if◌then◌else◌,
  if_each, Option-cases,
}
use llm_mcp.Db.{is_running, Job, Attempt, Db}
use llm_mcp.Queue.{open_attempt, close_attempt}
use llm_mcp.Queue.Slots.{UniqueIds}

abbrev pub has_id : String → List Job → Bool
has_id id jobs = any (λ j. j.id == id) jobs

-- A lease is held by a running job only.
abbrev pub LeaseIsHeld : Job → Type 0
LeaseIsHeld j = (is_running j.status ≡ true) ⊎ (j.lease_until ≡ none)

-- An attempt is one of a job in the table.
abbrev pub HasJob : List Job → Attempt → Type 0
HasJob jobs a = has_id a.job_id jobs ≡ true

pub record Inv (jobs : List Job) (attempts : List Attempt) : Type 0 where
  pub unique : UniqueIds jobs
  pub leases : All LeaseIsHeld jobs
  pub owned : All (HasJob jobs) attempts

module _ (p : Job → Bool) (f : Job → Job) (keep : (j : Job) → (f j).id ≡ j.id) where
  id-update : (j : Job) → (if p j then f j else j).id ≡ j.id
  id-update j = elim (Bool-cases (p j)) [ inl e ↦ rw e (keep j) | inr e ↦ rw e refl ]

  pub has_id-update_where :
      (id : String) (jobs : List Job) → has_id id (update_where p f jobs) ≡ has_id id jobs
  has_id-update_where id [] = refl
  has_id-update_where id (j ∷ js) = rw (id-update j, has_id-update_where id js) refl

  ids_differ :
      (id : String) (jobs : List Job)
      → All (λ k. (k.id == id) ≡ false) jobs
      → All (λ k. (k.id == id) ≡ false) (update_where p f jobs)
  ids_differ id [] h = tt
  ids_differ id (j ∷ js) (h, hs) = (rw (id-update j) h, ids_differ id js hs)

  UniqueIds-update_where : (jobs : List Job) → UniqueIds jobs → UniqueIds (update_where p f jobs)
  UniqueIds-update_where [] u = tt
  UniqueIds-update_where (j ∷ js) (h, u) =
      (rw (id-update j) (ids_differ j.id js h), UniqueIds-update_where js u)

  held_update :
      (jobs : List Job)
      → ((j : Job) → p j ≡ true → LeaseIsHeld j → LeaseIsHeld (f j))
      → All LeaseIsHeld jobs
      → All LeaseIsHeld (update_where p f jobs)
  held_update [] held h = tt
  held_update (j ∷ js) held (h, hs) =
      (if_each LeaseIsHeld (p j) (λ e. held j e h) (λ e. h), held_update js held hs)

  -- An update that keeps the ids and the rule on leases keeps the invariant.
  pub Inv-update_where :
      (jobs : List Job) (attempts : List Attempt)
      → ((j : Job) → p j ≡ true → LeaseIsHeld j → LeaseIsHeld (f j))
      → Inv jobs attempts
      → Inv (update_where p f jobs) attempts
  Inv-update_where jobs attempts held v = record {
    unique = UniqueIds-update_where jobs v.unique;
    leases = held_update jobs held v.leases;
    owned = All-imp (λ a h. has_id-update_where a.job_id jobs ∙ h) attempts v.owned;
  }

ne_sym : (a b : String) → (a == b) ≡ false → (b == a) ≡ false
ne_sym a b h = ground (arith, eq_iff a b, eq_iff b a)

absent :
    (j : Job) (jobs : List Job) → has_id j.id jobs ≡ false → All (λ k. (k.id == j.id) ≡ false) jobs
absent j [] h = tt
absent j (k ∷ ks) h = (ground arith, absent j ks (ground arith))

UniqueIds-append :
    (j : Job) (jobs : List Job)
    → has_id j.id jobs ≡ false
    → UniqueIds jobs
    → UniqueIds (jobs ++ j ∷ [])
UniqueIds-append j [] h u = (tt, tt)
UniqueIds-append j (k ∷ ks) h (n, u) =
    let (first, rest) = absent j (k ∷ ks) h in
    (
      All-append (λ x. (x.id == k.id) ≡ false) ks (j ∷ []) n (ne_sym k.id j.id first, tt),
      UniqueIds-append j ks (ground arith) u,
    )

has_id-append :
    (id : String) (jobs : List Job) (j : Job)
    → has_id id jobs ≡ true
    → has_id id (jobs ++ j ∷ []) ≡ true
has_id-append id [] j h = absurd (cc)
has_id-append id (k ∷ ks) j h = ground (arith, has_id-append id ks j)

-- A new row with a free id and no lease keeps the invariant.
pub Inv-insert :
    (j : Job) (jobs : List Job) (attempts : List Attempt)
    → has_id j.id jobs ≡ false
    → j.lease_until ≡ none
    → Inv jobs attempts
    → Inv (jobs ++ j ∷ []) attempts
Inv-insert j jobs attempts free l v = record {
  unique = UniqueIds-append j jobs free v.unique;
  leases = All-append LeaseIsHeld jobs (j ∷ []) v.leases (inr l, tt);
  owned = All-imp (λ a h. has_id-append a.job_id jobs j h) attempts v.owned;
}

-- A new attempt of a job in the table keeps it.
pub Inv-attempt :
    (a : Attempt) (jobs : List Job) (attempts : List Attempt)
    → has_id a.job_id jobs ≡ true
    → Inv jobs attempts
    → Inv jobs (attempts ++ a ∷ [])
Inv-attempt a jobs attempts h v = record {
  unique = v.unique;
  leases = v.leases;
  owned = All-append (HasJob jobs) attempts (a ∷ []) v.owned (h, tt);
}

-- So does closing an attempt, which keeps its job.
pub Inv-close_attempt :
    (id : String) (f : Attempt → Attempt) (jobs : List Job) (attempts : List Attempt)
    → ((a : Attempt) → (f a).job_id ≡ a.job_id)
    → Inv jobs attempts
    → Inv jobs (close_attempt id f attempts)
unfolding close_attempt
Inv-close_attempt id f jobs attempts keep v = elim (Option-cases (open_attempt id attempts)) [
  | inl e ↦ rw (e, close_attempt) v
  | inr (a, e) ↦
      rw (e, close_attempt)
        (record {
          unique = v.unique;
          leases = v.leases;
          owned =
              All-update_where (HasJob jobs) (λ b. b.id == a.id) f attempts (λ b h. rw (keep b) h)
                v.owned;
        })
]

-- What every call keeps of the database.
pub record Sound (db : Db) : Type 0 where
  pub inv : Inv db.jobs db.attempts
