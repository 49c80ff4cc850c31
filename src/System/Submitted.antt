-- ===== src/System/Submitted.antt =====
-- What a client reads back of a job, over gRPC `GetJob`, after it was put into the queue over HTTP.
use llm_mcp.Prelude.{
  ℕ, zero, suc, ap, ◌∙◌, if_each, String, Bool, true, false, ◌||◌, ◌==◌, eq_refl, Option, none,
  some, List, [], ◌∷◌, ◌++◌, ◌≡◌, refl, subst, arith, inl, inr, any, if◌then◌else◌, find_if,
  if_both, or_false, Bool-cases, blank,
}
use llm_mcp.Prelude.Int.{ℤ, pos, negsuc}
use llm_mcp.Db.{Job, queued, Db, Env, insert_job, read_job}
use llm_mcp.Db.Values.{Json, object, or_empty}
use llm_mcp.Http.{Reply, reply, fail, World, posted}
use llm_mcp.Http.Jobs.{
  SubmitJobRequest, new_job, insert_row, or_three, refused_by_limits, enqueue, handle_jobs,
}
use llm_mcp.Grpc.{Answer, answer, failed}
use llm_mcp.Grpc.Jobs.{JobMessage, as_message, row_to_pb, fetch_row, get_job}

-- A job as it enters the queue, as a row and as a message.
abbrev pub queued_row : String → String → Json → ℤ → String → ℤ → Option ℕ → ℕ → Job
queued_row id kind payload priority source most deadline now = record {
  id = id;
  kind = kind;
  payload = payload;
  status = queued;
  attempts = 0;
  max_attempts = most;
  lease_until = none;
  deadline_at = deadline;
  result = none;
  error_text = none;
  priority = priority;
  source = source;
  queued_at = now;
  updated_at = now;
}

abbrev pub queued_message : String → String → Json → ℤ → ℤ → Option ℕ → ℕ → JobMessage
queued_message id kind payload priority most deadline now = record {
  id = id;
  kind = kind;
  payload = payload;
  status = queued;
  attempts = 0;
  max_attempts = most;
  lease_until = none;
  deadline_at = deadline;
  result = none;
  error_text = none;
  priority = priority;
  queued_at = now;
  updated_at = now;
}

-- Three attempts when the request names none.
abbrev pub attempts_for : ℤ → ℤ
attempts_for (pos zero) = pos 3
attempts_for (pos (suc n)) = pos (suc n)
attempts_for (negsuc n) = negsuc n

abbrev pub payload_for : Option Json → Json
payload_for none = object []
payload_for (some j) = j

-- The deadline for a text that may be blank.
pub data IsDue (env : Env) (text : String) (deadline : Option ℕ) : Type 0 where
  undated : blank text ≡ true → deadline ≡ none → IsDue env text deadline
  dated :
      (t : ℕ)
      → blank text ≡ false
      → env.parse_time text ≡ some t
      → deadline ≡ some t
      → IsDue env text deadline

find_if-append {ℓ} :
    {A : Type ℓ} (p : A → Bool) (xs : List A) (x : A)
    → any p xs ≡ false
    → p x ≡ true
    → find_if p (xs ++ x ∷ []) ≡ some x
find_if-append p [] x h e = rw e refl
find_if-append p (y ∷ ys) x h e =
    let (n, ns) = or_false (p y) (any p ys) h in rw n (find_if-append p ys x ns e)

-- The message that is read, unless the statement fails.
abbrev pub unless_down : Env → JobMessage → Answer JobMessage
unless_down env m = if env.down read_job then failed else answer m

-- A row that was inserted is found under its id.
pub get_job-insert_row :
    (env env' : Env) (j : Job) (db db' : Db)
    → insert_row env j db ≡ some db'
    → (find_if (λ k. k.id == j.id) db'.jobs ≡ some j)
      × (get_job env' j.id db' ≡ unless_down env' (row_to_pb j))
unfolding get_job fetch_row
get_job-insert_row env env' j db db' h =
    elim (Bool-cases (env.down insert_job || any (λ r. r.id == j.id) db.jobs)) [
      | inl t ↦ absurd (ground arith)
      | inr f ↦
          let (_, free) = or_false (env.down insert_job) (any (λ k. k.id == j.id) db.jobs) f in
          let d : db'.jobs ≡ db.jobs ++ j ∷ [] = ground arith in
          let r : find_if (λ k. k.id == j.id) db'.jobs ≡ some j =
            rw d (find_if-append (λ k. k.id == j.id) db.jobs j free (eq_refl j.id)) in
          (r, rw r (up_or_down (env'.down read_job)))
    ]
  where
    up_or_down :
        (b : Bool)
        → as_message (if b then failed else answer j) ≡ (if b then failed else answer (row_to_pb j))
    up_or_down true = refl
    up_or_down false = refl

-- What the tables and the message of a job say of a request that was accepted.
abbrev pub IsSubmitted : Env → Env → SubmitJobRequest → String → Db → Type 0
IsSubmitted env env' req id db =
    (deadline : Option ℕ) × IsDue env req.deadline_at deadline
    × (find_if (λ k. k.id == id) db.jobs
        ≡ some (
            queued_row id req.kind (payload_for req.payload) req.priority req.source
              (attempts_for req.max_attempts) deadline env.db_now))
    × (get_job env' id db
        ≡ unless_down env' (
            queued_message id req.kind (payload_for req.payload) req.priority
              (attempts_for req.max_attempts) deadline env.db_now))

pub or_three-attempts_for : (n : ℤ) → or_three n ≡ attempts_for n
or_three-attempts_for (pos zero) = refl
or_three-attempts_for (pos (suc n)) = ground arith
or_three-attempts_for (negsuc n) = ground arith

or_empty-payload_for : (o : Option Json) → or_empty o ≡ payload_for o
or_empty-payload_for none = refl
or_empty-payload_for (some j) = refl

module _ (env env' : Env) (req : SubmitJobRequest) (w : World) where
  -- A reply with a new id lets the row be read under that id.
  Reads : Reply String × World → Type 0
  Reads x = (id : String) → x.0 ≡ reply 202 id → IsSubmitted env env' req id x.1.db

  abbrev row_of : Option ℕ → Job
  row_of deadline =
      new_job env req.kind (or_empty req.payload) req.priority req.source
        (or_three req.max_attempts) deadline

  row_of-queued_row :
      (deadline : Option ℕ)
      → row_of deadline
        ≡ queued_row
            (env.uuid 0)
            req.kind
            (payload_for req.payload)
            req.priority
            req.source
            (attempts_for req.max_attempts)
            deadline
            env.db_now
  row_of-queued_row deadline =
      rw (or_three-attempts_for req.max_attempts, or_empty-payload_for req.payload) refl

  stored :
      (deadline : Option ℕ)
      → IsDue env req.deadline_at deadline
      → (o : Option Db) → insert_row env (row_of deadline) w.db ≡ o
      → Reads (elim o [
        | none ↦ (fail 500 "db_insert_failed", w)
        | some db ↦ (reply 202 (env.uuid 0), record w { db = db })
      ])
  unfolding Reads
  stored deadline due none h id e = absurd (cc)
  stored deadline due (some db) h id e =
      let q : env.uuid 0 ≡ id = ground arith in
      let (r, m) = get_job-insert_row env env' (row_of deadline) w.db db h in
      subst (λ i. IsSubmitted env env' req i db) q
        (
          deadline,
          due,
          r ∙ ap some (row_of-queued_row deadline),
          m ∙ ap (λ k. unless_down env' (row_to_pb k)) (row_of-queued_row deadline),
        )

  enqueue-Reads :
      (deadline : Option ℕ)
      → IsDue env req.deadline_at deadline
      → Reads (enqueue env req deadline w)
  unfolding Reads
  enqueue-Reads deadline due =
      if_both Reads (refused_by_limits env w.db req) (λ id e. absurd (cc))
        (stored deadline due (insert_row env (row_of deadline) w.db) refl)

  parsed-Reads :
      blank req.deadline_at ≡ false
      → (o : Option ℕ) → env.parse_time req.deadline_at ≡ o
      → Reads (elim o [
        | none ↦ (fail 400 "invalid_deadline_at", w)
        | some t ↦ enqueue env req (some t) w
      ])
  unfolding Reads
  parsed-Reads b none p = λ id e. absurd (cc)
  parsed-Reads b (some t) p = enqueue-Reads (some t) (dated t b p refl)

-- A job that is accepted over HTTP (status 202) stands in the table under the id of the reply: it is queued
-- since the time of the database with no attempt and no lease, and has the kind, the payload, the priority,
-- the source and the number of attempts of the request, with `{}` and 3 for those left out, and the
-- deadline that the request names, if any. Over gRPC it is read back so, without its
-- source, unless the statement that reads it fails.
pub get_job-handle_jobs :
    (env env' : Env) (req : SubmitJobRequest) (w : World) (id : String)
    → (handle_jobs env (posted req) w).0 ≡ reply 202 id
    → IsSubmitted env env' req id (handle_jobs env (posted req) w).1.db
unfolding handle_jobs Reads
get_job-handle_jobs env env' req w =
    if_both (Reads env env' req w) (blank req.kind) (λ id e. absurd (cc))
      (if_each (Reads env env' req w) (blank req.deadline_at)
        (λ b. enqueue-Reads env env' req w none (undated b refl))
        (λ b. parsed-Reads env env' req w b (env.parse_time req.deadline_at) refl))
