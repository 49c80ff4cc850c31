-- ===== src/Http/Reported.antt =====
-- What the streams of a job tell their client.
use llm_mcp.Prelude.{
  String, Bool, true, false, not, ◌==◌, ◌≡◌, sym, inl, inr, refl, Option, none, some, List, [], ◌∷◌,
  ◌++◌, ◌||◌, any, map, if◌then◌else◌, Bool-cases,
}
use llm_mcp.Db.{JobStatus, Job, Db, Env}
use llm_mcp.Http.{reply}
use llm_mcp.Http.Read.{is_uuid, Fetch, row, no_rows, broken, fetch_job}
use llm_mcp.Http.Stream.{
  Turn, gone, elapsed, notified, Sse, status, failure, Stream, is_final, is_news, tell, on_row,
  on_wake, on_poll, wait_all, poll_all, first_read, Connection, handle_job_stream,
}

-- How the turns end: the stream still waits, its client has left, or the job is not there any more.
pub data End : Type 0 where
  waits leaves lost : End

-- The rows of the job that a stream reads, and how that ends.
abbrev pub Log : Type 0
Log = List Job × End

abbrev pub note : Job → Log → Log
note j (rows, end) = (j ∷ rows, end)

abbrev pub woken : Log → Fetch → Log
woken rest (row j) = note j rest
woken rest no_rows = rest
woken rest broken = rest

abbrev pub waited : String → List Turn → Log
waited id [] = ([], waits)
waited id (gone ∷ ts) = ([], leaves)
waited id (elapsed env db ∷ ts) = woken (waited id ts) (fetch_job env id db)
waited id (notified p env db ∷ ts) =
    let rest = waited id ts in if not (p == id) then rest else woken rest (fetch_job env id db)

abbrev pub found : Log → Fetch → Log
found rest (row j) = note j rest
found rest no_rows = ([], lost)
found rest broken = rest

abbrev pub polled : String → List Turn → Log
polled id [] = ([], waits)
polled id (gone ∷ ts) = ([], leaves)
polled id (notified p env db ∷ ts) = polled id ts
polled id (elapsed env db ∷ ts) = found (polled id ts) (fetch_job env id db)

-- The rows up to the first that is done or failed.
abbrev pub up_to_final : List Job → List Job
up_to_final [] = []
up_to_final (j ∷ js) = let rest = up_to_final js in if is_final j.status then j ∷ [] else j ∷ rest

-- The rows whose status is not that of the row before.
abbrev pub news : Option JobStatus → List Job → List Job
news last [] = []
news last (j ∷ js) = let rest = news (some j.status) js in if is_news last j then j ∷ rest else rest

abbrev pub ends : List Job → Bool
ends js = any (λ j. is_final j.status) js

abbrev pub closing : Bool → End → List Sse
closing false lost = failure "not_found" ∷ []
closing _ _ = []

abbrev pub is_over : End → Bool
is_over waits = false
is_over _ = true

-- The changes of the status up to the end of the job, after which the stream is over.
abbrev pub told : Option JobStatus → Log → Stream
told last (rows, end) =
    (map status (news last (up_to_final rows)) ++ closing (ends rows) end, ends rows || is_over end)

told-note :
    (last : Option JobStatus) (j : Job) (log : Log)
    → told last (note j log)
      ≡ tell last j (if is_final j.status then ([], true) else told (some j.status) log)
told-note last j (rows, end) = elim (Bool-cases (is_final j.status)) [
  | inl e ↦ elim (Bool-cases (is_news last j)) [ inl n ↦ rw (e, n) refl | inr n ↦ rw (e, n) refl ]
  | inr e ↦ elim (Bool-cases (is_news last j)) [ inl n ↦ rw (e, n) refl | inr n ↦ rw (e, n) refl ]
]

on_row-told :
    (last : Option JobStatus) (j : Job) (log : Log) (next : JobStatus → Stream)
    → ((s : JobStatus) → next s ≡ told (some s) log)
    → on_row last next j ≡ told last (note j log)
on_row-told last j log next h = rw (h j.status) (sym (told-note last j log))

module _ (last : Option JobStatus) (log : Log) (next : JobStatus → Stream) (skipped : Stream)
    (ih : (s : JobStatus) → next s ≡ told (some s) log) (same : skipped ≡ told last log) where
  on_wake-told : (f : Fetch) → on_wake last next skipped f ≡ told last (woken log f)
  on_wake-told (row j) = on_row-told last j log next ih
  on_wake-told no_rows = same
  on_wake-told broken = same

  on_poll-told : (f : Fetch) → on_poll last next skipped f ≡ told last (found log f)
  on_poll-told (row j) = on_row-told last j log next ih
  on_poll-told no_rows = refl
  on_poll-told broken = same

wait_all-told :
    (id : String) (last : JobStatus) (ts : List Turn)
    → wait_all id last ts ≡ told (some last) (waited id ts)
unfolding wait_all
wait_all-told id last [] = refl
wait_all-told id last (gone ∷ ts) = refl
wait_all-told id last (elapsed env db ∷ ts) =
    on_wake-told (some last) (waited id ts) (λ s. wait_all id s ts) (wait_all id last ts)
      (λ s. wait_all-told id s ts) (wait_all-told id last ts) (fetch_job env id db)
wait_all-told id last (notified p env db ∷ ts) = elim (Bool-cases (not (p == id))) [
  | inl e ↦ rw e (wait_all-told id last ts)
  | inr e ↦ rw e (
      on_wake-told (some last) (waited id ts) (λ s. wait_all id s ts) (wait_all id last ts)
        (λ s. wait_all-told id s ts) (wait_all-told id last ts) (fetch_job env id db))
]

poll_all-told :
    (id : String) (last : Option JobStatus) (ts : List Turn)
    → poll_all id last ts ≡ told last (polled id ts)
unfolding poll_all
poll_all-told id last [] = refl
poll_all-told id last (gone ∷ ts) = refl
poll_all-told id last (notified p env db ∷ ts) = poll_all-told id last ts
poll_all-told id last (elapsed env db ∷ ts) =
    on_poll-told last (polled id ts) (λ s. poll_all id (some s) ts) (poll_all id last ts)
      (λ s. poll_all-told id (some s) ts) (poll_all-told id last ts) (fetch_job env id db)

-- What the first read makes of a stream that is woken.
abbrev pub opened : String → List Turn → Fetch → Stream
opened id ts (row j) = told none (note j (waited id ts))
opened id ts no_rows = told none ([], lost)
opened id ts broken = (failure "db_read_failed" ∷ [], true)

first_read-opened : (id : String) (ts : List Turn) (f : Fetch) → first_read id ts f ≡ opened id ts f
first_read-opened id ts (row j) =
    on_row-told none j (waited id ts) (λ s. wait_all id s ts) (λ s. wait_all-told id s ts)
first_read-opened id ts no_rows = refl
first_read-opened id ts broken = refl

either :
    (b : Bool) (x y : Stream)
    → (if not b then reply 200 x else reply 200 y) ≡ reply 200 (if b then y else x)
either true x y = refl
either false x y = refl

-- A stream of a job, to a client of GET with a well-formed id, when the writer flushes and a connection is
-- acquired, sends exactly the rows that it reads whose status differs from that of the row before, up to
-- the first that is done or failed, and has returned once it has read such a row or the client has left.
-- With LISTEN it reads at once and then when it is woken: when the first read finds no job the one event is
-- `not_found`, when it fails `db_read_failed`, and both end the stream; a later read that finds no job or
-- fails is skipped. Without LISTEN it polls: a read that fails is skipped, and one that finds no job ends
-- the stream with the event `not_found`.
pub handle_job_stream-told :
    (env : Env) (conn : Connection) (id : String) (db : Db) (ts : List Turn)
    → is_uuid id ≡ true
    → conn.flushes ≡ true
    → conn.acquired ≡ true
    → handle_job_stream env conn "GET" id db ts
      ≡ reply 200
          (if conn.listens then opened id ts (fetch_job env id db) else told none (polled id ts))
unfolding handle_job_stream
handle_job_stream-told env conn id db ts u f a =
    rw (u, f, a, poll_all-told id none ts, first_read-opened id ts (fetch_job env id db))
      (either conn.listens (told none (polled id ts)) (opened id ts (fetch_job env id db)))
