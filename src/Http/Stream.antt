-- ===== src/Http/Stream.antt =====
-- `handleJobStream` and `handleJobStreamPoll` in core/internal/api/handlers.go, and `HandleJobByID`, which
-- leads to them. The turns of a loop are a list: what wakes it, with the database that it then reads.
use llm_mcp.Prelude.{
  String, Bool, true, false, not, ◌==◌, Option, none, some, List, [], ◌∷◌, if◌then◌else◌,
  trim_prefix, has_suffix, cut_suffix,
}
use llm_mcp.Db.{JobStatus, queued, running, done, error, Job, Db, Env}
use llm_mcp.Http.{Reply, reply, fail}
use llm_mcp.Http.Read.{Fetch, row, no_rows, broken, fetch_job, is_uuid, read_job_by_id}

-- The client leaves; the 15 or the 2 seconds pass; a notification names a job.
pub data Turn : Type 0 where
  gone : Turn
  elapsed : Env → Db → Turn
  notified : String → Env → Db → Turn

-- The event `status` with the job, or the event `error` with its code.
pub data Sse : Type 0 where
  status : Job → Sse
  failure : String → Sse

-- What is sent, and whether the handler has returned.
abbrev pub Stream : Type 0
Stream = List Sse × Bool

abbrev pub same_status : JobStatus → JobStatus → Bool
same_status queued queued = true
same_status running running = true
same_status done done = true
same_status error error = true
same_status _ _ = false

abbrev pub is_final : JobStatus → Bool
is_final done = true
is_final error = true
is_final _ = false

abbrev pub prepend : Sse → Stream → Stream
prepend e (es, returned) = (e ∷ es, returned)

-- `lastStatus == "" || jobRow.Status != lastStatus`
abbrev pub is_news : Option JobStatus → Job → Bool
is_news none j = true
is_news (some last) j = not (same_status j.status last)

abbrev pub tell : Option JobStatus → Job → Stream → Stream
tell last j rest = if is_news last j then prepend (status j) rest else rest

-- A row that is read: it is sent when it is news, and it may be the last.
abbrev pub on_row : Option JobStatus → (JobStatus → Stream) → Job → Stream
on_row last next j =
    let rest = next j.status in tell last j (if is_final j.status then ([], true) else rest)

-- An error of the read is passed over.
abbrev pub on_wake : Option JobStatus → (JobStatus → Stream) → Stream → Fetch → Stream
on_wake last next skipped (row j) = on_row last next j
on_wake last next skipped no_rows = skipped
on_wake last next skipped broken = skipped

-- The loop over the notifications: one for another job is passed over.
unfoldable pub wait_all : String → JobStatus → List Turn → Stream
wait_all id last [] = ([], false)
wait_all id last (gone ∷ ts) = ([], true)
wait_all id last (elapsed env db ∷ ts) =
    on_wake (some last) (λ s. wait_all id s ts) (wait_all id last ts) (fetch_job env id db)
wait_all id last (notified payload env db ∷ ts) =
    let skipped = wait_all id last ts in
    let woken = on_wake (some last) (λ s. wait_all id s ts) skipped (fetch_job env id db) in
    if not (payload == id) then skipped else woken

-- A poll that finds no job is the last.
abbrev pub on_poll : Option JobStatus → (JobStatus → Stream) → Stream → Fetch → Stream
on_poll last next skipped (row j) = on_row last next j
on_poll last next skipped no_rows = (failure "not_found" ∷ [], true)
on_poll last next skipped broken = skipped

-- The loop of `handleJobStreamPoll`, which no notification wakes.
unfoldable pub poll_all : String → Option JobStatus → List Turn → Stream
poll_all id last [] = ([], false)
poll_all id last (gone ∷ ts) = ([], true)
poll_all id last (notified payload env db ∷ ts) = poll_all id last ts
poll_all id last (elapsed env db ∷ ts) =
    on_poll last (λ s. poll_all id (some s) ts) (poll_all id last ts) (fetch_job env id db)

-- What the first read of the job starts.
abbrev pub first_read : String → List Turn → Fetch → Stream
first_read id ts (row j) = on_row none (λ s. wait_all id s ts) j
first_read id ts no_rows = (failure "not_found" ∷ [], true)
first_read id ts broken = (failure "db_read_failed" ∷ [], true)

-- Whether the writer can flush, a connection is acquired, and LISTEN succeeds.
pub record Connection : Type 0 where
  pub flushes : Bool
  pub acquired : Bool
  pub listens : Bool

unfoldable pub handle_job_stream :
    Env → Connection → String → String → Db → List Turn → Reply Stream
handle_job_stream env conn method id db ts =
    if not (method == "GET")
    then fail 405 "method_not_allowed"
    else if not (is_uuid id)
    then fail 404 "not_found"
    else if not conn.flushes
    then fail 500 "stream_not_supported"
    else if not conn.acquired
    then reply 200 (failure "db_conn_failed" ∷ [], true)
    else if not conn.listens
    then reply 200 (poll_all id none ts)
    else reply 200 (first_read id ts (fetch_job env id db))

-- Either a job or a stream.
pub data ById : Type 0 where
  whole : Reply Job → ById
  streamed : Reply Stream → ById

unfoldable pub handle_job_by_id : Env → Connection → String → String → Db → List Turn → ById
handle_job_by_id env conn method path db ts =
    let id = trim_prefix path "/v1/jobs/" in
    if id == ""
    then whole (fail 404 "not_found")
    else if has_suffix id "/stream"
    then streamed (handle_job_stream env conn method (cut_suffix id "/stream") db ts)
    else whole (read_job_by_id env method id db)
