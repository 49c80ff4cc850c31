-- ===== src/Grpc/Stream.antt =====
-- `StreamJob` of core/internal/grpcserver/server.go. The turns of its loop are a list. Its
-- events are told as the rows that it read, which it sends as `row_to_pb`.
use llm_mcp.Prelude.{
  String, Bool, true, ◌≡◌, inl, inr, refl, Option, some, List, [], ◌∷◌, if◌then◌else◌, Bool-cases,
  All,
}
use llm_mcp.Db.{JobStatus, Job, Db, Env}
use llm_mcp.Http.Stream.{is_final, is_news}
use llm_mcp.Http.Reported.{up_to_final, news, ends}
use llm_mcp.Grpc.{Answer, answer, failed, panic}
use llm_mcp.Grpc.Jobs.{fetch_row}

-- The client leaves, or a second passes; the flag says that an event can be sent.
pub data Tick : Type 0 where
  cancelled : Tick
  tick : Env → Db → Bool → Tick

pub data Return : Type 0 where
  still_open returned_nil returned_err : Return

-- The jobs of the events, and how the call ends.
abbrev pub Events : Type 0
Events = List Job × Return

abbrev pub send : Job → Events → Events
send j (js, r) = (j ∷ js, r)

-- A job that is read.
abbrev pub on_job : Option JobStatus → Bool → (JobStatus → Events) → Job → Events
on_job last sends next j =
    let rest = if is_final j.status then ([], returned_nil) else next j.status in
    if is_news last j then if sends then send j rest else ([], returned_err) else rest

abbrev pub on_answer : Option JobStatus → Bool → (JobStatus → Events) → Answer Job → Events
on_answer last sends next (answer j) = on_job last sends next j
on_answer last sends next failed = ([], returned_err)
on_answer last sends next panic = ([], returned_err)

unfoldable pub stream_job : String → Option JobStatus → List Tick → Events
stream_job id last [] = ([], still_open)
stream_job id last (cancelled ∷ ts) = ([], returned_err)
stream_job id last (tick env db sends ∷ ts) =
    on_answer last sends (λ s. stream_job id (some s) ts) (fetch_row env id db)

abbrev pub IsSent : Tick → Type 0
IsSent cancelled = Unit
IsSent (tick env db sends) = sends ≡ true

-- The jobs that are read, and how the reads end.
abbrev pub seen : Events → Answer Job → Events
seen rest (answer j) = send j rest
seen rest failed = ([], returned_err)
seen rest panic = ([], returned_err)

abbrev pub reads : String → List Tick → Events
reads id [] = ([], still_open)
reads id (cancelled ∷ ts) = ([], returned_err)
reads id (tick env db sends ∷ ts) = seen (reads id ts) (fetch_row env id db)

-- The changes of the status up to the end of the job, after which the call returns without an error.
abbrev pub reported : Option JobStatus → Events → Events
reported last (js, r) = (news last (up_to_final js), if ends js then returned_nil else r)

reported-send :
    (last : Option JobStatus) (j : Job) (log : Events) (next : JobStatus → Events)
    → ((s : JobStatus) → next s ≡ reported (some s) log)
    → on_job last true next j ≡ reported last (send j log)
reported-send last j (js, r) next h = elim (Bool-cases (is_final j.status)) [
  | inl e ↦ elim (Bool-cases (is_news last j)) [ inl n ↦ rw (e, n) refl | inr n ↦ rw (e, n) refl ]
  | inr e ↦ elim (Bool-cases (is_news last j)) [
    | inl n ↦ rw (h j.status, e, n) refl
    | inr n ↦ rw (h j.status, e, n) refl
  ]
]

on_answer-reported :
    (last : Option JobStatus) (log : Events) (next : JobStatus → Events) (a : Answer Job)
    → ((s : JobStatus) → next s ≡ reported (some s) log)
    → on_answer last true next a ≡ reported last (seen log a)
on_answer-reported last log next (answer j) h = reported-send last j log next h
on_answer-reported last log next failed h = refl
on_answer-reported last log next panic h = refl

-- When its events can be sent, the call sends exactly the jobs that it reads whose status differs from
-- that of the one before, up to the first that is done or failed, and then returns without an error; if
-- there is none it ends as its reads do, with the error of the first that fails.
pub stream_job-reported :
    (id : String) (last : Option JobStatus) (ts : List Tick)
    → All IsSent ts
    → stream_job id last ts ≡ reported last (reads id ts)
unfolding stream_job
stream_job-reported id last [] h = refl
stream_job-reported id last (cancelled ∷ ts) h = refl
stream_job-reported id last (tick env db sends ∷ ts) (h, hs) = rw h (
    on_answer-reported last (reads id ts) (λ s. stream_job id (some s) ts) (fetch_row env id db)
      (λ s. stream_job-reported id (some s) ts hs))
