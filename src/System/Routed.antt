-- ===== src/System/Routed.antt =====
-- What a client reads back of a request to a model, over gRPC `GetJob`, after it was accepted over HTTP.
use llm_mcp.Prelude.Int.{ℤ, pos}
use llm_mcp.Prelude.{
  blank, ◌⊎◌, if◌then◌else◌, to_lower, trim_space, Has, here, there, All, find_if, Bool-cases, inl,
  inr, eq_iff, ap, ◌∙◌, ◌+◌, ◌*◌, ◌==◌, true, [], ◌∷◌, ◌≡◌, refl, String, false, Option, none, some,
  List, arith, subst, ℕ,
}
use llm_mcp.Db.{Db, Env, add_duration, seconds}
use llm_mcp.Db.Values.{Json}
use llm_mcp.Routing.Models.{Pricing}
use llm_mcp.Routing.Llm.Request.{Payload, Route, routed, refused}
use llm_mcp.Routing.Llm.{route_llm}
use llm_mcp.Http.{Reply, reply, fail, World, posted}
use llm_mcp.Http.Jobs.{insert_row}
use llm_mcp.Http.Llm.{
  LlmSubmit, LlmResponse, quality_timeout, auto_deadline, deadline_of, llm_job, store_llm,
  queue_route, handle_llm_request,
}
use llm_mcp.Grpc.Jobs.{row_to_pb, get_job}
use llm_mcp.System.Submitted.{
  unless_down, get_job-insert_row, queued_row, queued_message, attempts_for, or_three-attempts_for,
}

-- The seconds that a quality gives.
abbrev pub quality_seconds : List (String × ℕ)
quality_seconds =
    ("turbo", 15)
    ∷ ("economy", 30)
    ∷ ("standard", 60)
    ∷ ("premium", 90)
    ∷ ("ultra", 120)
    ∷ ("max", 180)
    ∷ []

-- The deadline of a request: the one that it gives, or that of its quality, in any case and with spaces
-- around it, from the time of the process on.
pub data IsDeadline (env : Env) (req : LlmSubmit) (deadline : Option ℕ) : Type 0 where
  given :
      (t : ℕ)
      → blank req.deadline_at ≡ false
      → env.parse_time req.deadline_at ≡ some t
      → deadline ≡ some t
      → IsDeadline env req deadline
  by_quality :
      (q : String) (secs : ℕ)
      → blank req.deadline_at ≡ true
      → to_lower (trim_space req.llm.quality) ≡ q
      → Has (q, secs) quality_seconds
      → deadline ≡ some (env.app_now + secs * 1_000_000_000)
      → IsDeadline env req deadline
  undated :
      blank req.deadline_at ≡ true
      → All (λ p. (to_lower (trim_space req.llm.quality) == p.0) ≡ false) quality_seconds
      → deadline ≡ none
      → IsDeadline env req deadline

-- An accepted request has a route and a deadline, and its row is found under the id of the reply.
abbrev pub IsQueued : Env → Env → (Payload → Json) → LlmSubmit → Route → LlmResponse → Db → Type 0
IsQueued env env' encode req route resp db =
    (payload : Payload) × (deadline : Option ℕ) × (route ≡ routed resp.provider resp.kind payload)
    × IsDeadline env req deadline
    × (find_if (λ k. k.id == resp.job_id) db.jobs
        ≡ some (
            queued_row resp.job_id resp.kind (encode payload) req.priority req.source
              (attempts_for req.max_attempts) deadline env.db_now))
    × (get_job env' resp.job_id db
        ≡ unless_down env' (
            queued_message resp.job_id resp.kind (encode payload) req.priority
              (attempts_for req.max_attempts) deadline env.db_now))

abbrev seconds_in : String → List (String × ℕ) → Option ℤ
seconds_in q [] = none
seconds_in q ((k, secs) ∷ table) = if q == k then some (pos secs) else seconds_in q table

-- No product of the table wraps around.
abbrev InRange : String × ℕ → Type 0
InRange p = seconds (pos p.1) ≡ pos (p.1 * 1_000_000_000)

-- A quality stands in a table with its seconds, or differs from all in it.
in_table :
    (q : String) (table : List (String × ℕ))
    → All InRange table
    → ((secs : ℕ) × Has (q, secs) table
        × (seconds_in q table ≡ some (pos secs))
        × InRange (q, secs))
      ⊎ (All (λ p. (q == p.0) ≡ false) table × (seconds_in q table ≡ none))
in_table q [] r = inr (tt, refl)
in_table q ((k, secs) ∷ table) (r, rs) = elim (Bool-cases (q == k)) [
  | inl e ↦ inl (secs, here (ap (λ x. (x, secs)) ((eq_iff q k).0 e)), rw e refl, r)
  | inr e ↦ elim (in_table q table rs) [
    | inl (s, m, h, u) ↦ inl (s, there m, rw e h, u)
    | inr (a, h) ↦ inr ((e, a), rw e h)
  ]
]

quality_seconds-InRange : All InRange quality_seconds
quality_seconds-InRange = (refl, (refl, (refl, (refl, (refl, (refl, tt))))))

module _ (env env' : Env) (encode : Payload → Json) (req : LlmSubmit) (w : World) where
  timed : blank req.deadline_at ≡ true → IsDeadline env req (auto_deadline env req.llm.quality)
  timed b =
      of_table
        (in_table (to_lower (trim_space req.llm.quality)) quality_seconds quality_seconds-InRange)
    where
      q : String
      q = to_lower (trim_space req.llm.quality)

      of_seconds : Option ℤ → Option ℕ
      of_seconds o = elim o [ none ↦ none | some s ↦ some (add_duration env.app_now (seconds s)) ]

      of_table :
          ((secs : ℕ) × Has (q, secs) quality_seconds
              × (quality_timeout q ≡ some (pos secs))
              × InRange (q, secs))
            ⊎ (All (λ p. (q == p.0) ≡ false) quality_seconds × (quality_timeout q ≡ none))
          → IsDeadline env req (auto_deadline env req.llm.quality)
      of_table (inl (secs, m, h, u)) =
          by_quality q secs b refl m
            (ap of_seconds h ∙ ap (λ z. some (add_duration env.app_now z)) u)
      of_table (inr (a, h)) = undated b a (ap of_seconds h)

  parsed :
      (o : Option ℕ) (deadline : Option ℕ)
      → blank req.deadline_at ≡ false
      → env.parse_time req.deadline_at ≡ o
      → elim o [ none ↦ none | some t ↦ some (some t) ] ≡ some deadline
      → IsDeadline env req deadline
  parsed none deadline b p d = absurd (cc)
  parsed (some t) deadline b p d = given t b p (ground arith)

  deadline_of-IsDeadline :
      (deadline : Option ℕ) → deadline_of env req ≡ some deadline → IsDeadline env req deadline
  deadline_of-IsDeadline deadline d = elim (Bool-cases (blank req.deadline_at)) [
    | inl b ↦
        let q : some (auto_deadline env req.llm.quality) ≡ some deadline = rw b at d in
        let j : auto_deadline env req.llm.quality ≡ deadline = ground arith in
        subst (λ x. IsDeadline env req x) j (timed b)
    | inr b ↦ parsed (env.parse_time req.deadline_at) deadline b refl (rw b at d)
  ]

  Accepts : Route → Reply LlmResponse × World → Type 0
  Accepts route x =
      (resp : LlmResponse) → x.0 ≡ reply 202 resp → IsQueued env env' encode req route resp x.1.db

  stored :
      (provider kind : String) (payload : Payload) (deadline : Option ℕ) (o : Option Db)
      → deadline_of env req ≡ some deadline
      → insert_row env (llm_job env encode req kind payload deadline) w.db ≡ o
      → Accepts (routed provider kind payload) (elim o [
        | none ↦ (fail 500 "db_insert_failed", w)
        | some db ↦ (
          reply 202 (record { job_id = env.uuid 0; provider = provider; kind = kind }),
          record w { db = db },
        )
      ])
  unfolding Accepts
  stored provider kind payload deadline none d h resp e = absurd (cc)
  stored provider kind payload deadline (some db) d h resp e =
      let q : record { job_id = env.uuid 0; provider = provider; kind = kind } ≡ resp =
        ground arith in
      let k : llm_job env encode req kind payload deadline
          ≡ queued_row (env.uuid 0) kind (encode payload) req.priority req.source
              (attempts_for req.max_attempts) deadline env.db_now =
        rw (or_three-attempts_for req.max_attempts) refl in
      let (r, m) =
        get_job-insert_row env env' (llm_job env encode req kind payload deadline) w.db db h in
      subst (λ r. IsQueued env env' encode req (routed provider kind payload) r db) q
        (
          payload,
          deadline,
          refl,
          deadline_of-IsDeadline deadline d,
          r ∙ ap some k,
          m ∙ ap (λ j. unless_down env' (row_to_pb j)) k,
        )

  dated :
      (provider kind : String) (payload : Payload) (o : Option (Option ℕ))
      → deadline_of env req ≡ o
      → Accepts (routed provider kind payload) (elim o [
        | none ↦ (fail 400 "invalid_deadline_at", w)
        | some deadline ↦ store_llm env provider (llm_job env encode req kind payload deadline) w
      ])
  unfolding Accepts
  dated provider kind payload none d = λ resp e. absurd (cc)
  dated provider kind payload (some deadline) d =
      stored provider kind payload deadline
        (insert_row env (llm_job env encode req kind payload deadline) w.db) d refl

  queued : (route : Route) → Accepts route (queue_route env encode req w route)
  unfolding Accepts
  queued (refused reason) = λ resp e. absurd (cc)
  queued (routed provider kind payload) = dated provider kind payload (deadline_of env req) refl

-- A request to a model that is accepted (status 202) stands in the table under the id of the reply and is
-- read back over gRPC, but for its source and unless the statement that reads it fails: it is queued with the kind that the router chose, the
-- marshalled payload of its route, the priority, the source and the number of attempts of the request (3
-- when it names none), and with the deadline that the request gives or, when it gives none, that of its
-- quality: 15 seconds for turbo, 30 for economy, 60 for standard, 90 for premium, 120 for ultra, 180 for
-- max, and none for another.
pub get_job-handle_llm_request :
    (env env' : Env) (encode : Payload → Json) (table : List Pricing) (req : LlmSubmit) (w : World)
    (resp : LlmResponse)
    → (handle_llm_request env encode table (posted req) w).0 ≡ reply 202 resp
    → IsQueued env env' encode req
        (route_llm env w.db w.circuits table req.llm)
        resp
        (handle_llm_request env encode table (posted req) w).1.db
unfolding handle_llm_request Accepts
get_job-handle_llm_request env env' encode table req w =
    queued env env' encode req w (route_llm env w.db w.circuits table req.llm)
