-- ===== src/Stats/Average.antt =====
-- The running average of the durations, which the database rounds down at each chat.
use native.Mathlib.Nat.{div-mul-le_self, lt-div-mul-add}
use llm_mcp.Prelude.{
  ℕ, suc, ◌+◌, ◌*◌, ◌/◌, ◌≤◌, ◌<◌, ◌≡◌, sym, ◌∙◌, String, some, none, List, [], ◌∷◌, inl, inr,
  arith, Bool-cases,
}
use llm_mcp.Db.{ModelStats}
use llm_mcp.Stats.{Usage}
use llm_mcp.Stats.Replay.{Event, replay, row, known, uses, requests, average, summary, expected}
use llm_mcp.Stats.Counted.{row-replay}

-- The milliseconds that the chats took together.
pub duration : List Usage → ℕ
duration [] = 0
duration (u ∷ us) = duration us + u.duration_ms

-- The average times the chats, against the sum.
average_low : (us : List Usage) → average us * requests us ≤ duration us
unfolding average requests duration
average_low [] = omega arith
average_low (u ∷ us) =
    let a = average us in
    let n = requests us in
    let low : (a * n + u.duration_ms) / suc n * suc n ≤ a * n + u.duration_ms =
      div-mul-le_self (a * n + u.duration_ms) (suc n) in
    omega (arith, low, average_low us)

average_high :
    (us : List Usage) → duration us ≤ average us * requests us + requests us * requests us
unfolding average requests duration
average_high [] = omega arith
average_high (u ∷ us) =
    let a = average us in
    let n = requests us in
    let high : a * n + u.duration_ms < (a * n + u.duration_ms) / suc n * suc n + suc n =
      lt-div-mul-add (omega arith) in
    let square : suc n * suc n ≡ n * n + n + n + 1 = grind arith in
    omega (arith, high, square, average_high us)

-- After any statements that return, the average duration of a model times its requests is at most the
-- time that its chats took together, and falls short of it by at most the square of the requests.
pub average-replay :
    (d : String) (h : List Event) (l : List ModelStats) (s : ModelStats)
    → replay h ≡ some l
    → row d l ≡ some s
    → (s.avg_duration_ms * s.total_requests ≤ duration (uses d h))
      × (duration (uses d h)
          ≤ s.avg_duration_ms * s.total_requests + s.total_requests * s.total_requests)
unfolding summary
average-replay d h l s k r = elim (Bool-cases (known d h)) [
  | inl e ↦
      let p : expected d h ≡ some s = sym (row-replay d h l k) ∙ r in
      let q : some (summary d h) ≡ some s = rw e at p in
      let j : summary d h ≡ s = ground arith in
      rw (← j) (average_low (uses d h), average_high (uses d h))
  | inr e ↦
      let p : expected d h ≡ some s = sym (row-replay d h l k) ∙ r in
      let q : none ≡ some s = rw e at p in absurd (cc)
]
