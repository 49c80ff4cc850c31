-- ===== src/Stats.antt =====
-- The statistics of models in core/internal/api/handlers.go: updateModelStats, recordChatCost and
-- HandleFeedback, as statements on `model_stats` and `llm_costs`. A value outside of its column is an error
-- of the database, which refuses the statement.
pub mod Replay
pub mod Upsert
pub mod Rows
pub mod Counted
pub mod Average
pub mod Stuck
pub mod Select
pub mod Scanned
pub mod Selected
pub mod Sync
pub mod Scored
pub mod Filled
pub mod Synced
use llm_mcp.Prelude.{
  ℕ, suc, ◌+◌, ◌-◌, ◌*◌, ◌/◌, ◌^◌, String, Bool, true, false, not, ◌&&◌, ◌||◌, ◌==◌, Option, none,
  some, List, [], ◌∷◌, ◌++◌, if◌then◌else◌, update_where,
}
use llm_mcp.Prelude.Int.{ℤ, pos, negsuc, leb_ℤ, ◌+ℤ◌}
use llm_mcp.Db.{Micro, ModelStats, Cost, Db, Env, job_cost, insert_cost, upsert_stats, add_cost}
use llm_mcp.Http.{Reply, reply, fail, Request, World, post}

-- The ranges of the columns INT and BIGINT.
abbrev pub fits_int4 : ℤ → Bool
fits_int4 z = leb_ℤ (negsuc (2 ^ 31 - 1)) z && leb_ℤ z (pos (2 ^ 31 - 1))

abbrev pub fits_int8 : ℤ → Bool
fits_int8 z = leb_ℤ (negsuc (2 ^ 63 - 1)) z && leb_ℤ z (pos (2 ^ 63 - 1))

-- A row with the defaults of the table.
abbrev pub fresh_stats : String → ModelStats
fresh_stats model = record {
  model_id = model;
  total_requests = 0;
  total_tokens_in = pos 0;
  total_tokens_out = pos 0;
  total_cost_usd = pos 0;
  avg_duration_ms = 0;
  error_count = 0;
  last_used_at = none;
  feedback_positive = 0;
  feedback_negative = 0;
}

-- `INSERT … ON CONFLICT (model_id) DO UPDATE`; `none` is an error.
abbrev pub put_front : ModelStats → Option (List ModelStats) → Option (List ModelStats)
put_front s none = none
put_front s (some l) = some (s ∷ l)

abbrev pub put_back : Option ModelStats → List ModelStats → Option (List ModelStats)
put_back none l = none
put_back (some s) l = some (s ∷ l)

unfoldable pub upsert_row :
    ModelStats → (ModelStats → Option ModelStats) → List ModelStats → Option (List ModelStats)
upsert_row new f [] = some (new ∷ [])
upsert_row new f (s ∷ l) =
    if s.model_id == new.model_id then put_back (f s) l else put_front s (upsert_row new f l)

-- What a chat reports: its tokens, and the milliseconds that it took.
pub record Usage : Type 0 where
  pub tokens_in : ℤ
  pub tokens_out : ℤ
  pub duration_ms : ℕ

-- The row of a first chat.
abbrev pub first_use : ℕ → String → Usage → ℕ → ModelStats
first_use now model u errors = record (fresh_stats model) {
  total_requests = 1;
  total_tokens_in = u.tokens_in;
  total_tokens_out = u.tokens_out;
  avg_duration_ms = u.duration_ms;
  error_count = errors;
  last_used_at = some now;
}

-- `(avg_duration_ms * total_requests + $4) / (total_requests + 1)`, a division of integers.
abbrev pub next_average : ℕ → ℕ → ℕ → ℕ
next_average avg n d = (avg * n + d) / suc n

-- One more chat. Each sum and product is an INT or a BIGINT, as its operands are.
unfoldable pub count_use : ℕ → Usage → ℕ → ModelStats → Option ModelStats
count_use now u errors s =
    if fits_int4 (pos (suc s.total_requests))
      && fits_int4 (pos (s.avg_duration_ms * s.total_requests))
      && fits_int4 (pos (s.avg_duration_ms * s.total_requests + u.duration_ms))
      && fits_int4 (pos (s.error_count + errors))
      && fits_int8 (s.total_tokens_in +ℤ u.tokens_in)
      && fits_int8 (s.total_tokens_out +ℤ u.tokens_out)
    then some (record s {
      total_requests = suc s.total_requests;
      total_tokens_in = s.total_tokens_in +ℤ u.tokens_in;
      total_tokens_out = s.total_tokens_out +ℤ u.tokens_out;
      avg_duration_ms = next_average s.avg_duration_ms s.total_requests u.duration_ms;
      error_count = s.error_count + errors;
      last_used_at = some now;
    })
    else none

-- The statement of `updateModelStats`; a duration that is no INT cannot be sent.
unfoldable pub save_use : ℕ → String → Usage → ℕ → List ModelStats → Option (List ModelStats)
unfolding upsert_row count_use
save_use now model u errors l =
    if fits_int4 (pos u.duration_ms)
    then upsert_row (first_use now model u errors) (count_use now u errors) l
    else none

abbrev pub or_kept {ℓ} : {A : Type ℓ} → A → Option A → A
or_kept a none = a
or_kept a (some b) = b

-- `updateModelStats`: an error is only logged.
unfoldable pub update_model_stats : Env → String → Usage → Bool → Db → Db
unfolding save_use
update_model_stats env model u is_error db =
    let errors = if is_error then 1 else 0 in
    if env.down upsert_stats then db else record db {
      model_stats = or_kept db.model_stats (save_use env.db_now model u errors db.model_stats);
    }

-- `SET total_cost_usd = total_cost_usd + $2`
abbrev pub add_to_cost : Micro → ModelStats → ModelStats
add_to_cost cost s = record s { total_cost_usd = s.total_cost_usd +ℤ cost }

abbrev pub chat_cost : String → String → ℤ → ℤ → Micro → Cost
chat_cost model provider tokens_in tokens_out cost = record {
  job_id = none;
  model_id = model;
  provider = provider;
  tokens_in = tokens_in;
  tokens_out = tokens_out;
  cost_usd = cost;
}

-- `recordChatCost`: without a cost, or when the insert fails, nothing is written.
unfoldable pub record_chat_cost : Env → String → String → ℤ → ℤ → Db → Db
record_chat_cost env model provider tokens_in tokens_out db =
    let cost = env.job_cost model tokens_in tokens_out in
    if env.down job_cost
      || env.down insert_cost
      || not (fits_int4 tokens_in && fits_int4 tokens_out)
    then db
    else record db {
      costs = db.costs ++ chat_cost model provider tokens_in tokens_out cost ∷ [];
      model_stats =
          if env.down add_cost
          then db.model_stats
          else update_where (λ s. s.model_id == model) (add_to_cost cost) db.model_stats;
    }

-- The body of `HandleFeedback`.
pub record Feedback : Type 0 where
  pub model : String
  pub rating : String

abbrev pub first_rating : String → Bool → ModelStats
first_rating model good = record (fresh_stats model) {
  feedback_positive = if good then 1 else 0;
  feedback_negative = if good then 0 else 1;
}

unfoldable pub count_rating : Bool → ModelStats → Option ModelStats
count_rating true s =
    if fits_int4 (pos (suc s.feedback_positive))
    then some (record s { feedback_positive = suc s.feedback_positive })
    else none
count_rating false s =
    if fits_int4 (pos (suc s.feedback_negative))
    then some (record s { feedback_negative = suc s.feedback_negative })
    else none

unfoldable pub save_rating : String → Bool → List ModelStats → Option (List ModelStats)
unfolding upsert_row count_rating
save_rating model good l = upsert_row (first_rating model good) (count_rating good) l

abbrev pub rate : Env → Feedback → World → Reply Feedback × World
rate env req w =
    if env.down upsert_stats
    then (fail 500 "db_error", w)
    else elim (save_rating req.model (req.rating == "good") w.db.model_stats) [
      | none ↦ (fail 500 "db_error", w)
      | some l ↦ (reply 200 req, record w { db = record w.db { model_stats = l } })
    ]

-- What follows the decoding.
abbrev pub check_feedback : Env → Feedback → World → Reply Feedback × World
check_feedback env req w =
    if req.model == ""
    then (fail 400 "model_required", w)
    else if not (req.rating == "good") && not (req.rating == "bad")
    then (fail 400 "invalid_rating", w)
    else rate env req w

unfoldable pub handle_feedback : Env → Request Feedback → World → Reply Feedback × World
unfolding post save_rating
handle_feedback env r w = post r w (λ req. check_feedback env req w)
