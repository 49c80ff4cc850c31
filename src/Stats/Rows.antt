-- ===== src/Stats/Rows.antt =====
-- What one statement makes of the row of a model.
use llm_mcp.Prelude.{
  or_false, ℕ, suc, ◌+◌, ◌≡◌, refl, String, Bool, true, false, ◌==◌, none, some, List, [], ◌∷◌,
  arith, if◌then◌else◌,
}
use llm_mcp.Prelude.Int.{ℤ, pos, ◌+ℤ◌}
use llm_mcp.Db.{ModelStats}
use llm_mcp.Stats.{
  Usage, fresh_stats, first_use, next_average, count_use, first_rating, count_rating,
}
use llm_mcp.Stats.Replay.{Event, used, rated, charged, listed, known, summary}

-- What one more chat makes of a row.
unfoldable pub used_row : ℕ → Usage → ℕ → ModelStats → ModelStats
used_row now u errors s = record s {
  total_requests = suc s.total_requests;
  total_tokens_in = s.total_tokens_in +ℤ u.tokens_in;
  total_tokens_out = s.total_tokens_out +ℤ u.tokens_out;
  avg_duration_ms = next_average s.avg_duration_ms s.total_requests u.duration_ms;
  error_count = s.error_count + errors;
  last_used_at = some now;
}

pub count_use-used_row :
    (now : ℕ) (u : Usage) (errors : ℕ) (s t : ModelStats)
    → count_use now u errors s ≡ some t
    → t ≡ used_row now u errors s
unfolding count_use used_row
count_use-used_row now u errors s t h = inside _ h
  where
    inside :
        (b : Bool)
        → (if b then some (used_row now u errors s) else none) ≡ some t
        → t ≡ used_row now u errors s
    inside true k = ground arith
    inside false k = absurd (cc)

zero_plus : (z : ℤ) → pos 0 +ℤ z ≡ z
unfolding ◌+ℤ◌
zero_plus z = ground arith

pub first_use-used_row :
    (now : ℕ) (model : String) (u : Usage) (errors : ℕ)
    → first_use now model u errors ≡ used_row now u errors (fresh_stats model)
unfolding used_row
first_use-used_row now model u errors =
    rw (zero_plus u.tokens_in, zero_plus u.tokens_out) (ground arith)

-- Of a model that was neither used, rated nor listed the summary is the fresh row.
pub summary-fresh : (d : String) (h : List Event) → known d h ≡ false → summary d h ≡ fresh_stats d
unfolding summary
summary-fresh d [] k = refl
summary-fresh d (used now model u errors ∷ h) k =
    let (e, m) = or_false (model == d) (known d h) k in rw e (summary-fresh d h m)
summary-fresh d (rated model good ∷ h) k =
    let (e, m) = or_false (model == d) (known d h) k in rw e (summary-fresh d h m)
summary-fresh d (charged model cost ∷ h) k = ground (arith, summary-fresh d h k)
summary-fresh d (listed model ∷ h) k =
    let (e, m) = or_false (model == d) (known d h) k in summary-fresh d h m

-- What one more rating makes of a row.
unfoldable pub rated_row : Bool → ModelStats → ModelStats
rated_row true s = record s { feedback_positive = suc s.feedback_positive }
rated_row false s = record s { feedback_negative = suc s.feedback_negative }

pub count_rating-rated_row :
    (good : Bool) (s t : ModelStats) → count_rating good s ≡ some t → t ≡ rated_row good s
unfolding count_rating rated_row
count_rating-rated_row true s t h = ground arith
count_rating-rated_row false s t h = ground arith

pub first_rating-rated_row :
    (model : String) (good : Bool) → first_rating model good ≡ rated_row good (fresh_stats model)
unfolding rated_row
first_rating-rated_row model true = refl
first_rating-rated_row model false = refl

pub rated_row-model : (good : Bool) (s : ModelStats) → (rated_row good s).model_id ≡ s.model_id
unfolding rated_row
rated_row-model true s = refl
rated_row-model false s = refl

pub used_row-model :
    (now : ℕ) (u : Usage) (errors : ℕ) (s : ModelStats)
    → (used_row now u errors s).model_id ≡ s.model_id
unfolding used_row
used_row-model now u errors s = refl

-- An upsert whose update is `next` on the rows that it accepts, and whose new row is `next` of a fresh one.
