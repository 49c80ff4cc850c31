-- ===== src/Stats/Replay.antt =====
-- The table `model_stats` against the history of what changed it.
use llm_mcp.Prelude.{
  ℕ, suc, ◌+◌, String, Bool, true, false, ◌&&◌, ◌||◌, ◌==◌, Option, none, some, List, [], ◌∷◌, ◌++◌,
  any, if◌then◌else◌, update_where,
}
use llm_mcp.Prelude.Int.{ℤ, pos, ◌+ℤ◌}
use llm_mcp.Db.{Micro, ModelStats}
use llm_mcp.Stats.{Usage, fresh_stats, next_average, save_use, add_to_cost, save_rating}

-- The statements on the table: a chat at a time, with its errors; a rating; a cost; and the insertion of a
-- model that the sync or a migration lists, which does nothing on a conflict.
pub data Event : Type 0 where
  used : ℕ → String → Usage → ℕ → Event
  rated : String → Bool → Event
  charged : String → Micro → Event
  listed : String → Event

abbrev pub start_row : String → List ModelStats → List ModelStats
start_row d l = if any (λ s. s.model_id == d) l then l else l ++ fresh_stats d ∷ []

unfoldable pub apply : Event → List ModelStats → Option (List ModelStats)
unfolding save_use save_rating
apply (used now model u errors) l = save_use now model u errors l
apply (rated model good) l = save_rating model good l
apply (charged model cost) l = some (update_where (λ s. s.model_id == model) (add_to_cost cost) l)
apply (listed model) l = some (start_row model l)

-- The table after a history, the latest statement first; `none` when one failed.
unfoldable pub replay : List Event → Option (List ModelStats)
unfolding apply
replay [] = some []
replay (e ∷ h) = elim (replay h) [ none ↦ none | some l ↦ apply e l ]

-- The row of a model.
unfoldable pub row : String → List ModelStats → Option ModelStats
row d [] = none
row d (s ∷ l) = if s.model_id == d then some s else row d l

-- Whether a chat, a rating or a listing of the model is in the history.
unfoldable pub known : String → List Event → Bool
known d [] = false
known d (used now model u errors ∷ h) = model == d || known d h
known d (rated model good ∷ h) = model == d || known d h
known d (charged model cost ∷ h) = known d h
known d (listed model ∷ h) = model == d || known d h

-- The chats of a model, the latest first.
unfoldable pub uses : String → List Event → List Usage
uses d [] = []
uses d (used now model u errors ∷ h) = if model == d then u ∷ uses d h else uses d h
uses d (rated model good ∷ h) = uses d h
uses d (charged model cost ∷ h) = uses d h
uses d (listed model ∷ h) = uses d h

unfoldable pub requests : List Usage → ℕ
requests [] = 0
requests (u ∷ us) = suc (requests us)

unfoldable pub sum_in : List Usage → ℤ
sum_in [] = pos 0
sum_in (u ∷ us) = sum_in us +ℤ u.tokens_in

unfoldable pub sum_out : List Usage → ℤ
sum_out [] = pos 0
sum_out (u ∷ us) = sum_out us +ℤ u.tokens_out

-- The running average, rounded down at each chat.
unfoldable pub average : List Usage → ℕ
average [] = 0
average (u ∷ us) = next_average (average us) (requests us) u.duration_ms

unfoldable pub errors_of : String → List Event → ℕ
errors_of d [] = 0
errors_of d (used now model u errors ∷ h) =
    if model == d then errors_of d h + errors else errors_of d h
errors_of d (rated model good ∷ h) = errors_of d h
errors_of d (charged model cost ∷ h) = errors_of d h
errors_of d (listed model ∷ h) = errors_of d h

unfoldable pub last_use : String → List Event → Option ℕ
last_use d [] = none
last_use d (used now model u errors ∷ h) = if model == d then some now else last_use d h
last_use d (rated model good ∷ h) = last_use d h
last_use d (charged model cost ∷ h) = last_use d h
last_use d (listed model ∷ h) = last_use d h

-- How often the model was rated so.
unfoldable pub ratings : Bool → String → List Event → ℕ
ratings b d [] = 0
ratings b d (used now model u errors ∷ h) = ratings b d h
ratings b d (rated model good ∷ h) =
    if (model == d) && same b good then suc (ratings b d h) else ratings b d h
  where
    same : Bool → Bool → Bool
    same true good = good
    same false true = false
    same false false = true
ratings b d (charged model cost ∷ h) = ratings b d h
ratings b d (listed model ∷ h) = ratings b d h

-- What was charged for a model once it had a row.
unfoldable pub spent : String → List Event → Micro
unfolding known
spent d [] = pos 0
spent d (used now model u errors ∷ h) = spent d h
spent d (rated model good ∷ h) = spent d h
spent d (charged model cost ∷ h) =
    if (model == d) && known d h then spent d h +ℤ cost else spent d h
spent d (listed model ∷ h) = spent d h

-- The row that the history asks for.
unfoldable pub summary : String → List Event → ModelStats
unfolding known uses requests sum_in sum_out average errors_of last_use ratings spent
summary d h = record {
  model_id = d;
  total_requests = requests (uses d h);
  total_tokens_in = sum_in (uses d h);
  total_tokens_out = sum_out (uses d h);
  total_cost_usd = spent d h;
  avg_duration_ms = average (uses d h);
  error_count = errors_of d h;
  last_used_at = last_use d h;
  feedback_positive = ratings true d h;
  feedback_negative = ratings false d h;
}

-- What the history says of the row of a model.
abbrev pub expected : String → List Event → Option ModelStats
expected d h = if known d h then some (summary d h) else none
