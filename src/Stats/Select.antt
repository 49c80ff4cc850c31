-- ===== src/Stats/Select.antt =====
-- `selectModel` in core/internal/api/handlers.go. Prices, costs and scores are float64 in the code and
-- multiples of a millionth here; the logarithm of a price and the decoder of the scores are parameters.
use llm_mcp.Prelude.{
  ℕ, ◌+◌, String, Bool, false, ◌&&◌, ◌||◌, ◌==◌, Option, none, some, List, [], ◌∷◌, if◌then◌else◌,
  byte_len, length, filter_if,
}
use llm_mcp.Prelude.Int.{ℤ, pos, scale, ltb_ℤ, leb_ℤ, ◌+ℤ◌, ◌-ℤ◌, quot_ℤ}
use llm_mcp.Db.Values.{Json}
use llm_mcp.Db.{Micro, Ranking, Db, Env, read_rankings}

-- `json.Unmarshal` into a map of numbers, and `math.Log10(price*1000+1) * 10`.
pub record Floats : Type 0 where
  pub read_scores : Json → List (String × Micro)
  pub log_price : Micro → Micro

-- The content of a message, when it is a text.
abbrev pub Contents : Type 0
Contents = List (Option String)

unfoldable pub total_chars : Contents → ℕ
total_chars [] = 0
total_chars (none ∷ ms) = total_chars ms
total_chars (some c ∷ ms) = byte_len c + total_chars ms

-- `accWeight` and `costFactor`, in tenths.
pub record Weights : Type 0 where
  pub acc_weight : ℕ
  pub cost_factor : ℕ

abbrev pub weights_of : String → Weights
weights_of accuracy =
    if accuracy == "low"
    then record { acc_weight = 3; cost_factor = 30 }
    else if accuracy == "high"
    then record { acc_weight = 9; cost_factor = 5 }
    else if accuracy == "critical"
    then record { acc_weight = 10; cost_factor = 0 }
    else record { acc_weight = 6; cost_factor = 15 }

-- `estimatedTokens > float64(*contextK)*1000`, where a token is four bytes.
abbrev pub too_long : ℕ → Option ℤ → Bool
too_long chars none = false
too_long chars (some k) = ltb_ℤ (scale 4000 k) (pos chars)

-- `maxCost > 0 && estCost > maxCost`, both sides times four million.
abbrev pub too_costly : ℕ → Micro → Micro → Micro → Bool
too_costly chars max_cost price_in price_out =
    ltb_ℤ (pos 0) max_cost
    && ltb_ℤ (scale 4_000_000 max_cost) (scale chars price_in +ℤ scale chars price_out)

-- `scores[k]`, 0 for a name that is not there.
abbrev pub score_at : String → List (String × Micro) → Micro
score_at k [] = pos 0
score_at k ((j, v) ∷ scores) = if j == k then v else score_at k scores

abbrev pub sum_scores : List (String × Micro) → Micro
sum_scores [] = pos 0
sum_scores ((j, v) ∷ scores) = v +ℤ sum_scores scores

abbrev pub is_zero : ℤ → Bool
is_zero z = leb_ℤ z (pos 0) && leb_ℤ (pos 0) z

abbrev pub fifty : Micro
fifty = pos 50_000_000

-- The score of the category; without one the average of all, and without any 50.
unfoldable pub cat_score : String → List (String × Micro) → Micro
cat_score task scores =
    let s = score_at task scores in
    if is_zero s
    then elim scores [ [] ↦ fifty | p ∷ ps ↦ quot_ℤ (sum_scores (p ∷ ps)) (length (p ∷ ps)) ]
    else s

unfoldable pub price_tier : Floats → Micro → Micro
price_tier fl price = if ltb_ℤ (pos 0) price then fl.log_price price else pos 0

-- `catScore*accWeight - costFactor*priceTier`, in ten-millionths.
unfoldable pub score : Weights → Micro → Micro → ℤ
score w cat tier = scale w.acc_weight cat -ℤ scale w.cost_factor tier

pub record Candidate : Type 0 where
  pub model_id : String
  pub score : ℤ

abbrev pub scores_of : Floats → Option Json → List (String × Micro)
scores_of fl none = []
scores_of fl (some j) = fl.read_scores j

-- A row whose price is NULL does not scan.
abbrev pub rated_candidate :
    Floats → String → String → ℕ → Micro → Ranking → Option Micro → Option Micro → Option Candidate
rated_candidate fl task accuracy chars max_cost r (some price_in) (some price_out) =
    if too_long chars r.context_k || too_costly chars max_cost price_in price_out
    then none
    else some (record {
      model_id = r.model_id;
      score =
          score (weights_of accuracy) (cat_score task (scores_of fl r.category_scores))
            (price_tier fl price_in);
    })
rated_candidate fl task accuracy chars max_cost r price_in price_out = none

unfoldable pub candidate_of : Floats → String → String → ℕ → Micro → Ranking → Option Candidate
candidate_of fl task accuracy chars max_cost r =
    rated_candidate fl task accuracy chars max_cost r r.price_in_1m r.price_out_1m

-- The loop over the rows, which come ordered by `model_id`.
unfoldable pub candidates : (Ranking → Option Candidate) → List Ranking → List Candidate
candidates f [] = []
candidates f (r ∷ rs) = elim (f r) [ none ↦ candidates f rs | some c ↦ c ∷ candidates f rs ]

-- `for _, c := range candidates[1:]`
unfoldable pub best_of : Candidate → List Candidate → Candidate
best_of best [] = best
best_of best (c ∷ cs) = best_of (if ltb_ℤ best.score c.score then c else best) cs

abbrev pub pick : List Candidate → Option String
pick [] = none
pick (c ∷ cs) = some (best_of c cs).model_id

-- `none` is an error. `sorted` stands for `ORDER BY model_id`, an order that the collation decides.
unfoldable pub select_model :
    Env
    → Floats
    → (List Ranking → List Ranking)
    → Db
    → String
    → String
    → Micro
    → Contents
    → Option String
unfolding total_chars candidate_of candidates best_of
select_model env fl sorted db task accuracy max_cost messages =
    if env.down read_rankings
    then none
    else pick (
        candidates (candidate_of fl task accuracy (total_chars messages) max_cost)
          (sorted (filter_if (λ r. r.provider == "openrouter") db.rankings)))
