-- ===== src/Stats/Selected.antt =====
-- The model that `selectModel` picks is the best of those that fit.
use llm_mcp.Prelude.{ℕ, ◌≡◌, ◌↔◌, String, true, false, ◌==◌, Option, some, List, Has, filter_if}
use llm_mcp.Prelude.Int.{◌≤ℤ◌}
use llm_mcp.Db.{Micro, Ranking, Db}
use llm_mcp.Stats.Select.{
  Floats, Candidate, too_long, too_costly, weights_of, score, cat_score, scores_of, price_tier,
  candidate_of,
}

-- The prices of a row, and that its context and its cost are in the bounds.
pub record Fits (fl : Floats) (task accuracy : String) (chars : ℕ) (max_cost : Micro) (r : Ranking)
    (c : Candidate) : Type 0 where
  pub price_in : Micro
  pub price_out : Micro
  pub priced_in : r.price_in_1m ≡ some price_in
  pub priced_out : r.price_out_1m ≡ some price_out
  pub short : too_long chars r.context_k ≡ false
  pub cheap : too_costly chars max_cost price_in price_out ≡ false
  pub named : c.model_id ≡ r.model_id
  pub scored :
      c.score
      ≡ score
          (weights_of accuracy)
          (cat_score task (scores_of fl r.category_scores))
          (price_tier fl price_in)

-- The best of the rows that fit.
pub record Best (fl : Floats) (task accuracy : String) (chars : ℕ) (max_cost : Micro)
    (rows : List Ranking) (model : String) : Type 0 where
  pub row : Ranking
  pub chosen : Candidate
  pub stands : Has row rows
  pub offered : (row.provider == "openrouter") ≡ true
  pub named : row.model_id ≡ model
  pub fits : Fits fl task accuracy chars max_cost row chosen
  pub tops :
      (r : Ranking) (c : Candidate)
      → Has r rows
      → (r.provider == "openrouter") ≡ true
      → candidate_of fl task accuracy chars max_cost r ≡ some c
      → c.score ≤ℤ chosen.score

module _ (fl : Floats) (task accuracy : String) (chars : ℕ) (max_cost : Micro) (rows : List Ranking)
    (sorted : List Ranking → List Ranking)
    (keeps : (r : Ranking) (l : List Ranking) → Has r (sorted l) ↔ Has r l) where
  cand : Ranking → Option Candidate
  cand = candidate_of fl task accuracy chars max_cost

  offers : List Ranking
  offers = filter_if (λ r. r.provider == "openrouter") rows
