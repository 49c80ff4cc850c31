-- ===== src/Stats/Synced.antt =====
-- What a sync with OpenRouter keeps and what it adds.
use llm_mcp.Prelude.{◌≡◌, refl, String, true, false, some}
use llm_mcp.Db.{Ranking, Db, Env, fill_stats as fill_stats_stmt}
use llm_mcp.Stats.Replay.{row}
use llm_mcp.Stats.Sync.{Market, unscored, sync_tables}
use llm_mcp.Stats.Scored.{ranking_of, sync_tables-Holds}
use llm_mcp.Stats.Filled.{ranking_of-Has, or_fresh_row, fill_stats-or_fresh}

-- A sync with OpenRouter, whatever it lists and whatever other statements fail, keeps the provider and the
-- scores of a model whose scores are not empty, and when its last statement does not fail the model has a
-- row of statistics then: the one that it had, or a fresh one.
pub sync_tables-Kept :
    (env : Env) (k : Market) (db : Db) (d : String) (r : Ranking)
    → ranking_of d db.rankings ≡ some r
    → unscored r.category_scores ≡ false
    → env.down fill_stats_stmt ≡ false
    → (q : Ranking) × (ranking_of d (sync_tables env k db).rankings ≡ some q)
      × (q.category_scores ≡ r.category_scores)
      × (q.provider ≡ r.provider)
      × (row d (sync_tables env k db).model_stats ≡ some (or_fresh_row d (row d db.model_stats)))
unfolding sync_tables
sync_tables-Kept env k db d r e full up =
    let (q, f, same) =
      sync_tables-Holds (λ q. (q.category_scores ≡ r.category_scores) × (q.provider ≡ r.provider)) d
        (λ k m q p. p)
        (λ q j t p. let u : unscored r.category_scores ≡ true = rw (← p.0) t in absurd (cc)) env k
        db (r, e, (refl, refl)) in
    let (t, m) = ranking_of-Has d (sync_tables env k db).rankings q f in
    (
      q,
      f,
      same.0,
      same.1,
      rw up (fill_stats-or_fresh d q (sync_tables env k db).rankings db.model_stats m t),
    )
