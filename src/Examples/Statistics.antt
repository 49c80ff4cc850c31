-- ===== src/Examples/Statistics.antt =====
-- Concrete inputs for the statistics of models and the diagnosis of the server.
use llm_mcp.Prelude.{
  ℕ, ◌+◌, ◌*◌, ◌≤◌, ◌≡◌, refl, ◌↔◌, ◌⊎◌, String, true, false, ◌==◌, Option, none, some, List, [],
  ◌∷◌, arith, Has, byte_len,
}
use llm_mcp.Prelude.Int.{pos, ◌+ℤ◌, ◌-ℤ◌}
use llm_mcp.Db.Values.{object, num}
use llm_mcp.Db.{ModelStats, Ranking, Db}
use llm_mcp.Http.{posted, reply}
use llm_mcp.Stats.{Usage, Feedback, fresh_stats, update_model_stats, handle_feedback}
use llm_mcp.Stats.Replay.{Event, used, rated, charged, listed, replay, row, uses, expected}
use llm_mcp.Stats.Counted.{row-replay}
use llm_mcp.Stats.Average.{duration, average-replay}
use llm_mcp.Stats.Stuck.{update_model_stats-full}
use llm_mcp.Stats.Select.{
  Floats, total_chars, cat_score, price_tier, score, candidate_of, select_model,
}
use llm_mcp.Stats.Selected.{Best}
use llm_mcp.Stats.Sync.{Market, Listed, sync_tables}
use llm_mcp.Stats.Scored.{ranking_of}
use llm_mcp.Stats.Filled.{or_fresh_row}
use llm_mcp.Stats.Synced.{sync_tables-Kept}
use llm_mcp.Debug.Health.{health, ok, error}
use llm_mcp.Debug.Worst.{IsFine, IsDown, health-IsFine}
use llm_mcp.Queue.{select_claimable}
use llm_mcp.Debug.Smoke.{handle_debug_test}
use llm_mcp.Debug.Unnoticed.{select_claimable-handle_debug_test}
use llm_mcp.Examples.Data.{env_at, two_jobs}

abbrev two_seconds : Usage
two_seconds = record { tokens_in = pos 10; tokens_out = pos 30; duration_ms = 2000 }

-- A listing, a cost, a rating, a chat, its cost, and a chat of the same length.
abbrev history : List Event
history =
    used 9 "m" two_seconds 0
    ∷ charged "m" (pos 7)
    ∷ used 5 "m" two_seconds 0
    ∷ rated "m" true
    ∷ charged "m" (pos 2)
    ∷ listed "m"
    ∷ []

abbrev counted : ModelStats
counted = record (fresh_stats "m") {
  total_requests = 2;
  total_tokens_in = pos 20;
  total_tokens_out = pos 60;
  total_cost_usd = pos 9;
  avg_duration_ms = 2000;
  last_used_at = some 9;
  feedback_positive = 1;
}

history_replays : replay history ≡ some (counted ∷ [])
unfolding replay ◌+ℤ◌
history_replays = refl

counted_row : row "m" (counted ∷ []) ≡ some counted
unfolding row
counted_row = refl

row-replay_example : row "m" (counted ∷ []) ≡ expected "m" history
row-replay_example = row-replay "m" history (counted ∷ []) history_replays

average-replay_example :
    (2000 * 2 ≤ duration (uses "m" history)) × (duration (uses "m" history) ≤ 2000 * 2 + 2 * 2)
average-replay_example =
    average-replay "m" history (counted ∷ []) counted history_replays counted_row

-- 300000 chats of ten seconds.
abbrev full_row : ModelStats
full_row = record (fresh_stats "m") { total_requests = 300_000; avg_duration_ms = 10_000 }

abbrev full_db : Db
full_db = record two_jobs.db { model_stats = full_row ∷ [] }

full_row_found : row "m" full_db.model_stats ≡ some full_row
unfolding row
full_row_found = refl

update_model_stats-full_example :
    (update_model_stats (env_at 100) "m" two_seconds false full_db).model_stats
    ≡ full_db.model_stats
update_model_stats-full_example =
    update_model_stats-full (env_at 100) "m" two_seconds false full_db full_row full_row_found
      (omega arith)

abbrev ranked : String → ℕ → Ranking
ranked model price = record {
  model_id = model;
  provider = "openrouter";
  display_name = none;
  category_scores = some (object (("science", num "80" (pos 80)) ∷ []));
  context_k = some (pos 100);
  price_in_1m = some (pos price);
  price_out_1m = some (pos price);
}

abbrev ranked_db : Db
ranked_db = record two_jobs.db { rankings = ranked "a/b" 2_000_000 ∷ ranked "c/d" 1_000_000 ∷ [] }

abbrev plain_floats : Floats
plain_floats = record { read_scores = λ j. ("science", pos 80_000_000) ∷ []; log_price = λ p. p }

abbrev as_given : List Ranking → List Ranking
as_given l = l

-- Of two models with the same score of the task the cheaper one is selected.
cheaper :
    select_model
      (env_at 100)
      plain_floats
      as_given
      ranked_db
      "science"
      "low"
      (pos 0)
      (some "hi" ∷ [])
    ≡ some "c/d"
unfolding select_model byte_len score ◌-ℤ◌ cat_score price_tier ◌+ℤ◌
cheaper = refl

abbrev Picked : Type 0
Picked =
    ((select_model (env_at 100) plain_floats as_given ranked_db "science" "low" (pos 0)
          (some "hi" ∷ [])
        ≡ none)
      × ((r : Ranking)
          → Has r ranked_db.rankings
          → (r.provider == "openrouter") ≡ true
          → candidate_of plain_floats "science" "low" (total_chars (some "hi" ∷ [])) (pos 0) r
            ≡ none))
    ⊎ ((model : String) × (select_model (env_at 100) plain_floats as_given ranked_db "science" "low"
            (pos 0) (some "hi" ∷ [])
          ≡ some model)
        × Best plain_floats "science" "low" (total_chars (some "hi" ∷ [])) (pos 0)
            ranked_db.rankings model)

abbrev market : Market
market = record { listing = λ cat. if_science cat; parse_price = λ s. some (pos 3_000_000) }
  where
    if_science : String → Option (List Listed)
    if_science cat = some (
        record {
          id = "a/b";
          name = "AB";
          context_length = pos 128_000;
          prompt = "3";
          completion = "3";
        }
        ∷ [])

found_ab : ranking_of "a/b" ranked_db.rankings ≡ some (ranked "a/b" 2_000_000)
unfolding ranking_of
found_ab = refl

sync_tables-Kept_example :
    (q : Ranking) × (ranking_of "a/b" (sync_tables (env_at 100) market ranked_db).rankings ≡ some q)
    × (q.category_scores ≡ (ranked "a/b" 2_000_000).category_scores)
    × (q.provider ≡ "openrouter")
    × (row "a/b" (sync_tables (env_at 100) market ranked_db).model_stats
        ≡ some (or_fresh_row "a/b" (row "a/b" ranked_db.model_stats)))
sync_tables-Kept_example =
    sync_tables-Kept (env_at 100) market ranked_db "a/b" (ranked "a/b" 2_000_000) found_ab refl refl

health-IsFine_example :
    (((health (env_at 100) two_jobs.db).level ≡ ok) ↔ IsFine 100 two_jobs.db)
    × (((health (env_at 100) two_jobs.db).level ≡ error) ↔ IsDown two_jobs.db)
health-IsFine_example = health-IsFine (env_at 100) two_jobs.db refl refl refl refl

abbrev good_m : Feedback
good_m = record { model = "m"; rating = "good" }

-- A rating makes a row.
rated_once : (handle_feedback (env_at 100) (posted good_m) two_jobs).0 ≡ reply 200 good_m
unfolding handle_feedback
rated_once = refl

-- The workers get the same job before and after.
select_claimable-handle_debug_test_example :
    select_claimable 100
      (λ id. false)
      []
      (pos 1)
      (handle_debug_test (env_at 100) (λ url. some 200) "POST" two_jobs).1.db
    ≡ select_claimable 100 (λ id. false) [] (pos 1) two_jobs.db
select_claimable-handle_debug_test_example =
    select_claimable-handle_debug_test (env_at 100) (λ url. some 200) "POST" two_jobs 100
      (λ id. false) [] (pos 1) refl
