-- ===== src/Stats/Sync.antt =====
-- `HandleOpenRouterSync` in core/internal/api/handlers.go. What OpenRouter lists and the parser of its
-- prices are parameters; the loop over the map of categories is taken in the order of its first entries.
use llm_mcp.Prelude.{
  ℕ, String, Bool, true, false, not, ◌&&◌, ◌||◌, ◌==◌, Option, none, some, List, [], ◌∷◌, ◌++◌,
  if◌then◌else◌, any, length, update_where,
}
use llm_mcp.Prelude.Int.{ℤ, pos, quot_ℤ}
use llm_mcp.Config.{getenv}
use llm_mcp.Db.Values.{Json, Value, object, other, num}
use llm_mcp.Db.{
  Micro, Ranking, ModelStats, Db, Env, upsert_ranking as upsert_ranking_stmt,
  fill_scores as fill_scores_stmt, fill_stats as fill_stats_stmt,
}
use llm_mcp.Http.{Reply, reply, fail, World}
use llm_mcp.Stats.{fits_int4, fresh_stats}

-- An entry of the answer.
pub record Listed : Type 0 where
  pub id : String
  pub name : String
  pub context_length : ℤ
  pub prompt : String
  pub completion : String

-- The answer for a category, `none` when the request fails; and `strconv.ParseFloat` times a million.
pub record Market : Type 0 where
  pub listing : String → Option (List Listed)
  pub parse_price : String → Option Micro

abbrev pub categories : List String
categories = "programming" ∷ "science" ∷ "technology" ∷ "translation" ∷ "finance" ∷ "academia" ∷ []

abbrev pub or_zero : Option Micro → Micro
or_zero none = pos 0
or_zero (some p) = p

-- `m.ContextLen / 1000`
abbrev pub context_of : Listed → ℤ
context_of m = quot_ℤ m.context_length 1000

-- The row that is inserted, with the defaults of the table.
abbrev pub listed_row : Market → Listed → Ranking
listed_row k m = record {
  model_id = m.id;
  provider = "openrouter";
  display_name = some m.name;
  category_scores = some (object []);
  context_k = some (context_of m);
  price_in_1m = some (or_zero (k.parse_price m.prompt));
  price_out_1m = some (or_zero (k.parse_price m.completion));
}

-- `COALESCE(NULLIF(EXCLUDED.display_name, ''), model_rankings.display_name)`
abbrev pub name_or : String → Option String → Option String
name_or name old = if name == "" then old else some name

-- `DO UPDATE SET`: the provider and the scores stay.
abbrev pub refresh_row : Market → Listed → Ranking → Ranking
refresh_row k m r = record r {
  display_name = name_or m.name r.display_name;
  context_k = some (context_of m);
  price_in_1m = some (or_zero (k.parse_price m.prompt));
  price_out_1m = some (or_zero (k.parse_price m.completion));
}

unfoldable pub upsert_ranking : Market → Listed → List Ranking → List Ranking
upsert_ranking k m [] = listed_row k m ∷ []
upsert_ranking k m (r ∷ rs) =
    if r.model_id == m.id then refresh_row k m r ∷ rs else r ∷ upsert_ranking k m rs

-- An error is only logged; a context that is no INT is one.
unfoldable pub save_listed : Env → Market → Listed → List Ranking → List Ranking
unfolding upsert_ranking
save_listed env k m rs =
    if env.down upsert_ranking_stmt || not (fits_int4 (context_of m))
    then rs
    else upsert_ranking k m rs

-- `modelCategories`, a map to lists of categories.
abbrev pub Members : Type 0
Members = List (String × List String)

-- `modelCategories[id] = append(modelCategories[id], cat)`
unfoldable pub add_member : String → String → Members → Members
add_member id cat [] = (id, cat ∷ []) ∷ []
add_member id cat ((j, cs) ∷ ms) =
    if j == id then (j, cs ++ cat ∷ []) ∷ ms else (j, cs) ∷ add_member id cat ms

-- The loop over the entries of an answer.
unfoldable pub sync_listing :
    Env → Market → String → List Listed → List Ranking × Members → List Ranking × Members
unfolding save_listed add_member
sync_listing env k cat [] s = s
sync_listing env k cat (m ∷ l) s =
    sync_listing env k cat l (save_listed env k m s.0, add_member m.id cat s.1)

-- A category whose request fails is skipped.
abbrev pub sync_answer :
    Env → Market → String → Option (List Listed) → List Ranking × Members → List Ranking × Members
sync_answer env k cat none s = s
sync_answer env k cat (some l) s = sync_listing env k cat l s

-- The loop over the categories.
unfoldable pub sync_categories :
    Env → Market → List String → List Ranking × Members → List Ranking × Members
unfolding sync_listing
sync_categories env k [] s = s
sync_categories env k (cat ∷ cats) s =
    sync_categories env k cats (sync_answer env k cat (k.listing cat) s)

-- `map[string]int` with 75 for each category; a repeated one stands once.
unfoldable pub default_scores : List String → List (String × Value)
default_scores [] = []
default_scores (c ∷ cs) =
    let rest = default_scores cs in
    if any (λ p. p.0 == c) rest then rest else (c, num "75" (pos 75)) ∷ rest

-- `category_scores IS NULL OR category_scores = '{}'`
abbrev pub unscored : Option Json → Bool
unscored none = true
unscored (some (object [])) = true
unscored (some (object (p ∷ ps))) = false
unscored (some (other v)) = false

unfoldable pub fill_scores : String → List String → List Ranking → List Ranking
unfolding default_scores
fill_scores id cats rs =
    update_where (λ r. r.model_id == id && unscored r.category_scores)
      (λ r. record r { category_scores = some (object (default_scores cats)) }) rs

-- The loop over the map.
unfoldable pub fill_all : Env → Members → List Ranking → List Ranking
unfolding fill_scores
fill_all env [] rs = rs
fill_all env ((id, cats) ∷ ms) rs =
    fill_all env ms (if env.down fill_scores_stmt then rs else fill_scores id cats rs)

-- `INSERT INTO model_stats … SELECT model_id FROM model_rankings ON CONFLICT DO NOTHING`
unfoldable pub fill_stats : List Ranking → List ModelStats → List ModelStats
fill_stats [] l = l
fill_stats (r ∷ rs) l =
    fill_stats rs
      (if any (λ s. s.model_id == r.model_id) l then l else l ++ fresh_stats r.model_id ∷ [])

-- The answer of the handler: how many models were listed.
pub record Synced : Type 0 where
  pub synced : ℕ

abbrev pub start_sync : Db → List Ranking × Members
start_sync db = (db.rankings, [])

-- The tables after the loops.
unfoldable pub sync_tables : Env → Market → Db → Db
unfolding sync_categories fill_all fill_stats
sync_tables env k db =
    let s = sync_categories env k categories (start_sync db) in
    let rankings = fill_all env s.1 s.0 in
    record db {
      rankings = rankings;
      model_stats =
          if env.down fill_stats_stmt then db.model_stats else fill_stats rankings db.model_stats;
    }

abbrev pub no_key : Env → Bool
no_key env = let key = getenv env.vars "OPENROUTER_API_KEY" "" in key == "" || key == "not-used"

unfoldable pub handle_openrouter_sync : Env → Market → String → World → Reply Synced × World
unfolding sync_tables
handle_openrouter_sync env k method w =
    if not (method == "POST")
    then (fail 405 "method_not_allowed", w)
    else if no_key env
    then (fail 503 "no_api_key", w)
    else (
      reply 200 (record { synced = length (sync_categories env k categories (start_sync w.db)).1 }),
      record w { db = sync_tables env k w.db },
    )
