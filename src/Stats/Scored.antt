-- ===== src/Stats/Scored.antt =====
-- The rankings that a sync with OpenRouter keeps.
use llm_mcp.Prelude.{
  ◌≡◌, refl, ◌∙◌, String, true, not, ◌&&◌, ◌||◌, ◌==◌, eq_iff, Option, none, some, List, [], ◌∷◌,
  inl, inr, arith, if◌then◌else◌, Bool-cases, and_split, if_both,
}
use llm_mcp.Db.Values.{Json, object}
use llm_mcp.Db.{
  Ranking, Db, Env, upsert_ranking as upsert_ranking_stmt, fill_scores as fill_scores_stmt,
}
use llm_mcp.Stats.{fits_int4}
use llm_mcp.Stats.Sync.{
  Listed, Market, Members, categories, context_of, listed_row, refresh_row, upsert_ranking,
  save_listed, add_member, sync_listing, sync_categories, sync_answer, unscored, default_scores,
  fill_scores, fill_all, start_sync, sync_tables,
}

-- The row of a model.
unfoldable pub ranking_of : String → List Ranking → Option Ranking
ranking_of d [] = none
ranking_of d (r ∷ rs) = if r.model_id == d then some r else ranking_of d rs

abbrev listed_or : Market → Listed → Option Ranking → Ranking
listed_or k m none = listed_row k m
listed_or k m (some r) = refresh_row k m r

ranking_of-upsert_ranking :
    (d : String) (k : Market) (m : Listed) (rs : List Ranking)
    → ranking_of d (upsert_ranking k m rs)
      ≡ (if m.id == d then some (listed_or k m (ranking_of d rs)) else ranking_of d rs)
unfolding ranking_of upsert_ranking
ranking_of-upsert_ranking d k m [] = refl
ranking_of-upsert_ranking d k m (r ∷ rs) = ground (
  arith,
  eq_iff r.model_id m.id,
  eq_iff r.model_id d,
  eq_iff m.id d,
  ranking_of-upsert_ranking d k m rs,
)

-- The row of a model with its provider and its scores.
abbrev Holds : (Ranking → Type 0) → String → List Ranking → Type 0
Holds P d rs = (r : Ranking) × (ranking_of d rs ≡ some r) × P r

-- What a refresh and an update of empty scores keep, a sync keeps.
module _ (P : Ranking → Type 0) (d : String)
    (refreshed : (k : Market) (m : Listed) (r : Ranking) → P r → P (refresh_row k m r))
    (filled : (r : Ranking) (j : Json)
      → unscored r.category_scores ≡ true
      → P r
      → P (record r { category_scores = some j })) where
  upsert_ranking-Holds :
      (k : Market) (m : Listed) (rs : List Ranking)
      → Holds P d rs
      → Holds P d (upsert_ranking k m rs)
  upsert_ranking-Holds k m rs (r, e, p) = elim (Bool-cases (m.id == d)) [
    | inl q ↦
        (refresh_row k m r, ranking_of-upsert_ranking d k m rs ∙ rw (q, e) refl, refreshed k m r p)
    | inr q ↦ (r, ranking_of-upsert_ranking d k m rs ∙ rw (q, e) refl, p)
  ]

  fill_scores-Holds :
      (id : String) (cats : List String) (rs : List Ranking)
      → Holds P d rs
      → Holds P d (fill_scores id cats rs)
  unfolding ranking_of fill_scores
  fill_scores-Holds id cats [] (r, e, p) = absurd (cc)
  fill_scores-Holds id cats (s ∷ rs) (r, e, p) = elim (Bool-cases (s.model_id == d)) [
    | inl q ↦
        let h : some s ≡ some r = rw q at e in
        let j : s ≡ r = ground arith in
        elim (Bool-cases (s.model_id == id && unscored s.category_scores)) [
          | inl t ↦ (
            record s { category_scores = some (object (default_scores cats)) },
            rw t (rw q refl),
            filled s (object (default_scores cats))
                (and_split (s.model_id == id) (unscored s.category_scores) t).1 (rw j p),
          )
          | inr t ↦ (s, rw t (rw q refl), rw j p)
        ]
    | inr q ↦
        let h : ranking_of d rs ≡ some r = rw q at e in
        let (u, v, w) = fill_scores-Holds id cats rs (r, h, p) in
        elim (Bool-cases (s.model_id == id && unscored s.category_scores)) [
          | inl t ↦ (u, rw t (rw q v), w)
          | inr t ↦ (u, rw t (rw q v), w)
        ]
  ]

  save_listed-Holds :
      (env : Env) (k : Market) (m : Listed) (rs : List Ranking)
      → Holds P d rs
      → Holds P d (save_listed env k m rs)
  unfolding save_listed
  save_listed-Holds env k m rs h =
      if_both (Holds P d) (env.down upsert_ranking_stmt || not (fits_int4 (context_of m))) h
        (upsert_ranking-Holds k m rs h)

  sync_listing-Holds :
      (env : Env) (k : Market) (cat : String) (l : List Listed) (s : List Ranking × Members)
      → Holds P d s.0
      → Holds P d (sync_listing env k cat l s).0
  unfolding sync_listing
  sync_listing-Holds env k cat [] s h = h
  sync_listing-Holds env k cat (m ∷ l) s h =
      sync_listing-Holds env k cat l (save_listed env k m s.0, add_member m.id cat s.1)
        (save_listed-Holds env k m s.0 h)

  answered-Holds :
      (env : Env) (k : Market) (cat : String) (o : Option (List Listed))
      (s : List Ranking × Members)
      → Holds P d s.0
      → Holds P d (sync_answer env k cat o s).0
  answered-Holds env k cat none s h = h
  answered-Holds env k cat (some l) s h = sync_listing-Holds env k cat l s h

  sync_categories-Holds :
      (env : Env) (k : Market) (cats : List String) (s : List Ranking × Members)
      → Holds P d s.0
      → Holds P d (sync_categories env k cats s).0
  unfolding sync_categories
  sync_categories-Holds env k [] s h = h
  sync_categories-Holds env k (cat ∷ cats) s h =
      sync_categories-Holds env k cats (sync_answer env k cat (k.listing cat) s)
        (answered-Holds env k cat (k.listing cat) s h)

  fill_all-Holds :
      (env : Env) (ms : Members) (rs : List Ranking) → Holds P d rs → Holds P d (fill_all env ms rs)
  unfolding fill_all
  fill_all-Holds env [] rs h = h
  fill_all-Holds env ((id, cats) ∷ ms) rs h =
      fill_all-Holds env ms (if env.down fill_scores_stmt then rs else fill_scores id cats rs)
        (if_both (Holds P d) (env.down fill_scores_stmt) h (fill_scores-Holds id cats rs h))

  pub sync_tables-Holds :
      (env : Env) (k : Market) (db : Db)
      → Holds P d db.rankings
      → Holds P d (sync_tables env k db).rankings
  unfolding sync_tables
  sync_tables-Holds env k db h =
      let s = sync_categories env k categories (start_sync db) in
      fill_all-Holds env s.1 s.0 (sync_categories-Holds env k categories (start_sync db) h)
