-- ===== src/Proxy/Kept.antt =====
-- What the updates of statistics and costs keep of a database.
use llm_mcp.Prelude.{
  ℕ, ◌+◌, ◌≡◌, refl, ap, ◌∙◌, String, Bool, true, false, not, ◌&&◌, ◌||◌, ◌==◌, Option, none, some,
  List, [], ◌∷◌, ◌++◌, arith, if◌then◌else◌, if_both, Bool-cases, Option-cases, inl, inr,
  update_where,
}
use llm_mcp.Prelude.Int.{ℤ, pos}
use llm_mcp.Db.{Micro, ModelStats, Db, Env, job_cost, insert_cost, upsert_stats, add_cost}
use llm_mcp.Stats.{
  Usage, fits_int4, or_kept, upsert_row, first_use, count_use, save_use, update_model_stats,
  add_to_cost, chat_cost, record_chat_cost,
}
use llm_mcp.Stats.Rows.{used_row, count_use-used_row}

-- The errors that the statistics count.
pub all_errors : List ModelStats → ℕ
all_errors [] = 0
all_errors (s ∷ l) = s.error_count + all_errors l

all_errors-upsert_row :
    (now : ℕ) (model : String) (u : Usage) (l l' : List ModelStats)
    → upsert_row (first_use now model u 0) (count_use now u 0) l ≡ some l'
    → all_errors l' ≡ all_errors l
unfolding all_errors upsert_row used_row
all_errors-upsert_row now model u [] l' h =
    let q : first_use now model u 0 ∷ [] ≡ l' = ground arith in rw (← q) refl
all_errors-upsert_row now model u (s ∷ l) l' h = elim (Bool-cases (s.model_id == model)) [
  | inl e ↦ elim (Option-cases (count_use now u 0 s)) [
    | inl n ↦ let k : none ≡ some l' = rw (e, n) at h in absurd (cc)
    | inr (t, q) ↦
        let k : some (t ∷ l) ≡ some l' = rw (e, q) at h in
        let j : t ∷ l ≡ l' = ground arith in
        rw (← j) (ap (λ (z : ℕ). z + all_errors l) (same_errors t q))
  ]
  | inr e ↦ elim (Option-cases (upsert_row (first_use now model u 0) (count_use now u 0) l)) [
    | inl n ↦ let k : none ≡ some l' = rw (e, n) at h in absurd (cc)
    | inr (m, q) ↦
        let k : some (s ∷ m) ≡ some l' = rw (e, q) at h in
        let j : s ∷ m ≡ l' = ground arith in
        rw (← j) (ap (λ (z : ℕ). s.error_count + z) (all_errors-upsert_row now model u l m q))
  ]
]
  where
    errors_kept : (used_row now u 0 s).error_count ≡ s.error_count
    errors_kept = omega arith

    same_errors : (t : ModelStats) → count_use now u 0 s ≡ some t → t.error_count ≡ s.error_count
    same_errors t q =
        ap (λ (z : ModelStats). z.error_count) (count_use-used_row now u 0 s t q) ∙ errors_kept

all_errors-add_to_cost :
    (p : ModelStats → Bool) (cost : Micro) (l : List ModelStats)
    → all_errors (update_where p (add_to_cost cost) l) ≡ all_errors l
unfolding all_errors
all_errors-add_to_cost p cost [] = refl
all_errors-add_to_cost p cost (s ∷ l) = elim (Bool-cases (p s)) [
  | inl e ↦ rw e (ap (λ (z : ℕ). s.error_count + z) (all_errors-add_to_cost p cost l))
  | inr e ↦ rw e (ap (λ (z : ℕ). s.error_count + z) (all_errors-add_to_cost p cost l))
]

-- A database that differs in its costs and statistics only, with the errors that it counted.
pub record Kept (a b : Db) : Type 0 where
  pub jobs : b.jobs ≡ a.jobs
  pub attempts : b.attempts ≡ a.attempts
  pub devices : b.devices ≡ a.devices
  pub models : b.models ≡ a.models
  pub device_models : b.device_models ≡ a.device_models
  pub device_limits : b.device_limits ≡ a.device_limits
  pub rankings : b.rankings ≡ a.rankings
  pub benchmarks : b.benchmarks ≡ a.benchmarks
  pub device_metrics : b.device_metrics ≡ a.device_metrics
  pub errors : all_errors b.model_stats ≡ all_errors a.model_stats

pub Kept_refl : (a : Db) → Kept a a
Kept_refl a = record {
  jobs = refl;
  attempts = refl;
  devices = refl;
  models = refl;
  device_models = refl;
  device_limits = refl;
  rankings = refl;
  benchmarks = refl;
  device_metrics = refl;
  errors = refl;
}

-- New statistics and costs.
Kept_stats :
    (a b : Db) (l : List ModelStats)
    → Kept a b
    → all_errors l ≡ all_errors b.model_stats
    → Kept a (record b { model_stats = l })
Kept_stats a b l k e = record {
  jobs = k.jobs;
  attempts = k.attempts;
  devices = k.devices;
  models = k.models;
  device_models = k.device_models;
  device_limits = k.device_limits;
  rankings = k.rankings;
  benchmarks = k.benchmarks;
  device_metrics = k.device_metrics;
  errors = e ∙ k.errors;
}

module _ (env : Env) (a : Db) where
  pub update_model_stats-Kept :
      (model : String) (u : Usage) (b : Db)
      → Kept a b
      → Kept a (update_model_stats env model u false b)
  unfolding update_model_stats save_use
  update_model_stats-Kept model u b k = if_both (Kept a) (env.down upsert_stats) k (
      Kept_stats a b (or_kept b.model_stats (save_use env.db_now model u 0 b.model_stats)) k
        (saved (fits_int4 (pos u.duration_ms))))
    where
      upserted :
          (o : Option (List ModelStats))
          → upsert_row (first_use env.db_now model u 0) (count_use env.db_now u 0) b.model_stats ≡ o
          → all_errors (or_kept b.model_stats o) ≡ all_errors b.model_stats
      upserted none e = refl
      upserted (some l) e = all_errors-upsert_row env.db_now model u b.model_stats l e

      saved :
          (fit : Bool)
          → all_errors (
              or_kept b.model_stats (
                if fit
                then upsert_row
                    (first_use env.db_now model u 0)
                    (count_use env.db_now u 0)
                    b.model_stats
                else none))
            ≡ all_errors b.model_stats
      saved true =
          upserted
            (upsert_row (first_use env.db_now model u 0) (count_use env.db_now u 0) b.model_stats)
            refl
      saved false = refl

  pub record_chat_cost-Kept :
      (model provider : String) (i o : ℤ) (b : Db)
      → Kept a b
      → Kept a (record_chat_cost env model provider i o b)
  unfolding record_chat_cost
  record_chat_cost-Kept model provider i o b k =
      if_both (Kept a)
        (env.down job_cost || env.down insert_cost || not (fits_int4 i && fits_int4 o)) k
        (Kept_stats a
          (record b {
            costs = b.costs ++ chat_cost model provider i o (env.job_cost model i o) ∷ [];
          })
          (if env.down add_cost
            then b.model_stats
            else update_where (λ s. s.model_id == model) (add_to_cost (env.job_cost model i o))
                b.model_stats)
          (with_costs k)
          (if_both (λ l. all_errors l ≡ all_errors b.model_stats) (env.down add_cost) refl
            (all_errors-add_to_cost (λ s. s.model_id == model) (env.job_cost model i o)
              b.model_stats)))
    where
      with_costs :
          Kept a b
          → Kept a (record b {
            costs = b.costs ++ chat_cost model provider i o (env.job_cost model i o) ∷ [];
          })
      with_costs h = record {
        jobs = h.jobs;
        attempts = h.attempts;
        devices = h.devices;
        models = h.models;
        device_models = h.device_models;
        device_limits = h.device_limits;
        rankings = h.rankings;
        benchmarks = h.benchmarks;
        device_metrics = h.device_metrics;
        errors = h.errors;
      }
