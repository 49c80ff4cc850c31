-- ===== src/Stats/Stuck.antt =====
-- The product in the average of updateModelStats leaves the range of an INT.
use llm_mcp.Prelude.{
  ℕ, suc, ◌*◌, ◌^◌, ◌≤◌, ◌≡◌, refl, ap, String, Bool, false, ◌==◌, Option, none, some, List, [],
  ◌∷◌, arith, if◌then◌else◌, if_both, Bool-cases, inl, inr,
}
use llm_mcp.Prelude.Int.{pos}
use llm_mcp.Db.{ModelStats, Db, Env, upsert_stats}
use llm_mcp.Stats.{
  Usage, fits_int4, or_kept, upsert_row, first_use, count_use, save_use, update_model_stats,
}
use llm_mcp.Stats.Replay.{row}

-- A row whose average times its requests is no INT.
abbrev pub IsFull : ModelStats → Type 0
IsFull s = 2 ^ 31 ≤ s.avg_duration_ms * s.total_requests

no_int4 : (n : ℕ) → 2 ^ 31 ≤ n → fits_int4 (pos n) ≡ false
no_int4 n h = ground arith

count_use-full :
    (now : ℕ) (u : Usage) (errors : ℕ) (s : ModelStats) → IsFull s → count_use now u errors s ≡ none
unfolding count_use
count_use-full now u errors s h =
    rw (no_int4 (s.avg_duration_ms * s.total_requests) h)
      (elim (Bool-cases (fits_int4 (pos (suc s.total_requests)))) [
        | inl e ↦ rw e refl
        | inr e ↦ rw e refl
      ])

upsert_row-full :
    (model : String) (new : ModelStats) (f : ModelStats → Option ModelStats) (s : ModelStats)
    (l : List ModelStats)
    → new.model_id ≡ model
    → row model l ≡ some s
    → f s ≡ none
    → upsert_row new f l ≡ none
unfolding row upsert_row
upsert_row-full model new f s [] e r n = absurd (cc)
upsert_row-full model new f s (t ∷ l) e r n = elim (Bool-cases (t.model_id == model)) [
  | inl q ↦
      let k : some t ≡ some s = rw q at r in
      let j : t ≡ s = ground arith in rw (e, q) (rw j (rw n refl))
  | inr q ↦
      let k : row model l ≡ some s = rw q at r in
      rw (e, q) (rw (upsert_row-full model new f s l e k n) refl)
]

-- Once the average duration of a model times its requests has reached 2 ^ 31, no chat of the model is
-- counted any more, whatever it reports: the statistics of all models stay as they are.
pub update_model_stats-full :
    (env : Env) (model : String) (u : Usage) (is_error : Bool) (db : Db) (s : ModelStats)
    → row model db.model_stats ≡ some s
    → IsFull s
    → (update_model_stats env model u is_error db).model_stats ≡ db.model_stats
unfolding update_model_stats save_use
update_model_stats-full env model u is_error db s r h =
    if_both (λ (d : Db). d.model_stats ≡ db.model_stats) (env.down upsert_stats) refl
      (if_both (λ o. or_kept db.model_stats o ≡ db.model_stats) (fits_int4 (pos u.duration_ms))
        (ap (or_kept db.model_stats) (refused (if is_error then 1 else 0))) refl)
  where
    refused :
        (errors : ℕ)
        → upsert_row
            (first_use env.db_now model u errors)
            (count_use env.db_now u errors)
            db.model_stats
          ≡ none
    refused errors =
        upsert_row-full model (first_use env.db_now model u errors) (count_use env.db_now u errors)
          s db.model_stats refl r (count_use-full env.db_now u errors s h)
