-- ===== src/Proxy/First.antt =====
-- The first chat of a model in the cloud: its cost is written before its statistics have a row.
use llm_mcp.Prelude.{
  ℕ, ◌≡◌, refl, ◌∙◌, String, true, false, ◌&&◌, ◌||◌, ◌==◌, eq_refl, Option, none, some, List, [],
  ◌∷◌, ◌++◌, if◌then◌else◌, if_both, if_each, Bool-cases, inl, inr, update_where,
}
use llm_mcp.Prelude.Int.{pos}
use llm_mcp.Db.{Micro, ModelStats, Env, job_cost, insert_cost, upsert_stats, add_cost}
use llm_mcp.Http.Scanner.{Bytes}
use llm_mcp.Http.{World}
use llm_mcp.Stats.{
  fits_int4, upsert_row, first_use, count_use, save_use, update_model_stats, add_to_cost, chat_cost,
  record_chat_cost,
}
use llm_mcp.Stats.Replay.{row}
use llm_mcp.Stats.Counted.{row-add_to_cost}
use llm_mcp.Proxy.Stream.{Tokens, is_counted}
use llm_mcp.Proxy.Providers.{
  ChatClient, as_usage, count_chat, charge_chat, record_chat_usage, settle_stream,
}

upsert_row-new :
    (new : ModelStats) (f : ModelStats → Option ModelStats) (l : List ModelStats)
    → row new.model_id l ≡ none
    → (upsert_row new f l ≡ some (l ++ new ∷ [])) × (row new.model_id (l ++ new ∷ []) ≡ some new)
unfolding row upsert_row
upsert_row-new new f [] h = (refl, rw (eq_refl new.model_id) refl)
upsert_row-new new f (s ∷ l) h = elim (Bool-cases (s.model_id == new.model_id)) [
  | inl e ↦ let k : some s ≡ none = rw e at h in absurd (cc)
  | inr e ↦
      let k : row new.model_id l ≡ none = rw e at h in
      let (p, q) = upsert_row-new new f l k in (rw e (rw p refl), rw e q)
]

-- What is written of a first chat in the cloud: its cost to `llm_costs`, and a row of statistics that counts
-- one request, its tokens and no cost.
pub record First (env : Env) (model : String) (t : Tokens) (w w' : World) : Type 0 where
  pub charged :
      w'.db.costs
      ≡ w.db.costs
        ++ chat_cost model "openrouter" t.input t.output (env.job_cost model t.input t.output) ∷ []
  pub counted :
      (s : ModelStats) × (row model w'.db.model_stats ≡ some s)
      × (s.total_requests ≡ 1)
      × (s.total_tokens_in ≡ t.input)
      × (s.total_tokens_out ≡ t.output)
      × (s.total_cost_usd ≡ pos 0)

-- A stream writes this when it told its tokens, and nothing when it did not.
pub data Settled (env : Env) (model : String) (t : Tokens) (w w' : World) : Type 0 where
  told : is_counted t ≡ true → First env model t w w' → Settled env model t w w'
  untold : is_counted t ≡ false → w' ≡ w → Settled env model t w w'

module _ (env : Env) (model : String) (w : World) (t : Tokens)
    (r : row model w.db.model_stats ≡ none) (up : env.down job_cost || env.down insert_cost ≡ false)
    (up' : env.down upsert_stats ≡ false)
    (fit : fits_int4 t.input && fits_int4 t.output ≡ true) where
  abbrev cost : Micro
  cost = env.job_cost model t.input t.output

  abbrev after_cost : List ModelStats
  after_cost =
      if env.down add_cost
      then w.db.model_stats
      else update_where (λ s. s.model_id == model) (add_to_cost cost) w.db.model_stats

  missing : row model after_cost ≡ none
  missing =
      if_both (λ l. row model l ≡ none) (env.down add_cost) r
        (row-add_to_cost model model cost w.db.model_stats ∙ rw (eq_refl model) (rw r refl))

  charge_and_count-First :
      (ms : ℕ)
      → fits_int4 (pos ms) ≡ true
      → First env model t w (count_chat env model t ms (charge_chat env model t w))
  unfolding record_chat_cost update_model_stats save_use
  charge_and_count-First ms short =
      let new = first_use env.db_now model (as_usage t ms) 0 in
      let (p, q) = upsert_row-new new (count_use env.db_now (as_usage t ms) 0) after_cost missing in
      record {
        charged = rw (up, record_chat_cost) (rw fit (rw up' refl));
        counted = (
          new,
          rw (up, record_chat_cost) (rw fit (rw up' (rw short (rw p q)))),
          refl,
          refl,
          refl,
          refl,
        );
      }

-- The first chat in the cloud of a model without statistics, when its tokens and its duration are in range
-- and no statement fails: for an answer at once whose usage is decoded its cost is written to `llm_costs`,
-- and the row of statistics that it gets counts one request, its tokens and no cost; for a stream the same
-- is written when it told its tokens, and nothing when it did not.
pub record_chat_usage-First :
    (env : Env) (c : ChatClient) (body : Bytes) (model : String) (w : World) (t : Tokens)
    → c.decode_usage body ≡ some t
    → row model w.db.model_stats ≡ none
    → env.down job_cost || env.down insert_cost ≡ false
    → env.down upsert_stats ≡ false
    → fits_int4 t.input && fits_int4 t.output ≡ true
    → fits_int4 (pos c.elapsed_ms) ≡ true
    → First env model t w (record_chat_usage env c body model w)
      × Settled env model t w (settle_stream env c model t w)
unfolding record_chat_usage
record_chat_usage-First env c body model w t d r up up' fit short = (
  rw (d, record_chat_usage) (charge_and_count-First env model w t r up up' fit 0 refl),
  if_each (Settled env model t w) (is_counted t)
      (λ e. told e (charge_and_count-First env model w t r up up' fit c.elapsed_ms short))
      (λ e. untold e refl),
)
