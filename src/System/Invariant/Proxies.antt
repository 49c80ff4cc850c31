-- ===== src/System/Invariant/Proxies.antt =====
-- The calls that reach no job keep the invariant of the job tables: chats, embeddings, ratings and the sync
-- with OpenRouter.
use llm_mcp.Prelude.{
  ℕ, zero, suc, String, true, false, not, ◌&&◌, ◌||◌, ◌==◌, Option, none, some, List, [], ◌∷◌, ◌≡◌,
  refl, if_both, if◌then◌else◌, eqb, contains,
}
use llm_mcp.Db.{ModelStats, Ranking, Db, Env, upsert_stats}
use llm_mcp.Queue.Invariant.{Sound}
use llm_mcp.Routing.Device.{DeviceTarget}
use llm_mcp.Http.{Reply, reply, fail, Request, World, post_rule}
use llm_mcp.Stats.{Feedback, save_rating, check_feedback, handle_feedback}
use llm_mcp.Stats.Select.{Floats}
use llm_mcp.Stats.Sync.{Market, Synced, no_key, sync_tables, handle_openrouter_sync}
use llm_mcp.Proxy.{report}
use llm_mcp.Proxy.Truncate.{Members}
use llm_mcp.Proxy.Embed.{
  EmbedClient, EmbedRequest, EmbedList, Embeddings, local, cloud, cut_to, api_key_of, api_url_of,
  dims_of, proxy_openai_embed, embed_in_cloud, proxy_ollama_embed, select_at, embed_attempts,
  embed_texts, texts_of, embed, handle_embeddings,
}
use llm_mcp.Proxy.Providers.{ChatClient, ChatCall}
use llm_mcp.Proxy.Chat.{handle_chat_completions}
use llm_mcp.Proxy.Usage.{handle_chat_completions-Kept}
use llm_mcp.System.Invariant.Discovery.{SameQueue-Sound}

pub Sound-handle_chat_completions :
    (env : Env) (fl : Floats) (sorted : List Ranking → List Ranking) (c : ChatClient)
    (call : ChatCall) (w : World)
    → Sound w.db
    → Sound (handle_chat_completions env fl sorted c call w).1.db
Sound-handle_chat_completions env fl sorted c call w v =
    let k = handle_chat_completions-Kept env fl sorted c call w in
    SameQueue-Sound w.db (handle_chat_completions env fl sorted c call w).1.db (k.jobs, k.attempts)
      v

-- The embeddings leave the database as it is.
module _ (env : Env) (c : EmbedClient) (db : Db) where
  abbrev Leaves : Reply Embeddings × World → Type 0
  Leaves x = x.1.db ≡ db

  Leaves-attempts :
      (model : String) (texts : List String) (left n : ℕ) (w : World)
      → w.db ≡ db
      → Leaves (embed_attempts env c model texts left n w)
  unfolding embed_attempts report
  Leaves-attempts model texts zero n w e = e
  Leaves-attempts model texts (suc left) n w e =
      chosen (λ t. Leaves-attempts model texts left (suc n) (report env t false w) e)
        (select_at env c model n w)
    where
      answered :
          (t : DeviceTarget) (o : Option EmbedList)
          → Leaves (embed_attempts env c model texts left (suc n) (report env t false w))
          → Leaves (elim o [
            | none ↦ embed_attempts env c model texts left (suc n) (report env t false w)
            | some a ↦ (reply 200 (local a), report env t true w)
          ])
      answered t none h = h
      answered t (some a) h = e

      chosen :
          ((t : DeviceTarget)
            → Leaves (embed_attempts env c model texts left (suc n) (report env t false w)))
          → (o : Option DeviceTarget)
          → Leaves (elim o [
            | none ↦ (if eqb n 0 then fail 503 "no_device" else fail 502 "embed_failed", w)
            | some t ↦ elim (proxy_ollama_embed c n t model texts) [
              | none ↦ embed_attempts env c model texts left (suc n) (report env t false w)
              | some a ↦ (reply 200 (local a), report env t true w)
            ]
          ])
      chosen ih none = e
      chosen ih (some t) = answered t (proxy_ollama_embed c n t model texts) (ih t)

  Leaves-cloud :
      (req : EmbedRequest) (texts : List String) (w : World)
      → w.db ≡ db
      → Leaves (embed_in_cloud env c req texts w)
  unfolding embed_in_cloud
  Leaves-cloud req texts w e =
      if_both Leaves (api_key_of env == "" || api_key_of env == "not-used") e (
        answered (
          proxy_openai_embed c (api_url_of env) (api_key_of env) req.model texts
            (dims_of env req.dimensions)))
    where
      answered :
          (o : Option Members)
          → Leaves (elim o as (λ _. Reply Embeddings × World) [
            | none ↦ (fail 502 "cloud_embed_failed", w)
            | some result ↦ (reply 200 (cloud (cut_to (dims_of env req.dimensions) result)), w)
          ])
      answered none = e
      answered (some m) = e

  Leaves-embed : (req : EmbedRequest) (w : World) → w.db ≡ db → Leaves (embed env c req w)
  Leaves-embed req w e = if_both Leaves (req.model == "") e (asked (texts_of req.input))
    where
      with_texts : (texts : List String) → Leaves (embed_texts env c req w texts)
      with_texts [] = e
      with_texts (t ∷ ts) =
          if_both Leaves (contains req.model "/") (Leaves-cloud req (t ∷ ts) w e)
            (Leaves-attempts req.model (t ∷ ts) 3 0 w e)

      asked :
          (o : Option (List String))
          → Leaves (elim o as (λ _. Reply Embeddings × World) [
            | none ↦ (fail 400 "invalid_input", w)
            | some texts ↦ embed_texts env c req w texts
          ])
      asked none = e
      asked (some texts) = with_texts texts

pub Sound-handle_embeddings :
    (env : Env) (c : EmbedClient) (r : Request EmbedRequest) (w : World)
    → Sound w.db
    → Sound (handle_embeddings env c r w).1.db
unfolding handle_embeddings
Sound-handle_embeddings env c r w v =
    post_rule (λ x. Sound x.1.db) r w (λ req. embed env c req w) (λ status code. v)
      (λ req e. rw (Leaves-embed env c w.db req w refl) v)

pub Sound-handle_feedback :
    (env : Env) (r : Request Feedback) (w : World)
    → Sound w.db
    → Sound (handle_feedback env r w).1.db
unfolding handle_feedback
Sound-handle_feedback env r w v =
    post_rule (λ x. Sound x.1.db) r w (λ req. check_feedback env req w) (λ status code. v)
      (λ req e.
        if_both (λ (x : Reply Feedback × World). Sound x.1.db) (req.model == "") v
          (if_both (λ (x : Reply Feedback × World). Sound x.1.db)
            (not (req.rating == "good") && not (req.rating == "bad")) v
            (if_both (λ (x : Reply Feedback × World). Sound x.1.db) (env.down upsert_stats) v
              (saved req (save_rating req.model (req.rating == "good") w.db.model_stats)))))
  where
    saved :
        (req : Feedback) (o : Option (List ModelStats))
        → Sound
            (elim o as (λ _. Reply Feedback × World) [
              | none ↦ (fail 500 "db_error", w)
              | some l ↦ (reply 200 req, record w { db = record w.db { model_stats = l } })
            ]).1.db
    saved req none = v
    saved req (some l) = record { inv = v.inv }

pub Sound-handle_openrouter_sync :
    (env : Env) (k : Market) (method : String) (w : World)
    → Sound w.db
    → Sound (handle_openrouter_sync env k method w).1.db
unfolding handle_openrouter_sync sync_tables
Sound-handle_openrouter_sync env k method w v =
    if_both (λ (x : Reply Synced × World). Sound x.1.db) (not (method == "POST")) v
      (if_both (λ (x : Reply Synced × World). Sound x.1.db) (no_key env) v (record { inv = v.inv }))
