-- ===== src/Routing/Llm/Choice.antt =====
-- Which provider the models that are chosen by quality have.
use llm_mcp.Prelude.{
  ℕ, and_split, filter_if, Has-filter_if, first_by, first_by-Has, String, Bool, true, false, not,
  ◌&&◌, ◌||◌, ◌==◌, eq_iff, ◌≡◌, refl, arith, ◌⊎◌, inl, inr, Option, none, some, List, if_both,
  if_each,
}
use llm_mcp.Config.{Vars, has_openai, has_openrouter}
use llm_mcp.Db.{Model, Device, Db, Env, select_cloud, select_local}
use llm_mcp.Routing.Models.{
  ModelSelection, with_key, cloud_before, cloud_fits, may_serve, find_cloud_model, find_local_model,
  unless_degraded,
}
use llm_mcp.Routing.Circuit.{Circuits, is_device_degraded}
use llm_mcp.Routing.Llm.Request.{is_nil}
use llm_mcp.Routing.Llm.Smart.{
  Quality, quality_tiers, bucket_of, min_context_k, cloud_fallback_tiers, choose_model,
}

-- A provider that the server can use: its own devices, or a cloud provider with a key.
abbrev pub Usable : Vars → String → Type 0
Usable vars p =
    (p ≡ "ollama")
    ⊎ ((p ≡ "openrouter") × (has_openrouter vars ≡ true))
    ⊎ ((p ≡ "openai") × (has_openai vars ≡ true))

-- A selected model is one of a usable provider.
abbrev pub Serves : Env → Option ModelSelection → Type 0
Serves env none = Unit
Serves env (some sel) = Usable env.vars sel.provider

one_of_two : (a b : Bool) → (a || b) ≡ true → (a ≡ true) ⊎ (b ≡ true)
one_of_two a b h = ground arith

with_key-Serves :
    (env : Env) (m : Model)
    → ((m.provider == "openrouter") || (m.provider == "openai")) ≡ true
    → Serves env (with_key env (some m))
with_key-Serves env m h =
    if_each (Serves env) (m.provider == "openrouter" && not (has_openrouter env.vars)) (λ _. tt)
      λ n.
        if_each (Serves env) (m.provider == "openai" && not (has_openai env.vars)) (λ _. tt)
          λ n'. elim (one_of_two (m.provider == "openrouter") (m.provider == "openai") h) [
            | inl e ↦ inr (inl ((eq_iff m.provider "openrouter").0 e, keyed _ _ e n))
            | inr e ↦ inr (inr ((eq_iff m.provider "openai").0 e, keyed _ _ e n'))
          ]
  where
    keyed : (a b : Bool) → a ≡ true → (a && not b) ≡ false → b ≡ true
    keyed a b h n = ground arith

chosen-Serves :
    (env : Env) (tiers : List String) (needed : ℕ) (prefer : Bool) (models : List Model)
    (o : Option Model)
    → first_by (cloud_before tiers prefer) (filter_if (cloud_fits tiers needed) models) ≡ o
    → Serves env (with_key env o)
chosen-Serves env tiers needed prefer models none h = tt
chosen-Serves env tiers needed prefer models (some m) h =
    let (ok, _) =
      Has-filter_if (cloud_fits tiers needed) m models
        (first_by-Has (cloud_before tiers prefer) m _ h) in
    with_key-Serves env m (and_split (may_serve tiers 128 needed m) _ ok).1

find_cloud_model-Serves :
    (env : Env) (db : Db) (tiers : List String) (needed : ℕ) (prefer : Bool)
    → Serves env (find_cloud_model env db tiers needed prefer)
unfolding find_cloud_model
find_cloud_model-Serves env db tiers needed prefer =
    if_both (Serves env) (env.down select_cloud) tt
      (chosen-Serves env tiers needed prefer db.models _ refl)

find_local_model-Serves :
    (env : Env) (db : Db) (circuits : Circuits) (tiers : List String) (needed : ℕ) (prefer : Bool)
    → Serves env (find_local_model env db circuits tiers needed prefer)
unfolding find_local_model
find_local_model-Serves env db circuits tiers needed prefer =
    if_both (Serves env) (env.down select_local) tt (local _)
  where
    local : (o : Option (Model × Device)) → Serves env (unless_degraded env.app_now circuits o)
    local none = tt
    local (some q) =
        if_both (Serves env) (is_device_degraded env.app_now circuits q.1.id) tt (inl refl)

pub choose_model-Serves :
    (env : Env) (db : Db) (circuits : Circuits) (quality : Quality) (task : String) (tokens : ℕ)
    → Serves env (choose_model env db circuits quality task tokens)
unfolding choose_model
choose_model-Serves env db circuits quality task tokens =
    let needed = min_context_k tokens in
    let prefer = task == "reason" in
    let tiers = quality_tiers quality (bucket_of tokens) in
    let cloud = find_cloud_model-Serves env db (cloud_fallback_tiers quality) needed prefer in
    if_both (Serves env) (is_nil tiers) cloud (
      either (find_local_model env db circuits tiers needed prefer) _
        (find_local_model-Serves env db circuits tiers needed prefer) cloud)
  where
    either :
        (o c : Option ModelSelection)
        → Serves env o
        → Serves env c
        → Serves env (elim o [ none ↦ c | some sel ↦ some sel ])
    either none c u v = v
    either (some sel) c u v = u
