-- ===== src/Routing/Models.antt =====
-- The choice of a model by tier in core/internal/routing/router.go: the local and the cloud query, and
-- the prices. Among rows that tie in the ORDER BY the first of the tables is taken.
pub mod Local
pub mod Suits
use llm_mcp.Prelude.{
  ℕ, suc, String, Bool, true, false, not, ◌&&◌, ◌||◌, ◌==◌, Option, none, some, List, [], ◌∷◌, ◌++◌,
  ltb, any, filter_if, find_if, count_if, first_by, map, if◌then◌else◌,
}
use llm_mcp.Prelude.Int.{ℤ, pos, leb_ℤ}
use llm_mcp.Config.{has_openai, has_openrouter}
use llm_mcp.Db.Values.{coalesce}
use llm_mcp.Db.{
  Micro, Job, Model, Device, Db, Env, is_active, is_online, select_local, select_cloud,
  read_pricing,
}
use llm_mcp.Limits.{tagged_ollama}
use llm_mcp.Queue.{device_of}
use llm_mcp.Routing.Circuit.{Circuits, is_device_degraded}
use llm_mcp.Routing.Device.{tag, offers, desc_first, as_int}

-- models.ModelSelection
pub record ModelSelection : Type 0 where
  pub model : String
  pub provider : String
  pub device_id : String
  pub addr : String
  pub host : String
  pub tier : String
  pub thinking : Bool
  pub reason : String

-- `COALESCE(m.thinking, FALSE)`
abbrev pub thinks : Model → Bool
thinks m = elim m.thinking [ none ↦ false | some b ↦ b ]

abbrev pub tier_of : Model → String
tier_of m = coalesce m.tier ""

-- `m.tier = ANY($1)`, which NULL never is.
abbrev pub in_tiers : List String → Model → Bool
in_tiers tiers m = elim m.tier [ none ↦ false | some t ↦ any (λ x. t == x) tiers ]

-- `COALESCE(m.context_k, default) >= $2`
abbrev pub context_fits : ℕ → ℕ → Model → Bool
context_fits default needed m =
    leb_ℤ (pos needed) (elim m.context_k [ none ↦ pos default | some k ↦ k ])

-- The conditions that both queries share.
abbrev pub may_serve : List String → ℕ → ℕ → Model → Bool
may_serve tiers default needed m =
    in_tiers tiers m
    && coalesce m.status "active" == "active"
    && context_fits default needed m
    && not (m.kind == "embed")

-- `array_position($1, m.tier)`
abbrev pub position : String → List String → ℕ
position t [] = 1
position t (x ∷ xs) = let rest = position t xs in if x == t then 1 else suc rest

-- An ORDER BY of several keys: of each, whether the first row comes before, and whether the second does.
abbrev pub in_order : List (Bool × Bool) → Bool
in_order [] = false
in_order ((x, y) ∷ keys) = let rest = in_order keys in x || (not y && rest)

abbrev pub by_number : ℕ → ℕ → Bool × Bool
by_number m n = (ltb m n, ltb n m)

abbrev pub by_desc : Option ℤ → Option ℤ → Bool × Bool
by_desc a b = (desc_first a b, desc_first b a)

-- `CASE WHEN $3 AND COALESCE(m.thinking, FALSE) THEN 0 ELSE 1 END`
abbrev pub thinking_rank : Bool → Model → ℕ
thinking_rank prefer m = if prefer && thinks m then 0 else 1

abbrev pub busy_on : List Job → String → ℕ
busy_on jobs d = count_if (λ j. is_active j.status && device_of j == d) jobs

abbrev pub local_before : List Job → List String → Bool → Model × Device → Model × Device → Bool
local_before jobs tiers prefer (m, d) (n, e) = in_order (
    by_number (thinking_rank prefer m) (thinking_rank prefer n)
    ∷ by_number (position (tier_of m) tiers) (position (tier_of n) tiers)
    ∷ by_number (busy_on jobs d.id) (busy_on jobs e.id)
    ∷ by_desc m.params_b n.params_b
    ∷ by_desc (as_int d.last_seen) (as_int e.last_seen)
    ∷ [])

-- The joins and the WHERE clause of `findLocalModel`.
abbrev pub local_fits : Db → List String → ℕ → Model × Device → Bool
local_fits db tiers needed (m, d) =
    may_serve tiers 4 needed m
    && m.provider == "ollama"
    && offers db m.id d
    && is_online d.status
    && tagged_ollama d
    && not (tag "ollama_addr" d == "")

abbrev pub pairs : List Model → List Device → List (Model × Device)
pairs [] ds = []
pairs (m ∷ ms) ds = map (λ d. (m, d)) ds ++ pairs ms ds

abbrev pub local_selection : Model × Device → ModelSelection
local_selection (m, d) = record {
  model = m.id;
  provider = "ollama";
  device_id = d.id;
  addr = tag "ollama_addr" d;
  host = tag "ollama_host" d;
  tier = tier_of m;
  thinking = thinks m;
  reason = "local_match";
}

-- A selected device whose circuit is open gives no local model.
abbrev pub unless_degraded : ℕ → Circuits → Option (Model × Device) → Option ModelSelection
unless_degraded now circuits none = none
unless_degraded now circuits (some p) =
    if is_device_degraded now circuits p.1.id then none else some (local_selection p)

unfoldable pub find_local_model :
    Env → Db → Circuits → List String → ℕ → Bool → Option ModelSelection
find_local_model env db circuits tiers needed prefer =
    if env.down select_local
    then none
    else unless_degraded env.app_now circuits (
        first_by (local_before db.jobs tiers prefer)
          (filter_if (local_fits db tiers needed) (pairs db.models db.devices)))

abbrev pub cloud_before : List String → Bool → Model → Model → Bool
cloud_before tiers prefer m n = in_order (
    by_number (thinking_rank prefer m) (thinking_rank prefer n)
    ∷ by_number (position (tier_of m) tiers) (position (tier_of n) tiers)
    ∷ by_desc m.context_k n.context_k
    ∷ [])

abbrev pub cloud_fits : List String → ℕ → Model → Bool
cloud_fits tiers needed m =
    may_serve tiers 128 needed m && (m.provider == "openrouter" || m.provider == "openai")

abbrev pub cloud_selection : Model → ModelSelection
cloud_selection m = record {
  model = m.id;
  provider = m.provider;
  device_id = "";
  addr = "";
  host = "";
  tier = tier_of m;
  thinking = thinks m;
  reason = "cloud_fallback";
}

-- A provider without an API key gives no model.
abbrev pub with_key : Env → Option Model → Option ModelSelection
with_key env none = none
with_key env (some m) =
    if m.provider == "openrouter" && not (has_openrouter env.vars)
    then none
    else if m.provider == "openai" && not (has_openai env.vars)
    then none
    else some (cloud_selection m)

unfoldable pub find_cloud_model : Env → Db → List String → ℕ → Bool → Option ModelSelection
find_cloud_model env db tiers needed prefer =
    if env.down select_cloud
    then none
    else with_key env
        (first_by (cloud_before tiers prefer) (filter_if (cloud_fits tiers needed) db.models))

-- A row of `model_pricing`.
pub record Pricing : Type 0 where
  pub model_id : String
  pub price_in_1m : Option Micro
  pub price_out_1m : Option Micro

abbrev pub or_zero : Option Micro → Micro
or_zero none = pos 0
or_zero (some p) = p

unfoldable pub lookup_pricing : Env → List Pricing → String → Micro × Micro
lookup_pricing env table id =
    if env.down read_pricing then (pos 0, pos 0) else elim (find_if (λ p. p.model_id == id) table) [
      | none ↦ (pos 0, pos 0)
      | some p ↦ (or_zero p.price_in_1m, or_zero p.price_out_1m)
    ]
