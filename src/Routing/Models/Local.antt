-- ===== src/Routing/Models/Local.antt =====
-- The local model that the query by tier gives.
use llm_mcp.Prelude.{
  ℕ, String, Bool, true, false, ◌≡◌, ◌⊎◌, inl, inr, refl, ap, Option, none, some, List, [], ◌∷◌,
  ◌++◌, map, Has, here, there, filter_if, Has-filter_if, first_by, first_by-Has, first_by-none,
  if_each, Bool-cases,
}
use llm_mcp.Db.{Model, Device, Db, Env, select_local}
use llm_mcp.Routing.Device.{tag}
use llm_mcp.Routing.Circuit.{Circuits, is_device_degraded}
use llm_mcp.Routing.Models.{
  ModelSelection, thinks, tier_of, local_before, local_fits, pairs, unless_degraded,
  find_local_model,
}
use llm_mcp.Routing.Models.Suits.{Suits, local_fits-Suits}

-- The pairs of the two tables.
Has-map_pair :
    (m : Model) (p : Model × Device) (ds : List Device)
    → Has p (map (λ d. (m, d)) ds)
    → (p.0 ≡ m) × Has p.1 ds
Has-map_pair m p [] h = elim h [ ]
Has-map_pair m p (d ∷ ds) (here e) =
    (ap (λ (q : Model × Device). q.0) e, here (ap (λ (q : Model × Device). q.1) e))
Has-map_pair m p (d ∷ ds) (there h) = let (e, k) = Has-map_pair m p ds h in (e, there k)

Has-either {ℓ} : {A : Type ℓ} (a : A) (xs ys : List A) → Has a (xs ++ ys) → Has a xs ⊎ Has a ys
Has-either a [] ys h = inr h
Has-either a (x ∷ xs) ys (here e) = inl (here e)
Has-either a (x ∷ xs) ys (there h) = elim (Has-either a xs ys h) [
  | inl k ↦ inl (there k)
  | inr k ↦ inr k
]

Has-pairs :
    (p : Model × Device) (ms : List Model) (ds : List Device)
    → Has p (pairs ms ds)
    → Has p.0 ms × Has p.1 ds
Has-pairs p [] ds h = elim h [ ]
Has-pairs p (m ∷ ms) ds h = elim (Has-either p (map (λ d. (m, d)) ds) (pairs ms ds) h) [
  | inl k ↦ let (e, n) = Has-map_pair m p ds k in (here e, n)
  | inr k ↦ let (e, n) = Has-pairs p ms ds k in (there e, n)
]

Has-right {ℓ} : {A : Type ℓ} (a : A) (xs ys : List A) → Has a ys → Has a (xs ++ ys)
Has-right a [] ys h = h
Has-right a (x ∷ xs) ys h = there (Has-right a xs ys h)

Has-left {ℓ} : {A : Type ℓ} (a : A) (xs ys : List A) → Has a xs → Has a (xs ++ ys)
Has-left a [] ys h = elim h [ ]
Has-left a (x ∷ xs) ys (here e) = here e
Has-left a (x ∷ xs) ys (there h) = there (Has-left a xs ys h)

map_pair-Has :
    (m n : Model) (d : Device) (ds : List Device)
    → m ≡ n
    → Has d ds
    → Has {A = Model × Device} (m, d) (map (λ d. (n, d)) ds)
map_pair-Has m n d [] e h = elim h [ ]
map_pair-Has m n d (x ∷ ds) e (here q) = here (rw (e, q) refl)
map_pair-Has m n d (x ∷ ds) e (there h) = there (map_pair-Has m n d ds e h)

pairs-Has :
    (m : Model) (d : Device) (ms : List Model) (ds : List Device)
    → Has m ms
    → Has d ds
    → Has {A = Model × Device} (m, d) (pairs ms ds)
pairs-Has m d [] ds h k = elim h [ ]
pairs-Has m d (n ∷ ms) ds (here e) k =
    Has-left (m, d) (map (λ d. (n, d)) ds) (pairs ms ds) (map_pair-Has m n d ds e k)
pairs-Has m d (n ∷ ms) ds (there h) k =
    Has-right (m, d) (map (λ d. (n, d)) ds) (pairs ms ds) (pairs-Has m d ms ds h k)

Has-kept {ℓ} :
    {A : Type ℓ} (p : A → Bool) (a : A) (xs : List A)
    → p a ≡ true
    → Has a xs
    → Has a (filter_if p xs)
Has-kept p a [] t h = elim h [ ]
Has-kept p a (x ∷ xs) t (here e) = let k : p x ≡ true = rw (← e) t in rw k (here e)
Has-kept p a (x ∷ xs) t (there h) = elim (Bool-cases (p x)) [
  | inl e ↦ rw e (there (Has-kept p a xs t h))
  | inr e ↦ rw e (Has-kept p a xs t h)
]

-- What is selected, or why nothing is.
pub data Found (env : Env) (db : Db) (circuits : Circuits) (tiers : List String) (needed : ℕ)
    (o : Option ModelSelection) : Type 0 where
  selects :
      (m : Model) (d : Device)
      → Has m db.models
      → Has d db.devices
      → Suits db tiers needed m d
      → is_device_degraded env.app_now circuits d.id ≡ false
      → o
        ≡ some (record {
          model = m.id;
          provider = "ollama";
          device_id = d.id;
          addr = tag "ollama_addr" d;
          host = tag "ollama_host" d;
          tier = tier_of m;
          thinking = thinks m;
          reason = "local_match";
        })
      → Found env db circuits tiers needed o
  gives_up :
      (m : Model) (d : Device)
      → Has m db.models
      → Has d db.devices
      → Suits db tiers needed m d
      → is_device_degraded env.app_now circuits d.id ≡ true
      → o ≡ none
      → Found env db circuits tiers needed o
  suits_none :
      ((m : Model) (d : Device)
        → Has m db.models
        → Has d db.devices
        → ¬ (Suits db tiers needed m d))
      → o ≡ none
      → Found env db circuits tiers needed o
  no_answer : env.down select_local ≡ true → o ≡ none → Found env db circuits tiers needed o

module _ (env : Env) (db : Db) (circuits : Circuits) (tiers : List String) (needed : ℕ)
    (prefer : Bool) where
  abbrev rows : List (Model × Device)
  rows = filter_if (local_fits db tiers needed) (pairs db.models db.devices)

  nothing :
      rows ≡ []
      → (m : Model) (d : Device) → Has m db.models
      → Has d db.devices
      → ¬ (Suits db tiers needed m d)
  nothing e m d i j s =
      let h : Has {A = Model × Device} (m, d) rows =
        Has-kept (local_fits db tiers needed) (m, d) (pairs db.models db.devices)
          ((local_fits-Suits db tiers needed m d).1 s) (pairs-Has m d db.models db.devices i j) in
      let k : Has {A = Model × Device} (m, d) [] = rw e at h in elim k [ ]

  selected_row :
      (o : Option (Model × Device))
      → first_by (local_before db.jobs tiers prefer) rows ≡ o
      → Found env db circuits tiers needed (unless_degraded env.app_now circuits o)
  selected_row none h =
      suits_none (nothing (first_by-none (local_before db.jobs tiers prefer) rows h)) refl
  selected_row (some (m, d)) h =
      let (ok, k) =
        Has-filter_if (local_fits db tiers needed) (m, d) (pairs db.models db.devices)
          (first_by-Has (local_before db.jobs tiers prefer) (m, d) rows h) in
      let (i, j) = Has-pairs (m, d) db.models db.devices k in
      let s = (local_fits-Suits db tiers needed m d).0 ok in
      elim (Bool-cases (is_device_degraded env.app_now circuits d.id)) [
        | inl e ↦ gives_up m d i j s e (rw e refl)
        | inr e ↦ selects m d i j s e (rw e refl)
      ]

-- The choice of a local model, when its query does not fail: the selection is of a model and a device of the
-- tables whose circuit is not open, where the device offers the model, is online, tagged for ollama and has
-- an address, and the model is one of ollama, of a tier that is asked for, active or without a status, no
-- embedding model, and with a context large enough (4 when unknown). Nothing is selected only when no model suits on any device,
-- or when the circuit of a device that would suit is open.
pub find_local_model-Found :
    (env : Env) (db : Db) (circuits : Circuits) (tiers : List String) (needed : ℕ) (prefer : Bool)
    → Found env db circuits tiers needed (find_local_model env db circuits tiers needed prefer)
unfolding find_local_model
find_local_model-Found env db circuits tiers needed prefer =
    if_each (Found env db circuits tiers needed) (env.down select_local) (λ e. no_answer e refl)
      (λ _. selected_row env db circuits tiers needed prefer _ refl)
