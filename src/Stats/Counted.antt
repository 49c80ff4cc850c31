-- ===== src/Stats/Counted.antt =====
-- The rows of `model_stats` count what the history says.
use llm_mcp.Prelude.{
  ℕ, ◌≡◌, refl, sym, ap, subst, ◌∙◌, String, Bool, true, false, ◌==◌, eq_iff, Option, none, some,
  List, [], ◌∷◌, inl, inr, arith, if◌then◌else◌, Bool-cases, Option-cases, update_where,
}
use llm_mcp.Prelude.Int.{pos}
use llm_mcp.Db.{Micro, ModelStats}
use llm_mcp.Stats.{
  Usage, fresh_stats, upsert_row, first_use, count_use, save_use, add_to_cost, first_rating,
  count_rating, save_rating, fits_int4,
}
use llm_mcp.Stats.Replay.{
  Event, used, rated, charged, listed, apply, start_row, replay, row, known, summary, expected,
}
use llm_mcp.Stats.Filled.{or_fresh_row, row-start_row}
use llm_mcp.Stats.Upsert.{upserted, row-upsert_row, upserted-some}
use llm_mcp.Stats.Rows.{
  used_row, count_use-used_row, first_use-used_row, summary-fresh, rated_row,
  count_rating-rated_row, first_rating-rated_row, rated_row-model, used_row-model,
}

module _ (new : ModelStats) (f : ModelStats → Option ModelStats) (next : ModelStats → ModelStats)
    (updates : (s t : ModelStats) → f s ≡ some t → t ≡ next s)
    (keeps : (s : ModelStats) → (next s).model_id ≡ s.model_id)
    (starts : new ≡ next (fresh_stats new.model_id)) (d : String) (h : List Event)
    (l l' : List ModelStats) (ih : row d l ≡ expected d h)
    (saved : upsert_row new f l ≡ some l') where
  kept : (s t : ModelStats) → f s ≡ some t → t.model_id ≡ s.model_id
  kept s t q = ap (λ (z : ModelStats). z.model_id) (updates s t q) ∙ keeps s

  from_summary :
      (s : ModelStats)
      → new.model_id ≡ d
      → upserted new f (row d l) ≡ some s
      → s ≡ next (summary d h)
  from_summary s same q = elim (Bool-cases (known d h)) [
    | inl e ↦
        let r : row d l ≡ some (summary d h) = ih ∙ rw e refl in
        let k : f (summary d h) ≡ some s = rw r at q in updates (summary d h) s k
    | inr e ↦
        let r : row d l ≡ none = ih ∙ rw e refl in
        let k : some new ≡ some s = rw r at q in
        let j : new ≡ s = ground arith in
        sym j ∙ starts ∙ ap next (ap fresh_stats same ∙ sym (summary-fresh d h e))
  ]

  row-saved : row d l' ≡ (if new.model_id == d then some (next (summary d h)) else expected d h)
  row-saved = elim (Bool-cases (new.model_id == d)) [
    | inl e ↦
        let same : new.model_id ≡ d = (eq_iff new.model_id d).0 e in
        let (s, q) = upserted-some new f l l' saved in
        let q' : upserted new f (row d l) ≡ some s =
          subst (λ z. upserted new f (row z l) ≡ some s) same q in
        let p : row d l' ≡ upserted new f (row d l) =
          row-upsert_row d new f kept l l' saved ∙ rw e refl in
        rw e (p ∙ q' ∙ ap some (from_summary s same q'))
    | inr e ↦ rw e ((row-upsert_row d new f kept l l' saved ∙ rw e refl) ∙ ih)
  ]

-- The history's account of one more chat, rating or cost.
expected-used :
    (d : String) (h : List Event) (now : ℕ) (model : String) (u : Usage) (errors : ℕ)
    → (if model == d then some (used_row now u errors (summary d h)) else expected d h)
      ≡ expected d (used now model u errors ∷ h)
unfolding used_row summary known
expected-used d h now model u errors = elim (Bool-cases (model == d)) [
  | inl m ↦ rw m refl
  | inr m ↦ rw m refl
]

expected-rated :
    (d : String) (h : List Event) (model : String) (good : Bool)
    → (if model == d then some (rated_row good (summary d h)) else expected d h)
      ≡ expected d (rated model good ∷ h)
unfolding rated_row summary known
expected-rated d h model true = elim (Bool-cases (model == d)) [
  | inl m ↦ rw m refl
  | inr m ↦ rw m refl
]
expected-rated d h model false = elim (Bool-cases (model == d)) [
  | inl m ↦ rw m refl
  | inr m ↦ rw m refl
]

-- A cost reaches the row of its model, if there is one.
abbrev pub charge : Micro → Option ModelStats → Option ModelStats
charge cost none = none
charge cost (some s) = some (add_to_cost cost s)

pub row-add_to_cost :
    (d model : String) (cost : Micro) (l : List ModelStats)
    → row d (update_where (λ s. s.model_id == model) (add_to_cost cost) l)
      ≡ (if model == d then charge cost (row d l) else row d l)
unfolding row
row-add_to_cost d model cost [] = ground arith
row-add_to_cost d model cost (s ∷ l) = ground (
  arith,
  eq_iff s.model_id model,
  eq_iff s.model_id d,
  eq_iff model d,
  row-add_to_cost d model cost l,
)

expected-charged :
    (d : String) (h : List Event) (model : String) (cost : Micro)
    → (if model == d then charge cost (expected d h) else expected d h)
      ≡ expected d (charged model cost ∷ h)
unfolding summary known
expected-charged d h model cost = elim (Bool-cases (model == d)) [
  | inl m ↦ elim (Bool-cases (known d h)) [ inl k ↦ rw (m, k) refl | inr k ↦ rw (m, k) refl ]
  | inr m ↦ rw m refl
]

expected-listed :
    (d : String) (h : List Event) (model : String)
    → (if model == d then some (or_fresh_row d (expected d h)) else expected d h)
      ≡ expected d (listed model ∷ h)
unfolding summary known
expected-listed d h model = elim (Bool-cases (model == d)) [
  | inl m ↦ elim (Bool-cases (known d h)) [
    | inl k ↦ rw (m, k) refl
    | inr k ↦ rw (m, k) (ap some (sym (summary-fresh d h k)))
  ]
  | inr m ↦ rw m refl
]

module _ (d : String) (h : List Event) (l l' : List ModelStats) (ih : row d l ≡ expected d h) where
  row-used :
      (now : ℕ) (model : String) (u : Usage) (errors : ℕ)
      → save_use now model u errors l ≡ some l'
      → row d l' ≡ expected d (used now model u errors ∷ h)
  unfolding save_use
  row-used now model u errors k = elim (Bool-cases (fits_int4 (pos u.duration_ms))) [
    | inl e ↦
        let saved : upsert_row (first_use now model u errors) (count_use now u errors) l ≡ some l' =
          rw e at k in
        row-saved (first_use now model u errors) (count_use now u errors) (used_row now u errors)
          (count_use-used_row now u errors) (used_row-model now u errors)
          (first_use-used_row now model u errors) d h l l' ih saved
        ∙ expected-used d h now model u errors
    | inr e ↦ let j : none ≡ some l' = rw e at k in absurd (cc)
  ]

  row-rated :
      (model : String) (good : Bool)
      → save_rating model good l ≡ some l'
      → row d l' ≡ expected d (rated model good ∷ h)
  unfolding save_rating
  row-rated model good k =
      row-saved (first_rating model good) (count_rating good) (rated_row good)
        (count_rating-rated_row good) (rated_row-model good) (first_rating-rated_row model good) d h
        l l' ih k
      ∙ expected-rated d h model good

  row-charged :
      (model : String) (cost : Micro)
      → some (update_where (λ s. s.model_id == model) (add_to_cost cost) l) ≡ some l'
      → row d l' ≡ expected d (charged model cost ∷ h)
  row-charged model cost k =
      let q : update_where (λ s. s.model_id == model) (add_to_cost cost) l ≡ l' = ground arith in
      rw (← q) (row-add_to_cost d model cost l ∙ rw ih (expected-charged d h model cost))

  row-listed :
      (model : String)
      → some (start_row model l) ≡ some l'
      → row d l' ≡ expected d (listed model ∷ h)
  row-listed model k =
      let q : start_row model l ≡ l' = ground arith in
      rw (← q) (row-start_row d model l ∙ rw ih (expected-listed d h model))

  row-apply : (e : Event) → apply e l ≡ some l' → row d l' ≡ expected d (e ∷ h)
  unfolding apply
  row-apply (used now model u errors) k = row-used now model u errors k
  row-apply (rated model good) k = row-rated model good k
  row-apply (charged model cost) k = row-charged model cost k
  row-apply (listed model) k = row-listed model k

-- After any chats, ratings, costs and listings from the empty table on whose statements return, the row of a
-- model counts exactly its chats and ratings: the numbers of requests, errors and ratings, the sums of the
-- tokens, the average as rounded at each chat, the time of the last chat, and the costs charged after its
-- first chat, rating or listing; a model with none of the three has no row.
pub row-replay :
    (d : String) (h : List Event) (l : List ModelStats) → replay h ≡ some l → row d l ≡ expected d h
unfolding replay row known
row-replay d [] l k = let q : [] ≡ l = ground arith in rw (← q) refl
row-replay d (e ∷ h) l k = elim (Option-cases (replay h)) [
  | inl n ↦ let j : none ≡ some l = rw n at k in absurd (cc)
  | inr (m, q) ↦
      let j : apply e m ≡ some l = rw q at k in row-apply d h m l (row-replay d h m q) e j
]
