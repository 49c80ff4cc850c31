-- ===== src/Stats/Upsert.antt =====
-- The rows of `model_stats` after an upsert.
use llm_mcp.Prelude.{
  ◌≡◌, refl, String, Bool, ◌==◌, eq_iff, Option, none, some, List, [], ◌∷◌, inl, inr, arith,
  if◌then◌else◌, Bool-cases, Option-cases,
}
use llm_mcp.Db.{ModelStats}
use llm_mcp.Stats.{upsert_row}
use llm_mcp.Stats.Replay.{row}

-- What an upsert makes of the row of its model.
abbrev pub upserted :
    ModelStats → (ModelStats → Option ModelStats) → Option ModelStats → Option ModelStats
upserted new f none = some new
upserted new f (some s) = f s

pub row-upsert_row :
    (d : String) (new : ModelStats) (f : ModelStats → Option ModelStats)
    → ((s t : ModelStats) → f s ≡ some t → t.model_id ≡ s.model_id)
    → (l l' : List ModelStats) → upsert_row new f l ≡ some l'
    → row d l' ≡ (if new.model_id == d then upserted new f (row d l) else row d l)
unfolding row upsert_row
row-upsert_row d new f keep [] l' h =
    let q : new ∷ [] ≡ l' = ground arith in rw (← q) (if_same (new.model_id == d))
  where
    if_same : (b : Bool) → (if b then some new else none) ≡ (if b then some new else none)
    if_same b = refl
row-upsert_row d new f keep (s ∷ l) l' h = elim (Bool-cases (s.model_id == new.model_id)) [
  | inl e ↦ elim (Option-cases (f s)) [
    | inl n ↦ let k : none ≡ some l' = rw (e, n) at h in absurd (cc)
    | inr (t, q) ↦
        let k : some (t ∷ l) ≡ some l' = rw (e, q) at h in
        let j : t ∷ l ≡ l' = ground arith in
        rw (← j) (ground (arith, q, keep s t q, eq_iff s.model_id new.model_id))
  ]
  | inr e ↦ elim (Option-cases (upsert_row new f l)) [
    | inl n ↦ let k : none ≡ some l' = rw (e, n) at h in absurd (cc)
    | inr (m, q) ↦
        let k : some (s ∷ m) ≡ some l' = rw (e, q) at h in
        let j : s ∷ m ≡ l' = ground arith in
        rw (← j) (
          ground (
            arith,
            row-upsert_row d new f keep l m q,
            eq_iff s.model_id new.model_id,
            eq_iff s.model_id d,
            eq_iff new.model_id d,
          ))
  ]
]

-- A statement that returns finds its row or puts a new one.
pub upserted-some :
    (new : ModelStats) (f : ModelStats → Option ModelStats) (l l' : List ModelStats)
    → upsert_row new f l ≡ some l'
    → (s : ModelStats) × (upserted new f (row new.model_id l) ≡ some s)
unfolding row upsert_row
upserted-some new f [] l' h = (new, refl)
upserted-some new f (s ∷ l) l' h = elim (Bool-cases (s.model_id == new.model_id)) [
  | inl e ↦ elim (Option-cases (f s)) [
    | inl n ↦ let k : none ≡ some l' = rw (e, n) at h in absurd (cc)
    | inr (t, q) ↦ (t, rw (e, q) refl)
  ]
  | inr e ↦ elim (Option-cases (upsert_row new f l)) [
    | inl n ↦ let k : none ≡ some l' = rw (e, n) at h in absurd (cc)
    | inr (m, q) ↦ let (t, r) = upserted-some new f l m q in (t, rw e r)
  ]
]
