-- ===== src/Stats/Filled.antt =====
-- The rows of statistics after a sync with OpenRouter.
use llm_mcp.Prelude.{
  ◌≡◌, refl, sym, subst, ◌∙◌, String, true, false, ◌==◌, eq_iff, eq_refl, Option, none, some, List,
  [], ◌∷◌, ◌++◌, inl, inr, arith, if◌then◌else◌, any, Bool-cases, Option-cases, or_false, if_both,
  Has, here, there,
}
use llm_mcp.Db.{Ranking, ModelStats}
use llm_mcp.Stats.{fresh_stats}
use llm_mcp.Stats.Replay.{row, start_row}
use llm_mcp.Stats.Sync.{fill_stats}
use llm_mcp.Stats.Scored.{ranking_of}

-- The statistics after the last statement: the old rows, and one of each model in the rankings.
row-append :
    (d : String) (l m : List ModelStats) (s : ModelStats)
    → row d l ≡ some s
    → row d (l ++ m) ≡ some s
unfolding row
row-append d [] m s e = absurd (cc)
row-append d (t ∷ l) m s e = elim (Bool-cases (t.model_id == d)) [
  | inl q ↦ rw q (rw q at e)
  | inr q ↦ rw q (row-append d l m s (rw q at e))
]

row-known :
    (d : String) (l : List ModelStats)
    → any (λ s. s.model_id == d) l ≡ true
    → (s : ModelStats) × (row d l ≡ some s)
unfolding row
row-known d [] e = absurd (cc)
row-known d (t ∷ l) e = elim (Bool-cases (t.model_id == d)) [
  | inl q ↦ (t, rw q refl)
  | inr q ↦ let (s, p) = row-known d l (rw q at e) in (s, rw q p)
]

row-missing :
    (d : String) (l : List ModelStats)
    → any (λ s. s.model_id == d) l ≡ false
    → row d (l ++ fresh_stats d ∷ []) ≡ some (fresh_stats d)
unfolding row
row-missing d [] e = rw (eq_refl d) refl
row-missing d (t ∷ l) e =
    let (q, p) = or_false (t.model_id == d) (any (λ s. s.model_id == d) l) e in
    rw q (row-missing d l p)

append_other :
    (d j : String)
    → (j == d) ≡ false
    → (l : List ModelStats) → row d l ≡ none
    → row d (l ++ fresh_stats j ∷ []) ≡ none
unfolding row
append_other d j n [] e = rw n refl
append_other d j n (t ∷ l) e = elim (Bool-cases (t.model_id == d)) [
  | inl q ↦ let k : some t ≡ none = rw q at e in absurd (cc)
  | inr q ↦ rw q (append_other d j n l (rw q at e))
]

row-extended :
    (d j : String) (l : List ModelStats) (s : ModelStats)
    → row d l ≡ some s
    → row d (start_row j l) ≡ some s
row-extended d j l s e =
    if_both (λ m. row d m ≡ some s) (any (λ s. s.model_id == j) l) e
      (row-append d l (fresh_stats j ∷ []) s e)

fill_stats-row :
    (d : String) (rs : List Ranking) (l : List ModelStats) (s : ModelStats)
    → row d l ≡ some s
    → row d (fill_stats rs l) ≡ some s
unfolding fill_stats
fill_stats-row d [] l s e = e
fill_stats-row d (r ∷ rs) l s e =
    fill_stats-row d rs (start_row r.model_id l) s (row-extended d r.model_id l s e)

-- A model without statistics gets a fresh row.
row-extended_other :
    (d j : String) (l : List ModelStats)
    → (j == d) ≡ false
    → row d l ≡ none
    → row d (start_row j l) ≡ none
row-extended_other d j l n e =
    if_both (λ m. row d m ≡ none) (any (λ s. s.model_id == j) l) e (past l e)
  where
    past : (l : List ModelStats) → row d l ≡ none → row d (l ++ fresh_stats j ∷ []) ≡ none
    past l e = append_other d j n l e

row-extended_fresh :
    (d : String) (l : List ModelStats)
    → row d l ≡ none
    → row d (start_row d l) ≡ some (fresh_stats d)
row-extended_fresh d l e = elim (Bool-cases (any (λ s. s.model_id == d) l)) [
  | inl a ↦ let (s, p) = row-known d l a in let k : some s ≡ none = sym p ∙ e in absurd (cc)
  | inr a ↦ rw a (row-missing d l a)
]

fill_stats-fresh :
    (d : String) (r : Ranking) (rs : List Ranking) (l : List ModelStats)
    → Has r rs
    → (r.model_id == d) ≡ true
    → row d l ≡ none
    → row d (fill_stats rs l) ≡ some (fresh_stats d)
unfolding fill_stats
fill_stats-fresh d r [] l m t e = elim m [ ]
fill_stats-fresh d r (q ∷ rs) l m t e = elim (Bool-cases (q.model_id == d)) [
  | inl h ↦
      let same : q.model_id ≡ d = (eq_iff q.model_id d).0 h in
      fill_stats-row d rs (start_row q.model_id l) (fresh_stats d) (
        subst (λ j. row d (start_row j l) ≡ some (fresh_stats d)) (sym same)
          (row-extended_fresh d l e))
  | inr h ↦
      fill_stats-fresh d r rs (start_row q.model_id l) (behind r q rs m t h) t
        (row-extended_other d q.model_id l h e)
]
  where
    behind :
        (r q : Ranking) (rs : List Ranking)
        → Has r (q ∷ rs)
        → (r.model_id == d) ≡ true
        → (q.model_id == d) ≡ false
        → Has r rs
    behind r q rs (there n) t h = n
    behind r q rs (here g) t h = let k : (q.model_id == d) ≡ true = rw (← g) t in absurd (cc)

pub ranking_of-Has :
    (d : String) (rs : List Ranking) (r : Ranking)
    → ranking_of d rs ≡ some r
    → ((r.model_id == d) ≡ true) × Has r rs
unfolding ranking_of
ranking_of-Has d [] r e = absurd (cc)
ranking_of-Has d (s ∷ rs) r e = elim (Bool-cases (s.model_id == d)) [
  | inl q ↦
      let k : some s ≡ some r = rw q at e in
      let j : s ≡ r = ground arith in (rw (← j) q, here (sym j))
  | inr q ↦ let (t, m) = ranking_of-Has d rs r (rw q at e) in (t, there m)
]

-- The row of a model, or a fresh one.
abbrev pub or_fresh_row : String → Option ModelStats → ModelStats
or_fresh_row d none = fresh_stats d
or_fresh_row d (some s) = s

pub fill_stats-or_fresh :
    (d : String) (r : Ranking) (rs : List Ranking) (l : List ModelStats)
    → Has r rs
    → (r.model_id == d) ≡ true
    → row d (fill_stats rs l) ≡ some (or_fresh_row d (row d l))
fill_stats-or_fresh d r rs l m t = elim (Option-cases (row d l)) [
  | inl e ↦ rw e (fill_stats-fresh d r rs l m t e)
  | inr (s, e) ↦ rw e (fill_stats-row d rs l s e)
]

-- An insertion that does nothing on a conflict.
pub row-start_row :
    (d j : String) (l : List ModelStats)
    → row d (start_row j l) ≡ (if j == d then some (or_fresh_row d (row d l)) else row d l)
row-start_row d j l = elim (Option-cases (row d l)) [
  | inl e ↦ elim (Bool-cases (j == d)) [
    | inl h ↦
        let same : j ≡ d = (eq_iff j d).0 h in
        rw (h, e)
          (subst (λ k. row d (start_row k l) ≡ some (fresh_stats d)) (sym same)
            (row-extended_fresh d l e))
    | inr h ↦ rw (h, e) (row-extended_other d j l h e)
  ]
  | inr (s, e) ↦ elim (Bool-cases (j == d)) [
    | inl h ↦ rw (h, e) (row-extended d j l s e)
    | inr h ↦ rw (h, e) (row-extended d j l s e)
  ]
]
