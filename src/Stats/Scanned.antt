-- ===== src/Stats/Scanned.antt =====
-- The candidates of a selection, and the best of a list of them.
use llm_mcp.Prelude.{
  ◌≡◌, refl, false, Option, none, some, List, [], ◌∷◌, inl, inr, arith, Bool-cases, if_each, Has,
  here, there,
}
use llm_mcp.Prelude.Int.{ltb_ℤ, ◌≤ℤ◌}
use llm_mcp.Db.{Ranking}
use llm_mcp.Stats.Select.{Candidate, candidates, best_of}

pub best_of-Has : (c : Candidate) (cs : List Candidate) → Has (best_of c cs) (c ∷ cs)
unfolding best_of
best_of-Has c [] = here refl
best_of-Has c (d ∷ cs) = elim (Bool-cases (ltb_ℤ c.score d.score)) [
  | inl e ↦ rw e (there (best_of-Has d cs))
  | inr e ↦ rw e (skip (best_of-Has c cs))
]
  where
    skip : Has (best_of c cs) (c ∷ cs) → Has (best_of c cs) (c ∷ d ∷ cs)
    skip (here q) = here q
    skip (there m) = there (there m)

best_of-start : (c : Candidate) (cs : List Candidate) → c.score ≤ℤ (best_of c cs).score
unfolding best_of
best_of-start c [] = omega arith
best_of-start c (d ∷ cs) =
    if_each (λ z. c.score ≤ℤ (best_of z cs).score) (ltb_ℤ c.score d.score)
      (λ e. ground (arith, best_of-start d cs)) (λ e. best_of-start c cs)

pub best_of-le :
    (d c : Candidate) (cs : List Candidate) → Has d (c ∷ cs) → d.score ≤ℤ (best_of c cs).score
unfolding best_of
best_of-le d c cs (here q) = rw q (best_of-start c cs)
best_of-le d c [] (there m) = elim m [ ]
best_of-le d c (b ∷ cs) (there m) =
    if_each (λ z. d.score ≤ℤ (best_of z cs).score) (ltb_ℤ c.score b.score)
      (λ e. best_of-le d b cs m) (λ e. kept e (λ n. best_of-le d c cs n) m)
  where
    kept :
        ltb_ℤ c.score b.score ≡ false
        → (Has d (c ∷ cs) → d.score ≤ℤ (best_of c cs).score)
        → Has d (b ∷ cs)
        → d.score ≤ℤ (best_of c cs).score
    kept e ih (here q) = rw q (ground (arith, best_of-start c cs))
    kept e ih (there n) = ih (there n)

pub candidates-Has :
    (f : Ranking → Option Candidate) (c : Candidate) (rs : List Ranking)
    → Has c (candidates f rs)
    → (r : Ranking) × Has r rs × (f r ≡ some c)
unfolding candidates
candidates-Has f c [] m = elim m [ ]
candidates-Has f c (r ∷ rs) m = pass (f r) refl m (candidates-Has f c rs)
  where
    pass :
        (o : Option Candidate)
        → f r ≡ o
        → Has c (elim o [ none ↦ candidates f rs | some d ↦ d ∷ candidates f rs ])
        → (Has c (candidates f rs) → (q : Ranking) × Has q rs × (f q ≡ some c))
        → (q : Ranking) × Has q (r ∷ rs) × (f q ≡ some c)
    pass none e n ih = let (q, k, p) = ih n in (q, there k, p)
    pass (some d) e (here q) ih = (r, here refl, rw q e)
    pass (some d) e (there n) ih = let (q, k, p) = ih n in (q, there k, p)

pub Has-candidates :
    (f : Ranking → Option Candidate) (c : Candidate) (r : Ranking) (rs : List Ranking)
    → Has r rs
    → f r ≡ some c
    → Has c (candidates f rs)
unfolding candidates
Has-candidates f c r [] m e = elim m [ ]
Has-candidates f c r (s ∷ rs) (here q) e =
    let p : f s ≡ some c = rw (← q) e in rw (p, candidates) (here refl)
Has-candidates f c r (s ∷ rs) (there m) e = pass (f s) (Has-candidates f c r rs m e)
  where
    pass :
        (o : Option Candidate)
        → Has c (candidates f rs)
        → Has c (elim o [ none ↦ candidates f rs | some d ↦ d ∷ candidates f rs ])
    pass none k = k
    pass (some d) k = there k
