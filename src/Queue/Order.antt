-- ===== src/Queue/Order.antt =====
-- Which row the claim query returns.
use llm_mcp.Prelude.{
  ℕ, ◌≤◌, ◌≡◌, ◌⊎◌, String, Bool, true, false, not, ◌&&◌, ◌||◌, none, some, List, arith, ltb, Has,
  All, All-filter_if, Has-filter_if, filter_if, filter_if-none, first_by-Has, first_by-none,
  first_by-first, and_split,
}
use llm_mcp.Prelude.Int.{ℤ, ◌<ℤ◌, ltb_ℤ, eqb_ℤ}
use llm_mcp.Db.{Job, Db}
use llm_mcp.Queue.{before, claimable, select_claimable}

priority_asym :
    (a b : ℤ) (m n : ℕ)
    → (ltb_ℤ b a || (eqb_ℤ a b && ltb m n)) ≡ true
    → (ltb_ℤ a b || (eqb_ℤ b a && ltb n m)) ≡ false
priority_asym a b m n h = ground arith

priority_weak :
    (a b c : ℤ) (k m n : ℕ)
    → (ltb_ℤ b a || (eqb_ℤ a b && ltb k m)) ≡ false
    → (ltb_ℤ c b || (eqb_ℤ b c && ltb m n)) ≡ false
    → (ltb_ℤ c a || (eqb_ℤ a c && ltb k n)) ≡ false
priority_weak a b c k m n h h' = ground arith

-- `b` does not come before `a` in the queue.
abbrev pub NotAfter : Job → Job → Type 0
NotAfter a b =
    (b.priority <ℤ a.priority) ⊎ ((b.priority ≡ a.priority) × (a.queued_at ≤ b.queued_at))

priority_first :
    (a b : ℤ) (m n : ℕ)
    → (ltb_ℤ a b || (eqb_ℤ b a && ltb n m)) ≡ false
    → (b <ℤ a) ⊎ ((b ≡ a) × (m ≤ n))
priority_first a b m n h = ground arith

module _ (now : ℕ) (locked : String → Bool) (kinds : List String) (limit : ℤ) (db : Db) where
  abbrev pub available : Job → Bool
  available j = claimable now kinds limit db j && not (locked j.id)

  -- What the query returns stands in the table, may be claimed, and comes first: no row that may be
  -- claimed and is not locked has a higher priority, or the same priority and an earlier time of entry.
  pub select_claimable-first :
      (j : Job)
      → select_claimable now locked kinds limit db ≡ some j
      → Has j db.jobs
        × (claimable now kinds limit db j ≡ true)
        × (locked j.id ≡ false)
        × ((k : Job) → Has k db.jobs → available k ≡ true → NotAfter j k)
  unfolding select_claimable
  select_claimable-first j h =
      let (ok, m) = Has-filter_if available j db.jobs (first_by-Has before j _ h) in
      let (c, l) = and_split (claimable now kinds limit db j) (not (locked j.id)) ok in
      let first =
        first_by-first before (λ x y. priority_asym x.priority y.priority x.queued_at y.queued_at)
          (λ x y z.
            priority_weak x.priority y.priority z.priority x.queued_at y.queued_at z.queued_at)
          j (filter_if available db.jobs) h in
      (
        m,
        c,
        ground arith,
        λ k n a.
            priority_first j.priority k.priority j.queued_at k.queued_at
              (All-filter_if (λ x. before x j ≡ false) available k db.jobs first n a),
      )

  -- An empty answer means that no row may be claimed but locked ones.
  pub select_claimable-none :
      select_claimable now locked kinds limit db ≡ none → All (λ j. available j ≡ false) db.jobs
  unfolding select_claimable
  select_claimable-none h = filter_if-none available db.jobs (first_by-none before _ h)
