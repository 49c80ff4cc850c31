-- ===== src/Discovery/Private.antt =====
-- The addresses that the scan of the subnets asks.
use llm_mcp.Prelude.{
  ℕ, zero, suc, ◌+◌, ◌-◌, ◌*◌, ◌/◌, ◌^◌, ◌≤◌, ◌≡◌, String, true, ◌&&◌, ◌||◌, ◌==◌, inl, inr, refl,
  sym, ap, subst, none, some, List, [], ◌∷◌, length, leb, arith, if◌then◌else◌, if_both, if_each,
  and_split, Bool-cases, Option-cases, All, All-append, All-imp,
}
use native.Mathlib.Nat.{pow-le-pow_right}
use llm_mcp.Config.{Vars}
use llm_mcp.Discovery.Net.{Net, TailNode, Prefix}
use llm_mcp.Discovery.Address.{stands_in}
use llm_mcp.Discovery.Subnets.{
  is_private_ipv4, candidates, scannable, subnet_of, pick_subnets, parse_subnets, addrs_from,
  hosts_in, unskipped, targets_in, targets_of, scan_targets,
}

-- Between two numbers.
abbrev Within : ℕ → ℕ → ℕ → Type 0
Within lo hi a = (lo ≤ a) × (a ≤ hi)

addrs_from-Within : (a n : ℕ) → All (Within a (a + n - 1)) (addrs_from a n)
addrs_from-Within a zero = tt
addrs_from-Within a (suc n) = (
  (omega arith, omega arith),
  All-imp (λ x (p, q). (omega arith, omega arith)) (addrs_from (a + 1) n)
      (addrs_from-Within (a + 1) n),
)

-- A block of at most 512 addresses lies in one of 2 ^ 16.
same_block :
    (h addr ip : ℕ)
    → h ≤ 9
    → addr / 2 ^ h * 2 ^ h + 1 ≤ ip
    → ip ≤ addr / 2 ^ h * 2 ^ h + (2 ^ h - 1)
    → ip / 2 ^ 16 ≡ addr / 2 ^ 16
same_block zero addr ip l p q = omega arith
same_block (suc zero) addr ip l p q = omega arith
same_block (suc (suc zero)) addr ip l p q = omega arith
same_block (suc (suc (suc zero))) addr ip l p q = omega arith
same_block (suc (suc (suc (suc zero)))) addr ip l p q = omega arith
same_block (suc (suc (suc (suc (suc zero))))) addr ip l p q = omega arith
same_block (suc (suc (suc (suc (suc (suc zero)))))) addr ip l p q = omega arith
same_block (suc (suc (suc (suc (suc (suc (suc zero))))))) addr ip l p q = omega arith
same_block (suc (suc (suc (suc (suc (suc (suc (suc zero)))))))) addr ip l p q = omega arith
same_block (suc (suc (suc (suc (suc (suc (suc (suc (suc zero))))))))) addr ip l p q = omega arith
same_block (suc (suc (suc (suc (suc (suc (suc (suc (suc (suc n)))))))))) addr ip l p q =
    absurd (omega arith)

private_block :
    (a b : ℕ) → a / 2 ^ 16 ≡ b / 2 ^ 16 → is_private_ipv4 b ≡ true → is_private_ipv4 a ≡ true
private_block a b e h = let q : a / 2 ^ 24 ≡ b / 2 ^ 24 = omega arith in rw (q, e) h

-- What the scan of one subnet asks: private addresses, and not more than 510 of them.
abbrev pub IsBounded : List ℕ → Type 0
IsBounded addrs = All (λ a. is_private_ipv4 a ≡ true) addrs × (length addrs ≤ 510)

length-addrs_from : (a n : ℕ) → length (addrs_from a n) ≡ n
length-addrs_from a zero = refl
length-addrs_from a (suc n) = ap suc (length-addrs_from (a + 1) n)

in_block :
    (start size a : ℕ)
    → Within (start + 1) (start + 1 + (start + (size - 1) - (start + 1)) - 1) a
    → (start + 1 ≤ a) × (a ≤ start + (size - 1))
in_block start size a (p, q) = (p, omega arith)

size_bound : (h : ℕ) → h ≤ 9 → 2 ^ h ≤ 512
size_bound h l = pow-le-pow_right (omega arith) l

within_512 : (start size : ℕ) → size ≤ 512 → start + (size - 1) - (start + 1) ≤ 510
within_512 start size l = omega arith

hosts_in-IsBounded :
    (p : Prefix) → is_private_ipv4 p.addr ≡ true → 32 - p.bits ≤ 9 → IsBounded (hosts_in p)
hosts_in-IsBounded p pr l =
    let size = 2 ^ (32 - p.bits) in
    let start = p.addr / size * size in
    (
      All-imp
          (λ a w.
            let (u, v) = in_block start size a w in
            private_block a p.addr (same_block (32 - p.bits) p.addr a l u v) pr)
          (hosts_in p) (addrs_from-Within (start + 1) (start + (size - 1) - (start + 1))),
      rw (length-addrs_from (start + 1) (start + (size - 1) - (start + 1)))
          (within_512 start size (size_bound (32 - p.bits) l)),
    )

IsBounded-unskipped :
    (net : Net) (skip : List String) (addrs : List ℕ)
    → IsBounded addrs
    → IsBounded (unskipped net skip addrs)
IsBounded-unskipped net skip addrs (h, l) = (kept addrs h, omega (arith, shorter addrs))
  where
    kept :
        (xs : List ℕ)
        → All (λ a. is_private_ipv4 a ≡ true) xs
        → All (λ a. is_private_ipv4 a ≡ true) (unskipped net skip xs)
    kept [] k = tt
    kept (x ∷ xs) (k, ks) =
        if_both (All (λ a. is_private_ipv4 a ≡ true)) (stands_in skip (net.show_addr x))
          (kept xs ks) (k, kept xs ks)

    shorter : (xs : List ℕ) → length (unskipped net skip xs) ≤ length xs
    shorter [] = omega arith
    shorter (x ∷ xs) =
        if_both (λ (zs : List ℕ). length zs ≤ suc (length xs)) (stands_in skip (net.show_addr x))
          (omega (arith, shorter xs)) (omega (arith, shorter xs))

-- The printer and the parser of prefixes agree on what was parsed.
abbrev pub RoundTrip : Net → Type 0
RoundTrip net =
    (c : String) (p : Prefix)
    → net.parse_prefix c ≡ some p
    → net.parse_prefix (net.show_prefix p) ≡ some p

module _ (net : Net) (reads_back : RoundTrip net) (skip : List String) where
  targets_of-IsBounded :
      (p : Prefix) (c : String)
      → net.parse_prefix c ≡ some p
      → scannable p ≡ true
      → IsBounded (targets_of net skip (net.show_prefix p))
  targets_of-IsBounded p c e h =
      let (g, l) = and_split (p.is4 && is_private_ipv4 p.addr) (leb (32 - p.bits) 9) h in
      let (f, pr) = and_split p.is4 (is_private_ipv4 p.addr) g in
      let kept : IsBounded (targets_in net skip (some p)) =
        if_each IsBounded p.is4
          (λ t. IsBounded-unskipped net skip (hosts_in p) (hosts_in-IsBounded p pr (ground arith)))
          (λ t. absurd (cc)) in
      subst (λ o. IsBounded (targets_in net skip o)) (sym (reads_back c p e)) kept

  subnet_of-IsBounded :
      (c s : String) → subnet_of net c ≡ some s → IsBounded (targets_of net skip s)
  subnet_of-IsBounded c s h = elim (Option-cases (net.parse_prefix c)) [
    | inl e ↦ let k : none ≡ some s = rw (subnet_of, e) at h in absurd (cc)
    | inr (p, e) ↦ elim (Bool-cases (scannable p)) [
      | inl t ↦
          let k : (if scannable p then some (net.show_prefix p) else none) ≡ some s =
            rw (subnet_of, e) at h in
          let q : net.show_prefix p ≡ s = ground arith in
          subst (λ x. IsBounded (targets_of net skip x)) q (targets_of-IsBounded p c e t)
      | inr t ↦
          let k : (if scannable p then some (net.show_prefix p) else none) ≡ some s =
            rw (subnet_of, e) at h in
          absurd (ground arith)
    ]
  ]

  pick_subnets-IsBounded :
      (seen cs : List String)
      → All (λ s. IsBounded (targets_of net skip s)) (pick_subnets net seen cs)
  pick_subnets-IsBounded seen [] = tt
  pick_subnets-IsBounded seen (c ∷ cs) =
      let P = All (λ s. IsBounded (targets_of net skip s)) in
      let skip = c == "" || stands_in seen c in
      let ih = pick_subnets-IsBounded (if skip then seen else c ∷ seen) cs in
      if_both P skip ih (elim (Option-cases (subnet_of net c)) [
        | inl e ↦ rw (All, e) ih
        | inr (s, e) ↦ rw (All, e) (subnet_of-IsBounded c s e, ih)
      ])

  scan_targets-private :
      (cidrs : List String)
      → All (λ s. IsBounded (targets_of net skip s)) cidrs
      → All (λ a. is_private_ipv4 a ≡ true) (scan_targets net skip cidrs)
  unfolding scan_targets
  scan_targets-private [] h = tt
  scan_targets-private (c ∷ cs) (h, hs) =
      All-append (λ a. is_private_ipv4 a ≡ true) (targets_of net skip c) (scan_targets net skip cs)
        h.0 (scan_targets-private cs hs)

-- The scan asks only private IPv4 addresses, whatever the variables and the routes of the node name, and
-- at most 510 addresses of each subnet, when a prefix that was parsed is parsed again from its print.
pub scan_targets-IsBounded :
    (net : Net) (skip : List String) (vars : Vars) (self : TailNode)
    → RoundTrip net
    → All (λ a. is_private_ipv4 a ≡ true) (scan_targets net skip (parse_subnets net vars self))
      × All (λ c. IsBounded (targets_of net skip c)) (parse_subnets net vars self)
unfolding parse_subnets
scan_targets-IsBounded net skip vars self reads_back =
    let each = pick_subnets-IsBounded net reads_back skip [] (candidates vars self) in
    (scan_targets-private net reads_back skip (parse_subnets net vars self) each, each)
